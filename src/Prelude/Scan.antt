-- ===== src/Prelude/Scan.antt =====
-- What the source uses of fmt.Sscanf, on texts of code points.
use Prim.Native.Nat.{ℕ}
use mathlib.Core.Bool.{Bool, ◌||◌}
use mathlib.Core.List.{[], ◌∷◌}
use mathlib.Core.Option.{Option, none, some}
use braelaspin.Prelude.Tests.{◌==◌, if◌then◌else◌}
use braelaspin.Prelude.Texts.{Text}
use braelaspin.Prelude.Strings.{is_space}

-- The longest prefix whose characters pass the test, and the rest.
unfoldable pub span : (ℕ → Bool) → Text → Text × Text
span p [] = ([], [])
span p (c ∷ s) = let rest = span p s in if p c then (c ∷ rest.0, rest.1) else ([], c ∷ s)

-- The blanks before an operand of fmt.Sscanf, where a newline is an error.
unfoldable pub skip_blanks : Text → Option Text
skip_blanks [] = some []
skip_blanks (c ∷ s) =
    let rest = skip_blanks s in if c == 10 then none else if is_space c then rest else some (c ∷ s)

-- The sign that %d may read.
unfoldable pub scan_sign : Text → Text × Text
scan_sign [] = ([], [])
scan_sign (c ∷ s) = if (c == b'-') || c == b'+' then (c ∷ [], s) else ([], c ∷ s)
