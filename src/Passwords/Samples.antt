-- ===== src/Passwords/Samples.antt =====
-- A derivation in place of the package argon2: every byte of the key is the sum of the password and the salt;
-- like that package, it panics without time or threads.
use braelaspin.Prelude.{
  ℕ, Bool, true, false, none, some, ◌==◌, ◌||◌, if◌then◌else◌, zero, suc, ◌+◌, ◌%◌, ◌<◌, ◌≡◌, refl,
  Text, [], ◌∷◌, arith, length, replicate,
}
use braelaspin.Passwords.{Argon2}
use braelaspin.Passwords.Base64.{IsBytes}
use braelaspin.Passwords.Verified.{IsArgon2}

abbrev sum : Text → ℕ
sum [] = 0
sum (c ∷ s) = c + sum s

abbrev key_for : Text → Text → ℕ → Text
key_for pw salt n = replicate n ((sum pw + sum salt) % 256)

abbrev pub argon2 : Argon2
argon2 = record {
  version = 19;
  id_key = λ pw salt time memory threads n.
      (if (time == 0) || (threads == 0) then none else some (key_for pw salt n));
}

length-replicate : (n c : ℕ) → length (replicate n c) ≡ n
length-replicate zero c = refl
length-replicate (suc n) c = omega (arith, length-replicate n c)

replicate-IsBytes : (n c : ℕ) → c < 256 → IsBytes (replicate n c)
replicate-IsBytes zero c h = tt
replicate-IsBytes (suc n) c h = (h, replicate-IsBytes n c h)

returned : (b : Bool) (k key : Text) → (if b then none else some k) ≡ some key → key ≡ k
returned true k key e = cc
returned false k key e = cc

pub argon2-IsArgon2 : IsArgon2 argon2
argon2-IsArgon2 = record {
  version_is = refl;
  key_length = λ pw salt key time memory threads n e.
      rw (returned _ (key_for pw salt n) key e) (length-replicate n ((sum pw + sum salt) % 256));
  key-IsBytes = λ pw salt key time memory threads n e.
      rw (returned _ (key_for pw salt n) key e)
        (replicate-IsBytes n ((sum pw + sum salt) % 256) (omega arith));
  returns = λ pw salt time memory threads n t p k. (key_for pw salt n, ground arith);
}
