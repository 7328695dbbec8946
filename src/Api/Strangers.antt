-- ===== src/Api/Strangers.antt =====
-- internal/api/winners.go: what strangers see of the accounts.
use mathlib.Core.List.{Mem, mem-cons_self, mem-cons_of_mem}
use braelaspin.Phone.{mask}
use braelaspin.Prelude.{
  ◌-◌, ◌++◌, ◌⊎◌, inl, inr, Text, codes, replicate, drop, ltb, Bool-cases, ℕ, zero, suc, ◌+◌, ◌<◌,
  ◌≤◌, ◌≤ℤ◌, ◌<ℤ◌, ◌≡◌, refl, Bool, true, false, Option, some, none, List, [], ◌∷◌, map, All,
  All-map, length, take, ok, arith, if◌then◌else◌,
}
use braelaspin.Database.{Db, User, SpinRow, find_user}
use braelaspin.Database.Monad.{World, run_statement}
use braelaspin.Calls.Ensures.{Ensures, Ensures-bind, Ensures-or_fail, Ensures-on_part, Ensures-pure}
use braelaspin.Database.Steps.{run_statement-ok, served, served-db, served-now}
use braelaspin.Tokens.{Site}
use braelaspin.Http.{Response, json}
use braelaspin.Api.Winners.{
  Winner, day, Win, is_win, join_owner, wins, goes_first, insert, in_order, select_winners,
  to_winner, winners,
}

-- A row of the query: a spin of the table with its owner's number, real, with a gain, of the last day.
record IsFound (now : ℕ) (db : Db) (w : Win) : Type 0 where
  played : Mem w.1 db.spins
  owner : User
  found : find_user w.1.user_id db.users ≡ some owner
  phone_is : w.0 ≡ owner.phone
  real : w.1.is_real ≡ true
  gain : w.1.stake_cents <ℤ w.1.payout_cents
  recent : now < w.1.created_at + day

-- The largest payouts come first.
abbrev IsRanked : List Win → Type 0
IsRanked [] = Unit {0}
IsRanked (w ∷ ws) = All (λ x. x.1.payout_cents ≤ℤ w.1.payout_cents) ws × IsRanked ws

join_owner-All :
    (now : ℕ) (db : Db) (s : SpinRow) (rest : List Win) (o : Option User)
    → Mem s db.spins
    → find_user s.user_id db.users ≡ o
    → is_win now s ≡ true
    → All (IsFound now db) rest
    → All (IsFound now db) (join_owner o s rest)
join_owner-All now db s rest none m e h k = k
join_owner-All now db s rest (some u) m e h k = (
  record {
    played = m;
    owner = u;
    found = e;
    phone_is = refl;
    real = ground arith;
    gain = ground arith;
    recent = ground arith;
  },
  k,
)

all-Mem : (rows : List SpinRow) → All (λ s. Mem s rows) rows
all-Mem [] = tt
all-Mem (s ∷ rows) = (mem-cons_self, All-map rows (λ t m. mem-cons_of_mem s m) (all-Mem rows))

wins-All :
    (now : ℕ) (db : Db) (rows : List SpinRow)
    → All (λ s. Mem s db.spins) rows
    → All (IsFound now db) (wins now db.users rows)
unfolding wins
wins-All now db [] m = tt
wins-All now db (s ∷ rows) m = by_test (is_win now s) refl (wins-All now db rows m.1)
  where
    by_test :
        (b : Bool)
        → is_win now s ≡ b
        → All (IsFound now db) (wins now db.users rows)
        → All (IsFound now db) (
            if b
            then join_owner (find_user s.user_id db.users) s (wins now db.users rows)
            else wins now db.users rows)
    by_test true h k = join_owner-All now db s _ _ m.0 refl h k
    by_test false h k = k

module _ (P : Win → Type 0) where
  insert-All : (w : Win) (ws : List Win) → P w → All P ws → All P (insert w ws)
  unfolding insert
  insert-All w [] h k = (h, k)
  insert-All w (x ∷ xs) h k = by_test (goes_first w x) (insert-All w xs h k.1)
    where
      by_test : (b : Bool) → All P (insert w xs) → All P (if b then w ∷ x ∷ xs else x ∷ insert w xs)
      by_test true rest = (h, k)
      by_test false rest = (k.0, rest)

  in_order-All : (ws : List Win) → All P ws → All P (in_order ws)
  unfolding in_order
  in_order-All [] k = k
  in_order-All (w ∷ ws) k = insert-All w (in_order ws) k.0 (in_order-All ws k.1)

  take-All : (n : ℕ) (ws : List Win) → All P ws → All P (take n ws)
  take-All zero ws k = tt
  take-All (suc n) [] k = tt
  take-All (suc n) (w ∷ ws) k = (k.0, take-All n ws k.1)

abbrev AtMost : Win → Win → Type 0
AtMost w x = x.1.payout_cents ≤ℤ w.1.payout_cents

goes_first_lem : (w x : Win) → goes_first w x ≡ true → AtMost w x
goes_first_lem w x h = ground arith

goes_after_lem : (w x : Win) → goes_first w x ≡ false → AtMost x w
goes_after_lem w x h = ground arith

AtMost-trans : (w x y : Win) → AtMost w x → AtMost x y → AtMost w y
AtMost-trans w x y h k = omega arith

insert-IsRanked : (w : Win) (ws : List Win) → IsRanked ws → IsRanked (insert w ws)
unfolding insert
insert-IsRanked w [] k = (tt, tt)
insert-IsRanked w (x ∷ xs) k = by_test (goes_first w x) refl (insert-IsRanked w xs k.1)
  where
    by_test :
        (b : Bool)
        → goes_first w x ≡ b
        → IsRanked (insert w xs)
        → IsRanked (if b then w ∷ x ∷ xs else x ∷ insert w xs)
    by_test true h rest =
        let before = goes_first_lem w x h in
        ((before, All-map xs (λ y. AtMost-trans w x y before) k.0), k)
    by_test false h rest = (insert-All (AtMost x) w xs (goes_after_lem w x h) k.0, rest)

in_order-IsRanked : (ws : List Win) → IsRanked (in_order ws)
unfolding in_order
in_order-IsRanked [] = tt
in_order-IsRanked (w ∷ ws) = insert-IsRanked w (in_order ws) (in_order-IsRanked ws)

take-IsRanked : (n : ℕ) (ws : List Win) → IsRanked ws → IsRanked (take n ws)
take-IsRanked zero ws k = tt
take-IsRanked (suc n) [] k = tt
take-IsRanked (suc n) (w ∷ ws) k = (take-All (AtMost w) n ws k.0, take-IsRanked n ws k.1)

length-take : (n : ℕ) (ws : List Win) → length (take n ws) ≤ n
length-take zero ws = omega arith
length-take (suc n) [] = omega arith
length-take (suc n) (w ∷ ws) = omega (arith, length-take n ws)

-- A name that hides a number: stars only, or its first four and its last three characters with a star for
-- each one between.
pub IsMasked : Text → Text → Type 0
IsMasked phone name =
    (name ≡ codes "***")
    ⊎ ((7 ≤ length phone)
        × (name
            ≡ take 4 phone ++ (replicate (length phone - 7) b'*' ++ drop (length phone - 3) phone)))

-- An item for strangers: a real spin of the table, of the last day, with a gain, under a name that hides the
-- number of the account that played it.
pub record IsShown (now : ℕ) (db : Db) (x : Winner) : Type 0 where
  pub spin : SpinRow
  pub owner : User
  pub played : Mem spin db.spins
  pub played_by : find_user spin.user_id db.users ≡ some owner
  pub real : spin.is_real ≡ true
  pub gain : spin.stake_cents <ℤ spin.payout_cents
  pub recent : now < spin.created_at + 86400000000
  pub name_is : IsMasked owner.phone x.name
  pub payout_is : x.payout_cents ≡ spin.payout_cents
  pub multiplier_is : x.multiplier_bp ≡ spin.multiplier_bp
  pub time_is : x.created_at ≡ spin.created_at

-- The largest payouts come first.
abbrev pub ArePaidDown : List Winner → Type 0
ArePaidDown [] = Unit {0}
ArePaidDown (x ∷ xs) = All (λ (y : Winner). y.payout_cents ≤ℤ x.payout_cents) xs × ArePaidDown xs

-- What the reply of winners shows of the tables.
pub record Shown (now : ℕ) (db : Db) (x : Response (List Winner)) : Type 0 where
  pub items : List Winner
  pub reply_is : x ≡ json 200 items
  pub shown : All (IsShown now db) items
  pub ranked : ArePaidDown items
  pub few : length items ≤ 10

mask-IsMasked : (phone : Text) → IsMasked phone (mask phone)
unfolding IsMasked mask
mask-IsMasked phone = elim (Bool-cases (ltb (length phone) 7)) [
  | inl short ↦ rw short (inl refl)
  | inr long ↦ let enough : 7 ≤ length phone = ground arith in rw long (inr (enough, refl))
]

to_winner-IsShown : (now : ℕ) (db : Db) (w : Win) → IsFound now db w → IsShown now db (to_winner w)
unfolding to_winner
to_winner-IsShown now db w h = record {
  spin = w.1;
  owner = h.owner;
  played = h.played;
  played_by = h.found;
  real = h.real;
  gain = h.gain;
  recent = omega (arith, h.recent);
  name_is = rw h.phone_is (mask-IsMasked h.owner.phone);
  payout_is = refl;
  multiplier_is = refl;
  time_is = refl;
}

items-IsShown :
    (now : ℕ) (db : Db) (ws : List Win)
    → All (IsFound now db) ws
    → All (IsShown now db) (map to_winner ws)
items-IsShown now db [] k = tt
items-IsShown now db (w ∷ ws) k = (to_winner-IsShown now db w k.0, items-IsShown now db ws k.1)

items-AtMost :
    (w : Win) (ws : List Win)
    → All (AtMost w) ws
    → All (λ (y : Winner). y.payout_cents ≤ℤ w.1.payout_cents) (map to_winner ws)
unfolding to_winner
items-AtMost w [] k = tt
items-AtMost w (x ∷ ws) k = (k.0, items-AtMost w ws k.1)

items-ArePaidDown : (ws : List Win) → IsRanked ws → ArePaidDown (map to_winner ws)
unfolding to_winner
items-ArePaidDown [] k = tt
items-ArePaidDown (w ∷ ws) k = (items-AtMost w ws k.0, items-ArePaidDown ws k.1)

length-items : (ws : List Win) → length (map to_winner ws) ≡ length ws
length-items [] = refl
length-items (w ∷ ws) = omega (arith, length-items ws)

select_winners-Shown :
    (w w' : World) (rows : List Win)
    → select_winners w ≡ ok (rows, w')
    → Shown w.now w.db (json 200 (map to_winner rows))
unfolding select_winners
select_winners-Shown w w' rows e =
    let all = wins w.now w.db.users w.db.spins in
    let first = take 10 (in_order all) in
    let same : rows ≡ first = cc in
    let found = wins-All w.now w.db w.db.spins (all-Mem w.db.spins) in
    rw same (record {
      items = map to_winner first;
      reply_is = refl;
      shown = items-IsShown w.now w.db first (
          take-All (IsFound w.now w.db) 10 (in_order all)
            (in_order-All (IsFound w.now w.db) all found));
      ranked = items-ArePaidDown first (take-IsRanked 10 (in_order all) (in_order-IsRanked all));
      few = omega (arith, length-items first, length-take 10 (in_order all));
    })

queried :
    (w0 : World)
    → Ensures
        (λ w. w ≡ w0)
        (run_statement select_winners)
        (λ rows w. Shown w0.now w0.db (json 200 (map to_winner rows)))
queried w0 = record {
  at = λ w w' rows here e.
      let row = run_statement-ok select_winners w0 rows w' (rw here at e) in
      rw (served-now w0, served-db w0) at (select_winners-Shown (served w0) w' rows row);
}

-- Strangers see masked winners only. Where winners replies, it shows at most ten items, the largest payouts
-- first; each has the payout, the multiplier and the time of a real spin in the table of the last 24 hours
-- that paid more than its stake, and a name that hides the number of the account that played it, all but
-- its first four and its last three characters.
pub winners-Shown :
    {S : Type 0} (t t1 : Site S) (x : Response (List Winner))
    → winners t ≡ (ok x, t1)
    → Shown t.world.now t.world.db x
unfolding winners
winners-Shown {S} t t1 x e =
    (Ensures-bind (λ rows t2. Shown t.world.now t.world.db (json 200 (map to_winner rows)))
        {R = λ y t2. Shown t.world.now t.world.db y} _ _
        (Ensures-or_fail _ _
          (Ensures-on_part _ _ (run_statement select_winners) (λ y z. refl) (queried t.world)))
        λ rows. Ensures-pure _ (λ t2 k. k)).at
      t t1 x refl e
