-- ===== src/Redis/Memory.antt =====
-- internal/rds/rds.go: a server that keeps its keys in memory and never fails, for the tests.
use braelaspin.Prelude.{
  ℕ, pos, suc, ◌≡◌, ◌≢◌, refl, Bool, true, false, Option, none, some, Text, Result, ok, err, arith,
  ap, sym, ◌∙◌, text_eq, text_eq_iff, if◌then◌else◌,
}
use braelaspin.Redis.{Redis, RedisError, nil_reply}
use braelaspin.Redis.Laws.{View, IsRedis}

pub record Memory : Type 0 where
  pub held : Text → Option Text
  pub count : Text → ℕ

abbrev pub nothing : Memory
nothing = record { held = λ k. none; count = λ k. 0 }

abbrev put : Text → Option Text → Memory → Memory
put k o m = record m { held = λ x. if text_eq x k then o else m.held x }

abbrev read : Memory → Option Text → Result RedisError Text × Memory
read m none = (err nil_reply, m)
read m (some t) = (ok t, m)

abbrev take : Text → Memory → Option Text → Result RedisError Text × Memory
take k m none = (err nil_reply, m)
take k m (some t) = (ok t, put k none m)

abbrev claim_key : Text → Text → Memory → Option Text → Result RedisError Bool × Memory
claim_key k t m none = (ok true, put k (some t) m)
claim_key k t m (some u) = (ok false, m)

abbrev number : Option Text → ℕ
number none = 0
number (some t) = 1

abbrev pub memory : Redis Memory
memory = record {
  get = λ k m. read m (m.held k);
  getdel = λ k m. take k m (m.held k);
  set = λ k t d m. (ok tt, put k (some t) m);
  setnx = λ k t d m. claim_key k t m (m.held k);
  del = λ k m. (ok tt, put k none m);
  exists = λ k m. (ok (pos (number (m.held k))), m);
  incr_expire_nx = λ k d m. (
    ok (pos (suc (m.count k))),
    record m { count = λ x. if text_eq x k then suc (m.count k) else m.count x },
  );
  ttl = λ k m. (ok (pos 1), m);
}

abbrev pub contents : View Memory
contents = record { holds = λ m k. m.held k; hits = λ m k. m.count k }

text_eq_refl : (k : Text) → text_eq k k ≡ true
text_eq_refl k = (text_eq_iff k k).1 refl

put_same : (k : Text) (o : Option Text) (m : Memory) → (put k o m).held k ≡ o
put_same k o m = rw (text_eq_refl k) refl

text_eq_other : (k k' : Text) → k' ≢ k → text_eq k' k ≡ false
text_eq_other k k' h = ground (arith, text_eq_iff k' k)

put_other : (k k' : Text) (o : Option Text) (m : Memory) → k' ≢ k → (put k o m).held k' ≡ m.held k'
put_other k k' o m h = rw (text_eq_other k k' h) refl

left_in : (k : Text) (o : Option Text) (m m' : Memory) → put k o m ≡ m' → m'.held k ≡ o
left_in k o m m' h = rw (sym h) (put_same k o m)

take_lem :
    (k t : Text) (m m' : Memory) (o : Option Text)
    → take k m o ≡ (ok t, m')
    → (o ≡ some t) × (put k none m ≡ m')
take_lem k t m m' none h = absurd (cc)
take_lem k t m m' (some u) h = (cc, ap (λ p. p.1) h)

claim_key_lem :
    (k t : Text) (m m' : Memory) (o : Option Text)
    → claim_key k t m o ≡ (ok true, m')
    → (o ≡ none) × (put k (some t) m ≡ m')
claim_key_lem k t m m' none h = (refl, ap (λ p. p.1) h)
claim_key_lem k t m m' (some u) h = absurd (cc)

claim_key_lost :
    (k t : Text) (m m' : Memory) (o : Option Text)
    → claim_key k t m o ≡ (ok false, m')
    → (o ≢ none) × (m ≡ m')
claim_key_lost k t m m' none h = absurd (cc)
claim_key_lost k t m m' (some u) h = (λ e. cc, ap (λ p. p.1) h)

read-some :
    (m m' : Memory) (o : Option Text) (t : Text) → read m o ≡ (ok t, m') → (o ≡ some t) × (m ≡ m')
read-some m m' none t h = absurd (cc)
read-some m m' (some u) t h = (cc, ap (λ p. p.1) h)

read-none : (m m' : Memory) (o : Option Text) → read m o ≡ (err nil_reply, m') → o ≡ none
read-none m m' none h = refl
read-none m m' (some u) h = absurd (cc)

number_zero : (o : Option Text) → number o ≡ 0 → o ≡ none
number_zero o h = ground arith

number_one : (o : Option Text) (n : ℕ) → number o ≡ suc n → o ≢ none
number_one o n h e = ground arith

pub memory-IsRedis : IsRedis memory contents
memory-IsRedis = record {
  get-some = λ k t s s' h.
      let (e, l) = read-some s s' (s.held k) t h in (e, ap (λ m. m.held k) (sym l) ∙ e);
  get-none = λ k s s' h. read-none s s' (s.held k) h;
  getdel-some =
      λ k t s s' h. let (e, l) = take_lem k t s s' (s.held k) h in (e, left_in k none s s' l);
  set-holds = λ k t d s s' h. left_in k (some t) s s' (ap (λ p. p.1) h);
  set-failed = λ k t d e s s' h. absurd (cc);
  setnx-won = λ k t d s s' h.
      let (e, l) = claim_key_lem k t s s' (s.held k) h in (e, left_in k (some t) s s' l);
  setnx-lost = λ k t d s s' h.
      let (e, l) = claim_key_lost k t s s' (s.held k) h in (e, ap (λ m. m.held k) (sym l));
  del-gone = λ k s s' h. left_in k none s s' (ap (λ p. p.1) h);
  exists-zero = λ k s s' h. number_zero (s.held k) (cc);
  exists-one = λ k n s s' h. number_one (s.held k) n (cc);
  exists-count = λ k n s s' h. (number (s.held k), cc);
  incr-counts = λ k n d s s' h. (cc, rw (sym (ap (λ p. p.1) h)) (rw (text_eq_refl k) refl));
  ttl-reads = λ k s. refl;
  set-other = λ k k' t d s n h. rw (put_other k k' (some t) s n) h;
  exists-other = λ k k' s h. h;
}
