-- ===== src/Tokens/Rotation.antt =====
-- internal/auth/token.go: a refresh token is worth one pair of tokens.
use braelaspin.Prelude.{
  inl, inr, ok, ◌∙◌, ℤ, ◌≡◌, ◌≢◌, refl, sym, ◌⊎◌, Bool, false, Option, none, some, Text, List, [],
  ◌∷◌, Result, err,
}
use braelaspin.Calls.{Call, proceed, convert_error, with_part, ◌>>=◌, or_fail, on_part}
use braelaspin.Calls.Keeps.{Keeps, Keeps-bind, Keeps-pure, Keeps-raise_if, Keeps-or_fail}
use braelaspin.Calls.Ensures.{
  Ensures, Ensures-on_part, Ensures-bind, Ensures-pure, Ensures-or_fail, Ensures-Keeps,
}
use braelaspin.Redis.{
  RdsError, key_not_found, del_refresh, Redis, redis_failed, redis, rt_key, consume_refresh,
  put_refresh,
}
use braelaspin.Redis.Laws.{View, Absent, IsRedis}
use braelaspin.Redis.Effects.{
  rt_key-injective, consume_refresh-ok, consume_refresh-missing, NotRedeemed, del_refresh-gone,
  put_refresh-other, is_banned-Absent,
}
use braelaspin.Tokens.{
  consume_error, revoke, Site, Jwt, Tokens, TokenService, TokenError, token_reused, redis_error,
  Lookup, on_redis, or_error, random_id, next_id_bytes, look_up, check_ban, issue_at,
  issue_with_family, rotate,
}

-- A refusal of Rotate: the token counts as reused, or Redis failed.
unfoldable pub IsRefused : Result TokenError Tokens → Type 0
IsRefused x = (x ≡ err token_reused) ⊎ (x ≡ err (redis_error (redis redis_failed)))

pub on_redis-Keeps :
    {S E A : Type 0} {P : S → Type 0} (m : Call S E A)
    → Keeps P m
    → Keeps (λ t. P t.redis_state) (on_redis m)
unfolding on_part
on_redis-Keeps m h = record { at = λ t k. h.at t.redis_state k }

pub on_redis-Ensures :
    {S E A : Type 0} {P : S → Type 0} {Q : A → S → Type 0} (m : Call S E A)
    → Ensures P m Q
    → Ensures (λ t. P t.redis_state) (on_redis m) (λ a t. Q a t.redis_state)
on_redis-Ensures m h = Ensures-on_part _ _ m (λ x t. refl) h

random_id-steps :
    {S : Type 0} (P : S → Type 0) (t : Site S) (l : List (Option Text))
    → P t.redis_state
    → P (next_id_bytes t l).1.redis_state
random_id-steps P t [] h = h
random_id-steps P t (none ∷ l) h = h
random_id-steps P t (some b ∷ l) h = h

random_id-Keeps : {S : Type 0} (P : S → Type 0) → Keeps (λ t. P t.redis_state) (random_id {S = S})
unfolding random_id
random_id-Keeps P = record { at = λ t h. random_id-steps P t t.entropy h }

or_error-Keeps :
    {S A : Type 0} {P : Site S → Type 0} (e : TokenError) (o : Option A) → Keeps P (or_error e o)
or_error-Keeps e none = record { at = λ t h. h }
or_error-Keeps e (some a) = record { at = λ t h. h }

look_up-Keeps :
    {S : Type 0} (P : S → Type 0) (l : Lookup) (u : ℤ) → Keeps (λ t. P t.redis_state) (look_up l u)
unfolding look_up on_part
look_up-Keeps P none u = Keeps-pure false
look_up-Keeps P (some f) u = Keeps-or_fail _ _ (record { at = λ t h. h })

reply-IsRefused :
    {S : Type 0} (t : Site S) (p : Result RdsError (ℤ × Text) × S)
    (f : ℤ × Text → Call (Site S) TokenError Tokens)
    → NotRedeemed p.0
    → IsRefused
        (proceed
          (convert_error consume_error (with_part (λ x. record t { redis_state = x }) p))
          f).0
unfolding NotRedeemed IsRefused consume_error
reply-IsRefused t (ok x, m) f (inl h) = absurd (cc)
reply-IsRefused t (ok x, m) f (inr h) = absurd (cc)
reply-IsRefused t (err e, m) f (inl h) = let same : e ≡ key_not_found = cc in rw same (inl refl)
reply-IsRefused t (err e, m) f (inr h) =
    let same : e ≡ redis redis_failed = cc in rw same (inr refl)

module _ {S : Type 0} {r : Redis S} {v : View S} (laws : IsRedis r v) (jwt : Jwt)
    (s : TokenService) where
  abbrev pub Missing : Text → Site S → Type 0
  Missing k t = Absent v k t.redis_state

  check_ban-Keeps : (k : Text) (u : ℤ) → Keeps (Missing k) (check_ban r jwt s u)
  unfolding check_ban
  check_ban-Keeps k u =
      Keeps-bind _ _ (Keeps-or_fail _ _ (on_redis-Keeps _ (is_banned-Absent laws u k)))
        (λ b. Keeps-raise_if b _)

  put_refresh-Ensures :
      (k jti : Text) (u : ℤ) (f : Text) (d : ℤ)
      → Ensures
          (Missing k)
          (on_redis (put_refresh r jti u f d))
          (λ x t. k ≢ rt_key jti → Missing k t)
  put_refresh-Ensures k jti u f d = record {
    at = λ t t' x gone e n.
        (Ensures-Keeps _ (on_redis-Keeps _ (put_refresh-other laws jti k u f d n))).at t t' x gone
          e;
  }

  -- What was issued is a key of its own.
  issue_at-Ensures :
      (k : Text) (u : ℤ) (b : Bool) (f : Text) (now : ℤ)
      → Ensures (Missing k) (issue_at r jwt s u b f now) (λ p t. k ≢ rt_key p.refresh → Missing k t)
  unfolding issue_at
  issue_at-Ensures k u b f now = Ensures-bind _ _ _ (Ensures-Keeps _ (or_error-Keeps _ _)) λ access.
      Ensures-bind _ _ _ (Ensures-Keeps _ (random_id-Keeps (Absent v k))) λ jti.
        Ensures-bind _ _ _ (Ensures-or_fail _ _ (put_refresh-Ensures k jti u f s.refresh_ttl))
          λ x. Ensures-pure _ (λ t h. h)

  issue_Ensures :
      (refresh : Text) (u : ℤ) (b : Bool) (f : Text)
      → Ensures
          (Missing (rt_key refresh))
          (issue_with_family r jwt s u b f)
          (λ p t. p.refresh ≢ refresh → Missing (rt_key refresh) t)
  unfolding issue_with_family
  issue_Ensures refresh u b f = record {
    at = λ t t' p gone e n.
        (issue_at-Ensures (rt_key refresh) u b f t.clock).at t t' p gone e
          (λ same. n (sym (rt_key-injective refresh p.refresh same)));
  }

  deleted :
      (refresh : Text)
      → Ensures (λ x. Unit) (del_refresh r refresh) (λ x. Absent v (rt_key refresh))
  deleted refresh = record { at = λ t t' u x e. del_refresh-gone laws refresh t t' e }

  consumed :
      (refresh : Text)
      → Ensures (λ x. Unit) (consume_refresh r refresh) (λ p. Absent v (rt_key refresh))
  consumed refresh = record { at = λ t t' p x e. (consume_refresh-ok laws refresh t t' p e).3 }

  rotate-Ensures :
      (refresh : Text) (l : Lookup)
      → Ensures
          (λ t. Unit)
          (rotate r jwt s refresh l)
          (λ p t. p.refresh ≢ refresh → Missing (rt_key refresh) t)
  unfolding rotate
  rotate-Ensures refresh l =
      let k = rt_key refresh in
      Ensures-bind (λ x. Missing k) _ _
        (Ensures-or_fail _ _ (on_redis-Ensures _ (consumed refresh)))
        λ owner.
          Ensures-bind (λ x. Missing k) _ _ (Ensures-Keeps _ (check_ban-Keeps k owner.0))
            λ x.
              Ensures-bind (λ y. Missing k) _ _
                (Ensures-Keeps _ (look_up-Keeps (Absent v k) l owner.0))
                λ admin. issue_Ensures refresh owner.0 admin owner.1

  Missing-IsRefused :
      (refresh : Text) (l : Lookup) (t : Site S)
      → Missing (rt_key refresh) t
      → IsRefused (rotate r jwt s refresh l t).0
  unfolding rotate ◌>>=◌ or_fail on_part
  Missing-IsRefused refresh l t gone =
      reply-IsRefused t (consume_refresh r refresh t.redis_state) _
        (consume_refresh-missing laws refresh t.redis_state gone)

  -- A refresh token is redeemed at most once. When Rotate has returned a pair for a token, and the random
  -- id of the new one differs from it, then Rotate refuses the token in every later state where its key
  -- holds what the first call left there: it answers that the token was reused, unless Redis fails.
  pub rotates_once :
      (refresh : Text) (first second : Lookup) (t t1 t2 : Site S) (p : Tokens)
      → rotate r jwt s refresh first t ≡ (ok p, t1)
      → p.refresh ≢ refresh
      → v.holds t2.redis_state (rt_key refresh) ≡ v.holds t1.redis_state (rt_key refresh)
      → IsRefused (rotate r jwt s refresh second t2).0
  rotates_once refresh first second t t1 t2 p done fresh left =
      Missing-IsRefused refresh second t2
        (left ∙ (rotate-Ensures refresh first).at t t1 p tt done fresh)

  -- A log-out ends the session: when Revoke has returned without an error, Rotate refuses the token in
  -- every later state where its key holds what Revoke left there.
  pub revoke_ends :
      (refresh : Text) (l : Lookup) (t t1 t2 : Site S)
      → revoke r jwt s refresh t ≡ (ok tt, t1)
      → v.holds t2.redis_state (rt_key refresh) ≡ v.holds t1.redis_state (rt_key refresh)
      → IsRefused (rotate r jwt s refresh l t2).0
  unfolding revoke
  revoke_ends refresh l t t1 t2 done left =
      Missing-IsRefused refresh l t2
        (left ∙ (Ensures-or_fail _ _ (on_redis-Ensures _ (deleted refresh))).at t t1 tt tt done)
