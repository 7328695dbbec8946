-- ===== src/Redis/Effects.antt =====
-- internal/rds/rds.go: what the operations do to the keys, under the laws of Redis.
use braelaspin.Prelude.{
  ℤ, pos, ◌≡◌, ◌≢◌, refl, sym, ap, ◌∙◌, ◌⊎◌, inl, inr, false, Option, none, some, Text, [], ◌∷◌,
  Result, ok, err, arith,
}
use braelaspin.Calls.{convert_error, proceed, ◌>>=◌, or_fail, bind-ok, or_fail-ok}
use braelaspin.Calls.Keeps.{Keeps, Keeps-bind, Keeps-pure, Keeps-or_fail}
use braelaspin.Redis.{
  Redis, RedisError, RdsError, key_not_found, nil_reply, redis_failed, redis, rt_key,
  nil_as_not_found, scanned, parse_refresh, scan_refresh, refresh_value, consume_refresh,
  put_refresh, del_refresh, is_banned, ban_user, unban_user, ban_key,
}
use braelaspin.Redis.Laws.{View, Absent, IsRedis}

pub rt_key-injective : (a b : Text) → rt_key a ≡ rt_key b → a ≡ b
unfolding rt_key
rt_key-injective a b h = cc

scanned-ok :
    {S : Type 0} (t : Text) (s s' : S) (p : ℤ × Text) (o : Option (ℤ × Text))
    → scanned t o s ≡ (ok p, s')
    → (o ≡ some p) × (s' ≡ s)
scanned-ok t s s' p none h = absurd (cc)
scanned-ok t s s' p (some q) h = (cc, cc)

pub parse_refresh-ok :
    {S : Type 0} (t : Text) (s s' : S) (p : ℤ × Text)
    → parse_refresh t s ≡ (ok p, s')
    → (scan_refresh t ≡ some p) × (s' ≡ s)
unfolding parse_refresh
parse_refresh-ok t s s' p h = scanned-ok t s s' p (scan_refresh t) h

unfoldable pub NotRedeemed : Result RdsError (ℤ × Text) → Type 0
NotRedeemed x = (x ≡ err key_not_found) ⊎ (x ≡ err (redis redis_failed))

missing :
    {S : Type 0} (p : Result RedisError Text × S)
    → ((t : Text) (s1 : S) → p ≡ (ok t, s1) → some t ≡ none)
    → NotRedeemed (proceed (convert_error nil_as_not_found p) parse_refresh).0
unfolding NotRedeemed nil_as_not_found
missing (ok t, s) h = absurd (ground (arith, h t s refl))
missing (err nil_reply, s) h = inl refl
missing (err redis_failed, s) h = inr refl

module _ {S : Type 0} {r : Redis S} {v : View S} (laws : IsRedis r v) where
  -- A token was redeemed: its key held a text that names the user and the family, and is gone.
  pub consume_refresh-ok :
      (jti : Text) (s s' : S) (p : ℤ × Text)
      → consume_refresh r jti s ≡ (ok p, s')
      → (t : Text) × (v.holds s (rt_key jti) ≡ some t)
        × (scan_refresh t ≡ some p)
        × (v.holds s' (rt_key jti) ≡ none)
  unfolding consume_refresh
  consume_refresh-ok jti s s' p h =
      let (t, s1, taken, read) = bind-ok _ _ s s' p h in
      let (before, gone) = laws.getdel-some _ t s s1 (or_fail-ok _ _ s s1 t taken) in
      let (scanned, same) = parse_refresh-ok t s1 s' p read in
      (t, before, scanned, ap (λ x. v.holds x (rt_key jti)) same ∙ gone)

  -- Where there is no key, there is no answer.
  pub consume_refresh-missing :
      (jti : Text) (s : S) → v.holds s (rt_key jti) ≡ none → NotRedeemed (consume_refresh r jti s).0
  unfolding consume_refresh ◌>>=◌ or_fail
  consume_refresh-missing jti s h =
      missing (r.getdel (rt_key jti) s) (λ t s1 e. sym (laws.getdel-some _ t s s1 e).0 ∙ h)

  pub put_refresh-other :
      (jti k : Text) (u : ℤ) (f : Text) (ttl : ℤ)
      → k ≢ rt_key jti
      → Keeps (Absent v k) (put_refresh r jti u f ttl)
  unfolding put_refresh
  put_refresh-other jti k u f ttl n =
      Keeps-or_fail _ redis (record { at = λ x e. laws.set-other _ _ _ _ x n e })

  pub put_refresh-holds :
      (jti : Text) (u : ℤ) (f : Text) (ttl : ℤ) (s s' : S)
      → put_refresh r jti u f ttl s ≡ (ok tt, s')
      → v.holds s' (rt_key jti) ≡ some (refresh_value u f)
  unfolding put_refresh
  put_refresh-holds jti u f ttl s s' h = laws.set-holds _ _ _ _ _ (or_fail-ok _ _ _ _ _ h)

  pub del_refresh-gone :
      (jti : Text) (s s' : S) → del_refresh r jti s ≡ (ok tt, s') → v.holds s' (rt_key jti) ≡ none
  unfolding del_refresh
  del_refresh-gone jti s s' h = laws.del-gone _ _ _ (or_fail-ok _ _ _ _ _ h)

  pub ban_user-holds :
      (u ttl : ℤ) (s s' : S)
      → ban_user r u ttl s ≡ (ok tt, s')
      → v.holds s' (ban_key u) ≡ some (b'1' ∷ [])
  unfolding ban_user
  ban_user-holds u ttl s s' h = laws.set-holds _ _ _ _ _ (or_fail-ok _ _ _ _ _ h)

  pub unban_user-gone :
      (u : ℤ) (s s' : S) → unban_user r u s ≡ (ok tt, s') → v.holds s' (ban_key u) ≡ none
  unfolding unban_user
  unban_user-gone u s s' h = laws.del-gone _ _ _ (or_fail-ok _ _ _ _ _ h)

  -- A user who is found not to be banned has no ban key.
  pub is_banned-false :
      (u : ℤ) (s s' : S) → is_banned r u s ≡ (ok false, s') → v.holds s (ban_key u) ≡ none
  unfolding is_banned
  is_banned-false u s s' h =
      let (n, s1, told, none_left) = bind-ok _ _ s s' false h in
      let counted = or_fail-ok _ _ s s1 n told in
      let (m, e) = laws.exists-count _ n s s1 counted in
      let zero_found : n ≡ pos 0 = ground arith in
      laws.exists-zero _ s s1 (counted ∙ ap (λ z. (ok z, s1)) zero_found)

  pub is_banned-Absent : (u : ℤ) (k : Text) → Keeps (Absent v k) (is_banned r u)
  unfolding is_banned
  is_banned-Absent u k =
      Keeps-bind _ _ (Keeps-or_fail _ redis (record { at = λ x e. laws.exists-other _ _ x e }))
        (λ n. Keeps-pure _)
