-- ===== src/Redis/Store.antt =====
-- internal/rds/rds.go: the four calls on refresh tokens refine an abstract store of sessions.
use braelaspin.Prelude.{
  ℕ, ℤ, pos, ◌^◌, ◌<◌, ◌≡◌, refl, ap, ◌∙◌, false, Option, none, some, Text, ok, is_empty, IsWord,
}
use braelaspin.Calls.{Call, ◌>>=◌, ◌>>◌, pure, bind-ok, or_fail-ok}
use braelaspin.Redis.{
  Redis, RdsError, rt_key, scan_refresh, put_refresh, get_refresh, del_refresh, consume_refresh,
}
use braelaspin.Redis.Laws.{View, IsRedis}
use braelaspin.Redis.Effects.{
  parse_refresh-ok, consume_refresh-ok, put_refresh-holds, del_refresh-gone,
}
use braelaspin.Redis.Values.{scan_refresh-refresh_value}

-- A user and a family under a token, where the token is live.
abbrev pub Sessions : Type 0
Sessions = Text → Option (ℤ × Text)

-- PutRefresh of a user and a family that randomID could have made, GetRefresh, ConsumeRefresh, DelRefresh
pub data Command : Type 0 where
  put :
      (jti : Text) (user_id : ℕ) (family : Text) (ttl : ℤ)
      → user_id < 2 ^ 63
      → IsWord family
      → is_empty family ≡ false
      → Command
  look redeem drop : Text → Command

pub data Reply : Type 0 where
  done : Reply
  session : ℤ × Text → Reply

-- What the abstract store does: the sessions before and after a command that replied.
pub data Step : Command → Reply → Sessions → Sessions → Type 0 where
  puts :
      {jti family : Text} {user_id : ℕ} {ttl : ℤ} {small : user_id < 2 ^ 63} {word : IsWord family}
      {full : is_empty family ≡ false} {m m' : Sessions}
      → m' jti ≡ some (pos user_id, family)
      → Step (put jti user_id family ttl small word full) done m m'
  looks :
      {jti : Text} {p : ℤ × Text} {m m' : Sessions}
      → m jti ≡ some p
      → m' jti ≡ some p
      → Step (look jti) (session p) m m'
  redeems :
      {jti : Text} {p : ℤ × Text} {m m' : Sessions}
      → m jti ≡ some p
      → m' jti ≡ none
      → Step (redeem jti) (session p) m m'
  drops : {jti : Text} {m m' : Sessions} → m' jti ≡ none → Step (drop jti) done m m'

abbrev scanned_value : Option Text → Option (ℤ × Text)
scanned_value none = none
scanned_value (some t) = scan_refresh t

module _ {S : Type 0} (r : Redis S) where
  -- the command, as the code runs it
  unfoldable pub execute : Command → Call S RdsError Reply
  execute (put jti user_id family ttl small word full) =
      put_refresh r jti (pos user_id) family ttl >> pure done
  execute (look jti) = get_refresh r jti >>= λ p. pure (session p)
  execute (redeem jti) = consume_refresh r jti >>= λ p. pure (session p)
  execute (drop jti) = del_refresh r jti >> pure done

  module _ {v : View S} (laws : IsRedis r v) where
    -- The sessions that a state of the server stands for.
    abbrev pub sessions : S → Sessions
    sessions s jti = scanned_value (v.holds s (rt_key jti))

    reads :
        (s : S) (jti t : Text) → v.holds s (rt_key jti) ≡ some t → sessions s jti ≡ scan_refresh t
    reads s jti t h = rw h refl

    -- Redis keeps the sessions. Every command on refresh tokens that replies takes the sessions of the state
    -- before to those of the state after by a step of the abstract store, for that token: a put is read back
    -- as its user and family, a look changes nothing, a session that is redeemed was there and is gone,
    -- and a dropped one is gone.
    pub execute-Step :
        (command : Command) (reply : Reply) (s s' : S)
        → execute command s ≡ (ok reply, s')
        → Step command reply (sessions s) (sessions s')
    unfolding execute get_refresh
    execute-Step (put jti u f ttl small word full) reply s s' e =
        let (x, s1, e1, e2) =
          bind-ok (put_refresh r jti (pos u) f ttl) (λ x. pure done) s s' reply e in
        let same : reply ≡ done = cc in
        let still : s' ≡ s1 = cc in
        let stored = put_refresh-holds laws jti (pos u) f ttl s s1 e1 in
        rw (same, still)
          (puts (reads s1 jti _ stored ∙ scan_refresh-refresh_value u f small word full))
    execute-Step (look jti) reply s s' e =
        let (p, s1, e1, e2) = bind-ok (get_refresh r jti) (λ p. pure (session p)) s s' reply e in
        let same : reply ≡ session p = cc in
        let still : s' ≡ s1 = cc in
        let (t, s2, got, parsed) = bind-ok _ _ s s1 p e1 in
        let (there, kept) = laws.get-some _ t s s2 (or_fail-ok _ _ s s2 t got) in
        let (scanned, last) = parse_refresh-ok t s2 s1 p parsed in
        rw (same, still, last)
          (looks (reads s jti t there ∙ scanned) (reads s2 jti t kept ∙ scanned))
    execute-Step (redeem jti) reply s s' e =
        let (p, s1, e1, e2) =
          bind-ok (consume_refresh r jti) (λ p. pure (session p)) s s' reply e in
        let same : reply ≡ session p = cc in
        let still : s' ≡ s1 = cc in
        let (t, there, scanned, gone) = consume_refresh-ok laws jti s s1 p e1 in
        rw (same, still) (redeems (reads s jti t there ∙ scanned) (ap scanned_value gone))
    execute-Step (drop jti) reply s s' e =
        let (x, s1, e1, e2) = bind-ok (del_refresh r jti) (λ x. pure done) s s' reply e in
        let same : reply ≡ done = cc in
        let still : s' ≡ s1 = cc in
        rw (same, still) (drops (ap scanned_value (del_refresh-gone laws jti s s1 e1)))
