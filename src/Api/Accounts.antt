-- ===== src/Api/Accounts.antt =====
-- internal/api/auth.go: the session handlers other than register and login. Times in responses stay
-- numbers; the layout of their texts is left out.
use braelaspin.Prelude.{
  ℕ, ℤ, pos, ◌≡◌, sym, ap, ◌∙◌, ◌⊎◌, inl, inr, Bool, Option, some, Text, codes, ◌∷◌, ◌++◌, Result,
  ok, err, is_empty, if◌then◌else◌,
}
use braelaspin.Database.{User}
use braelaspin.Database.Monad.{World}
use braelaspin.Errors.{Error, not_found}
use braelaspin.Phone.{pretty}
use braelaspin.Users.{is_admin}
use braelaspin.Calls.{
  Call, proceed, convert_error, ◌>>=◌, ◌>>◌, pure, fail, raise_if, or_fail, bind-ok, or_fail-ok,
}
use braelaspin.Redis.{Redis, rt_key, redis, redis_failed}
use braelaspin.Redis.Laws.{View, IsRedis}
use braelaspin.Tokens.{
  Site, Jwt, Tokens, TokenService, TokenError, token_reused, user_suspended, lookup_failed,
  redis_error, rotate, revoke, revoke_all,
}
use braelaspin.Tokens.Rotation.{IsRefused, revoke_ends}
use braelaspin.Http.{
  Response, json, no_content, Failure, api, unmapped, of_tokens, errorf, with_cause,
  err_bad_request, decoded,
}

-- userDTO
pub record UserDto : Type 0 where
  pub id : ℕ
  pub phone : Text
  pub phone_display : Text
  pub ref_code : Text
  pub ref_link : Text
  pub phone_verified : Bool
  pub is_admin : Bool

-- Server.userDTO, from the base URL
unfoldable pub user_dto : Text → User → UserDto
user_dto base_url u = record {
  id = u.id;
  phone = u.phone;
  phone_display = pretty u.phone;
  ref_code = u.ref_code;
  ref_link = base_url ++ (codes "/r/" ++ u.ref_code);
  phone_verified = u.phone_verified;
  is_admin = u.is_admin;
}

-- the callback that refresh passes to Rotate: users.IsAdmin; ids are positive
unfoldable pub admin_lookup : ℤ → Call World Error Bool
admin_lookup (pos id) = is_admin id
admin_lookup z = fail not_found

abbrev pub session_expired : TokenError → Failure
session_expired e = api (
    with_cause (of_tokens e)
      (errorf 401 (codes "token_reused") (codes "Your session has expired. Please sign in again.")))

-- how refresh answers an error of Rotate
unfoldable pub refresh_failure : TokenError → Failure
refresh_failure token_reused = session_expired token_reused
refresh_failure user_suspended = api (
    with_cause (of_tokens user_suspended) (
      errorf 403 (codes "account_suspended")
        (codes "This account has been suspended. Contact support.")))
refresh_failure (lookup_failed not_found) = session_expired (lookup_failed not_found)
refresh_failure e = unmapped (of_tokens e)

abbrev pub token_failure : TokenError → Failure
token_failure e = unmapped (of_tokens e)

module _ {S : Type 0} (r : Redis S) (jwt : Jwt) (s : TokenService) where
  -- refresh, from the field of its body
  unfoldable pub refresh_handler : Option Text → Call (Site S) Failure (Response Tokens)
  refresh_handler body = do
    token ← decoded body
    raise_if (is_empty token) (api (err_bad_request (codes "A refresh token is required.")))
    tokens ← or_fail (rotate r jwt s token (some admin_lookup)) refresh_failure
    pure (json 200 tokens)

  -- logout, from the field of its body
  unfoldable pub logout_handler : Option Text → Call (Site S) Failure (Response Unit)
  logout_handler body = do
    token ← decoded body
    if is_empty token then pure tt else or_fail (revoke r jwt s token) token_failure
    pure (no_content 204)

  -- logoutAll, for the user of the request
  unfoldable pub logout_all_handler : ℤ → Call (Site S) Failure (Response Unit)
  logout_all_handler uid = do or_fail (revoke_all r jwt s uid) token_failure; pure (no_content 204)

  module _ {v : View S} (laws : IsRedis r v) where
    refused_refresh :
        (p : Result TokenError Tokens × Site S)
        (f : Tokens → Call (Site S) Failure (Response Tokens))
        → IsRefused p.0
        → ((proceed (convert_error refresh_failure p) f).0 ≡ err (session_expired token_reused))
          ⊎ ((proceed (convert_error refresh_failure p) f).0
              ≡ err (token_failure (redis_error (redis redis_failed))))
    unfolding IsRefused refresh_failure
    refused_refresh (ok x, t) f (inl h) = absurd (cc)
    refused_refresh (ok x, t) f (inr h) = absurd (cc)
    refused_refresh (err e, t) f (inl h) =
        let same : e ≡ token_reused = cc in inl (ap (λ z. err (refresh_failure z)) same)
    refused_refresh (err e, t) f (inr h) =
        let same : e ≡ redis_error (redis redis_failed) = cc in
        inr (ap (λ z. err (refresh_failure z)) same)

    -- After a log-out the session cannot be renewed. When the handler of log-out has answered a request
    -- with a token, the handler of refresh answers this token in every later state where its key holds
    -- what the log-out left there with 401 token_reused, or it fails because Redis does.
    pub logout_ends_session :
        (c : ℕ) (rest : Text) (t t1 t2 : Site S) (x : Response Unit)
        → logout_handler (some (c ∷ rest)) t ≡ (ok x, t1)
        → v.holds t2.redis_state (rt_key (c ∷ rest)) ≡ v.holds t1.redis_state (rt_key (c ∷ rest))
        → ((refresh_handler (some (c ∷ rest)) t2).0 ≡ err (session_expired token_reused))
          ⊎ ((refresh_handler (some (c ∷ rest)) t2).0
              ≡ err (token_failure (redis_error (redis redis_failed))))
    unfolding logout_handler refresh_handler decoded ◌>>=◌ or_fail
    logout_ends_session c rest t t1 t2 x done left =
        let (u, t3, e1, e2) =
          bind-ok (or_fail (revoke r jwt s (c ∷ rest)) token_failure) _ t t1 x done in
        let still : t1 ≡ t3 = ap (λ p. p.1) (sym e2) in
        let refused =
          revoke_ends laws jwt s (c ∷ rest) (some admin_lookup) t t3 t2
            (or_fail-ok (revoke r jwt s (c ∷ rest)) token_failure t t3 u e1)
            (left ∙ ap (λ y. v.holds y.redis_state (rt_key (c ∷ rest))) still) in
        refused_refresh (rotate r jwt s (c ∷ rest) (some admin_lookup) t2)
          (λ tokens. pure (json 200 tokens)) refused
