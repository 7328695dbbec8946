-- ===== src/Http.antt =====
-- internal/httpx/respond.go: the errors that handlers return and what the client sees of them. The JSON
-- texts of requests and responses are left out: a handler starts from the decoded body, `none` where
-- Decode refuses it, and a response names what it encodes. So are the log lines and the headers
-- that do not depend on the request.
pub mod Middleware
pub mod Cors
pub mod Guarded
pub mod Health
mod Tests
use braelaspin.Prelude.{
  ℕ, ℤ, Bool, true, false, Option, none, some, Text, codes, List, [], ◌∷◌, Result, ok, err, text_eq,
  if◌then◌else◌, leb,
}
use braelaspin.Errors.{Error}
use braelaspin.Redis.{RdsError}
use braelaspin.Tokens.{TokenError}
use braelaspin.Calls.{Call, fail}

-- The error below an APIError, or one that no handler has mapped.
pub data Cause : Type 0 where
  of_service : Error → Cause
  of_redis : RdsError → Cause
  of_tokens : TokenError → Cause
  -- another error: of the JSON encoder, of the password package, of the phone package
  of_other : Cause

abbrev pub Meta : Type 0
Meta = List (Text × ℤ)

-- APIError
pub record ApiError : Type 0 where
  pub status : ℕ
  pub code : Text
  pub message : Text
  pub extra : Meta
  pub cause : Option Cause

-- Errorf
unfoldable pub errorf : ℕ → Text → Text → ApiError
errorf status code message = record {
  status = status;
  code = code;
  message = message;
  extra = [];
  cause = none;
}

abbrev put_meta : Text → ℤ → Meta → Meta
put_meta k z [] = (k, z) ∷ []
put_meta k z (p ∷ ps) = if text_eq p.0 k then (k, z) ∷ ps else p ∷ put_meta k z ps

-- WithMeta, WithCause
unfoldable pub with_meta : Text → ℤ → ApiError → ApiError
with_meta k z e = record e { extra = put_meta k z e.extra }

unfoldable pub with_cause : Cause → ApiError → ApiError
with_cause c e = record e { cause = some c }

-- ErrBadRequest, ErrUnauthorized, ErrForbidden, ErrNotFound, ErrConflict, ErrRateLimited, ErrInternal
unfoldable pub err_bad_request : Text → ApiError
err_bad_request msg = errorf 400 (codes "bad_request") msg

unfoldable pub err_unauthorized : ApiError
err_unauthorized = errorf 401 (codes "unauthorized") (codes "Sign in to continue.")

unfoldable pub err_forbidden : ApiError
err_forbidden = errorf 403 (codes "forbidden") (codes "You do not have access to this.")

unfoldable pub err_not_found : ApiError
err_not_found = errorf 404 (codes "not_found") (codes "Not found.")

unfoldable pub err_conflict : Text → Text → ApiError
err_conflict code msg = errorf 409 code msg

unfoldable pub err_rate_limited : ApiError
err_rate_limited =
    errorf 429 (codes "rate_limited") (codes "Too many attempts. Please wait and try again.")

unfoldable pub err_internal : ApiError
err_internal = errorf 500 (codes "internal") (codes "Something went wrong on our side.")

-- The error of a handler.
pub data Failure : Type 0 where
  api : ApiError → Failure
  unmapped : Cause → Failure

-- A response, by what wrote it: JSON, Raw, WriteHeader alone, or Fail with the request id.
pub data Response (A : Type 0) : Type 0 where
  json : ℕ → A → Response A
  raw : ℕ → Text → Response A
  no_content : ℕ → Response A
  failed : ℕ → Text → Text → Meta → Text → Response A

-- Fail's choice of the error to show
unfoldable pub shown : Failure → ApiError
shown (api e) = e
shown (unmapped c) = with_cause c err_internal

-- Fail
unfoldable pub respond_failure : {A : Type 0} → Text → Failure → Response A
respond_failure request_id f =
    let e = shown f in failed e.status e.code e.message e.extra request_id

-- Fail's choice of the log level: an incident, or the client's problem
unfoldable pub logs_error : Failure → Bool
logs_error f = leb 500 (shown f).status

abbrev pub answer : {S A : Type 0} → Text → Result Failure (Response A) × S → Response A × S
answer request_id (ok x, s) = (x, s)
answer request_id (err f, s) = (respond_failure request_id f, s)

-- Server.h, internal/api/api.go
unfoldable pub serve : {S A : Type 0} → Text → Call S Failure (Response A) → S → Response A × S
serve request_id handler s = answer request_id (handler s)

-- Decode's errors, where it refuses the body
unfoldable pub decoded : {S A : Type 0} → Option A → Call S Failure A
decoded none s = (err (api (err_bad_request (codes "The request body could not be read."))), s)
decoded (some a) s = (ok a, s)
