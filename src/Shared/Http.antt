-- ===== src/Shared/Http.antt =====
-- What the services' handlers share: internal/shared/httpx/httpx.go over Go's net/http.
use avito_kitchen.Base.{
  ℕ, ◌==◌, Bool, true, not, ◌&&◌, Option, none, some, List, [], ◌∷◌, Text, codes, same, exists_row,
  if◌then◌else◌, coalesce,
}
use avito_kitchen.Shared.Errors.{
  Kind, AppError, bad_request, unauthorized, forbidden, not_found, conflict, validation, too_large,
  too_many_requests, internal_error, unavailable,
}
use avito_kitchen.Shared.Strings.{trim_space, is_empty}
use avito_kitchen.Shared.Transaction.{Result, ok, err, guard, ◌>>◌}
use avito_kitchen.Shared.Uuid.{is_valid}

-- `Problem` with its request identifier.
pub record Problem : Type 0 where
  pub title : Text
  pub status : ℕ
  pub code : Text
  pub detail : Text
  pub request_id : Text

-- The map from kinds to statuses in `problemFromError`; `none` is a missing key.
abbrev pub status_of : Kind → Option ℕ
status_of bad_request = some 400
status_of unauthorized = some 401
status_of forbidden = some 403
status_of not_found = some 404
status_of conflict = some 409
status_of validation = some 422
status_of too_large = some 413
status_of too_many_requests = some 429
status_of unavailable = some 503
status_of internal_error = none

-- `http.StatusText` of the statuses above.
unfoldable pub status_text : ℕ → Text
status_text n =
    if n == 400
    then codes "Bad Request"
    else if n == 401
    then codes "Unauthorized"
    else if n == 403
    then codes "Forbidden"
    else if n == 404
    then codes "Not Found"
    else if n == 409
    then codes "Conflict"
    else if n == 413
    then codes "Request Entity Too Large"
    else if n == 422
    then codes "Unprocessable Entity"
    else if n == 429
    then codes "Too Many Requests"
    else if n == 503
    then codes "Service Unavailable"
    else codes "Internal Server Error"

-- `problemFromError` and the identifier that `WriteProblem` adds; an error that is no `AppError` is
-- `none`.
unfoldable pub problem_from_error : Text → Option AppError → Problem
unfolding status_text
problem_from_error request_id none = record {
  title = status_text 500;
  status = 500;
  code = codes "INTERNAL_ERROR";
  detail = codes "internal server error";
  request_id = request_id;
}
problem_from_error request_id (some e) =
    let status = coalesce (status_of e.kind) 500 in
    record {
      title = status_text status;
      status = status;
      code = e.code;
      detail = if status == 500 then codes "internal server error" else e.detail;
      request_id = request_id;
    }

-- What a handler answers: a status with a value, a status alone, or a problem.
pub data Response (A : Type 0) : Type 0 where
  json : ℕ → A → Response A
  empty : ℕ → Response A
  problem : Problem → Response A

-- `WriteProblem`.
unfoldable pub write_problem : {A : Type 0} → Text → AppError → Response A
unfolding problem_from_error
write_problem request_id e = problem (problem_from_error request_id (some e))

-- What reading the body gives: the decoder's errors, a second value after the first, or a value.
pub data Body (A : Type 0) : Type 0 where
  over_limit at_end malformed : Body A
  with_more : A → Body A
  single : A → Body A

abbrev pub invalid_body : Text → AppError
invalid_body detail = record { kind = bad_request; code = codes "INVALID_REQUEST"; detail = detail }

-- `DecodeJSON`; `is_json` is the test of the media type, and `max_bytes` what the reader is given.
unfoldable pub decode_json : {A : Type 0} → Bool → (ℕ → Body A) → ℕ → Result AppError A
decode_json is_json read max_bytes = do
  guard is_json (record {
    kind = bad_request;
    code = codes "INVALID_CONTENT_TYPE";
    detail = codes "Content-Type must be application/json";
  })
  elim (read (if max_bytes == 0 then 1048576 else max_bytes)) [
    | over_limit ↦ err (record {
      kind = too_large;
      code = codes "REQUEST_TOO_LARGE";
      detail = codes "request body is too large";
    })
    | at_end ↦ err (invalid_body (codes "request body must contain one JSON object"))
    | malformed ↦ err (invalid_body (codes "request body contains invalid JSON"))
    | with_more a ↦ err (invalid_body (codes "request body must contain one JSON object"))
    | single a ↦ ok a
  ]

-- `RequestIDMiddleware`: the identifier of a request, its header or a new one.
unfoldable pub request_id_of : Text → Text → Text
unfolding is_valid
request_id_of header generated = if is_valid header then header else generated

-- `responseRecorder`: the first status is kept, and a body without one stands for 200.
pub data Call : Type 0 where
  write_header : ℕ → Call
  write : Call

unfoldable pub recorded : ℕ → List Call → ℕ
recorded status [] = status
recorded status (write_header n ∷ calls) = recorded (if status == 0 then n else status) calls
recorded status (write ∷ calls) = recorded (if status == 0 then 200 else status) calls

-- The status that `AccessLogMiddleware` logs.
unfoldable pub logged_status : List Call → ℕ
unfolding recorded
logged_status calls = let status = recorded 0 calls in if status == 0 then 200 else status

-- The map `allowed` of `CORSMiddleware`.
unfoldable pub allowed_origins : List Text → List Text
unfolding trim_space
allowed_origins [] = []
allowed_origins (o ∷ os) =
    let rest = allowed_origins os in if is_empty (trim_space o) then rest else trim_space o ∷ rest

-- What `CORSMiddleware` does: the headers that it sets, and whether the next handler runs.
pub record Cors : Type 0 where
  pub vary : Bool
  pub allow_origin : Option Text
  pub runs_next : Bool

unfoldable pub cors : List Text → Text → Bool → Cors
unfolding allowed_origins
cors origins origin is_options = record {
  vary = not (is_empty origin);
  allow_origin =
      if not (is_empty origin) && exists_row (same origin) (allowed_origins origins)
      then some origin
      else none;
  runs_next = not is_options;
}

-- What follows a prefix.
unfoldable pub after_prefix : Text → Text → Option Text
after_prefix [] t = some t
after_prefix (p ∷ ps) [] = none
after_prefix (p ∷ ps) (c ∷ t) = let rest = after_prefix ps t in if p == c then rest else none

-- `BearerToken`; `none` is `("", false)`.
unfoldable pub bearer_token : Text → Option Text
unfolding after_prefix
bearer_token value = elim (after_prefix (codes "Bearer ") value) [
  | none ↦ none
  | some token ↦ if is_empty token then none else some token
]

-- `SecureEqual`.
abbrev pub secure_equal : Text → Text → Bool
secure_equal = same

-- The guard of `authenticatePartner` and of the venue's `authenticate`.
unfoldable pub authenticate : Text → Text → Text → Result AppError (Unit {0})
unfolding bearer_token
authenticate expected detail header = elim (bearer_token header) [
  | none ↦ err (record { kind = unauthorized; code = codes "UNAUTHORIZED"; detail = detail })
  | some token ↦
      guard (secure_equal token expected)
        (record { kind = unauthorized; code = codes "UNAUTHORIZED"; detail = detail })
]

-- `WriteReadiness`: no checker, or one whose answer to `Ping` is given.
unfoldable pub readiness : Text → Option Bool → Response Text
unfolding write_problem
readiness request_id (some true) = json 200 (codes "ready")
readiness request_id _ = write_problem request_id (record {
  kind = unavailable;
  code = codes "SERVICE_UNAVAILABLE";
  detail = codes "database is unavailable";
})
