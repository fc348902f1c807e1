-- ===== src/Shared/Environment.antt =====
-- What internal/platform/config/config.go and internal/venue/config/config.go share: reading the
-- environment of the process.
use avito_kitchen.Base.{
  ℕ, Bool, false, not, ◌||◌, ◌&&◌, ◌==◌, ltb, Option, none, some, List, [], ◌∷◌, ◌++◌, Text, codes,
  is_none, if◌then◌else◌, same,
}
use avito_kitchen.Shared.Http.{after_prefix}
use avito_kitchen.Shared.Integers.{ℤ, is_less, to_nat}
use avito_kitchen.Shared.Strings.{trim_space, is_empty}
use avito_kitchen.Shared.Transaction.{Result, ok, err, refuse, ◌>>=◌, ◌>>◌}

-- `os.Getenv`, `time.ParseDuration` and `strconv.ParseInt` in base 10 with its number of bits.
pub record Environment : Type 0 where
  pub getenv : Text → Text
  pub parse_duration : Text → Option ℤ
  pub parse_int : ℕ → Text → Option ℤ

-- `envOrDefault`.
unfoldable pub env_or_default : Environment → Text → Text → Text
env_or_default env key fallback =
    let value = env.getenv key in if is_empty value then fallback else value

-- A value that has been read, and that a test does not refuse; the error is its message.
abbrev pub checked : {A : Type 0} → Option A → (A → Bool) → Text → Result Text A
checked none is_refused message = err message
checked (some a) is_refused message = do refuse (is_refused a) message; ok a

-- `positiveDuration`.
unfoldable pub positive_duration : Environment → Text → Text → Result Text ℕ
unfolding env_or_default
positive_duration env key fallback = do
  value ←
      checked (env.parse_duration (env_or_default env key fallback)) (λ v. is_less v 1)
        (key ++ codes " must be a positive duration")
  ok (to_nat value)

-- `positiveInt`, and the reads like it; `bits` is 64 for `strconv.Atoi`.
unfoldable pub positive_number : Environment → ℕ → Text → Text → Result Text ℕ
unfolding env_or_default
positive_number env bits key fallback = do
  value ←
      checked (env.parse_int bits (env_or_default env key fallback)) (λ v. is_less v 1)
        (key ++ codes " must be a positive integer")
  ok (to_nat value)

-- `unsafeToken`.
unfoldable pub unsafe_token : Text → Bool
unfolding trim_space after_prefix
unsafe_token value =
    is_empty (trim_space value) || not (is_none (after_prefix (codes "dev-") value))

-- A byte before the first of some parts.
abbrev lengthen : ℕ → List Text → List Text
lengthen c [] = (c ∷ []) ∷ []
lengthen c (p ∷ ps) = (c ∷ p) ∷ ps

-- `strings.Split(value, ",")`.
unfoldable pub split_commas : Text → List Text
split_commas [] = [] ∷ []
split_commas (c ∷ t) = let rest = split_commas t in if c == 44 then [] ∷ rest else lengthen c rest

-- The loop of `splitCSV`.
unfoldable pub kept_parts : List Text → List Text
unfolding trim_space
kept_parts [] = []
kept_parts (p ∷ ps) =
    let rest = kept_parts ps in if is_empty (trim_space p) then rest else trim_space p ∷ rest

-- `splitCSV`.
unfoldable pub split_csv : Text → List Text
unfolding split_commas kept_parts
split_csv value = kept_parts (split_commas value)

pub record DatabaseConfig : Type 0 where
  pub connect_timeout : ℕ
  pub query_timeout : ℕ
  pub max_conn_lifetime : ℕ
  pub max_conn_idle_time : ℕ
  pub max_conns : ℕ
  pub min_conns : ℕ

-- `loadDatabaseConfig`.
unfoldable pub load_database_config : Environment → Result Text DatabaseConfig
unfolding positive_duration positive_number env_or_default
load_database_config env = do
  connect_timeout ← positive_duration env (codes "DB_CONNECT_TIMEOUT") (codes "5s")
  query_timeout ← positive_duration env (codes "DB_QUERY_TIMEOUT") (codes "3s")
  max_conn_lifetime ← positive_duration env (codes "DB_MAX_CONN_LIFETIME") (codes "30m")
  max_conn_idle_time ← positive_duration env (codes "DB_MAX_CONN_IDLE_TIME") (codes "5m")
  max_conns ← positive_number env 32 (codes "DB_MAX_CONNS") (codes "10")
  min_conns ←
      checked (env.parse_int 32 (env_or_default env (codes "DB_MIN_CONNS") (codes "1")))
        (λ v. is_less v 0 || ltb max_conns (to_nat v))
        (codes "DB_MIN_CONNS must be between zero and DB_MAX_CONNS")
  ok (record {
    connect_timeout = connect_timeout;
    query_timeout = query_timeout;
    max_conn_lifetime = max_conn_lifetime;
    max_conn_idle_time = max_conn_idle_time;
    max_conns = max_conns;
    min_conns = to_nat min_conns;
  })

-- The environments that `APP_ENV` can name.
abbrev pub is_known_env : Text → Bool
is_known_env t = same t (codes "local") || same t (codes "test") || same t (codes "production")

-- `appEnv != "local" && appEnv != "test"`.
abbrev pub is_exposed : Text → Bool
is_exposed t = not (same t (codes "local")) && not (same t (codes "test"))

-- The first reads of both `Load`: the environment, the timeout and the limits of requests.
pub record Basics : Type 0 where
  pub app_env : Text
  pub shutdown_timeout : ℤ
  pub max_request_bytes : ℕ
  pub max_header_bytes : ℕ

unfoldable pub load_basics : Environment → Result Text Basics
unfolding env_or_default positive_number
load_basics env = do
  let app_env = env_or_default env (codes "APP_ENV") (codes "local")
  refuse (not (is_known_env app_env)) (codes "APP_ENV must be local, test, or production")
  timeout ←
      checked (env.parse_duration (env_or_default env (codes "SHUTDOWN_TIMEOUT") (codes "10s")))
        (λ v. false) (codes "parse SHUTDOWN_TIMEOUT")
  max_request_bytes ← positive_number env 64 (codes "MAX_REQUEST_BODY_BYTES") (codes "1048576")
  max_header_bytes ← positive_number env 64 (codes "MAX_HEADER_BYTES") (codes "1048576")
  ok (record {
    app_env = app_env;
    shutdown_timeout = timeout;
    max_request_bytes = max_request_bytes;
    max_header_bytes = max_header_bytes;
  })
