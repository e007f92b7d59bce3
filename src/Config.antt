-- ===== src/Config.antt =====
-- config/runtime-config.ts and config/postgres-runtime-config.ts: the settings of the API from its
-- environment. The URL parser is a parameter, `none` where it throws.
pub mod Bounds
pub mod Tests
use vsn_voice_ai.Prelude.{
  ℕ, Bool, true, false, ◌&&◌, ◌||◌, not, Option, none, some, leb, ltb, ◌==◌, length, all,
  if◌then◌else◌,
}
use vsn_voice_ai.Js.Text.{Text, text, text_eq, trim, is_white_space}
use vsn_voice_ai.Js.Number.{int, pos, decimal, is_decimal, is_safe_integer}
use vsn_voice_ai.Js.Url.{Url, is_empty}
use vsn_voice_ai.Js.Result.{Result, ok, err, ◌>>=◌}
use mathlib.Core.Option.{get_or}

pub data RuntimeEnvironment : Type 0 where
  development test production : RuntimeEnvironment

pub record RuntimeConfig : Type 0 where
  pub host : Text
  pub port : ℕ
  pub environment : RuntimeEnvironment

-- The errors that the loaders throw, by the setting that they reject.
pub data ConfigError : Type 0 where
  invalid_environment invalid_port invalid_host invalid_postgres_url invalid_ssl_mode : ConfigError
  out_of_range : Text → ConfigError

abbrev environment_of : Text → Result ConfigError RuntimeEnvironment
environment_of value =
    if text_eq value (text "development")
    then ok development
    else if text_eq value (text "test")
    then ok test
    else if text_eq value (text "production")
    then ok production
    else err invalid_environment

unfoldable pub parse_environment : Option Text → Result ConfigError RuntimeEnvironment
parse_environment none = ok development
parse_environment (some value) = if is_empty value then ok development else environment_of value

abbrev pub in_range : ConfigError → ℕ → ℕ → ℕ → Result ConfigError ℕ
in_range error minimum maximum parsed =
    if not (is_safe_integer (int (pos parsed))) || ltb parsed minimum || ltb maximum parsed
    then err error
    else ok parsed

-- A decimal setting between two bounds, with its fallback.
unfoldable pub parse_bounded_integer : ConfigError → Option Text → ℕ → ℕ → ℕ → Result ConfigError ℕ
parse_bounded_integer error none fallback minimum maximum = ok fallback
parse_bounded_integer error (some value) fallback minimum maximum =
    if is_empty value
    then ok fallback
    else if is_decimal value
    then in_range error minimum maximum (decimal 0 value)
    else err error

abbrev pub parse_port : Option Text → Result ConfigError ℕ
parse_port value = parse_bounded_integer invalid_port value 4_100 1 65_535

abbrev is_host : Text → Bool
is_host host =
    not (length host == 0 || ltb 255 (length host)) && all (λ c. not (is_white_space c)) host

unfoldable pub parse_host : Option Text → Result ConfigError Text
parse_host value =
    if is_host (get_or value (text "127.0.0.1"))
    then ok (get_or value (text "127.0.0.1"))
    else err invalid_host

-- `loadRuntimeConfig`, of the variables VSN_API_HOST, PORT and VSN_ENV
unfoldable pub load_runtime_config :
    Option Text → Option Text → Option Text → Result ConfigError RuntimeConfig
unfolding parse_host parse_environment
load_runtime_config raw_host raw_port raw_environment = do
  host ← parse_host raw_host
  port ← parse_port raw_port
  environment ← parse_environment raw_environment
  ok (record { host = host; port = port; environment = environment })

pub data PostgresSslMode : Type 0 where
  require disable : PostgresSslMode

pub record PostgresRuntimeConfig : Type 0 where
  pub connection_string : Text
  pub ssl_mode : PostgresSslMode
  pub max_connections : ℕ
  pub connection_timeout_ms : ℕ
  pub idle_timeout_ms : ℕ

-- The tests of a parsed connection string, negated.
unfoldable pub is_postgres_url : Url → Bool
is_postgres_url url =
    (text_eq url.protocol (text "postgres:") || text_eq url.protocol (text "postgresql:"))
    && not (is_empty url.hostname)
    && not (leb (length url.pathname) 1)
    && is_empty url.search
    && is_empty url.hash

abbrev pub checked_url : Text → Option Url → Result ConfigError Text
checked_url value none = err invalid_postgres_url
checked_url value (some url) = if is_postgres_url url then ok value else err invalid_postgres_url

unfoldable pub parse_connection_string : (Text → Option Url) → Text → Result ConfigError Text
unfolding is_postgres_url
parse_connection_string parse_url value = checked_url (trim value) (parse_url (trim value))

abbrev pub is_production : Option Text → Bool
is_production none = false
is_production (some e) = text_eq e (text "production")

-- The mode's text and whether the environment is production.
abbrev pub ssl_mode_of : Text → Bool → Result ConfigError PostgresSslMode
ssl_mode_of mode in_production =
    if text_eq mode (text "require")
    then ok require
    else if text_eq mode (text "disable") && not in_production
    then ok disable
    else err invalid_ssl_mode

abbrev ssl_fallback : Bool → Text
ssl_fallback in_production = if in_production then text "require" else text "disable"

unfoldable pub parse_ssl_mode : Option Text → Option Text → Result ConfigError PostgresSslMode
parse_ssl_mode none environment =
    ssl_mode_of (ssl_fallback (is_production environment)) (is_production environment)
parse_ssl_mode (some value) environment =
    ssl_mode_of (if is_empty value then ssl_fallback (is_production environment) else value)
      (is_production environment)

-- The variables of the database's settings, and VSN_ENV.
pub record PostgresEnvironment : Type 0 where
  pub url : Option Text
  pub ssl_mode : Option Text
  pub max_connections : Option Text
  pub connect_timeout_ms : Option Text
  pub idle_timeout_ms : Option Text
  pub environment : Option Text

module _ (parse_url : Text → Option Url) (env : PostgresEnvironment) where
  abbrev pub postgres_config : Text → Result ConfigError PostgresRuntimeConfig
  postgres_config raw = do
    connection_string ← parse_connection_string parse_url raw
    ssl_mode ← parse_ssl_mode env.ssl_mode env.environment
    max_connections ←
        parse_bounded_integer (out_of_range (text "VSN_POSTGRES_MAX_CONNECTIONS"))
          env.max_connections 10 1 32
    connection_timeout_ms ←
        parse_bounded_integer (out_of_range (text "VSN_POSTGRES_CONNECT_TIMEOUT_MS"))
          env.connect_timeout_ms 5_000 250 15_000
    idle_timeout_ms ←
        parse_bounded_integer (out_of_range (text "VSN_POSTGRES_IDLE_TIMEOUT_MS"))
          env.idle_timeout_ms 30_000 1_000 120_000
    ok (record {
      connection_string = connection_string;
      ssl_mode = ssl_mode;
      max_connections = max_connections;
      connection_timeout_ms = connection_timeout_ms;
      idle_timeout_ms = idle_timeout_ms;
    })

  abbrev pub optional_config : Option Text → Result ConfigError (Option PostgresRuntimeConfig)
  optional_config none = ok none
  optional_config (some raw) =
      if is_empty (trim raw) then ok none else (postgres_config raw >>= λ c. ok (some c))

  unfoldable pub load_optional_postgres_runtime_config :
      Result ConfigError (Option PostgresRuntimeConfig)
  unfolding parse_connection_string parse_ssl_mode parse_bounded_integer
  load_optional_postgres_runtime_config = optional_config env.url
