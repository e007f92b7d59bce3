-- ===== src/Config/Tests.antt =====
-- Settings of a server and of a database.
use vsn_voice_ai.Prelude.{◌≡◌, refl, Option, none, some, []}
use vsn_voice_ai.Js.Text.{Text, text, text_eq, trim}
use vsn_voice_ai.Js.Number.{decimal}
use vsn_voice_ai.Js.Url.{Url}
use vsn_voice_ai.Js.Result.{ok, err}
use vsn_voice_ai.Config.{
  RuntimeConfig, PostgresEnvironment, PostgresRuntimeConfig, development, require, invalid_port,
  invalid_ssl_mode, parse_bounded_integer, parse_ssl_mode, load_runtime_config, parse_host,
  is_postgres_url, parse_connection_string, load_optional_postgres_runtime_config,
}
use vsn_voice_ai.Config.Bounds.{IsLoaded, load_optional_postgres_runtime_config-IsLoaded}

abbrev served : RuntimeConfig
served = record { host = text "127.0.0.1"; port = 8_080; environment = development }

port_too_large : load_runtime_config none (some (text "65536")) none ≡ err invalid_port
unfolding load_runtime_config parse_host parse_bounded_integer decimal
port_too_large = refl

no_tls_in_production :
    parse_ssl_mode (some (text "disable")) (some (text "production")) ≡ err invalid_ssl_mode
unfolding parse_ssl_mode text_eq
no_tls_in_production = refl

abbrev database : PostgresEnvironment
database = record {
  url = some (text "postgres://db/vsn");
  ssl_mode = none;
  max_connections = some (text "4");
  connect_timeout_ms = none;
  idle_timeout_ms = none;
  environment = some (text "production");
}

abbrev parse_url : Text → Option Url
parse_url s = some (record {
  protocol = text "postgres:";
  hostname = text "db";
  username = [];
  password = [];
  pathname = text "/vsn";
  search = [];
  hash = [];
  origin = text "null";
})

abbrev pooled : PostgresRuntimeConfig
pooled = record {
  connection_string = text "postgres://db/vsn";
  ssl_mode = require;
  max_connections = 4;
  connection_timeout_ms = 5_000;
  idle_timeout_ms = 30_000;
}

load_optional_postgres_runtime_config-IsLoaded_example :
    IsLoaded parse_url database (text "postgres://db/vsn") (ok (some pooled))
unfolding load_optional_postgres_runtime_config parse_connection_string parse_ssl_mode
    parse_bounded_integer is_postgres_url decimal text_eq trim
load_optional_postgres_runtime_config-IsLoaded_example =
    load_optional_postgres_runtime_config-IsLoaded parse_url database
