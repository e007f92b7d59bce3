-- ===== src/Config/Bounds.antt =====
-- config/runtime-config.ts and config/postgres-runtime-config.ts: the bounds of the settings.
use vsn_voice_ai.Prelude.{
  ℕ, ◌≤◌, ◌≡◌, refl, inl, inr, Bool, true, false, not, Option, none, some, [], length, all, arith,
  Bool-cases,
}
use vsn_voice_ai.Js.Text.{Text, trim, is_white_space, is_blank}
use vsn_voice_ai.Js.Url.{Url, is_empty}
use vsn_voice_ai.Js.Result.{Result, ok, err, Result-cases, bind-inv}
use vsn_voice_ai.Config.{
  ConfigError, RuntimeConfig, PostgresRuntimeConfig, PostgresEnvironment, PostgresSslMode, require,
  parse_bounded_integer, parse_port, parse_host, parse_environment, load_runtime_config,
  is_postgres_url, checked_url, is_production, ssl_mode_of, parse_ssl_mode, parse_connection_string,
  optional_config, postgres_config, load_optional_postgres_runtime_config,
}
use mathlib.Core.Option.{get_or}

parse_bounded_integer_bounds :
    (e : ConfigError) (value : Option Text) (fallback low high n : ℕ)
    → low ≤ fallback
    → fallback ≤ high
    → parse_bounded_integer e value fallback low high ≡ ok n
    → (low ≤ n) × (n ≤ high)
unfolding parse_bounded_integer
parse_bounded_integer_bounds e none fallback low high n l h eq = (ground arith, ground arith)
parse_bounded_integer_bounds e (some value) fallback low high n l h eq =
    elim (Bool-cases (is_empty value)) [
      | inl empty ↦ (ground arith, ground arith)
      | inr filled ↦ (ground arith, ground arith)
    ]

-- The settings of the API's server.
pub record IsServed (c : RuntimeConfig) : Type 0 where
  pub lowest : 1 ≤ c.port
  pub highest : c.port ≤ 65_535
  pub named : 1 ≤ length c.host
  pub short : length c.host ≤ 255
  pub solid : all (λ d. not (is_white_space d)) c.host ≡ true

-- A configuration of the API that is loaded has a port between 1 and 65535 and a host of 1 to 255
-- characters without white space.
pub load_runtime_config-IsServed :
    (raw_host raw_port raw_environment : Option Text) (c : RuntimeConfig)
    → load_runtime_config raw_host raw_port raw_environment ≡ ok c
    → IsServed c
unfolding load_runtime_config parse_host
load_runtime_config-IsServed raw_host raw_port raw_environment c h =
    elim (Result-cases (parse_host raw_host)) [
      | inr (e, bad) ↦ ground arith
      | inl (host, hosted) ↦ elim (Result-cases (parse_port raw_port)) [
        | inr (e, bad) ↦ ground arith
        | inl (port, ported) ↦ elim (Result-cases (parse_environment raw_environment)) [
          | inr (e, bad) ↦ ground arith
          | inl (environment, known) ↦
              let (low, high) =
                parse_bounded_integer_bounds _ raw_port 4_100 1 65_535 port (omega arith)
                  (omega arith) ported in
              record {
                lowest = ground arith;
                highest = ground arith;
                named = ground arith;
                short = ground arith;
                solid = ground arith;
              }
        ]
      ]
    ]

ssl_mode_of_production :
    (mode : Text) (in_production : Bool) (m : PostgresSslMode)
    → ssl_mode_of mode in_production ≡ ok m
    → in_production ≡ true
    → m ≡ require
ssl_mode_of_production mode in_production m h p = ground arith

parse_ssl_mode_production :
    (value environment : Option Text) (m : PostgresSslMode)
    → parse_ssl_mode value environment ≡ ok m
    → is_production environment ≡ true
    → m ≡ require
unfolding parse_ssl_mode
parse_ssl_mode_production none environment m h p =
    ssl_mode_of_production _ (is_production environment) m h p
parse_ssl_mode_production (some value) environment m h p =
    ssl_mode_of_production _ (is_production environment) m h p

module _ (parse_url : Text → Option Url) (env : PostgresEnvironment) where
  -- The settings of the database's client.
  pub record IsPooled (raw : Text) (c : PostgresRuntimeConfig) : Type 0 where
    pub same : c.connection_string ≡ trim raw
    pub url : Url
    pub parsed : parse_url (trim raw) ≡ some url
    pub safe : is_postgres_url url ≡ true
    pub secure : is_production env.environment ≡ true → c.ssl_mode ≡ require
    pub connections : (1 ≤ c.max_connections) × (c.max_connections ≤ 32)
    pub connect : (250 ≤ c.connection_timeout_ms) × (c.connection_timeout_ms ≤ 15_000)
    pub idle : (1_000 ≤ c.idle_timeout_ms) × (c.idle_timeout_ms ≤ 120_000)

  checked_url-inv :
      (value s : Text) (o : Option Url)
      → checked_url value o ≡ ok s
      → (url : Url) × (o ≡ some url) × (is_postgres_url url ≡ true) × (s ≡ value)
  checked_url-inv value s none h = ground arith
  checked_url-inv value s (some url) h = (url, refl, ground arith, ground arith)

  postgres_config-IsPooled :
      (raw : Text) (c : PostgresRuntimeConfig)
      → postgres_config parse_url env raw ≡ ok c
      → IsPooled raw c
  unfolding parse_connection_string
  postgres_config-IsPooled raw c h =
      let (s, es, h₁) = bind-inv (parse_connection_string parse_url raw) _ h in
      let (m, em, h₂) = bind-inv (parse_ssl_mode env.ssl_mode env.environment) _ h₁ in
      let (n, en, h₃) = bind-inv (parse_bounded_integer _ env.max_connections 10 1 32) _ h₂ in
      let (t, et, h₄) =
        bind-inv (parse_bounded_integer _ env.connect_timeout_ms 5_000 250 15_000) _ h₃ in
      let (i, ei, h₅) =
        bind-inv (parse_bounded_integer _ env.idle_timeout_ms 30_000 1_000 120_000) _ h₄ in
      let (url, parsed, safe, same) = checked_url-inv (trim raw) s (parse_url (trim raw)) es in
      let bn =
        parse_bounded_integer_bounds _ env.max_connections 10 1 32 n (omega arith) (omega arith)
          en in
      let bt =
        parse_bounded_integer_bounds _ env.connect_timeout_ms 5_000 250 15_000 t (omega arith)
          (omega arith) et in
      let bi =
        parse_bounded_integer_bounds _ env.idle_timeout_ms 30_000 1_000 120_000 i (omega arith)
          (omega arith) ei in
      record {
        same = ground (arith, same);
        url = url;
        parsed = parsed;
        safe = safe;
        secure = λ p. ground (arith, parse_ssl_mode_production env.ssl_mode env.environment m em p);
        connections = ground arith;
        connect = ground arith;
        idle = ground arith;
      }

  -- What loading may give for the text of a URL.
  pub IsLoaded : Text → Result ConfigError (Option PostgresRuntimeConfig) → Type 0
  IsLoaded url (err e) = is_blank url ≡ false
  IsLoaded url (ok none) = is_blank url ≡ true
  IsLoaded url (ok (some c)) = (is_blank url ≡ false) × IsPooled url c

  -- No database is configured exactly without a URL. One that is configured has a queryless Postgres
  -- URL with host and database, TLS in production, 1 to 32 connections, 250 to 15000 ms to connect and
  -- 1000 to 120000 ms of idleness.
  pub load_optional_postgres_runtime_config-IsLoaded :
      IsLoaded (get_or env.url []) (load_optional_postgres_runtime_config parse_url env)
  unfolding load_optional_postgres_runtime_config trim IsLoaded
  load_optional_postgres_runtime_config-IsLoaded = loaded env.url
    where
      loaded : (url : Option Text) → IsLoaded (get_or url []) (optional_config parse_url env url)
      loaded none = refl
      loaded (some raw) = elim (Bool-cases (is_empty (trim raw))) [
        | inl blank ↦ rw blank blank
        | inr filled ↦ elim (Result-cases (postgres_config parse_url env raw)) [
          | inr (e, bad) ↦ rw (filled, bad) filled
          | inl (c, made) ↦ rw (filled, made) (filled, postgres_config-IsPooled raw c made)
        ]
      ]
