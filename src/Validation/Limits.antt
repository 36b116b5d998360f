-- ===== src/Validation/Limits.antt =====
-- The limits of Realtime, Functions, the database, the pooler and the network in
-- apps/manager/internal/project/configuration.go.
use supabase_installer.Prelude.{
  ℕ, suc, String, Bool, false, ◌&&◌, ◌||◌, not, List, [], ◌∷◌, ◌++◌, leb, same, any, every, Text,
  codes, is_digit, same_text, has_prefix, ℤ, outside, is_zero, ◌==◌,
}
use supabase_installer.Contracts.Configuration.{
  RealtimeConfig, FunctionVariable, FunctionsConfig, DatabaseConfig, PoolerConfig, NetworkConfig,
}
use supabase_installer.Validation.{named, indexed, Check, check}
use supabase_installer.Validation.Parts.{validate_secret_input}

unfoldable pub validate_realtime : RealtimeConfig → List Check
validate_realtime r =
    check (outside 1 100000 r.max_connections) (named "realtime.maxConnections")
      "must be between 1 and 100000"
    ∷ check (outside 1 10000 r.database_pool_size) (named "realtime.databasePoolSize")
        "must be between 1 and 10000"
    ∷ check
        (not (same r.log_level "debug")
          && not (same r.log_level "info")
          && not (same r.log_level "warn")
          && not (same r.log_level "error"))
        (named "realtime.logLevel") "must be debug, info, warn, or error"
    ∷ []

abbrev is_upper_or_line : ℕ → Bool
is_upper_or_line c = (leb 65 c && leb c 90) || c == 95

-- ^[A-Z_][A-Z0-9_]*$
abbrev pub matches_env_name : Text → Bool
matches_env_name [] = false
matches_env_name (c ∷ s) = is_upper_or_line c && every (λ d. is_upper_or_line d || is_digit d) s

abbrev pub reserved_function_variables : List Text
reserved_function_variables =
    codes "ANON_KEY"
    ∷ codes "SERVICE_ROLE_KEY"
    ∷ codes "JWT_SECRET"
    ∷ codes "SUPABASE_URL"
    ∷ codes "SUPABASE_PUBLIC_URL"
    ∷ codes "FUNCTIONS_VERIFY_JWT"
    ∷ codes "POSTGRES_PASSWORD"
    ∷ []

abbrev pub is_reserved : Text → Bool
is_reserved name =
    any (same_text name) reserved_function_variables || has_prefix (codes "SUPABASE_") name

abbrev pub variables_from : ℕ → List FunctionVariable → List Check
variables_from index [] = []
variables_from index (v ∷ vs) =
    check (not (matches_env_name (codes v.name))) (indexed "functions.variables" index ".name")
      "must match ^[A-Z_][A-Z0-9_]*$"
    ∷ check (is_reserved (codes v.name)) (indexed "functions.variables" index ".name")
        "is reserved by Supabase/runtime"
    ∷ (validate_secret_input v.value (indexed "functions.variables" index ".value")
          (indexed "functions.variables" index ".value.action")
        ++ variables_from (suc index) vs)

unfoldable pub validate_functions : FunctionsConfig → List Check
validate_functions f = variables_from 0 f.variables

-- a port that is 0 is not set
abbrev pub optional_port : ℤ → String → Check
optional_port port name =
    check (not (is_zero port) && outside 1 65535 port) (named name) "must be between 1 and 65535"

unfoldable pub validate_database : DatabaseConfig → List Check
validate_database d =
    check (not (same d.version "17")) (named "database.version")
      "must be 17; PostgreSQL 15 is no longer supported by this runtime"
    ∷ check (outside 1 100000 d.max_connections) (named "database.maxConnections")
        "must be between 1 and 100000"
    ∷ optional_port d.direct_port_number "database.directPortNumber"
    ∷ []

unfoldable pub validate_pooler : PoolerConfig → List Check
validate_pooler p =
    optional_port p.transaction_port "pooler.transactionPort"
    ∷ optional_port p.session_port "pooler.sessionPort"
    ∷ check (outside 1 100000 p.pool_size) (named "pooler.poolSize") "must be between 1 and 100000"
    ∷ check (outside 1 100000 p.max_client_connections) (named "pooler.maxClientConnections")
        "must be between 1 and 100000"
    ∷ []

unfoldable pub validate_network : NetworkConfig → List Check
validate_network n =
    check (not (same n.gateway "envoy") && not (same n.gateway "kong")) (named "network.gateway")
      "must be envoy or kong"
    ∷ check (not (same n.https_mode "external") && not (same n.https_mode "caddy"))
        (named "network.httpsMode")
        "must be external or caddy; manual HTTPS is unsupported by the pinned renderer"
    ∷ optional_port n.api_port "network.apiPort"
    ∷ optional_port n.studio_port "network.studioPort"
    ∷ optional_port n.direct_database_port "network.directDatabasePort"
    ∷ optional_port n.pooler_port "network.poolerPort"
    ∷ []
