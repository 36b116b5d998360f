-- ===== src/Validation/Bounds.antt =====
-- The numbers of a configuration that validateConfiguration of
-- apps/manager/internal/project/configuration.go accepts.
use supabase_installer.Prelude.{
  ℕ, true, false, ◌&&◌, not, [], ◌≡◌, sym, ap, ◌∙◌, arith, ℤ, pos, negsuc, Between, Between-outside,
  outside, is_zero, ◌⊎◌, inl, inr, Bool-cases,
}
use supabase_installer.Contracts.Configuration.{ProjectConfiguration}
use supabase_installer.Validation.{joined}
use supabase_installer.Validation.Texts.{Packages}
use supabase_installer.Validation.Parts.{validate_rate_limits, validate_mfa}
use supabase_installer.Validation.Limits.{
  validate_realtime, validate_database, validate_pooler, validate_network,
}
use supabase_installer.Validation.Auth.{validate_auth, auth_parts, validate_email}
use supabase_installer.Validation.Services.{IsClosed, IsClosed-of_passes}
use supabase_installer.Validation.Whole.{validate_configuration, parts}
use supabase_installer.Validation.Laws.{
  passes, passes-part_at, part_at, run-accepts, passes-failing_at,
}

-- not set, or between the two
abbrev Unset : ℕ → ℕ → ℤ → Type 0
Unset lo hi v = (v ≡ pos 0) ⊎ Between lo hi v

pub record InBounds (cfg : ProjectConfiguration) : Type 0 where
  pub max_enrolled_factors : Between 1 100 cfg.auth.mfa.max_enrolled_factors
  pub phone_otp_length : Between 4 10 cfg.auth.mfa.phone_otp_length
  pub email_sent : Between 1 1000000 cfg.auth.rate_limits.email_sent
  pub sms_sent : Between 1 1000000 cfg.auth.rate_limits.sms_sent
  pub token_refresh : Between 1 1000000 cfg.auth.rate_limits.token_refresh
  pub token_verification : Between 1 1000000 cfg.auth.rate_limits.token_verification
  pub anonymous_users : Between 1 1000000 cfg.auth.rate_limits.anonymous_users
  pub signups_and_signins : Between 1 1000000 cfg.auth.rate_limits.signups_and_signins
  pub jwt_expiry : Between 0 31536000 cfg.auth.jwt_expiry
  pub minimum_password_length : Unset 6 72 cfg.auth.email.minimum_password_length
  pub email_otp_expiration : Unset 60 86400 cfg.auth.email.email_otp_expiration
  pub email_otp_length : Unset 6 10 cfg.auth.email.email_otp_length
  pub realtime_connections : Between 1 100000 cfg.realtime.max_connections
  pub realtime_pool_size : Between 1 10000 cfg.realtime.database_pool_size
  pub database_connections : Between 1 100000 cfg.database.max_connections
  pub direct_port_number : Unset 1 65535 cfg.database.direct_port_number
  pub transaction_port : Unset 1 65535 cfg.pooler.transaction_port
  pub session_port : Unset 1 65535 cfg.pooler.session_port
  pub pool_size : Between 1 100000 cfg.pooler.pool_size
  pub max_client_connections : Between 1 100000 cfg.pooler.max_client_connections
  pub api_port : Unset 1 65535 cfg.network.api_port
  pub studio_port : Unset 1 65535 cfg.network.studio_port
  pub direct_database_port : Unset 1 65535 cfg.network.direct_database_port
  pub pooler_port : Unset 1 65535 cfg.network.pooler_port

zero-is_zero : (v : ℤ) → is_zero v ≡ true → v ≡ pos 0
zero-is_zero (pos n) h = ap pos (ground arith)
zero-is_zero (negsuc n) h = cc

Unset-outside : (lo hi : ℕ) (v : ℤ) → (not (is_zero v) && outside lo hi v) ≡ false → Unset lo hi v
Unset-outside lo hi v h = elim (Bool-cases (is_zero v)) [
  | inl zero_v ↦ inl (zero-is_zero v zero_v)
  | inr set ↦ inr (Between-outside lo hi v (sym (ap (λ b. not b && outside lo hi v) set) ∙ h))
]

record Passes (cfg : ProjectConfiguration) : Type 0 where
  mfa : passes (validate_mfa cfg.auth.mfa) ≡ true
  rates : passes (validate_rate_limits cfg.auth.rate_limits) ≡ true
  email : passes (validate_email cfg.auth) ≡ true
  realtime : passes (validate_realtime cfg.realtime) ≡ true
  database : passes (validate_database cfg.database) ≡ true
  pooler : passes (validate_pooler cfg.pooler) ≡ true
  network : passes (validate_network cfg.network) ≡ true

module _ (packages : Packages) (cfg : ProjectConfiguration) where
  auth_part :
      (n : ℕ)
      → passes (validate_auth packages cfg.auth) ≡ true
      → passes (part_at n (auth_parts packages cfg.auth)) ≡ true
  unfolding validate_auth
  auth_part n p = passes-part_at n (auth_parts packages cfg.auth) p

  Passes-parts : ((n : ℕ) → passes (part_at n (parts packages cfg)) ≡ true) → Passes cfg
  unfolding parts auth_parts
  Passes-parts p = record {
    email = auth_part 0 (p 3);
    rates = auth_part 1 (p 3);
    mfa = auth_part 2 (p 3);
    realtime = p 5;
    database = p 7;
    pooler = p 8;
    network = p 9;
  }

InBounds-Passes : (cfg : ProjectConfiguration) → Passes cfg → InBounds cfg
unfolding validate_email validate_rate_limits validate_mfa validate_realtime validate_database
    validate_pooler validate_network
InBounds-Passes cfg p = record {
  max_enrolled_factors =
      Between-outside 1 100 cfg.auth.mfa.max_enrolled_factors
        (passes-failing_at 0 (validate_mfa cfg.auth.mfa) p.mfa);
  phone_otp_length =
      Between-outside 4 10 cfg.auth.mfa.phone_otp_length
        (passes-failing_at 1 (validate_mfa cfg.auth.mfa) p.mfa);
  email_sent =
      Between-outside 1 1000000 cfg.auth.rate_limits.email_sent
        (passes-failing_at 0 (validate_rate_limits cfg.auth.rate_limits) p.rates);
  sms_sent =
      Between-outside 1 1000000 cfg.auth.rate_limits.sms_sent
        (passes-failing_at 1 (validate_rate_limits cfg.auth.rate_limits) p.rates);
  token_refresh =
      Between-outside 1 1000000 cfg.auth.rate_limits.token_refresh
        (passes-failing_at 2 (validate_rate_limits cfg.auth.rate_limits) p.rates);
  token_verification =
      Between-outside 1 1000000 cfg.auth.rate_limits.token_verification
        (passes-failing_at 3 (validate_rate_limits cfg.auth.rate_limits) p.rates);
  anonymous_users =
      Between-outside 1 1000000 cfg.auth.rate_limits.anonymous_users
        (passes-failing_at 4 (validate_rate_limits cfg.auth.rate_limits) p.rates);
  signups_and_signins =
      Between-outside 1 1000000 cfg.auth.rate_limits.signups_and_signins
        (passes-failing_at 5 (validate_rate_limits cfg.auth.rate_limits) p.rates);
  jwt_expiry =
      Between-outside 0 31536000 cfg.auth.jwt_expiry
        (passes-failing_at 0 (validate_email cfg.auth) p.email);
  minimum_password_length =
      Unset-outside 6 72 cfg.auth.email.minimum_password_length
        (passes-failing_at 6 (validate_email cfg.auth) p.email);
  email_otp_expiration =
      Unset-outside 60 86400 cfg.auth.email.email_otp_expiration
        (passes-failing_at 7 (validate_email cfg.auth) p.email);
  email_otp_length =
      Unset-outside 6 10 cfg.auth.email.email_otp_length
        (passes-failing_at 8 (validate_email cfg.auth) p.email);
  realtime_connections =
      Between-outside 1 100000 cfg.realtime.max_connections
        (passes-failing_at 0 (validate_realtime cfg.realtime) p.realtime);
  realtime_pool_size =
      Between-outside 1 10000 cfg.realtime.database_pool_size
        (passes-failing_at 1 (validate_realtime cfg.realtime) p.realtime);
  database_connections =
      Between-outside 1 100000 cfg.database.max_connections
        (passes-failing_at 1 (validate_database cfg.database) p.database);
  direct_port_number =
      Unset-outside 1 65535 cfg.database.direct_port_number
        (passes-failing_at 2 (validate_database cfg.database) p.database);
  transaction_port =
      Unset-outside 1 65535 cfg.pooler.transaction_port
        (passes-failing_at 0 (validate_pooler cfg.pooler) p.pooler);
  session_port =
      Unset-outside 1 65535 cfg.pooler.session_port
        (passes-failing_at 1 (validate_pooler cfg.pooler) p.pooler);
  pool_size =
      Between-outside 1 100000 cfg.pooler.pool_size
        (passes-failing_at 2 (validate_pooler cfg.pooler) p.pooler);
  max_client_connections =
      Between-outside 1 100000 cfg.pooler.max_client_connections
        (passes-failing_at 3 (validate_pooler cfg.pooler) p.pooler);
  api_port =
      Unset-outside 1 65535 cfg.network.api_port
        (passes-failing_at 2 (validate_network cfg.network) p.network);
  studio_port =
      Unset-outside 1 65535 cfg.network.studio_port
        (passes-failing_at 3 (validate_network cfg.network) p.network);
  direct_database_port =
      Unset-outside 1 65535 cfg.network.direct_database_port
        (passes-failing_at 4 (validate_network cfg.network) p.network);
  pooler_port =
      Unset-outside 1 65535 cfg.network.pooler_port
        (passes-failing_at 5 (validate_network cfg.network) p.network);
}

-- In a configuration that is accepted every number that is checked without a condition is inside its range: the rate limits, the limits
-- of factors, codes, connections and pools, the token's expiry; and a port or an e-mail limit is 0 or inside its range.
pub validate_configuration-InBounds :
    (packages : Packages) (cfg : ProjectConfiguration)
    → validate_configuration packages cfg ≡ []
    → InBounds cfg
unfolding validate_configuration
validate_configuration-InBounds packages cfg accepted =
    let passed = (run-accepts (joined (parts packages cfg))).0 accepted in
    InBounds-Passes cfg
      (Passes-parts packages cfg (λ n. passes-part_at n (parts packages cfg) passed))

-- The services of a configuration that is accepted are closed: the database is enabled, and what an enabled
-- service needs is enabled.
pub IsClosed-validate_configuration :
    (packages : Packages) (cfg : ProjectConfiguration)
    → validate_configuration packages cfg ≡ []
    → IsClosed cfg.services
unfolding validate_configuration parts
IsClosed-validate_configuration packages cfg accepted =
    let passed = (run-accepts (joined (parts packages cfg))).0 accepted in
    IsClosed-of_passes cfg.services (passes-part_at 1 (parts packages cfg) passed)
