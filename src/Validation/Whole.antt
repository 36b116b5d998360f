-- ===== src/Validation/Whole.antt =====
-- ValidateConfiguration and ValidateStoredConfiguration in apps/manager/internal/project/configuration.go.
use supabase_installer.Prelude.{String, Bool, ◌&&◌, not, List, [], ◌∷◌, same, map, if◌then◌else◌}
use supabase_installer.Contracts.Configuration.{
  SecretInput, OauthProviderConfig, FunctionVariable, ProjectConfiguration,
}
use supabase_installer.Validation.{named, Check, check, joined, run, ValidationError}
use supabase_installer.Validation.Texts.{Packages, is_blank, valid_domain, valid_absolute_http_url}
use supabase_installer.Validation.Parts.{validate_services_configuration, validate_storage}
use supabase_installer.Validation.Limits.{
  validate_realtime, validate_functions, validate_database, validate_pooler, validate_network,
}
use supabase_installer.Validation.Auth.{validate_auth}

module _ (packages : Packages) where
  unfoldable pub validate_general : ProjectConfiguration → List Check
  validate_general cfg =
      check
        (not (is_blank packages (cfg.general.domain))
          && not (valid_domain packages (cfg.general.domain)))
        (named "general.domain") "must be a hostname without a scheme or path"
      ∷ check
          (not (is_blank packages (cfg.general.site_url))
            && not (valid_absolute_http_url packages (cfg.general.site_url)))
          (named "general.siteUrl") "must be an absolute http or https URL"
      ∷ check (not (same cfg.general.supabase_version "self-hosted/v0.8.0"))
          (named "general.supabaseVersion") "must be self-hosted/v0.8.0"
      ∷ []

  abbrev pub auth_enabled : ProjectConfiguration → Check
  auth_enabled cfg =
      check (if cfg.services.auth then not cfg.auth.enabled else cfg.auth.enabled)
        (named "auth.enabled") "must match services.auth"

  abbrev pub caddy_gateway : ProjectConfiguration → Check
  caddy_gateway cfg =
      check (same cfg.network.https_mode "caddy" && not cfg.services.gateway)
        (named "services.gateway") "Caddy HTTPS requires API Gateway"

  unfoldable pub parts : ProjectConfiguration → List (List Check)
  parts cfg =
      validate_general cfg
      ∷ validate_services_configuration cfg.services
      ∷ (auth_enabled cfg ∷ [])
      ∷ validate_auth packages cfg.auth
      ∷ validate_storage packages cfg.storage
      ∷ validate_realtime cfg.realtime
      ∷ validate_functions cfg.functions
      ∷ validate_database cfg.database
      ∷ validate_pooler cfg.pooler
      ∷ validate_network cfg.network
      ∷ (caddy_gateway cfg ∷ [])
      ∷ []

  -- no message is nil
  unfoldable pub validate_configuration : ProjectConfiguration → ValidationError
  unfolding parts
  validate_configuration cfg = run (joined (parts cfg)) []

  -- a secret that is set and has no action is retained
  abbrev pub retained : Bool → SecretInput → SecretInput
  retained set s = if set && same s.action "" then record s { action = "retain" } else s

  abbrev retained_provider : String × OauthProviderConfig → String × OauthProviderConfig
  retained_provider (name, p) = (name, record p { secret = retained p.secret_set p.secret })

  abbrev retained_variable : FunctionVariable → FunctionVariable
  retained_variable v = record v { value = retained v.value_set v.value }

  unfoldable pub retain_secrets : ProjectConfiguration → ProjectConfiguration
  retain_secrets cfg = record cfg {
    general = record cfg.general {
      studio_password = retained cfg.general.studio_password_set cfg.general.studio_password;
    };
    auth = record cfg.auth {
      smtp = record cfg.auth.smtp {
        password = retained cfg.auth.smtp.password_set cfg.auth.smtp.password;
      };
      phone = record cfg.auth.phone {
        secret = retained cfg.auth.phone.secret_set cfg.auth.phone.secret;
      };
      oauth = map retained_provider cfg.auth.oauth;
    };
    storage = record cfg.storage {
      secret_access_key = retained cfg.storage.secret_access_key_set cfg.storage.secret_access_key;
    };
    functions = record cfg.functions { variables = map retained_variable cfg.functions.variables };
  }

  unfoldable pub validate_stored_configuration : ProjectConfiguration → ValidationError
  validate_stored_configuration cfg = validate_configuration (retain_secrets cfg)
