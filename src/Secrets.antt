-- ===== src/Secrets.antt =====
-- Secrets in a configuration: encryptConfigurationSecrets of apps/manager/internal/project/service.go and
-- redactConfiguration of apps/manager/internal/store/configuration.go. The cipher is a parameter.
pub mod Redacted
use supabase_installer.Prelude.{
  String, Bool, true, false, ◌||◌, Option, none, some, List, [], ◌∷◌, ◌++◌, map, same,
  if◌then◌else◌, Text, is_nil,
}
use Prim.Native.String.{◌++◌ as joined_text}
use supabase_installer.Contracts.Configuration.{
  SecretInput, OauthProviderConfig, FunctionVariable, ProjectConfiguration,
}
use supabase_installer.Errors.{Error, external, Result, ok, err, ◌>>=◌}

-- managersecrets.Cipher, for the project, the kind and the text
pub record Cipher : Type 0 where
  pub encrypt : String → String → Text → Result String
  pub decrypt : String → String → String → Result Text

-- no envelope is a deletion
pub record SecretMutation : Type 0 where
  pub kind : String
  pub envelope : Option String

abbrev pub no_secret : SecretInput
no_secret = record { action = ""; value = [] }

abbrev pub oauth_kind : String → String
oauth_kind provider = joined_text "oauth." (joined_text provider ".secret")

abbrev pub function_kind : String → String
function_kind name = joined_text "functions." name

-- what `add` leaves in the configuration, and what it appends
pub record Added : Type 0 where
  pub input : SecretInput
  pub set : Bool
  pub mutations : List SecretMutation

module _ (cipher : Option Cipher) (project : String) where
  abbrev pub encrypted : String → Text → Result String
  encrypted kind value = elim cipher [
    | none ↦ err (external "secret cipher is required for replacement")
    | some c ↦ c.encrypt project kind value
  ]

  unfoldable pub add : String → SecretInput → Result Added
  add kind input =
      if same input.action ""
      then ok (record { input = no_secret; set = false; mutations = [] })
      else (if same input.action "replace"
          then (if is_nil input.value
              then err (external "replace requires a value")
              else (encrypted kind input.value >>= λ envelope. ok (record {
                input = no_secret;
                set = true;
                mutations = record { kind = kind; envelope = some envelope } ∷ [];
              })))
          else (if same input.action "retain" || same input.action "remove"
              then err (external "cannot be used during server creation")
              else err (external "unknown secret action")))

  unfoldable pub add_oauth :
      List (String × OauthProviderConfig)
      → Result (List (String × OauthProviderConfig) × List SecretMutation)
  add_oauth [] = ok ([], [])
  add_oauth ((provider, config) ∷ rest) = add (oauth_kind provider) config.secret >>= λ a.
      (add_oauth rest >>= λ more. ok (
        (provider, record config { secret = a.input; secret_set = a.set }) ∷ more.0,
        a.mutations ++ more.1,
      ))

  unfoldable pub add_variables :
      List FunctionVariable → Result (List FunctionVariable × List SecretMutation)
  add_variables [] = ok ([], [])
  add_variables (variable ∷ rest) = add (function_kind variable.name) variable.value >>= λ a.
      (add_variables rest >>= λ more.
      ok (record variable { value = a.input; value_set = a.set } ∷ more.0, a.mutations ++ more.1))

  -- the configuration with the six results in place
  unfoldable pub with_added :
      ProjectConfiguration
      → Added
      → Added
      → Added
      → List (String × OauthProviderConfig)
      → Added
      → List FunctionVariable
      → ProjectConfiguration
  with_added cfg studio smtp phone oauth storage variables = record cfg {
    general = record cfg.general {
      studio_password = studio.input;
      studio_password_set = studio.set;
    };
    auth = record cfg.auth {
      smtp = record cfg.auth.smtp { password = smtp.input; password_set = smtp.set };
      phone = record cfg.auth.phone { secret = phone.input; secret_set = phone.set };
      oauth = oauth;
    };
    storage = record cfg.storage {
      secret_access_key = storage.input;
      secret_access_key_set = storage.set;
    };
    functions = record cfg.functions { variables = variables };
  }

  unfoldable pub encrypt_configuration_secrets :
      ProjectConfiguration → Result (ProjectConfiguration × List SecretMutation)
  encrypt_configuration_secrets cfg =
      add "studio.password" cfg.general.studio_password >>= λ studio.
      (add "smtp.password" cfg.auth.smtp.password >>= λ smtp.
      (add "phone.secret" cfg.auth.phone.secret >>= λ phone.
      (add_oauth cfg.auth.oauth >>= λ oauth.
      (add "storage.secretAccessKey" cfg.storage.secret_access_key >>= λ storage.
      (add_variables cfg.functions.variables >>= λ variables. ok (
        with_added cfg studio smtp phone oauth.0 storage variables.0,
        studio.mutations
            ++ (smtp.mutations
                ++ (phone.mutations ++ (oauth.1 ++ (storage.mutations ++ variables.1)))),
      ))))))

abbrev pub redact_provider : String × OauthProviderConfig → String × OauthProviderConfig
redact_provider (name, p) = (name, record p { secret = no_secret })

abbrev pub redact_variable : FunctionVariable → FunctionVariable
redact_variable v = record v { value = no_secret }

-- the studio password is not among what it clears
unfoldable pub redact_configuration : ProjectConfiguration → ProjectConfiguration
redact_configuration cfg = record cfg {
  auth = record cfg.auth {
    smtp = record cfg.auth.smtp { password = no_secret };
    phone = record cfg.auth.phone { secret = no_secret };
    oauth = map redact_provider cfg.auth.oauth;
  };
  storage = record cfg.storage { secret_access_key = no_secret };
  functions = record cfg.functions { variables = map redact_variable cfg.functions.variables };
}
