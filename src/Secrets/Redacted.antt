-- ===== src/Secrets/Redacted.antt =====
-- The secrets that stay in a configuration after encryptConfigurationSecrets and redactConfiguration.
use supabase_installer.Prelude.{
  String, Bool, true, false, ◌||◌, Option, some, List, [], ◌∷◌, map, ◌≡◌, refl, subst, sym, ap, ◌↔◌,
  same, if◌then◌else◌, is_nil, All,
}
use supabase_installer.Contracts.Configuration.{
  SecretInput, OauthProviderConfig, FunctionVariable, ProjectConfiguration,
}
use supabase_installer.Errors.{external, Result, ok, err, >>=-ok, ◌>>=◌, ok-injective}
use supabase_installer.Secrets.{
  Cipher, SecretMutation, no_secret, oauth_kind, function_kind, Added, encrypted, add, add_oauth,
  add_variables, with_added, encrypt_configuration_secrets, redact_provider, redact_variable,
  redact_configuration,
}

abbrev pub ClearProvider : String × OauthProviderConfig → Type 0
ClearProvider p = p.1.secret ≡ no_secret

abbrev pub ClearVariable : FunctionVariable → Type 0
ClearVariable v = v.value ≡ no_secret

-- no secret, and no command for one, is in the configuration
pub record HoldsNoSecret (cfg : ProjectConfiguration) : Type 0 where
  pub studio : cfg.general.studio_password ≡ no_secret
  pub smtp : cfg.auth.smtp.password ≡ no_secret
  pub phone : cfg.auth.phone.secret ≡ no_secret
  pub oauth : All ClearProvider cfg.auth.oauth
  pub storage : cfg.storage.secret_access_key ≡ no_secret
  pub variables : All ClearVariable cfg.functions.variables

abbrev input_of : Result Added → SecretInput
input_of (ok a) = a.input
input_of (err e) = no_secret

clear :
    (empty replace blank other : Bool) (kind : String) (r : Result String) {a : Added}
    → (if empty
        then ok (record { input = no_secret; set = false; mutations = [] })
        else (if replace
            then (if blank
                then err (external "replace requires a value")
                else (r >>= λ envelope. ok (record {
                  input = no_secret;
                  set = true;
                  mutations = record { kind = kind; envelope = some envelope } ∷ [];
                })))
            else (if other
                then err (external "cannot be used during server creation")
                else err (external "unknown secret action"))))
      ≡ ok a
    → a.input ≡ no_secret
clear true replace blank other kind r h = ap input_of (sym h)
clear false true true other kind r h = cc
clear false true false other kind (ok envelope) h = ap input_of (sym h)
clear false true false other kind (err e) h = cc
clear false false blank true kind r h = cc
clear false false blank false kind r h = cc

module _ (cipher : Option Cipher) (project : String) where
  add-clears :
      (kind : String) (input : SecretInput) {a : Added}
      → add cipher project kind input ≡ ok a
      → a.input ≡ no_secret
  unfolding add
  add-clears kind input {a} h =
      clear (same input.action "") (same input.action "replace") (is_nil input.value)
        (same input.action "retain" || same input.action "remove") kind
        (encrypted cipher project kind input.value) h

  add_oauth-clears :
      (providers : List (String × OauthProviderConfig))
      {done : List (String × OauthProviderConfig) × List SecretMutation}
      → add_oauth cipher project providers ≡ ok done
      → All ClearProvider done.0
  unfolding add_oauth
  add_oauth-clears [] h = subst (λ d. All ClearProvider (d.0)) (ok-injective h) tt
  add_oauth-clears ((provider, config) ∷ rest) h =
      let one = >>=-ok (add cipher project (oauth_kind provider) config.secret) _ h in
      let more = >>=-ok (add_oauth cipher project rest) _ one.second in
      subst (λ d. All ClearProvider (d.0)) (ok-injective more.second)
        (add-clears (oauth_kind provider) config.secret one.first, add_oauth-clears rest more.first)

  add_variables-clears :
      (variables : List FunctionVariable) {done : List FunctionVariable × List SecretMutation}
      → add_variables cipher project variables ≡ ok done
      → All ClearVariable done.0
  unfolding add_variables
  add_variables-clears [] h = subst (λ d. All ClearVariable (d.0)) (ok-injective h) tt
  add_variables-clears (variable ∷ rest) h =
      let one = >>=-ok (add cipher project (function_kind variable.name) variable.value) _ h in
      let more = >>=-ok (add_variables cipher project rest) _ one.second in
      subst (λ d. All ClearVariable (d.0)) (ok-injective more.second)
        (
          add-clears (function_kind variable.name) variable.value one.first,
          add_variables-clears rest more.first,
        )

  -- When the secrets of a new server's configuration have been encrypted, none is left in the configuration, and no command
  -- for one.
  pub encrypt_configuration_secrets-HoldsNoSecret :
      (cfg : ProjectConfiguration) (kept : ProjectConfiguration) (mutations : List SecretMutation)
      → encrypt_configuration_secrets cipher project cfg ≡ ok (kept, mutations)
      → HoldsNoSecret kept
  unfolding encrypt_configuration_secrets with_added
  encrypt_configuration_secrets-HoldsNoSecret cfg kept mutations h =
      let studio = >>=-ok (add cipher project "studio.password" cfg.general.studio_password) _ h in
      let smtp =
        >>=-ok (add cipher project "smtp.password" cfg.auth.smtp.password) _ studio.second in
      let phone = >>=-ok (add cipher project "phone.secret" cfg.auth.phone.secret) _ smtp.second in
      let oauth = >>=-ok (add_oauth cipher project cfg.auth.oauth) _ phone.second in
      let storage =
        >>=-ok (add cipher project "storage.secretAccessKey" cfg.storage.secret_access_key) _
          oauth.second in
      let variables =
        >>=-ok (add_variables cipher project cfg.functions.variables) _ storage.second in
      subst (λ d. HoldsNoSecret (d.0)) (ok-injective variables.second)
        (record {
          studio = add-clears "studio.password" cfg.general.studio_password studio.first;
          smtp = add-clears "smtp.password" cfg.auth.smtp.password smtp.first;
          phone = add-clears "phone.secret" cfg.auth.phone.secret phone.first;
          oauth = add_oauth-clears cfg.auth.oauth oauth.first;
          storage =
              add-clears "storage.secretAccessKey" cfg.storage.secret_access_key storage.first;
          variables = add_variables-clears cfg.functions.variables variables.first;
        })

redact-providers :
    (providers : List (String × OauthProviderConfig))
    → All ClearProvider (map redact_provider providers)
redact-providers [] = tt
redact-providers ((name, p) ∷ rest) = (refl, redact-providers rest)

redact-variables :
    (variables : List FunctionVariable) → All ClearVariable (map redact_variable variables)
redact-variables [] = tt
redact-variables (v ∷ rest) = (refl, redact-variables rest)

-- A configuration that has been redacted holds no secret exactly when the password of the studio was clear before it: redaction
-- clears every other secret, and leaves this one.
pub redact_configuration-HoldsNoSecret :
    (cfg : ProjectConfiguration)
    → HoldsNoSecret (redact_configuration cfg) ↔ (cfg.general.studio_password ≡ no_secret)
unfolding redact_configuration
redact_configuration-HoldsNoSecret cfg = (
  (λ (h : HoldsNoSecret (redact_configuration cfg)). h.studio),
  (λ clear_studio. record {
    studio = clear_studio;
    smtp = refl;
    phone = refl;
    oauth = redact-providers cfg.auth.oauth;
    storage = refl;
    variables = redact-variables cfg.functions.variables;
  }),
)
