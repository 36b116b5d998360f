-- ===== src/Installer/Kept.antt =====
-- The credentials and the steps of apps/manager/internal/install/orchestrator.go: what they leave alone.
use supabase_installer.Prelude.{String, Bool, Option, none, some, List, [], ◌∷◌, Text}
use supabase_installer.Contracts.{Project, Operation}
use supabase_installer.Contracts.Configuration.{
  ProjectConfiguration, OauthProviderConfig, FunctionVariable,
}
use supabase_installer.Errors.{Result, ok, err}
use supabase_installer.Db.{attempt}
use supabase_installer.Db.Frame.{Keeps, Keeps-bind, frame_rules}
use supabase_installer.Store.Secrets.{get_secret}
use supabase_installer.Secrets.{Cipher}
use supabase_installer.Installer.{ProjectSecrets, Spec}
use supabase_installer.Installer.Credentials.{
  Loaded, take_secret, load_specs, persist_secrets, studio_password,
  apply_configured_studio_password, hydrate, hydrate_oauth, hydrate_variables, hydrate_all,
  hydrate_configured_secrets,
}
use supabase_installer.Installer.Run.{Orchestrator, allocated, generated, persisted, check_health}
use supabase_installer.Installer.Aside.{
  aside, get_secret-Keeps, put_secret-Keeps, allocate_configuration_ports-Keeps,
  persist_allocated_configuration-Keeps,
}

module _ (id : String) (cipher : Cipher) (project : String) where
  take_secret-Keeps :
      (spec : Spec) (loaded : Loaded) (r : Result String)
      → Keeps (aside id) (take_secret cipher project spec loaded r)
  take_secret-Keeps spec loaded (ok envelope) = search frame_rules
  take_secret-Keeps spec loaded (err e) = search frame_rules

  pub load_specs-Keeps :
      (specs : List Spec) (loaded : Loaded)
      → Keeps (aside id) (load_specs cipher project specs loaded)
  unfolding load_specs
  load_specs-Keeps [] loaded = search frame_rules
  load_specs-Keeps (spec ∷ specs) loaded =
      Keeps-bind (aside id) (attempt (get_secret project spec.kind)) _
        (search (frame_rules, get_secret-Keeps))
        (λ r.
          Keeps-bind (aside id) (take_secret cipher project spec loaded r)
            (load_specs cipher project specs) (take_secret-Keeps spec loaded r)
            (λ next. load_specs-Keeps specs next))

  pub persist_secrets-Keeps :
      (specs : List Spec) (generated : ProjectSecrets) (existing : List String)
      → Keeps (aside id) (persist_secrets cipher project specs generated existing)
  unfolding persist_secrets
  persist_secrets-Keeps [] generated existing = search frame_rules
  persist_secrets-Keeps (spec ∷ specs) generated existing =
      Keeps-bind (aside id) _ _ (search (frame_rules, put_secret-Keeps))
        (λ _. persist_secrets-Keeps specs generated existing)

  studio_password-Keeps :
      (secrets : ProjectSecrets) (r : Result String)
      → Keeps (aside id) (studio_password cipher project secrets r)
  studio_password-Keeps secrets (ok envelope) = search frame_rules
  studio_password-Keeps secrets (err e) = search frame_rules

  pub apply_configured_studio_password-Keeps :
      (cfg : ProjectConfiguration) (secrets : ProjectSecrets)
      → Keeps (aside id) (apply_configured_studio_password cipher project cfg secrets)
  unfolding apply_configured_studio_password
  apply_configured_studio_password-Keeps cfg secrets =
      search (frame_rules, get_secret-Keeps, studio_password-Keeps)

  hydrate-Keeps :
      (kind : String) (required : Bool) (runtime : List (String × Text))
      → Keeps (aside id) (hydrate cipher project kind required runtime)
  unfolding hydrate
  hydrate-Keeps kind required runtime = search (frame_rules, get_secret-Keeps) depth 8

  hydrate_oauth-Keeps :
      (enabled : Bool) (providers : List (String × OauthProviderConfig))
      (runtime : List (String × Text))
      → Keeps (aside id) (hydrate_oauth cipher project enabled providers runtime)
  unfolding hydrate_oauth
  hydrate_oauth-Keeps enabled [] runtime = search frame_rules
  hydrate_oauth-Keeps enabled ((provider, value) ∷ rest) runtime =
      Keeps-bind (aside id) _ (hydrate_oauth cipher project enabled rest) (search hydrate-Keeps)
        (λ next. hydrate_oauth-Keeps enabled rest next)

  hydrate_variables-Keeps :
      (enabled : Bool) (variables : List FunctionVariable) (runtime : List (String × Text))
      → Keeps (aside id) (hydrate_variables cipher project enabled variables runtime)
  unfolding hydrate_variables
  hydrate_variables-Keeps enabled [] runtime = search frame_rules
  hydrate_variables-Keeps enabled (variable ∷ rest) runtime =
      Keeps-bind (aside id) _ (hydrate_variables cipher project enabled rest) (search hydrate-Keeps)
        (λ next. hydrate_variables-Keeps enabled rest next)

  hydrate_all-Keeps :
      (cfg : ProjectConfiguration) → Keeps (aside id) (hydrate_all cipher project cfg)
  unfolding hydrate_all
  hydrate_all-Keeps cfg =
      search (Keeps-bind, hydrate-Keeps, hydrate_oauth-Keeps, hydrate_variables-Keeps) depth 8

pub hydrate_configured_secrets-Keeps :
    (id : String) (cipher : Option Cipher) (project : String) (cfg : ProjectConfiguration)
    → Keeps (aside id) (hydrate_configured_secrets cipher project cfg)
unfolding hydrate_configured_secrets
hydrate_configured_secrets-Keeps id none project cfg = search frame_rules
hydrate_configured_secrets-Keeps id (some cipher) project cfg =
    hydrate_all-Keeps id cipher project cfg

module _ (o : Orchestrator) (project : Project) (queued : Operation) where
  pub allocated-Keeps :
      (cfg : ProjectConfiguration) → Keeps (aside project.id) (allocated o project queued cfg)
  unfolding allocated
  allocated-Keeps cfg =
      search
        (frame_rules, allocate_configuration_ports-Keeps, persist_allocated_configuration-Keeps)

  pub generated-Keeps :
      (loaded : Loaded) → Keeps (aside project.id) (generated o project queued loaded)
  unfolding generated
  generated-Keeps loaded = search frame_rules

  pub persisted-Keeps :
      (loaded : Loaded) (secrets : ProjectSecrets)
      → Keeps (aside project.id) (persisted o project queued loaded secrets)
  unfolding persisted
  persisted-Keeps loaded secrets = search (frame_rules, persist_secrets-Keeps)

  pub check_health-Keeps :
      (cfg : ProjectConfiguration) → Keeps (aside project.id) (check_health o project queued cfg)
  unfolding check_health
  check_health-Keeps cfg = search frame_rules
