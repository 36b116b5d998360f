-- ===== src/Installer/Credentials.antt =====
-- The credentials of a server in apps/manager/internal/install/orchestrator.go: loadPersistedSecrets,
-- persistSecrets, applyConfiguredStudioPassword and hydrateConfiguredSecrets.
use supabase_installer.Prelude.{
  String, Bool, ◌&&◌, not, Option, none, some, List, [], ◌∷◌, ◌++◌, same, any, if◌then◌else◌, Text,
  is_nil,
}
use supabase_installer.Contracts.Configuration.{
  OauthProviderConfig, FunctionVariable, ProjectConfiguration,
}
use supabase_installer.Errors.{
  Result, ok, err, is_not_found, secret_unavailable, cipher_unavailable,
}
use supabase_installer.Db.{Db, pure, raise, lift, attempt, ◌>>=◌, ◌>>◌}
use supabase_installer.Store.Secrets.{get_secret, put_secret}
use supabase_installer.Secrets.{Cipher, oauth_kind, function_kind}
use supabase_installer.Installer.{ProjectSecrets, Spec}

pub record Loaded : Type 0 where
  pub secrets : ProjectSecrets
  pub found : List String

abbrev pub has : String → List String → Bool
has kind found = any (same kind) found

module _ (cipher : Cipher) (project : String) where
  abbrev keep : Spec → Loaded → Text → Loaded
  keep spec loaded plain = record {
    secrets = spec.set loaded.secrets plain;
    found = spec.kind ∷ loaded.found;
  }

  -- no row: the next kind
  abbrev pub take_secret : Spec → Loaded → Result String → Db Loaded
  take_secret spec loaded (ok envelope) =
      lift (cipher.decrypt project spec.kind envelope) >>= λ plain. pure (keep spec loaded plain)
  take_secret spec loaded (err e) = if is_not_found e then pure loaded else raise e

  unfoldable pub load_specs : List Spec → Loaded → Db Loaded
  load_specs [] loaded = pure loaded
  load_specs (spec ∷ specs) loaded = do
    envelope ← attempt (get_secret project spec.kind)
    next ← take_secret spec loaded envelope
    load_specs specs next

  -- the range over the map of values is in the order of the specs
  unfoldable pub persist_secrets : List Spec → ProjectSecrets → List String → Db (Unit {0})
  persist_secrets [] generated existing = pure tt
  persist_secrets (spec ∷ specs) generated existing =
      (if has spec.kind existing then pure tt else do
        envelope ← lift (cipher.encrypt project spec.kind (spec.get generated))
        put_secret project spec.kind envelope)
      >> persist_secrets specs generated existing

-- a secret that is not stored is taken from a fresh set
abbrev pub completed : List Spec → ProjectSecrets → Loaded → ProjectSecrets
completed [] fresh loaded = loaded.secrets
completed (spec ∷ specs) fresh loaded =
    let rest = completed specs fresh loaded in
    if has spec.kind loaded.found then rest else spec.set rest (spec.get fresh)

abbrev with_dashboard : ProjectSecrets → Text → ProjectSecrets
with_dashboard secrets plain = record secrets { dashboard_password = plain }

module _ (cipher : Cipher) (project : String) where
  -- the password of the dashboard stays where none of the studio is stored
  abbrev pub studio_password : ProjectSecrets → Result String → Db ProjectSecrets
  studio_password secrets (ok envelope) =
      lift (cipher.decrypt project "studio.password" envelope) >>= λ plain.
      pure (with_dashboard secrets plain)
  studio_password secrets (err e) =
      if not (is_not_found e)
      then raise e
      else (if is_nil secrets.dashboard_password then raise secret_unavailable else pure secrets)

  unfoldable pub apply_configured_studio_password :
      ProjectConfiguration → ProjectSecrets → Db ProjectSecrets
  apply_configured_studio_password cfg secrets =
      if not cfg.general.studio_password_set then pure secrets else do
        envelope ← attempt (get_secret project "studio.password")
        studio_password secrets envelope

abbrev required_secret : Result String → Result String
required_secret (ok envelope) = ok envelope
required_secret (err e) = err (if is_not_found e then secret_unavailable else e)

module _ (cipher : Cipher) (project : String) where
  -- the kind in the store is the kind of the runtime
  unfoldable pub hydrate : String → Bool → List (String × Text) → Db (List (String × Text))
  hydrate kind required runtime = if not required then pure runtime else do
    found ← attempt (get_secret project kind)
    envelope ← lift (required_secret found)
    plain ← lift (cipher.decrypt project kind envelope)
    pure (runtime ++ (kind, plain) ∷ [])

  unfoldable pub hydrate_oauth :
      Bool → List (String × OauthProviderConfig) → List (String × Text) → Db (List (String × Text))
  hydrate_oauth enabled [] runtime = pure runtime
  hydrate_oauth enabled ((provider, value) ∷ rest) runtime =
      hydrate (oauth_kind provider) (enabled && value.enabled && value.secret_set) runtime
      >>= hydrate_oauth enabled rest

  unfoldable pub hydrate_variables :
      Bool → List FunctionVariable → List (String × Text) → Db (List (String × Text))
  hydrate_variables enabled [] runtime = pure runtime
  hydrate_variables enabled (variable ∷ rest) runtime =
      hydrate (function_kind variable.name) (enabled && variable.value_set) runtime
      >>= hydrate_variables enabled rest

  unfoldable pub hydrate_all : ProjectConfiguration → Db (List (String × Text))
  hydrate_all cfg =
      hydrate "smtp.password"
        (cfg.services.auth && cfg.auth.smtp.enabled && cfg.auth.smtp.password_set) []
      >>= hydrate "phone.secret"
          (cfg.services.auth && cfg.auth.phone.enabled && cfg.auth.phone.secret_set)
      >>= hydrate_oauth cfg.services.auth cfg.auth.oauth
      >>= hydrate "storage.secretAccessKey"
          (cfg.services.storage && cfg.storage.secret_access_key_set)
      >>= hydrate_variables cfg.services.functions cfg.functions.variables

-- a nil cipher refuses
unfoldable pub hydrate_configured_secrets :
    Option Cipher → String → ProjectConfiguration → Db (List (String × Text))
hydrate_configured_secrets none project cfg = raise cipher_unavailable
hydrate_configured_secrets (some cipher) project cfg = hydrate_all cipher project cfg
