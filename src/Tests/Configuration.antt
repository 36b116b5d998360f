-- ===== src/Tests/Configuration.antt =====
-- The secrets of a configuration, and the leases of apps/manager/internal/store/configuration.go.
use supabase_installer.Prelude.{
  ℕ, Bool, true, none, some, List, [], ◌∷◌, ◌≡◌, refl, ◌↔◌, ◌==◌, codes, arith,
}
use supabase_installer.Contracts.{full}
use supabase_installer.Contracts.Configuration.{ProjectConfiguration}
use supabase_installer.Errors.{Result, ok, err, not_found}
use supabase_installer.Db.{pure, query, statement, ◌>>=◌}
use supabase_installer.Db.Laws.{calm}
use supabase_installer.Db.Schema.{Tables, LeaseRow}
use supabase_installer.Validation.Presets.{
  apply_configuration_preset, default_configuration, default_auth, apply_preset, closed_services,
}
use supabase_installer.Secrets.{
  Cipher, SecretMutation, no_secret, add, add_oauth, add_variables, with_added,
  encrypt_configuration_secrets, redact_configuration,
}
use supabase_installer.Secrets.Redacted.{
  HoldsNoSecret, encrypt_configuration_secrets-HoldsNoSecret, redact_configuration-HoldsNoSecret,
}
use supabase_installer.Store.Secrets.{get_secret}
use supabase_installer.Store.Secrets.Refinement.{put, remove, execute_all, get_secret-execute_all}
use supabase_installer.Store.Times.{time_at_most}
use supabase_installer.Store.Leases.{owns, validate_owner, acquire_for_operation}
use supabase_installer.Store.Leases.Exclusive.{acquire_for_operation-owns}
use supabase_installer.Tests.Operations

abbrev pub cipher : Cipher
cipher = record { encrypt = λ p k t. ok "sealed"; decrypt = λ p k e. ok (codes "plain") }

-- a password for the studio is sent with the request
abbrev wanted : ProjectConfiguration
wanted =
    let cfg = apply_configuration_preset full in
    record cfg {
      general = record cfg.general {
        studio_password = record { action = "replace"; value = codes "studio-password" };
      };
    }

abbrev kept : Result (ProjectConfiguration × List SecretMutation) → ProjectConfiguration
kept (ok (cfg, _)) = cfg
kept (err e) = wanted

abbrev mutations : Result (ProjectConfiguration × List SecretMutation) → List SecretMutation
mutations (ok (_, ms)) = ms
mutations (err e) = []

abbrev sealed : Result (ProjectConfiguration × List SecretMutation)
sealed = encrypt_configuration_secrets (some cipher) "p" wanted

seals : encrypt_configuration_secrets (some cipher) "p" wanted ≡ ok (kept sealed, mutations sealed)
unfolding encrypt_configuration_secrets add add_oauth add_variables with_added
    apply_configuration_preset default_configuration default_auth closed_services apply_preset
seals = refl

encrypt_configuration_secrets-HoldsNoSecret_example : HoldsNoSecret (kept sealed)
encrypt_configuration_secrets-HoldsNoSecret_example =
    encrypt_configuration_secrets-HoldsNoSecret (some cipher) "p" wanted (kept sealed)
      (mutations sealed) seals

redact_configuration-HoldsNoSecret_example :
    HoldsNoSecret (redact_configuration wanted) ↔ (wanted.general.studio_password ≡ no_secret)
redact_configuration-HoldsNoSecret_example = redact_configuration-HoldsNoSecret wanted

get_secret-execute_all_example :
    (get_secret "p" "jwt-secret" (
      execute_all
        (put "p" "jwt-secret" "one" ∷ put "p" "anon-key" "two" ∷ remove "p" "jwt-secret" ∷ [])
        (calm Operations.waiting))).0
    ≡ err not_found
get_secret-execute_all_example =
    get_secret-execute_all
      (put "p" "jwt-secret" "one" ∷ put "p" "anon-key" "two" ∷ remove "p" "jwt-secret" ∷ [])
      Operations.waiting "p" "jwt-secret"

abbrev lease : LeaseRow
lease = record {
  project_id = "p";
  owner = "op";
  fence = 3;
  acquired_at = 0;
  expires_at = 9000000000;
}

abbrev leased : Tables
leased = record Operations.waiting { leases = lease ∷ [] }

abbrev is_space : ℕ → Bool
is_space c = c == 32

owned : owns is_space "p" "op" 3 5000000000 (calm leased) ≡ (ok true, calm leased)
unfolding owns validate_owner time_at_most query statement ◌>>=◌ pure
owned = refl

valid : validate_owner is_space "other" 1 ≡ ok tt
unfolding validate_owner
valid = refl

acquire_for_operation-owns_example :
    acquire_for_operation is_space "p" "other" "other" 5000000000 1 (calm leased)
    ≡ (ok none, calm leased)
acquire_for_operation-owns_example =
    acquire_for_operation-owns is_space "p" "op" 3 5000000000 leased (calm leased) (omega arith)
      owned "other" 1 valid refl

-- a lease that expires half a second later counts as expired
half_second : time_at_most 1500000000 1000000000 ≡ true
unfolding time_at_most
half_second = refl
