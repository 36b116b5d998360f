-- ===== src/Store/Leases.antt =====
-- The leases of apps/manager/internal/store/configuration.go: which operation may change the configuration of a
-- server, and under which fence. The spaces of Unicode are a parameter.
pub mod Exclusive
use supabase_installer.Prelude.{
  ℕ, ◌+◌, String, Bool, true, false, ◌&&◌, ◌||◌, not, Option, none, some, List, [], ◌∷◌, ◌++◌, ◌==◌,
  same, if◌then◌else◌, find, update, delete, affected, any, Text, codes, trim, is_nil,
}
use supabase_installer.Contracts.{Project}
use supabase_installer.Errors.{
  Error, Result, ok, err, not_found, driver, configuration_busy, blank_owner, bad_fence, external,
  is_busy,
}
use supabase_installer.Db.{Db, pure, raise, lift, statement, query, attempt, in_tx, ◌>>=◌, ◌>>◌}
use supabase_installer.Db.Schema.{Tables, LeaseRow, OperationConfigurationRow}
use supabase_installer.Store.Projects.{is_project}
use supabase_installer.Store.Times.{time_at_most}

pub record ConfigurationLease : Type 0 where
  pub owner : String
  pub fence : ℕ

-- the primary key
abbrev pub is_lease : String → LeaseRow → Bool
is_lease project row = same row.project_id project

abbrev pub held_by : String → ℕ → LeaseRow → Bool
held_by owner fence row = same row.owner owner && row.fence == fence

-- expires_at > now
abbrev pub is_live : ℕ → LeaseRow → Bool
is_live now row = not (time_at_most row.expires_at now)

abbrev pub new_lease : String → String → ℕ → ℕ → LeaseRow
new_lease project owner now ttl = record {
  project_id = project;
  owner = owner;
  fence = 1;
  acquired_at = now;
  expires_at = now + ttl;
}

abbrev pub take_over : String → ℕ → ℕ → LeaseRow → LeaseRow
take_over owner now ttl row = record row {
  owner = owner;
  fence = row.fence + 1;
  acquired_at = now;
  expires_at = now + ttl;
}

-- INSERT ... ON CONFLICT(project_id) DO UPDATE ... WHERE expires_at <= excluded.acquired_at
abbrev pub admit : String → String → ℕ → ℕ → Tables → Option LeaseRow → Result (ℕ × Tables)
admit project owner now ttl t none =
    if any (is_project project) t.projects
    then ok (1, record t { leases = t.leases ++ new_lease project owner now ttl ∷ [] })
    else err driver
admit project owner now ttl t (some row) =
    if is_live now row
    then ok (0, t)
    else ok (1, record t { leases = update (is_lease project) (take_over owner now ttl) t.leases })

unfoldable pub admit_lease : String → String → ℕ → ℕ → Db ℕ
admit_lease project owner now ttl =
    statement λ t. admit project owner now ttl t (find (is_lease project) t.leases)

abbrev fence_of : Option LeaseRow → Result ℕ
fence_of none = err not_found
fence_of (some row) = ok row.fence

abbrev is_command : String → String → OperationConfigurationRow → Bool
is_command operation project row = same row.operation_id operation && same row.project_id project

unfoldable pub bind_fence : String → String → ℕ → Db (Unit {0})
bind_fence operation project fence = do
  count ← statement λ t. ok (
    affected (is_command operation project) t.operation_configurations,
    record t {
      operation_configurations =
          update (is_command operation project) (λ row. record row { fence = fence })
            t.operation_configurations;
    },
  )
  if count == 1 then pure tt else raise not_found

-- after the upsert: the fence is read back and bound to the operation
unfoldable pub admitted : String → String → String → ℕ → Db ConfigurationLease
admitted project owner operation count = if not (count == 1) then raise configuration_busy else do
  row ← query (λ t. find (λ row. is_lease project row && same row.owner owner) t.leases)
  fence ← lift (fence_of row)
  _ ← bind_fence operation project fence
  pure (record { owner = owner; fence = fence })

-- the zero lease and false for a busy server
abbrev pub acquired : Result ConfigurationLease → Result (Option ConfigurationLease)
acquired (ok lease) = ok (some lease)
acquired (err e) = if is_busy e then ok none else err e

unfoldable pub acquire_tx : String → String → String → ℕ → ℕ → Db ConfigurationLease
acquire_tx project owner operation now ttl =
    in_tx (admit_lease project owner now ttl >>= admitted project owner operation)

module _ (is_space : ℕ → Bool) where
  unfoldable pub validate_owner : String → ℕ → Result (Unit {0})
  validate_owner owner fence =
      if is_nil (trim is_space (codes owner))
      then err blank_owner
      else (if fence == 0 then err bad_fence else ok tt)

  unfoldable pub renew : String → String → ℕ → ℕ → ℕ → Db Bool
  renew project owner fence now ttl = do
    _ ← lift (validate_owner owner fence)
    count ← statement λ t. ok (
      affected (λ row. is_lease project row && held_by owner fence row) t.leases,
      record t {
        leases =
            update (λ row. is_lease project row && held_by owner fence row)
              (λ row. record row { expires_at = now + ttl }) t.leases;
      },
    )
    pure (count == 1)

  unfoldable pub release_owned : String → String → ℕ → Db (Unit {0})
  release_owned project owner fence = do
    _ ← lift (validate_owner owner fence)
    statement λ t. ok (
      tt,
      record t {
        leases = delete (λ row. is_lease project row && held_by owner fence row) t.leases;
      },
    )

  unfoldable pub owns : String → String → ℕ → ℕ → Db Bool
  owns project owner fence now = do
    _ ← lift (validate_owner owner fence)
    count ← query λ t.
        affected (λ row. is_lease project row && (held_by owner fence row && is_live now row))
          t.leases
    pure (count == 1)

  unfoldable pub acquire_for_operation :
      String → String → String → ℕ → ℕ → Db (Option ConfigurationLease)
  acquire_for_operation project owner operation now ttl = do
    _ ← lift (validate_owner owner 1)
    if same operation "" || not (same operation owner)
        then raise (external "configuration lease owner must match operation id")
        else (attempt (acquire_tx project owner operation now ttl) >>= λ r. lift (acquired r))
