-- ===== src/Store/Configuration.antt =====
-- The canonical configuration of a server in apps/manager/internal/store/configuration.go: reading it, writing it
-- after its ports have been allocated, and marking it as applied. JSON columns are the values that they encode.
use supabase_installer.Prelude.{
  ℕ, String, Bool, true, ◌&&◌, ◌||◌, not, Option, none, some, List, [], ◌∷◌, ◌++◌, ◌==◌, same,
  if◌then◌else◌, find, update, delete, affected, any, ℤ, pos, negsuc,
}
use supabase_installer.Contracts.{Project, Services}
use supabase_installer.Contracts.Configuration.{ProjectConfiguration}
use supabase_installer.Errors.{Result, ok, err, not_found, driver}
use supabase_installer.Db.{Db, pure, raise, lift, statement, query, in_tx, ◌>>=◌, ◌>>◌}
use supabase_installer.Db.Schema.{
  Tables, ConfigurationRow, AggregateRow, ServiceRow, LastGoodRow, ReservationRow,
}
use supabase_installer.Store.Projects.{is_project}
use supabase_installer.Store.Ports.{has_kind, has_port}
use supabase_installer.Secrets.{redact_configuration}

pub record ConfigurationSnapshot : Type 0 where
  pub project_id : String
  pub revision : ℕ
  pub last_good_revision : ℕ
  pub configuration : ProjectConfiguration

abbrev pub is_configuration : String → ConfigurationRow → Bool
is_configuration project row = same row.project_id project

abbrev pub is_aggregate : String → ℕ → AggregateRow → Bool
is_aggregate project revision row = same row.project_id project && row.revision == revision

abbrev is_last_good : String → LastGoodRow → Bool
is_last_good project row = same row.project_id project

abbrev last_good_of : Option LastGoodRow → ℕ
last_good_of none = 0
last_good_of (some row) = row.revision

abbrev revision_of : Option Project → ℕ
revision_of none = 0
revision_of (some p) = p.configuration_revision

-- the row of the join of projects and project_configuration
abbrev pub joined :
    String → Tables → Option Project → Option ConfigurationRow → Result ConfigurationSnapshot
joined id t (some p) (some row) = ok (record {
  project_id = p.id;
  revision = p.configuration_revision;
  last_good_revision = last_good_of (find (is_last_good id) t.last_good);
  configuration = record (redact_configuration row.configuration) {
    revision = p.configuration_revision;
  };
})
joined id t _ _ = err not_found

unfoldable pub get_desired_configuration : String → Db ConfigurationSnapshot
get_desired_configuration id = do
  row ← query (λ t.
      joined id t (find (is_project id) t.projects) (find (is_configuration id) t.configurations))
  lift row

abbrev pub forget_reservations : String → Tables → Tables
forget_reservations id t = record t {
  reservations = delete (λ (row : ReservationRow). same row.project_id id) t.reservations;
}

unfoldable pub commit_canonical_configuration : String → ℕ → Db (Unit {0})
commit_canonical_configuration id now = in_tx do
  count ← statement λ t. ok (
    affected (is_project id) t.projects,
    record t {
      projects = update (is_project id) (λ p. record p { updated_at = now }) t.projects;
      last_good =
          update (is_last_good id)
            (λ row. record row { revision = revision_of (find (is_project id) t.projects) })
            t.last_good;
    },
  )
  if not (count == 1) then raise not_found else statement (λ t. ok (tt, forget_reservations id t))

-- INSERT ... ON CONFLICT(project_id) DO UPDATE
abbrev pub put_configuration :
    String → ProjectConfiguration → ℕ → List ConfigurationRow → List ConfigurationRow
put_configuration id cfg now rows =
    if any (is_configuration id) rows
    then update (is_configuration id) (λ row. record row { configuration = cfg; updated_at = now })
        rows
    else rows ++ record { project_id = id; configuration = cfg; updated_at = now } ∷ []

unfoldable pub write_canonical : String → ProjectConfiguration → ℕ → Db (Unit {0})
write_canonical id cfg now = statement λ t.
    if any (is_project id) t.projects
    then ok (tt, record t { configurations = put_configuration id cfg now t.configurations })
    else err driver

-- projectServiceProjection
abbrev pub project_service_projection : Services → List (String × Bool)
project_service_projection s =
    ("database", s.database)
    ∷ ("gateway", s.gateway)
    ∷ ("auth", s.auth)
    ∷ ("rest", s.rest)
    ∷ ("studio", s.studio)
    ∷ ("postgresMeta", s.postgres_meta)
    ∷ ("realtime", s.realtime)
    ∷ ("storage", s.storage)
    ∷ ("imgproxy", s.imgproxy)
    ∷ ("functions", s.functions)
    ∷ ("supavisor", s.supavisor)
    ∷ ("logs", s.logs)
    ∷ ("vector", s.vector)
    ∷ ("directDb", s.direct_db)
    ∷ []

abbrev is_service : String → String → ServiceRow → Bool
is_service id name row = same row.project_id id && same row.service name

unfoldable pub insert_services : String → List (String × Bool) → Db (Unit {0})
insert_services id [] = pure tt
insert_services id ((name, enabled) ∷ rest) =
    statement (λ t.
      if any (is_service id name) t.project_services || not (any (is_project id) t.projects)
      then err driver
      else ok (
        tt {0},
        record t {
          project_services =
              t.project_services
              ++ record { project_id = id; service = name; enabled = enabled } ∷ [];
        },
      ))
    >> insert_services id rest

pub record PortProjection : Type 0 where
  pub kind : String
  pub port : ℤ
  pub enabled : Bool

abbrev pub port_projections : ProjectConfiguration → List PortProjection
port_projections cfg =
    record { kind = "API"; port = cfg.network.api_port; enabled = true }
    ∷ record { kind = "STUDIO"; port = cfg.network.studio_port; enabled = cfg.services.studio }
    ∷ record {
      kind = "DATABASE";
      port = cfg.network.direct_database_port;
      enabled = cfg.services.direct_db;
    }
    ∷ record { kind = "POOLER"; port = cfg.network.pooler_port; enabled = cfg.services.supavisor }
    ∷ record {
      kind = "POOLER_TRANSACTION";
      port = cfg.pooler.transaction_port;
      enabled = cfg.services.supavisor;
    }
    ∷ record {
      kind = "POOLER_SESSION";
      port = cfg.pooler.session_port;
      enabled = cfg.services.supavisor;
    }
    ∷ []

-- a port that is taken breaks the primary key; a negative one, which no accepted configuration has, is left out
unfoldable pub insert_port : String → String → ℕ → ℤ → Db (Unit {0})
insert_port id kind now (negsuc n) = pure tt
insert_port id kind now (pos n) =
    if n == 0
    then pure tt
    else statement λ t.
      if any (has_port n) t.allocations
        || any (has_kind id kind) t.allocations
        || not (any (is_project id) t.projects)
      then err driver
      else ok (
        tt,
        record t {
          allocations =
              t.allocations
              ++ record { port = n; project_id = id; kind = kind; created_at = now } ∷ [];
        },
      )

unfoldable pub replace_ports : String → ℕ → List PortProjection → Db (Unit {0})
replace_ports id now [] = pure tt
replace_ports id now (p ∷ rest) =
    statement
      (λ t. ok (tt {0}, record t { allocations = delete (has_kind id p.kind) t.allocations }))
    >> (if p.enabled then insert_port id p.kind now p.port else pure tt)
    >> replace_ports id now rest

unfoldable pub update_canonical_projection : String → ProjectConfiguration → ℕ → Db (Unit {0})
update_canonical_projection id cfg now =
    write_canonical id (redact_configuration cfg) now
    >> statement (λ t. ok (
      tt {0},
      record t {
        projects =
            update (is_project id)
              (λ p. record p {
                domain = cfg.general.domain;
                site_url = cfg.general.site_url;
                supabase_version = cfg.general.supabase_version;
                services = cfg.services;
                updated_at = now;
              })
              t.projects;
      },
    ))
    >> statement (λ t. ok (
      tt {0},
      record t {
        project_services = delete (λ (row : ServiceRow). same row.project_id id) t.project_services;
      },
    ))
    >> insert_services id (project_service_projection cfg.services)
    >> replace_ports id now (port_projections cfg)

abbrev scan_revision : Option Project → Result ℕ
scan_revision none = err not_found
scan_revision (some p) = ok p.configuration_revision

unfoldable pub write_aggregate : String → ℕ → ProjectConfiguration → Db (Unit {0})
write_aggregate id revision cfg = do
  count ← statement λ t. ok (
    affected (is_aggregate id revision) t.aggregates,
    record t {
      aggregates =
          update (is_aggregate id revision) (λ row. record row { configuration = cfg })
            t.aggregates;
    },
  )
  if count == 0 then raise not_found else pure tt

unfoldable pub persist_at : String → ProjectConfiguration → ℕ → ℕ → Db (Unit {0})
persist_at id cfg now revision =
    let revised = record cfg { revision = revision } in
    write_aggregate id revision (redact_configuration revised)
    >> write_canonical id (redact_configuration revised) now
    >> update_canonical_projection id revised now

unfoldable pub persist_allocated_configuration : String → ProjectConfiguration → ℕ → Db (Unit {0})
persist_allocated_configuration id cfg now = in_tx do
  row ← query (λ t. find (is_project id) t.projects)
  revision ← lift (scan_revision row)
  persist_at id cfg now revision
