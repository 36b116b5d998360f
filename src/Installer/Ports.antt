-- ===== src/Installer/Ports.antt =====
-- allocateConfigurationPorts in apps/manager/internal/install/orchestrator.go.
use supabase_installer.Prelude.{
  ℕ, String, Bool, Option, none, some, List, [], ◌∷◌, ◌++◌, if◌then◌else◌, ℤ, pos,
}
use supabase_installer.Contracts.Configuration.{ProjectConfiguration}
use supabase_installer.Db.{Db, pure, ◌>>=◌, ◌>>◌}
use supabase_installer.Ports.{Allocator, Ports, port_at, reserve_many, release}

abbrev pub kinds_of : ProjectConfiguration → List String
kinds_of cfg =
    "API"
    ∷ ((if cfg.services.studio then "STUDIO" ∷ [] else [])
        ++ ((if cfg.services.direct_db then "DATABASE" ∷ [] else [])
            ++ (if cfg.services.supavisor
                then "POOLER_TRANSACTION" ∷ "POOLER_SESSION" ∷ []
                else [])))

-- allocated[kind], 0 if there is none
abbrev number : Option ℕ → ℤ
number none = pos 0
number (some port) = pos port

abbrev allocated_port : String → Ports → ℤ
allocated_port kind ports = number (port_at kind ports)

abbrev pub with_ports : ProjectConfiguration → Ports → ProjectConfiguration
with_ports cfg ports =
    let direct = if cfg.services.direct_db then allocated_port "DATABASE" ports else pos 0 in
    record cfg {
      database = record cfg.database {
        direct_port = cfg.services.direct_db;
        direct_port_number = direct;
      };
      pooler = record cfg.pooler {
        transaction_port =
            if cfg.services.supavisor
            then allocated_port "POOLER_TRANSACTION" ports
            else cfg.pooler.transaction_port;
        session_port =
            if cfg.services.supavisor
            then allocated_port "POOLER_SESSION" ports
            else cfg.pooler.session_port;
      };
      network = record cfg.network {
        api_port = allocated_port "API" ports;
        studio_port = allocated_port "STUDIO" ports;
        direct_database_port = direct;
        pooler_port = pos 0;
      };
    }

abbrev unless_enabled : Bool → Db (Unit {0}) → Db (Unit {0})
unless_enabled enabled m = if enabled then pure tt else m

unfoldable pub allocate_configuration_ports :
    Allocator → String → ℕ → ProjectConfiguration → Db ProjectConfiguration
allocate_configuration_ports allocator project now cfg =
    unless_enabled cfg.services.studio (release project "STUDIO")
    >> unless_enabled cfg.services.direct_db (release project "DATABASE")
    >> unless_enabled cfg.services.supavisor
        (release project "POOLER_TRANSACTION" >> release project "POOLER_SESSION")
    >> (reserve_many allocator project (kinds_of cfg) now >>= λ ports. pure (with_ports cfg ports))
