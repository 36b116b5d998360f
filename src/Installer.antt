-- ===== src/Installer.antt =====
-- apps/manager/internal/install/orchestrator.go: the installation of a server. The provisioner, the generator of
-- secrets and the cipher are parameters, and `clock` gives the readings of the clock.
pub mod Credentials
pub mod Ports
pub mod Run
pub mod Chain
pub mod Ready
pub mod Success
pub mod Failure
pub mod UnderWay
pub mod Ends
pub mod Aside
pub mod Kept
pub mod Bystanders
use supabase_installer.Prelude.{
  String, Bool, true, false, List, [], ◌∷◌, ◌++◌, if◌then◌else◌, Option, Text, ℤ,
}
use supabase_installer.Contracts.{Services, HealthStatus}
use supabase_installer.Contracts.Configuration.{ProjectConfiguration}
use supabase_installer.Errors.{Result}
use supabase_installer.Lifecycle.{LifecycleRequest}

-- contracts.ProjectSecrets
pub record ProjectSecrets : Type 0 where
  pub database_password : Text
  pub jwt_secret : Text
  pub anon_key : Text
  pub service_role_key : Text
  pub dashboard_password : Text
  pub secret_key_base : Text
  pub vault_encryption_key : Text
  pub realtime_db_encryption_key : Text
  pub logflare_public_access_token : Text
  pub logflare_private_access_token : Text
  pub s3_protocol_access_key_id : Text
  pub s3_protocol_access_key_secret : Text
  pub pooler_tenant_id : Text

-- the zero value
abbrev pub no_secrets : ProjectSecrets
no_secrets = record {
  database_password = [];
  jwt_secret = [];
  anon_key = [];
  service_role_key = [];
  dashboard_password = [];
  secret_key_base = [];
  vault_encryption_key = [];
  realtime_db_encryption_key = [];
  logflare_public_access_token = [];
  logflare_private_access_token = [];
  s3_protocol_access_key_id = [];
  s3_protocol_access_key_secret = [];
  pooler_tenant_id = [];
}

pub record Spec : Type 0 where
  pub kind : String
  pub set : ProjectSecrets → Text → ProjectSecrets
  pub get : ProjectSecrets → Text

abbrev pub persisted_project_secret_specs : List Spec
persisted_project_secret_specs =
    record {
      kind = "database-password";
      set = λ s v. record s { database_password = v };
      get = λ s. s.database_password;
    }
    ∷ record {
      kind = "jwt-secret";
      set = λ s v. record s { jwt_secret = v };
      get = λ s. s.jwt_secret;
    }
    ∷ record { kind = "anon-key"; set = λ s v. record s { anon_key = v }; get = λ s. s.anon_key }
    ∷ record {
      kind = "service-role-key";
      set = λ s v. record s { service_role_key = v };
      get = λ s. s.service_role_key;
    }
    ∷ record {
      kind = "dashboard-password";
      set = λ s v. record s { dashboard_password = v };
      get = λ s. s.dashboard_password;
    }
    ∷ record {
      kind = "secret-key-base";
      set = λ s v. record s { secret_key_base = v };
      get = λ s. s.secret_key_base;
    }
    ∷ record {
      kind = "vault-encryption-key";
      set = λ s v. record s { vault_encryption_key = v };
      get = λ s. s.vault_encryption_key;
    }
    ∷ record {
      kind = "realtime-db-encryption-key";
      set = λ s v. record s { realtime_db_encryption_key = v };
      get = λ s. s.realtime_db_encryption_key;
    }
    ∷ record {
      kind = "logflare-public-access-token";
      set = λ s v. record s { logflare_public_access_token = v };
      get = λ s. s.logflare_public_access_token;
    }
    ∷ record {
      kind = "logflare-private-access-token";
      set = λ s v. record s { logflare_private_access_token = v };
      get = λ s. s.logflare_private_access_token;
    }
    ∷ record {
      kind = "s3-protocol-access-key-id";
      set = λ s v. record s { s3_protocol_access_key_id = v };
      get = λ s. s.s3_protocol_access_key_id;
    }
    ∷ record {
      kind = "s3-protocol-access-key-secret";
      set = λ s v. record s { s3_protocol_access_key_secret = v };
      get = λ s. s.s3_protocol_access_key_secret;
    }
    ∷ record {
      kind = "pooler-tenant-id";
      set = λ s v. record s { pooler_tenant_id = v };
      get = λ s. s.pooler_tenant_id;
    }
    ∷ []

-- the idempotency key is the operation with ":reconcile"; the two revisions are 0 and 1
pub record ReconcileProjectRequest : Type 0 where
  pub operation_id : String
  pub project_id : String
  pub project_name : String
  pub slug : String
  pub api_port : ℤ
  pub configuration : ProjectConfiguration
  pub secrets : ProjectSecrets
  pub runtime_secrets : List (String × Text)

pub record InspectProjectRequest : Type 0 where
  pub project_id : String
  pub slug : String
  pub enabled_services : List String

pub record Runtime : Type 0 where
  pub reconcile : ReconcileProjectRequest → Result (Unit {0})
  pub lifecycle : LifecycleRequest → Result (Unit {0})
  pub inspect : InspectProjectRequest → Result HealthStatus

abbrev when : Bool → List String → List String
when enabled names = if enabled then names else []

unfoldable pub enabled_compose_services : Services → List String
enabled_compose_services s =
    when s.database ("db" ∷ [])
    ++ (when s.gateway ("api-gw" ∷ [])
        ++ (when s.auth ("auth" ∷ [])
            ++ (when s.rest ("rest" ∷ [])
                ++ (when s.studio ("studio" ∷ [])
                    ++ (when s.postgres_meta ("meta" ∷ [])
                        ++ (when s.realtime ("realtime" ∷ [])
                            ++ (when s.storage ("storage" ∷ [])
                                ++ (when s.imgproxy ("imgproxy" ∷ [])
                                    ++ (when s.functions ("functions" ∷ [])
                                        ++ (when s.supavisor ("supavisor" ∷ [])
                                            ++ when s.logs ("analytics" ∷ "vector" ∷ [])))))))))))
