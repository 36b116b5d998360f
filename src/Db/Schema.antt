-- ===== src/Db/Schema.antt =====
-- apps/manager/internal/store/migrations: the tables that the modelled code reads and writes. The
-- columns of `project_secrets` that hold an envelope are one value, and of
-- `configuration_reservations` only the key columns and the project are read.
use supabase_installer.Prelude.{ℕ, String, Bool, Option, List, Text}
use supabase_installer.Contracts.{Project, OperationType, OperationStatus, OperationEvent}
use supabase_installer.Contracts.Configuration.{ProjectConfiguration}

-- `project_id` is NULL once the project is deleted (ON DELETE SET NULL).
pub record OperationRow : Type 0 where
  pub id : String
  pub project_id : Option String
  pub type : OperationType
  pub status : OperationStatus
  pub current_step : String
  pub progress : ℕ
  pub error_code : String
  pub error_message : String
  pub started_at : Option ℕ
  pub finished_at : Option ℕ
  pub created_at : ℕ

pub record AllocationRow : Type 0 where
  pub port : ℕ
  pub project_id : String
  pub kind : String
  pub created_at : ℕ

-- a pending port: resource_kind is "port:<n>" and resource_key is "<n>", the number kept here
pub record ReservationRow : Type 0 where
  pub port : ℕ
  pub project_id : String

pub record SecretRow : Type 0 where
  pub project_id : String
  pub kind : String
  pub envelope : String

pub record AdminRecord : Type 0 where
  pub id : Text
  pub username : String
  pub password_hash : String
  pub must_change_password : Bool
  pub created_at : ℕ
  pub updated_at : ℕ

pub record RecoveryCodeRow : Type 0 where
  pub id : Text
  pub admin_id : Text
  pub code_hash : String
  pub created_at : ℕ

-- the two hashes are the 32 bytes of SHA-256
pub record SessionRecord : Type 0 where
  pub token_hash : String
  pub admin_id : Text
  pub csrf_hash : String
  pub last_seen_at : ℕ
  pub expires_at : ℕ
  pub created_at : ℕ

-- project_configuration, whose column config_json is the value that it encodes
pub record ConfigurationRow : Type 0 where
  pub project_id : String
  pub configuration : ProjectConfiguration
  pub updated_at : ℕ

-- the rows of project_configs with the section "aggregate"
pub record AggregateRow : Type 0 where
  pub project_id : String
  pub revision : ℕ
  pub configuration : ProjectConfiguration

-- the status is always "UNKNOWN"
pub record ServiceRow : Type 0 where
  pub project_id : String
  pub service : String
  pub enabled : Bool

-- the column last_good_revision of projects
pub record LastGoodRow : Type 0 where
  pub project_id : String
  pub revision : ℕ

pub record LeaseRow : Type 0 where
  pub project_id : String
  pub owner : String
  pub fence : ℕ
  pub acquired_at : ℕ
  pub expires_at : ℕ

-- the columns of operation_configurations that bind an operation to a fence
pub record OperationConfigurationRow : Type 0 where
  pub operation_id : String
  pub project_id : String
  pub fence : ℕ

pub record Tables : Type 0 where
  pub projects : List Project
  pub operations : List OperationRow
  pub events : List OperationEvent
  pub allocations : List AllocationRow
  pub reservations : List ReservationRow
  pub secrets : List SecretRow
  pub admins : List AdminRecord
  pub recovery_codes : List RecoveryCodeRow
  pub sessions : List SessionRecord
  pub configurations : List ConfigurationRow
  pub aggregates : List AggregateRow
  pub project_services : List ServiceRow
  pub last_good : List LastGoodRow
  pub leases : List LeaseRow
  pub operation_configurations : List OperationConfigurationRow
