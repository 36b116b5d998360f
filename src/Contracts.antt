-- ===== src/Contracts.antt =====
-- internal/contracts/project.go and internal/contracts/operation.go: the values that the manager,
-- the provisioner and the store exchange. Go's string enumerations are data types, and a value of
-- `time.Time` is the number of nanoseconds that it stands for.
pub mod Configuration
use supabase_installer.Prelude.{ℕ, String, Text, Bool, Option, List, ◌==◌}

pub data ProjectStatus : Type 0 where
  draft installing running stopped degraded failed deleting : ProjectStatus

pub data HealthStatus : Type 0 where
  healthy degraded starting stopped unhealthy unknown : HealthStatus

pub data Preset : Type 0 where
  lightweight standard full custom : Preset

pub record Services : Type 0 where
  pub database : Bool
  pub gateway : Bool
  pub auth : Bool
  pub rest : Bool
  pub studio : Bool
  pub postgres_meta : Bool
  pub realtime : Bool
  pub storage : Bool
  pub imgproxy : Bool
  pub functions : Bool
  pub supavisor : Bool
  pub logs : Bool
  pub vector : Bool
  pub direct_db : Bool

pub record Project : Type 0 where
  pub id : String
  pub name : String
  pub slug : String
  pub domain : Text
  pub site_url : Text
  pub status : ProjectStatus
  pub health : HealthStatus
  pub supabase_version : String
  pub preset : Preset
  pub configuration_revision : ℕ
  pub services : Services
  pub created_at : ℕ
  pub updated_at : ℕ

pub data OperationType : Type 0 where
  create start stop restart update_config update_version delete : OperationType
  backup restore deploy_function rollback_function delete_function : OperationType

pub data OperationStatus : Type 0 where
  queued running succeeded failed rolling_back rolled_back cancelled : OperationStatus

pub record Operation : Type 0 where
  pub id : String
  pub project_id : String
  pub type : OperationType
  pub status : OperationStatus
  pub current_step : String
  pub progress : ℕ
  pub error_code : String
  pub error_message : String
  pub started_at : Option ℕ
  pub finished_at : Option ℕ
  pub created_at : ℕ

-- A `json.RawMessage`: text as it stands, or what `json.Marshal` makes of a map, whose entries are
-- here in the order of their keys.
pub data Json : Type 0 where
  text : String → Json
  number : ℕ → Json

pub data Payload : Type 0 where
  raw : String → Payload
  object : List (String × Json) → Payload

pub record OperationEvent : Type 0 where
  pub operation_id : String
  pub sequence : ℕ
  pub type : String
  pub payload : Payload
  pub created_at : ℕ

-- Go's `==` on two statuses, and on two types, compares the constants.
abbrev pub status_code : OperationStatus → ℕ
status_code OperationStatus.queued = 0
status_code OperationStatus.running = 1
status_code OperationStatus.succeeded = 2
status_code OperationStatus.failed = 3
status_code OperationStatus.rolling_back = 4
status_code OperationStatus.rolled_back = 5
status_code OperationStatus.cancelled = 6

abbrev pub same_status : OperationStatus → OperationStatus → Bool
same_status a b = status_code a == status_code b

abbrev pub type_code : OperationType → ℕ
type_code OperationType.create = 0
type_code OperationType.start = 1
type_code OperationType.stop = 2
type_code OperationType.restart = 3
type_code OperationType.update_config = 4
type_code OperationType.update_version = 5
type_code OperationType.delete = 6
type_code OperationType.backup = 7
type_code OperationType.restore = 8
type_code OperationType.deploy_function = 9
type_code OperationType.rollback_function = 10
type_code OperationType.delete_function = 11

abbrev pub same_type : OperationType → OperationType → Bool
same_type a b = type_code a == type_code b
