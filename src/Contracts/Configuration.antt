-- ===== src/Contracts/Configuration.antt =====
-- internal/contracts/configuration.go: the desired state of a server. A map with string keys is a list of
-- entries; a string that is only compared with constants is a String, any other the list of its code
-- points; an `int` is an integer.
use supabase_installer.Prelude.{ℕ, String, Bool, Option, List, Text, ℤ}
use supabase_installer.Contracts.{Services}

-- action is "", "retain", "replace" or "remove"
pub record SecretInput : Type 0 where
  pub action : String
  pub value : Text

pub record GeneralConfig : Type 0 where
  pub domain : Text
  pub site_url : Text
  pub supabase_version : String
  pub studio_username : Text
  pub studio_password_set : Bool
  pub studio_password : SecretInput

pub record EmailAuthConfig : Type 0 where
  pub enabled : Bool
  pub allow_signup : Bool
  pub confirm_email : Bool
  pub secure_email_change : Bool
  pub double_confirm_changes : Bool
  pub secure_password_change : Bool
  pub require_current_password : Bool
  pub prevent_leaked_passwords : Bool
  pub minimum_password_length : ℤ
  pub password_requirements : String
  pub email_otp_expiration : ℤ
  pub email_otp_length : ℤ

abbrev pub Fields : Type 0
Fields = List (Text × Text)

pub record PhoneAuthConfig : Type 0 where
  pub enabled : Bool
  pub provider : String
  pub secret_set : Bool
  pub secret : SecretInput
  pub fields : Fields

pub record SmtpConfig : Type 0 where
  pub enabled : Bool
  pub host : Text
  pub port : ℤ
  pub username : Text
  pub password_set : Bool
  pub password : SecretInput
  pub sender_email : Text
  pub sender_name : Text

pub record EmailTemplateConfig : Type 0 where
  pub subject : Text
  pub body : Text

pub record EmailTemplatesConfig : Type 0 where
  pub confirmation : EmailTemplateConfig
  pub invite : EmailTemplateConfig
  pub magic_link : EmailTemplateConfig
  pub email_change : EmailTemplateConfig
  pub recovery : EmailTemplateConfig
  pub reauthentication : EmailTemplateConfig

pub record EmailNotificationConfig : Type 0 where
  pub enabled : Bool
  pub template : EmailTemplateConfig

pub record EmailNotificationsConfig : Type 0 where
  pub password_changed : EmailNotificationConfig
  pub email_changed : EmailNotificationConfig
  pub phone_changed : EmailNotificationConfig
  pub identity_linked : EmailNotificationConfig
  pub identity_unlinked : EmailNotificationConfig
  pub mfa_factor_enrolled : EmailNotificationConfig
  pub mfa_factor_unenrolled : EmailNotificationConfig

pub record MailerConfig : Type 0 where
  pub templates : EmailTemplatesConfig
  pub notifications : EmailNotificationsConfig

pub record RateLimitConfig : Type 0 where
  pub email_sent : ℤ
  pub sms_sent : ℤ
  pub token_refresh : ℤ
  pub token_verification : ℤ
  pub anonymous_users : ℤ
  pub signups_and_signins : ℤ

pub record MfaConfig : Type 0 where
  pub totp_enroll_enabled : Bool
  pub totp_verify_enabled : Bool
  pub phone_enroll_enabled : Bool
  pub phone_verify_enabled : Bool
  pub max_enrolled_factors : ℤ
  pub phone_otp_length : ℤ

pub record OauthProviderConfig : Type 0 where
  pub enabled : Bool
  pub client_id : Text
  pub secret_set : Bool
  pub secret : SecretInput
  pub fields : Fields

pub record AuthConfig : Type 0 where
  pub enabled : Bool
  pub jwt_expiry : ℤ
  pub disable_signup : Bool
  pub email : EmailAuthConfig
  pub phone : PhoneAuthConfig
  pub anonymous_sign_in : Bool
  pub manual_linking : Bool
  pub redirect_urls : List Text
  pub oauth : List (String × OauthProviderConfig)
  pub smtp : SmtpConfig
  pub mailer : MailerConfig
  pub rate_limits : RateLimitConfig
  pub mfa : MfaConfig

-- "local", "s3", "aws-s3" and "r2", and what else a request may hold
pub data StorageBackend : Type 0 where
  local s3 aws_s3 r2 : StorageBackend
  other_backend : String → StorageBackend

pub record StorageConfig : Type 0 where
  pub backend : StorageBackend
  pub s3_compatible_api : Bool
  pub bucket : Text
  pub region : Text
  pub endpoint : Text
  pub account_id : Text
  pub access_key_id : Text
  pub secret_access_key_set : Bool
  pub secret_access_key : SecretInput
  pub force_path_style : Bool
  pub local_path : Text

pub record RealtimeConfig : Type 0 where
  pub max_connections : ℤ
  pub database_pool_size : ℤ
  pub log_level : String

pub record FunctionVariable : Type 0 where
  pub name : String
  pub value_set : Bool
  pub value : SecretInput

pub record FunctionsConfig : Type 0 where
  pub default_jwt_verification : Bool
  pub directory : Text
  pub variables : List FunctionVariable

pub record DatabaseConfig : Type 0 where
  pub version : String
  pub direct_port : Bool
  pub direct_port_number : ℤ
  pub max_connections : ℤ
  pub shared_buffers : Text
  pub extensions : List Text

pub record PoolerConfig : Type 0 where
  pub transaction_port : ℤ
  pub session_port : ℤ
  pub pool_size : ℤ
  pub max_client_connections : ℤ

-- contracts.ManagedTLSConfig of internal/contracts/tls.go
pub record ManagedTlsConfig : Type 0 where
  pub certificate_name : Text
  pub certificate_file : Text
  pub private_key_file : Text

pub record NetworkConfig : Type 0 where
  pub gateway : String
  pub https_mode : String
  pub managed_tls : Option ManagedTlsConfig
  pub internal_gateway_port : ℤ
  pub api_port : ℤ
  pub studio_port : ℤ
  pub direct_database_port : ℤ
  pub pooler_port : ℤ

pub record ProjectConfiguration : Type 0 where
  pub revision : ℕ
  pub general : GeneralConfig
  pub services : Services
  pub auth : AuthConfig
  pub storage : StorageConfig
  pub realtime : RealtimeConfig
  pub functions : FunctionsConfig
  pub database : DatabaseConfig
  pub pooler : PoolerConfig
  pub network : NetworkConfig
