-- ===== src/Validation/Parts.antt =====
-- The parts of apps/manager/internal/project/configuration.go without a part of their own.
use supabase_installer.Prelude.{
  String, Bool, true, false, ◌&&◌, ◌||◌, not, List, [], ◌∷◌, ◌++◌, same, if◌then◌else◌, Text, codes,
  is_nil, same_text, ℤ, outside,
}
use supabase_installer.Contracts.{Services}
use supabase_installer.Contracts.Configuration.{
  SecretInput, Fields, RateLimitConfig, MfaConfig, PhoneAuthConfig, StorageBackend, local, s3,
  aws_s3, r2, StorageConfig,
}
use supabase_installer.Validation.{Field, named, entry_field, Check, check, only_if}
use supabase_installer.Validation.Texts.{Packages, is_blank, valid_absolute_http_url}

abbrev pub validate_port : ℤ → Field → Check
validate_port port field = check (outside 1 65535 port) field "must be between 1 and 65535"

-- the two checks of a secret's action
abbrev pub validate_secret_input : SecretInput → Field → Field → List Check
validate_secret_input input field action_field =
    check (same input.action "replace" && is_nil input.value) field "replace requires a value"
    ∷ check
        (not (
          same input.action ""
          || same input.action "retain"
          || same input.action "remove"
          || same input.action "replace"))
        action_field "must be retain, replace, or remove"
    ∷ []

unfoldable pub validate_services_configuration : Services → List Check
validate_services_configuration s =
    check (not s.database) (named "services.database") "PostgreSQL is required"
    ∷ check (s.studio && not s.postgres_meta) (named "services.postgresMeta")
        "postgres-meta is required by Studio"
    ∷ check ((s.auth || s.rest || s.studio || s.realtime || s.storage) && not s.gateway)
        (named "services.gateway") "API Gateway is required by enabled public services"
    ∷ check (s.functions && not s.gateway) (named "services.gateway")
        "API Gateway is required by enabled Functions"
    ∷ check (s.storage && (not s.database || not s.rest)) (named "services.storage")
        "Storage requires database and REST"
    ∷ check (s.realtime && not s.database) (named "services.realtime") "Realtime requires database"
    ∷ check (s.supavisor && not s.database) (named "services.supavisor")
        "Supavisor requires database"
    ∷ check (s.direct_db && not s.database) (named "services.directDb")
        "Direct database requires database"
    ∷ check (s.logs && (not s.database || not s.vector)) (named "services.logs")
        "Logs requires database and Vector"
    ∷ check (s.vector && not s.logs) (named "services.vector") "Vector requires Logs"
    ∷ check (s.imgproxy && not s.storage) (named "services.imgproxy")
        "Image Transformation requires Storage"
    ∷ check (if s.vector then not s.logs else s.logs) (named "services.vector")
        "Logs and Vector must be enabled together"
    ∷ []

abbrev limit : String → ℤ → Check
limit name value = check (outside 1 1000000 value) (named name) "must be between 1 and 1000000"

unfoldable pub validate_rate_limits : RateLimitConfig → List Check
validate_rate_limits l =
    limit "auth.rateLimits.emailSent" l.email_sent
    ∷ limit "auth.rateLimits.smsSent" l.sms_sent
    ∷ limit "auth.rateLimits.tokenRefresh" l.token_refresh
    ∷ limit "auth.rateLimits.tokenVerification" l.token_verification
    ∷ limit "auth.rateLimits.anonymousUsers" l.anonymous_users
    ∷ limit "auth.rateLimits.signupsAndSignins" l.signups_and_signins
    ∷ []

unfoldable pub validate_mfa : MfaConfig → List Check
validate_mfa mfa =
    check (outside 1 100 mfa.max_enrolled_factors) (named "auth.mfa.maxEnrolledFactors")
      "must be between 1 and 100"
    ∷ check (outside 4 10 mfa.phone_otp_length) (named "auth.mfa.phoneOtpLength")
        "must be between 4 and 10 digits"
    ∷ []

-- cfg.Fields[key], "" if there is none
abbrev pub field_at : Text → Fields → Text
field_at key [] = []
field_at key ((k, v) ∷ rest) = if same_text k key then v else field_at key rest

abbrev pub phone_field_allowed : String → Text → Bool
phone_field_allowed provider field =
    if same provider "twilio"
    then same_text field (codes "accountSid")
      || same_text field (codes "messageServiceSid")
      || same_text field (codes "verifySid")
    else (if same provider "messagebird"
        then same_text field (codes "originator")
        else (if same provider "textlocal" then same_text field (codes "sender") else false))

abbrev pub phone_required_fields : String → List Text
phone_required_fields provider =
    if same provider "twilio"
    then codes "accountSid" ∷ codes "messageServiceSid" ∷ []
    else (if same provider "messagebird"
        then codes "originator" ∷ []
        else (if same provider "textlocal" then codes "sender" ∷ [] else []))

abbrev pub phone_keys : String → Fields → List Check
phone_keys provider [] = []
phone_keys provider ((key, _) ∷ rest) =
    check (not (phone_field_allowed provider key)) (entry_field "auth.phone" "" key)
      "is not supported for this provider"
    ∷ phone_keys provider rest

abbrev no_fields : Fields → Bool
no_fields [] = true
no_fields (_ ∷ _) = false

module _ (packages : Packages) where
  abbrev pub required_fields : String → String → Fields → List Text → List Check
  required_fields parent provider fields [] = []
  required_fields parent provider fields (key ∷ keys) =
      check (is_blank packages (field_at key fields)) (entry_field parent provider key)
        "is required for this provider"
      ∷ required_fields parent provider fields keys

  abbrev secret_checks : Bool → SecretInput → Field → List Check
  secret_checks set secret field =
      check (not set && not (same secret.action "replace")) field
        "must retain an existing secret or replace it"
      ∷ check (set && not (same secret.action "retain") && not (same secret.action "replace")) field
          "an existing secret must use retain or replace"
      ∷ check (same secret.action "remove") field "cannot be removed while Phone Auth is enabled"
      ∷ []

  unfoldable pub validate_phone : PhoneAuthConfig → List Check
  validate_phone phone =
      only_if
        (phone.enabled
          || not (same phone.provider "")
          || not (no_fields phone.fields)
          || phone.secret_set
          || not (same phone.secret.action ""))
        (check
            (not (
              same phone.provider "twilio"
              || same phone.provider "messagebird"
              || same phone.provider "textlocal"))
            (named "auth.phone.provider") "must be twilio, messagebird, or textlocal"
          ∷ (phone_keys phone.provider phone.fields
              ++ (only_if phone.enabled (
                    required_fields "auth.phone" "" phone.fields
                      (phone_required_fields phone.provider)
                    ++ secret_checks phone.secret_set phone.secret (named "auth.phone.secret"))
                  ++ validate_secret_input phone.secret (named "auth.phone.secret")
                      (named "auth.phone.secret.action"))))

  abbrev is_object_storage : StorageBackend → Bool
  is_object_storage s3 = true
  is_object_storage aws_s3 = true
  is_object_storage r2 = true
  is_object_storage _ = false

  abbrev is_local : StorageBackend → Bool
  is_local local = true
  is_local _ = false

  abbrev is_s3 : StorageBackend → Bool
  is_s3 s3 = true
  is_s3 _ = false

  abbrev is_r2 : StorageBackend → Bool
  is_r2 r2 = true
  is_r2 _ = false

  unfoldable pub validate_storage : StorageConfig → List Check
  validate_storage s =
      let removing = s.secret_access_key_set && same s.secret_access_key.action "remove" in
      only_if (is_local s.backend) (
        check
          (not (is_nil s.bucket)
            || not (is_nil s.region)
            || not (is_nil s.endpoint)
            || not (is_nil s.account_id)
            || not (is_nil s.access_key_id)
            || (s.secret_access_key_set && not removing)
            || (not (same s.secret_access_key.action "") && not removing))
          (named "storage.backend") "local storage cannot include object-storage credentials"
        ∷ [])
      ++ (only_if (is_object_storage s.backend) (
            check (is_blank packages s.bucket) (named "storage.bucket")
              "is required for an object storage backend"
            ∷ check (not (is_r2 s.backend) && is_blank packages s.region) (named "storage.region")
                "is required for this object storage backend"
            ∷ check (is_blank packages s.access_key_id) (named "storage.accessKeyId")
                "is required for an object storage backend"
            ∷ check (not s.secret_access_key_set && not (same s.secret_access_key.action "replace"))
                (named "storage.secretAccessKey") "must retain an existing secret or replace it"
            ∷ check (same s.secret_access_key.action "remove") (named "storage.secretAccessKey")
                "cannot be removed for an enabled object storage backend"
            ∷ check (is_s3 s.backend && is_blank packages s.endpoint) (named "storage.endpoint")
                "is required for generic S3"
            ∷ check (is_r2 s.backend && is_blank packages s.account_id) (named "storage.accountId")
                "is required for Cloudflare R2"
            ∷ check (is_r2 s.backend && not (is_nil s.endpoint)) (named "storage.endpoint")
                "R2 endpoint is derived from accountId"
            ∷ check (not (is_nil s.endpoint) && not (valid_absolute_http_url packages s.endpoint))
                (named "storage.endpoint") "must be an absolute http or https URL"
            ∷ [])
          ++ (check (not (is_local s.backend || is_object_storage s.backend))
                (named "storage.backend") "must be local, s3, aws-s3, or r2"
              ∷ validate_secret_input s.secret_access_key (named "storage.secretAccessKey")
                  (named "storage.secretAccessKey.action")))
