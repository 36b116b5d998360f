-- ===== src/Validation/Auth.antt =====
-- validateAuth in apps/manager/internal/project/configuration.go.
use supabase_installer.Prelude.{
  ℕ, suc, String, Bool, false, ◌&&◌, ◌||◌, not, List, [], ◌∷◌, ◌++◌, same, any, if◌then◌else◌, Text,
  codes, same_text, trim, outside, is_zero,
}
use supabase_installer.Contracts.Configuration.{Fields, SmtpConfig, OauthProviderConfig, AuthConfig}
use supabase_installer.Validation.{
  named, indexed, entry, entry_field, Check, check, only_if, joined,
}
use supabase_installer.Validation.Texts.{
  Packages, is_blank, is_email, valid_absolute_http_url, has_suffix,
}
use supabase_installer.Validation.Parts.{
  validate_port, validate_secret_input, validate_rate_limits, validate_mfa, validate_phone,
  required_fields, field_at,
}
use supabase_installer.Validation.Mailer.{validate_mailer}

abbrev has_enabled_oauth : List (String × OauthProviderConfig) → Bool
has_enabled_oauth [] = false
has_enabled_oauth ((_, p) ∷ rest) = p.enabled || has_enabled_oauth rest

abbrev oauth_provider_names : List String
oauth_provider_names =
    "apple" ∷ "azure" ∷ "bitbucket" ∷ "discord" ∷ "facebook" ∷ "figma" ∷ "github" ∷ "gitlab"
    ∷ "google" ∷ "kakao" ∷ "keycloak" ∷ "linkedin_oidc" ∷ "notion" ∷ "slack_oidc" ∷ "snapchat"
    ∷ "spotify" ∷ "twitch" ∷ "twitter" ∷ "workos" ∷ "zoom" ∷ []

abbrev oauth_required_fields : String → List Text
oauth_required_fields provider =
    if same provider "azure"
    then codes "tenantUrl" ∷ []
    else (if same provider "keycloak" then codes "realmUrl" ∷ [] else [])

abbrev provider_field_allowed : String → Text → Bool
provider_field_allowed provider field =
    same_text field (codes "skipNonceChecks")
    || same_text field (codes "allowUsersWithoutEmail")
    || (same provider "azure" && same_text field (codes "tenantUrl"))
    || (same provider "github" && same_text field (codes "enterpriseUrl"))
    || (same provider "gitlab" && same_text field (codes "selfHostedUrl"))
    || (same provider "keycloak" && same_text field (codes "realmUrl"))

abbrev provider_keys : String → Fields → List Check
provider_keys provider [] = []
provider_keys provider ((key, _) ∷ rest) =
    check (not (provider_field_allowed provider key)) (entry_field "auth.oauth" provider key)
      "is not supported for this provider"
    ∷ provider_keys provider rest

unfoldable pub validate_email : AuthConfig → List Check
validate_email auth =
    let email = auth.email in
    check (outside 0 31536000 auth.jwt_expiry) (named "auth.jwtExpiry")
      "must be between 0 and 31536000 seconds"
    ∷ check (if auth.disable_signup then email.allow_signup else not email.allow_signup)
        (named "auth.disableSignup") "must equal the inverse of auth.email.allowSignup"
    ∷ check (if auth.disable_signup then email.allow_signup else not email.allow_signup)
        (named "auth.email.allowSignup") "must equal the inverse of auth.disableSignup"
    ∷ check
        (auth.disable_signup
          && (auth.phone.enabled || auth.anonymous_sign_in || has_enabled_oauth auth.oauth))
        (named "auth.disableSignup")
        "cannot disable global signup while phone, anonymous, or OAuth signup is enabled"
    ∷ check
        (if email.secure_email_change
          then not email.double_confirm_changes
          else email.double_confirm_changes)
        (named "auth.email.secureEmailChange")
        "must match doubleConfirmChanges for the pinned runtime capability"
    ∷ check
        (if email.secure_email_change
          then not email.double_confirm_changes
          else email.double_confirm_changes)
        (named "auth.email.doubleConfirmChanges")
        "must match secureEmailChange for the pinned runtime capability"
    ∷ check
        (not (is_zero email.minimum_password_length) && outside 6 72 email.minimum_password_length)
        (named "auth.email.minimumPasswordLength") "must be between 6 and 72 characters"
    ∷ check
        (not (is_zero email.email_otp_expiration) && outside 60 86400 email.email_otp_expiration)
        (named "auth.email.emailOtpExpiration") "must be between 60 and 86400 seconds"
    ∷ check (not (is_zero email.email_otp_length) && outside 6 10 email.email_otp_length)
        (named "auth.email.emailOtpLength") "must be between 6 and 10 digits"
    ∷ []

module _ (packages : Packages) where
  unfoldable pub validate_smtp : SmtpConfig → List Check
  validate_smtp smtp = only_if smtp.enabled (
      check (is_blank packages smtp.host) (named "auth.smtp.host")
        "is required when SMTP is enabled"
      ∷ check (is_blank packages smtp.username) (named "auth.smtp.username")
          "is required when SMTP is enabled"
      ∷ check (not smtp.password_set && not (same smtp.password.action "replace"))
          (named "auth.smtp.password") "must retain an existing password or replace it"
      ∷ check
          (smtp.password_set
            && not (same smtp.password.action "retain")
            && not (same smtp.password.action "replace"))
          (named "auth.smtp.password") "an existing password must use retain or replace"
      ∷ check (same smtp.password.action "remove") (named "auth.smtp.password")
          "cannot be removed while SMTP is enabled"
      ∷ validate_port smtp.port (named "auth.smtp.port")
      ∷ check (not (is_email packages smtp.sender_email)) (named "auth.smtp.senderEmail")
          "must be a valid email address"
      ∷ check (is_blank packages smtp.sender_name) (named "auth.smtp.senderName")
          "is required when SMTP is enabled"
      ∷ [])

  abbrev redirects_from : ℕ → List Text → List Check
  redirects_from index [] = []
  redirects_from index (url ∷ urls) =
      check (not (valid_absolute_http_url packages url)) (indexed "auth.redirectUrls" index "")
        "must be an absolute http or https URL"
      ∷ redirects_from (suc index) urls

  -- a required field that is filled must be a URL
  abbrev required_urls : String → Fields → List Text → List Check
  required_urls provider fields [] = []
  required_urls provider fields (key ∷ keys) =
      check
        (not (is_blank packages (field_at key fields))
          && not (valid_absolute_http_url packages (trim packages.is_space (field_at key fields))))
        (entry_field "auth.oauth" provider key) "must be an absolute http or https URL"
      ∷ required_urls provider fields keys

  abbrev url_fields : String → Fields → List Check
  url_fields provider [] = []
  url_fields provider ((key, value) ∷ rest) =
      check
        (has_suffix (codes "Url") key
          && not (is_blank packages value)
          && not (valid_absolute_http_url packages value))
        (entry_field "auth.oauth" provider key) "must be an absolute http or https URL"
      ∷ url_fields provider rest

  abbrev enabled_provider : String → OauthProviderConfig → List Check
  enabled_provider provider config =
      check (is_blank packages config.client_id) (entry "auth.oauth" provider "clientId")
        "is required when provider is enabled"
      ∷ check (not config.secret_set && not (same config.secret.action "replace"))
          (entry "auth.oauth" provider "secret") "must retain an existing secret or replace it"
      ∷ check
          (config.secret_set
            && not (same config.secret.action "retain")
            && not (same config.secret.action "replace"))
          (entry "auth.oauth" provider "secret") "an existing secret must use retain or replace"
      ∷ check (same config.secret.action "remove") (entry "auth.oauth" provider "secret")
          "cannot be removed while provider is enabled"
      ∷ (validate_secret_input config.secret (entry "auth.oauth" provider "secret")
            (entry "auth.oauth" provider "secret.action")
          ++ (required_fields packages "auth.oauth" provider config.fields
                (oauth_required_fields provider)
              ++ (required_urls provider config.fields (oauth_required_fields provider)
                  ++ url_fields provider config.fields)))

  abbrev validate_provider : String → OauthProviderConfig → List Check
  validate_provider provider config =
      let known = any (same provider) oauth_provider_names in
      check (not known) (entry "auth.oauth" provider "") "is not a supported OAuth provider"
      ∷ only_if known (
          provider_keys provider config.fields
          ++ only_if config.enabled (enabled_provider provider config))

  unfoldable pub validate_oauth : List (String × OauthProviderConfig) → List Check
  validate_oauth [] = []
  validate_oauth ((provider, config) ∷ rest) =
      validate_provider provider config ++ validate_oauth rest

  unfoldable pub auth_parts : AuthConfig → List (List Check)
  auth_parts auth =
      validate_email auth
      ∷ validate_rate_limits auth.rate_limits
      ∷ validate_mfa auth.mfa
      ∷ validate_mailer packages auth.mailer
      ∷ validate_secret_input auth.smtp.password (named "auth.smtp.password")
          (named "auth.smtp.password.action")
      ∷ validate_phone packages auth.phone
      ∷ validate_smtp auth.smtp
      ∷ redirects_from 0 auth.redirect_urls
      ∷ validate_oauth auth.oauth
      ∷ []

  unfoldable pub validate_auth : AuthConfig → List Check
  unfolding auth_parts
  validate_auth auth = joined (auth_parts auth)
