-- ===== src/Validation/Presets.antt =====
-- ApplyPreset in apps/manager/internal/project/preset.go, and DefaultConfiguration and ApplyConfigurationPreset in
-- apps/manager/internal/project/configuration.go.
use supabase_installer.Prelude.{true, false, [], ◌∷◌, ◌++◌, none, Text, codes, pos, if◌then◌else◌}
use supabase_installer.Contracts.{Services, Preset, lightweight, standard, full}
use supabase_installer.Contracts.Configuration.{
  SecretInput, EmailTemplateConfig, EmailNotificationConfig, MailerConfig, AuthConfig,
  ProjectConfiguration, local,
}

abbrev basic_services : Services
basic_services = record {
  database = true;
  gateway = true;
  auth = true;
  rest = true;
  studio = true;
  postgres_meta = true;
  realtime = false;
  storage = false;
  imgproxy = false;
  functions = false;
  supavisor = false;
  logs = false;
  vector = false;
  direct_db = false;
}

unfoldable pub apply_preset : Preset → Services
apply_preset standard = record basic_services {
  realtime = true;
  storage = true;
  functions = true;
  supavisor = true;
}
apply_preset full = record basic_services {
  realtime = true;
  storage = true;
  imgproxy = true;
  functions = true;
  supavisor = true;
  logs = true;
  vector = true;
}
apply_preset _ = basic_services

abbrev no_secret : SecretInput
no_secret = record { action = ""; value = [] }

abbrev default_mailer_template : Text → EmailTemplateConfig
default_mailer_template subject = record {
  subject = subject;
  body =
      codes "<!doctype html>"
      ++ (10 ∷ codes "<html>"
          ++ (10 ∷ codes "  <body>"
              ++ (10 ∷ codes "    <h2>"
                  ++ (subject
                      ++ (codes "</h2>" ++ (10 ∷ codes "  </body>" ++ (10 ∷ codes "</html>")))))));
}

abbrev default_notification : Text → EmailNotificationConfig
default_notification subject = record {
  enabled = false;
  template = default_mailer_template subject;
}

unfoldable pub default_mailer_config : MailerConfig
default_mailer_config = record {
  templates = record {
    confirmation = default_mailer_template (codes "Confirm your signup");
    invite = default_mailer_template (codes "You have been invited");
    magic_link = default_mailer_template (codes "Your magic link");
    email_change = default_mailer_template (codes "Confirm email change");
    recovery = default_mailer_template (codes "Reset password");
    reauthentication = default_mailer_template (codes "Confirm reauthentication");
  };
  notifications = record {
    password_changed = default_notification (codes "Your password was changed");
    email_changed = default_notification (codes "Your email address was changed");
    phone_changed = default_notification (codes "Your phone number was changed");
    identity_linked = default_notification (codes "A sign-in method was linked");
    identity_unlinked = default_notification (codes "A sign-in method was removed");
    mfa_factor_enrolled = default_notification (codes "An MFA method was added");
    mfa_factor_unenrolled = default_notification (codes "An MFA method was removed");
  };
}

unfoldable pub default_auth : AuthConfig
unfolding default_mailer_config
default_auth = record {
  enabled = true;
  jwt_expiry = pos 0;
  disable_signup = false;
  email = record {
    enabled = true;
    allow_signup = true;
    confirm_email = false;
    secure_email_change = false;
    double_confirm_changes = false;
    secure_password_change = false;
    require_current_password = false;
    prevent_leaked_passwords = false;
    minimum_password_length = pos 6;
    password_requirements = "";
    email_otp_expiration = pos 3600;
    email_otp_length = pos 8;
  };
  phone = record {
    enabled = false;
    provider = "";
    secret_set = false;
    secret = no_secret;
    fields = [];
  };
  anonymous_sign_in = false;
  manual_linking = false;
  redirect_urls = [];
  oauth = [];
  smtp = record {
    enabled = false;
    host = [];
    port = pos 587;
    username = [];
    password_set = false;
    password = no_secret;
    sender_email = [];
    sender_name = [];
  };
  mailer = default_mailer_config;
  rate_limits = record {
    email_sent = pos 30;
    sms_sent = pos 30;
    token_refresh = pos 150;
    token_verification = pos 30;
    anonymous_users = pos 30;
    signups_and_signins = pos 30;
  };
  mfa = record {
    totp_enroll_enabled = true;
    totp_verify_enabled = true;
    phone_enroll_enabled = false;
    phone_verify_enabled = false;
    max_enrolled_factors = pos 10;
    phone_otp_length = pos 6;
  };
}

unfoldable pub default_configuration : Preset → ProjectConfiguration
unfolding default_auth apply_preset
default_configuration preset = record {
  revision = 0;
  general = record {
    domain = [];
    site_url = [];
    supabase_version = "self-hosted/v0.8.0";
    studio_username = codes "supabase";
    studio_password_set = false;
    studio_password = no_secret;
  };
  services = apply_preset preset;
  auth = default_auth;
  storage = record {
    backend = local;
    s3_compatible_api = false;
    bucket = [];
    region = [];
    endpoint = [];
    account_id = [];
    access_key_id = [];
    secret_access_key_set = false;
    secret_access_key = no_secret;
    force_path_style = false;
    local_path = [];
  };
  realtime = record { max_connections = pos 100; database_pool_size = pos 5; log_level = "info" };
  functions = record {
    default_jwt_verification = true;
    directory = codes "./functions";
    variables = [];
  };
  database = record {
    version = "17";
    direct_port = false;
    direct_port_number = pos 0;
    max_connections = pos 100;
    shared_buffers = [];
    extensions = [];
  };
  pooler = record {
    transaction_port = pos 0;
    session_port = pos 0;
    pool_size = pos 20;
    max_client_connections = pos 100;
  };
  network = record {
    gateway = "envoy";
    https_mode = "external";
    managed_tls = none;
    internal_gateway_port = pos 0;
    api_port = pos 0;
    studio_port = pos 0;
    direct_database_port = pos 0;
    pooler_port = pos 0;
  };
}

-- the services of a preset with what they need
unfoldable pub closed_services : Services → Services
closed_services s = record s {
  postgres_meta = if s.studio then true else s.postgres_meta;
  storage = if s.imgproxy then true else s.storage;
  vector = if s.logs then true else false;
}

unfoldable pub apply_configuration_preset : Preset → ProjectConfiguration
unfolding default_configuration closed_services apply_preset
apply_configuration_preset preset = record (default_configuration lightweight) {
  services = closed_services (apply_preset preset);
}
