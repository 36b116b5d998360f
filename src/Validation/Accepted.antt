-- ===== src/Validation/Accepted.antt =====
-- The configurations of apps/manager/internal/project/preset.go.
use supabase_installer.Prelude.{[], true, ◌≡◌, refl}
use supabase_installer.Contracts.{Preset, lightweight, standard, full, custom}
use supabase_installer.Validation.Texts.{Packages}
use supabase_installer.Validation.{joined}
use supabase_installer.Validation.Parts.{
  validate_services_configuration, validate_rate_limits, validate_mfa, validate_storage,
  validate_phone,
}
use supabase_installer.Validation.Limits.{
  validate_realtime, validate_functions, validate_database, validate_pooler, validate_network,
}
use supabase_installer.Validation.Mailer.{
  validate_mailer, validate_mailer_template, validate_mailer_template_variables, actions,
  count_pairs,
}
use supabase_installer.Validation.Auth.{
  validate_auth, auth_parts, validate_email, validate_smtp, validate_oauth,
}
use supabase_installer.Validation.Whole.{validate_configuration, parts, validate_general}
use supabase_installer.Validation.Presets.{
  apply_configuration_preset, default_configuration, closed_services, apply_preset, default_auth,
  default_mailer_config,
}
use supabase_installer.Validation.Laws.{passes, run-accepts}

passes-preset :
    (packages : Packages) (preset : Preset)
    → passes (joined (parts packages (apply_configuration_preset preset))) ≡ true
unfolding apply_configuration_preset default_configuration closed_services apply_preset default_auth
    default_mailer_config parts validate_general validate_services_configuration validate_auth
    auth_parts validate_email validate_smtp validate_oauth validate_mailer validate_mailer_template
    validate_mailer_template_variables actions count_pairs validate_rate_limits validate_mfa
    validate_storage validate_phone validate_realtime validate_functions validate_database
    validate_pooler validate_network
passes-preset packages lightweight = refl
passes-preset packages standard = refl
passes-preset packages full = refl
passes-preset packages custom = refl

-- The configuration of every preset is accepted, whatever the packages that read texts say.
pub validate_configuration-apply_configuration_preset :
    (packages : Packages) (preset : Preset)
    → validate_configuration packages (apply_configuration_preset preset) ≡ []
unfolding validate_configuration
validate_configuration-apply_configuration_preset packages preset =
    (run-accepts (joined (parts packages (apply_configuration_preset preset)))).1
      (passes-preset packages preset)
