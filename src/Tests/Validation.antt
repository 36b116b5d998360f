-- ===== src/Tests/Validation.antt =====
-- apps/manager/internal/project/configuration.go on the configurations of presets.
use supabase_installer.Prelude.{false, none, [], ◌≡◌, refl, ◌↔◌, codes, ◌==◌}
use supabase_installer.Contracts.{standard, full}
use supabase_installer.Validation.{run, add}
use supabase_installer.Validation.Texts.{Packages}
use supabase_installer.Validation.Parts.{validate_services_configuration}
use supabase_installer.Validation.Whole.{validate_configuration}
use supabase_installer.Validation.Services.{IsClosed, validate_services_configuration-IsClosed}
use supabase_installer.Validation.Bounds.{InBounds, validate_configuration-InBounds}
use supabase_installer.Validation.Presets.{apply_preset, apply_configuration_preset}
use supabase_installer.Validation.Accepted.{validate_configuration-apply_configuration_preset}
use supabase_installer.Validation.Mailer.{validate_mailer_template_variables, actions, count_pairs}

abbrev packages : Packages
packages = record {
  is_space = λ c. c == 32;
  parse_request_uri = λ t. none;
  split_host_port = λ t. none;
  is_ip = λ t. false;
  parse_address = λ t. none;
}

validate_configuration-apply_configuration_preset_example :
    validate_configuration packages (apply_configuration_preset full) ≡ []
validate_configuration-apply_configuration_preset_example =
    validate_configuration-apply_configuration_preset packages full

validate_configuration-InBounds_example : InBounds (apply_configuration_preset full)
validate_configuration-InBounds_example =
    validate_configuration-InBounds packages (apply_configuration_preset full)
      (validate_configuration-apply_configuration_preset packages full)

validate_services_configuration-IsClosed_example :
    (run (validate_services_configuration (apply_preset standard)) [] ≡ [])
    ↔ IsClosed (apply_preset standard)
validate_services_configuration-IsClosed_example =
    validate_services_configuration-IsClosed (apply_preset standard)

-- Go's templates refuse "{{{.Token}}", which this accepts
three_braces :
    run (validate_mailer_template_variables packages (codes "{{{.Token}}") "subject") [] ≡ []
unfolding validate_mailer_template_variables actions count_pairs run add
three_braces = refl
