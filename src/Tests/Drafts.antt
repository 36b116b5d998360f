-- ===== src/Tests/Drafts.antt =====
-- apps/manager/internal/project/validate.go and internal/contracts/tls.go on drafts of servers.
use supabase_installer.Prelude.{
  ℕ, Bool, true, false, Option, none, some, [], ◌≡◌, refl, ◌==◌, ◌&&◌, leb, ◌+◌, inr, drop, Text,
  codes, is_label_char, if◌then◌else◌, has_prefix, arith,
}
use supabase_installer.Contracts.{full}
use supabase_installer.Slug.{matches_slug}
use supabase_installer.Contracts.Configuration.{ProjectConfiguration}
use supabase_installer.Validation.{run, add}
use supabase_installer.Validation.Texts.{Url, Packages, valid_domain, valid_absolute_http_url}
use supabase_installer.Validation.Parts.{
  validate_services_configuration, validate_rate_limits, validate_mfa, validate_storage,
  validate_phone,
}
use supabase_installer.Validation.Limits.{
  validate_realtime, validate_functions, validate_database, validate_pooler, validate_network,
}
use supabase_installer.Validation.Mailer.{
  validate_mailer, validate_mailer_template, validate_mailer_template_variables, actions,
  count_pairs,
}
use supabase_installer.Validation.Auth.{
  validate_auth, auth_parts, validate_email, validate_smtp, validate_oauth,
}
use supabase_installer.Validation.Whole.{validate_configuration, parts, validate_general}
use supabase_installer.Validation.Presets.{
  apply_configuration_preset, default_configuration, closed_services, apply_preset, default_auth,
  default_mailer_config,
}
use supabase_installer.Validation.Address.{
  ProjectAddress, normalize_project_address, with_base, canonical_base_site_url,
}
use supabase_installer.Validation.Domains.{normalize_project_address-distinct}
use supabase_installer.Validation.Tls.{managed_tls_paths}
use supabase_installer.Validation.Draft.{
  ProjectDraft, validate_draft, IsAccepted, validate_draft-IsAccepted,
}

-- the package functions on ASCII, for URLs "https://host"
abbrev to_lower : ℕ → ℕ
to_lower c = if leb 65 c && leb c 90 then c + 32 else c

abbrev url : Text → Url
url host = record {
  scheme = codes "https";
  host = host;
  hostname = host;
  port = [];
  path = [];
  raw_query = [];
  fragment = [];
  has_user = false;
}

abbrev parse : Text → Option Url
parse t = if has_prefix (codes "https://") t then some (url (drop 8 t)) else none

abbrev folds : ℕ → ℕ → Bool
folds c d = to_lower c == to_lower d

abbrev packages : Packages
packages = record {
  is_space = λ c. c == 32;
  parse_request_uri = parse;
  split_host_port = λ t. none;
  is_ip = λ t. false;
  parse_address = λ t. none;
}

lower_label : (c : ℕ) → is_label_char c ≡ true → to_lower c ≡ c
lower_label c h = ground arith

abbrev address : ProjectAddress
address = record { site_url = codes "https://example.org"; domain = codes "blog.example.org" }

normalized_upper :
    normalize_project_address to_lower packages (codes "blog") (some (codes " https://Example.org"))
    ≡ inr address
unfolding normalize_project_address canonical_base_site_url with_base valid_domain matches_slug
normalized_upper = refl

normalized_lower :
    normalize_project_address to_lower packages (codes "blog") (some (codes "https://example.org"))
    ≡ inr address
unfolding normalize_project_address canonical_base_site_url with_base valid_domain matches_slug
normalized_lower = refl

normalize_project_address-distinct_example :
    (codes "blog" ≡ codes "blog") × (address.site_url ≡ address.site_url)
normalize_project_address-distinct_example =
    normalize_project_address-distinct to_lower packages lower_label (codes "blog") (codes "blog")
      (some (codes " https://Example.org")) (some (codes "https://example.org")) address address
      normalized_upper normalized_lower refl

abbrev configuration : ProjectConfiguration
configuration = record (apply_configuration_preset full) {
  general = record (apply_configuration_preset full).general {
    site_url = codes "https://example.org";
  };
  network = record (apply_configuration_preset full).network {
    managed_tls = some (record {
      certificate_name = codes "origin";
      certificate_file = codes "/etc/nginx/ssl/origin-example.pem";
      private_key_file = codes "/etc/nginx/ssl/origin-example.key";
    });
  };
}

abbrev blog : ProjectDraft
blog = record {
  name = codes "My blog";
  slug = codes "blog";
  preset = full;
  configuration = configuration;
}

no_errors : validate_draft to_lower folds parse packages blog ≡ []
unfolding validate_services_configuration validate_rate_limits validate_mfa validate_storage
    validate_phone validate_realtime validate_functions validate_database validate_pooler
    validate_network validate_mailer validate_mailer_template validate_mailer_template_variables
    actions count_pairs validate_auth auth_parts validate_email validate_smtp validate_oauth
    validate_configuration parts validate_general apply_configuration_preset default_configuration
    closed_services apply_preset default_auth default_mailer_config validate_draft
    normalize_project_address canonical_base_site_url with_base valid_domain valid_absolute_http_url
    matches_slug managed_tls_paths run add
no_errors = refl

validate_draft-IsAccepted_example :
    (a : ProjectAddress) × IsAccepted to_lower folds parse packages blog a
validate_draft-IsAccepted_example =
    validate_draft-IsAccepted to_lower folds parse packages blog no_errors
