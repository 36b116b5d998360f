-- ===== src/Validation/Draft.antt =====
-- ValidateDraft of apps/manager/internal/project/validate.go. The folding of letters in strings.EqualFold and
-- url.Parse are parameters.
use supabase_installer.Prelude.{
  ℕ, String, Bool, true, false, ◌&&◌, ◌||◌, not, Option, none, some, List, [], ◌∷◌, ◌++◌, ◌⊎◌, inl,
  inr, ◌≡◌, refl, sym, ◌∙◌, ltb, trim, if◌then◌else◌, Text, codes, is_nil, same_text, same_text-eq,
  arith,
}
use supabase_installer.Contracts.{Preset}
use supabase_installer.Contracts.Configuration.{ManagedTlsConfig, ProjectConfiguration}
use supabase_installer.Slug.{matches_slug}
use supabase_installer.Validation.{ValidationError}
use supabase_installer.Validation.Texts.{Url, Packages, byte_len}
use supabase_installer.Validation.Whole.{validate_configuration}
use supabase_installer.Validation.Address.{FieldError, ProjectAddress, normalize_project_address}
use supabase_installer.Validation.Tls.{managed_tls_paths, IsInside, managed_tls_paths-IsInside}

pub record ProjectDraft : Type 0 where
  pub name : Text
  pub slug : Text
  pub preset : Preset
  pub configuration : ProjectConfiguration

-- the errors that are joined
pub data DraftError : Type 0 where
  on_field : FieldError → DraftError
  on_configuration : ValidationError → DraftError

abbrev refused : Bool → String → String → List DraftError
refused b field message =
    if b then on_field (record { field = field; message = message }) ∷ [] else []

abbrev normalized :
    ProjectConfiguration → FieldError ⊎ ProjectAddress → List DraftError × ProjectConfiguration
normalized cfg (inl e) = (on_field e ∷ [], cfg)
normalized cfg (inr a) =
    ([], record cfg { general = record cfg.general { site_url = a.site_url; domain = a.domain } })

abbrev is_other : ManagedTlsConfig → String ⊎ ManagedTlsConfig → Bool
is_other tls (inl message) = true
is_other tls (inr expected) =
    not (same_text expected.certificate_file tls.certificate_file)
    || not (same_text expected.private_key_file tls.private_key_file)

abbrev equal_fold : (ℕ → ℕ → Bool) → Text → Text → Bool
equal_fold folds [] [] = true
equal_fold folds (c ∷ s) (d ∷ t) = folds c d && equal_fold folds s t
equal_fold folds _ _ = false

abbrev of_configuration : ValidationError → List DraftError
of_configuration [] = []
of_configuration (m ∷ v) = on_configuration (m ∷ v) ∷ []

both_nil {ℓ} : {A : Type ℓ} (a b : List A) → a ++ b ≡ [] → (a ≡ []) × (b ≡ [])
both_nil [] b h = (refl, h)
both_nil (x ∷ a) b h = cc

module _ (to_lower : ℕ → ℕ) (folds : ℕ → ℕ → Bool) (parse : Text → Option Url)
    (packages : Packages) where
  abbrev tls_errors : ProjectConfiguration → Option ManagedTlsConfig → List DraftError
  tls_errors cfg none = []
  tls_errors cfg (some tls) =
      refused
        (is_other tls (
          managed_tls_paths to_lower packages.is_space parse tls.certificate_name
            cfg.general.site_url))
        "configuration.network.managedTls"
        "must use the managed TLS path derived from the Site URL base domain"

  abbrev version_errors : Text → List DraftError
  version_errors version =
      refused
        (is_nil version
          || equal_fold folds version (codes "latest")
          || equal_fold folds version (codes "master"))
        "configuration.general.supabaseVersion" "must be a pinned supported version"

  -- no error is nil
  unfoldable pub validate_draft : ProjectDraft → List DraftError
  validate_draft draft =
      let name = trim packages.is_space draft.name in
      let address = normalized draft.configuration (
        normalize_project_address to_lower packages draft.slug
          (some draft.configuration.general.site_url)) in
      let cfg = address.1 in
      refused (is_nil name || ltb 80 (byte_len name)) "name" "must contain 1 to 80 characters"
      ++ (refused (not (matches_slug draft.slug)) "slug"
            "must match [a-z0-9-] and be a valid DNS label"
          ++ (address.0
              ++ (tls_errors cfg cfg.network.managed_tls
                  ++ (version_errors (codes cfg.general.supabase_version)
                      ++ of_configuration (validate_configuration packages cfg)))))

  abbrev pub AllInside : Option ManagedTlsConfig → Type 0
  AllInside none = Unit
  AllInside (some tls) = IsInside tls

  abbrev pub IsAccepted : ProjectDraft → ProjectAddress → Type 0
  IsAccepted draft a =
      (normalize_project_address to_lower packages draft.slug
          (some draft.configuration.general.site_url)
        ≡ inr a)
      × AllInside draft.configuration.network.managed_tls
      × (validate_configuration packages (normalized draft.configuration (inr a)).1 ≡ [])

  refused-nil : (b : Bool) (field message : String) → refused b field message ≡ [] → b ≡ false
  refused-nil true field message h = cc
  refused-nil false field message h = refl

  of_configuration-nil : (v : ValidationError) → of_configuration v ≡ [] → v ≡ []
  of_configuration-nil [] h = refl
  of_configuration-nil (m ∷ v) h = cc

  not_other-IsInside :
      (tls : ManagedTlsConfig) (r : String ⊎ ManagedTlsConfig)
      → ((expected : ManagedTlsConfig) → r ≡ inr expected → IsInside expected)
      → is_other tls r ≡ false
      → IsInside tls
  not_other-IsInside tls (inl message) inside h = cc
  not_other-IsInside tls (inr expected) inside h =
      let (base, label, file, key) = inside expected refl in
      (
        base,
        label,
        sym (same_text-eq expected.certificate_file tls.certificate_file (ground arith)) ∙ file,
        sym (same_text-eq expected.private_key_file tls.private_key_file (ground arith)) ∙ key,
      )

  tls_errors-AllInside :
      (cfg : ProjectConfiguration) (managed : Option ManagedTlsConfig)
      → tls_errors cfg managed ≡ []
      → AllInside managed
  tls_errors-AllInside cfg none h = tt
  tls_errors-AllInside cfg (some tls) h =
      not_other-IsInside tls
        (managed_tls_paths to_lower packages.is_space parse tls.certificate_name
          cfg.general.site_url)
        (managed_tls_paths-IsInside to_lower packages.is_space parse tls.certificate_name
          cfg.general.site_url)
        (refused-nil _ _ _ h)

  -- the parts of the errors after the slug, for the outcome of the normalization
  with_address :
      (draft : ProjectDraft) (r : FieldError ⊎ ProjectAddress)
      → normalize_project_address to_lower packages draft.slug
          (some draft.configuration.general.site_url)
        ≡ r
      → (normalized draft.configuration r).0
          ++ (tls_errors
                (normalized draft.configuration r).1
                (normalized draft.configuration r).1.network.managed_tls
              ++ (version_errors
                    (codes (normalized draft.configuration r).1.general.supabase_version)
                  ++ of_configuration
                      (validate_configuration packages (normalized draft.configuration r).1)))
        ≡ []
      → (a : ProjectAddress) × IsAccepted draft a
  with_address draft (inl e) is h = cc
  with_address draft (inr a) is h =
      let (tls, rest) =
        both_nil
          (tls_errors (normalized draft.configuration (inr a)).1
            draft.configuration.network.managed_tls)
          _ h in
      let (version, last) =
        both_nil (version_errors (codes draft.configuration.general.supabase_version)) _ rest in
      (
        a,
        (
          is,
          tls_errors-AllInside (normalized draft.configuration (inr a)).1
              draft.configuration.network.managed_tls tls,
          of_configuration-nil _ last,
        ),
      )

  -- If ValidateDraft finds no error, then the address of the server can be made, its configuration with that address
  -- is accepted, and the files of a managed certificate stand directly in the directory of certificates, under one
  -- name of letters a-z, digits and dashes.
  pub validate_draft-IsAccepted :
      (draft : ProjectDraft) → validate_draft draft ≡ [] → (a : ProjectAddress) × IsAccepted draft a
  unfolding validate_draft
  validate_draft-IsAccepted draft h =
      let (name, more) =
        both_nil
          (refused
            (is_nil (trim packages.is_space draft.name)
              || ltb 80 (byte_len (trim packages.is_space draft.name)))
            _ _)
          _ h in
      let (slug, rest) = both_nil (refused (not (matches_slug draft.slug)) _ _) _ more in
      with_address draft
        (normalize_project_address to_lower packages draft.slug
          (some draft.configuration.general.site_url))
        refl rest
