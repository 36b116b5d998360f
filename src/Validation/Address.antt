-- ===== src/Validation/Address.antt =====
-- apps/manager/internal/project/validate.go: the address of a server, made of its slug and the base URL of the site.
-- The pointer to the general configuration is the site URL in it, or none; what is written through it is a result.
use supabase_installer.Prelude.{
  ℕ, String, Bool, ◌&&◌, ◌||◌, not, Option, none, some, ◌⊎◌, inl, inr, map, ◌++◌, if◌then◌else◌,
  Text, codes, is_nil, same_text, has_prefix, drop, length, trim,
}
use supabase_installer.Slug.{matches_slug}
use supabase_installer.Validation.Texts.{Url, Packages, is_http, valid_domain}

pub record FieldError : Type 0 where
  pub field : String
  pub message : String

-- general.SiteURL and general.Domain
pub record ProjectAddress : Type 0 where
  pub site_url : Text
  pub domain : Text

abbrev pub https : Text
https = codes "https://"

-- strings.TrimPrefix
abbrev pub trim_prefix : Text → Text → Text
trim_prefix prefix s = if has_prefix prefix s then drop (length prefix) s else s

-- more than a host name
abbrev pub is_more : Url → Bool
is_more u =
    u.has_user
    || not (is_nil u.port)
    || (not (is_nil u.path) && not (same_text u.path (codes "/")))
    || not (is_nil u.raw_query)
    || not (is_nil u.fragment)

module _ (to_lower : ℕ → ℕ) (packages : Packages) where
  abbrev pub canonical_host : Text → String ⊎ Text
  canonical_host host =
      if not (valid_domain packages host)
      then inl "must contain a valid DNS hostname"
      else inr (https ++ host)

  abbrev pub canonical_url : Option Url → String ⊎ Text
  canonical_url none = inl "must be an absolute http or https URL"
  canonical_url (some u) =
      if not (is_http packages (some u))
      then inl "must be an absolute http or https URL"
      else if is_more u
      then inl "must be a base hostname without a port, path, query, or fragment"
      else canonical_host (map to_lower u.hostname)

  unfoldable pub canonical_base_site_url : Text → String ⊎ Text
  canonical_base_site_url value =
      canonical_url (packages.parse_request_uri (trim packages.is_space value))

  unfoldable pub with_base : Text → String ⊎ Text → FieldError ⊎ ProjectAddress
  with_base slug (inl message) =
      inl (record { field = "configuration.general.siteUrl"; message = message })
  with_base slug (inr base_url) =
      let domain = map to_lower slug ++ (codes "." ++ trim_prefix https base_url) in
      if not (valid_domain packages domain)
      then inl (record {
        field = "configuration.general.siteUrl";
        message = "must contain a DNS hostname suitable for a server subdomain";
      })
      else inr (record { site_url = base_url; domain = domain })

  abbrev pub with_general : Text → Option Text → FieldError ⊎ ProjectAddress
  with_general slug none =
      inl (record { field = "configuration.general.siteUrl"; message = "is required" })
  with_general slug (some site_url) = with_base slug (canonical_base_site_url site_url)

  unfoldable pub normalize_project_address : Text → Option Text → FieldError ⊎ ProjectAddress
  normalize_project_address slug general =
      if not (matches_slug slug)
      then inl
          (record { field = "slug"; message = "must match [a-z0-9-] and be a valid DNS label" })
      else with_general slug general
