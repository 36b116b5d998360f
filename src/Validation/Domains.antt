-- ===== src/Validation/Domains.antt =====
-- NormalizeProjectAddress of apps/manager/internal/project/validate.go: what the domain of a server tells.
use supabase_installer.Prelude.{
  ℕ, String, true, not, Option, none, some, [], ◌∷◌, ◌++◌, ◌⊎◌, inl, inr, ◌≡◌, refl, sym, ap, ◌∙◌,
  map, Text, trim, is_label_char, every, arith, subst,
}
use supabase_installer.Slug.{matches_slug}
use supabase_installer.Validation.Texts.{Url, is_http, Packages, valid_domain}
use supabase_installer.Validation.Laws.{inr-inj, otherwise}
use supabase_installer.Validation.Address.{
  FieldError, ProjectAddress, https, is_more, canonical_host, canonical_url,
  canonical_base_site_url, with_base, with_general, normalize_project_address,
}

matches_slug-every : (s : Text) → matches_slug s ≡ true → every is_label_char s ≡ true
unfolding matches_slug
matches_slug-every (c ∷ []) h = ground arith
matches_slug-every (c ∷ d ∷ s) h = ground arith
matches_slug-every [] h = refl

-- a label ends at the first dot
first_dot :
    (a b x y : Text)
    → every is_label_char a ≡ true
    → every is_label_char b ≡ true
    → ◌≡◌ {A = Text} (a ++ b'.' ∷ x) (b ++ b'.' ∷ y)
    → (a ≡ b) × (x ≡ y)
first_dot [] [] x y h k e = (refl, cc)
first_dot [] (d ∷ b) x y h k e = ground arith
first_dot (c ∷ a) [] x y h k e = ground arith
first_dot (c ∷ a) (d ∷ b) x y h k e = let rest = first_dot a b x y in grind arith

-- the address of the slug under a host
abbrev pub IsAddressOf : Text → ProjectAddress → Type 0
IsAddressOf slug a =
    (host : Text) × (every is_label_char slug ≡ true)
    × (a.site_url ≡ https ++ host)
    × ◌≡◌ {A = Text} a.domain (slug ++ b'.' ∷ host)

IsAddressOf-same :
    (slug slug' : Text) (a a' : ProjectAddress)
    → IsAddressOf slug a
    → IsAddressOf slug' a'
    → a.domain ≡ a'.domain
    → (slug ≡ slug') × (a.site_url ≡ a'.site_url)
IsAddressOf-same slug slug' a a' (host, label, url, domain) (host', label', url', domain') e =
    let both = first_dot slug slug' host host' label label' (sym domain ∙ e ∙ domain') in
    (both.0, url ∙ ap (λ h. https ++ h) both.1 ∙ sym url')

module _ (to_lower : ℕ → ℕ) (packages : Packages) where
  map-label :
      ((c : ℕ) → is_label_char c ≡ true → to_lower c ≡ c)
      → (s : Text) → every is_label_char s ≡ true
      → map to_lower s ≡ s
  map-label keeps [] h = refl
  map-label keeps (c ∷ s) h = ground (arith, keeps c, map-label keeps s)

  canonical_host-https :
      (host base : Text) → canonical_host to_lower packages host ≡ inr base → base ≡ https ++ host
  canonical_host-https host base h =
      inr-inj (sym (otherwise (not (valid_domain packages host)) _ (inr (https ++ host)) base h).1)

  canonical_url-https :
      (u : Option Url) (base : Text)
      → canonical_url to_lower packages u ≡ inr base
      → (host : Text) × (base ≡ https ++ host)
  canonical_url-https none base h = ground arith
  canonical_url-https (some u) base h =
      let host = map to_lower u.hostname in
      let absolute = (otherwise (not (is_http packages (some u))) _ _ base h).1 in
      (host, canonical_host-https host base (otherwise (is_more u) _ _ base absolute).1)

  with_base-IsAddressOf :
      ((c : ℕ) → is_label_char c ≡ true → to_lower c ≡ c)
      → (slug host : Text) (a : ProjectAddress) → every is_label_char slug ≡ true
      → with_base to_lower packages slug (inr (https ++ host)) ≡ inr a
      → IsAddressOf slug a
  unfolding with_base
  with_base-IsAddressOf keeps slug host a label h =
      let domain = map to_lower slug ++ b'.' ∷ host in
      let made =
        inr-inj
          (otherwise {A = FieldError} {B = ProjectAddress} (not (valid_domain packages domain))
            (record {
              field = "configuration.general.siteUrl";
              message = "must contain a DNS hostname suitable for a server subdomain";
            })
            (inr (record { site_url = https ++ host; domain = domain })) a h).1 in
      (
        host,
        label,
        sym (ap (λ x. x.site_url) made),
        sym (ap (λ x. x.domain) made) ∙ ap (λ s. s ++ b'.' ∷ host) (map-label keeps slug label),
      )

  with_canonical-IsAddressOf :
      ((c : ℕ) → is_label_char c ≡ true → to_lower c ≡ c)
      → (slug url : Text) (a : ProjectAddress) (r : String ⊎ Text) → every is_label_char slug ≡ true
      → canonical_base_site_url to_lower packages url ≡ r
      → with_base to_lower packages slug r ≡ inr a
      → IsAddressOf slug a
  unfolding canonical_base_site_url with_base
  with_canonical-IsAddressOf keeps slug url a (inl message) label read made = cc
  with_canonical-IsAddressOf keeps slug url a (inr base) label read made =
      let (host, is) =
        canonical_url-https (packages.parse_request_uri (trim packages.is_space url)) base read in
      with_base-IsAddressOf keeps slug host a label
        (subst (λ b. with_base to_lower packages slug (inr b) ≡ inr a) is made)

  with_general-IsAddressOf :
      ((c : ℕ) → is_label_char c ≡ true → to_lower c ≡ c)
      → (slug : Text) (general : Option Text) (a : ProjectAddress) → every is_label_char slug ≡ true
      → with_general to_lower packages slug general ≡ inr a
      → IsAddressOf slug a
  with_general-IsAddressOf keeps slug none a label h = cc
  with_general-IsAddressOf keeps slug (some url) a label h =
      with_canonical-IsAddressOf keeps slug url a (canonical_base_site_url to_lower packages url)
        label refl h

  normalize_project_address-IsAddressOf :
      ((c : ℕ) → is_label_char c ≡ true → to_lower c ≡ c)
      → (slug : Text) (general : Option Text) (a : ProjectAddress)
      → normalize_project_address to_lower packages slug general ≡ inr a
      → IsAddressOf slug a
  unfolding normalize_project_address
  normalize_project_address-IsAddressOf keeps slug general a h =
      let (matched, rest) = otherwise (not (matches_slug slug)) _ _ a h in
      with_general-IsAddressOf keeps slug general a (matches_slug-every slug (ground arith)) rest

  -- Two servers have the same domain only if they have the same slug and the same base URL, if the letters of a
  -- slug are their own lower case.
  pub normalize_project_address-distinct :
      ((c : ℕ) → is_label_char c ≡ true → to_lower c ≡ c)
      → (slug slug' : Text) (general general' : Option Text) (a a' : ProjectAddress)
      → normalize_project_address to_lower packages slug general ≡ inr a
      → normalize_project_address to_lower packages slug' general' ≡ inr a'
      → a.domain ≡ a'.domain
      → (slug ≡ slug') × (a.site_url ≡ a'.site_url)
  normalize_project_address-distinct keeps slug slug' general general' a a' h h' =
      IsAddressOf-same slug slug' a a'
        (normalize_project_address-IsAddressOf keeps slug general a h)
        (normalize_project_address-IsAddressOf keeps slug' general' a' h')
