-- ===== src/Validation/Tls.antt =====
-- internal/contracts/tls.go: the files of the managed certificate of a server. url.Parse is a parameter.
use supabase_installer.Prelude.{
  ℕ, String, Bool, true, false, ◌&&◌, ◌||◌, not, Option, none, some, List, [], ◌∷◌, ◌++◌, ◌⊎◌, inl,
  inr, ◌≡◌, refl, map, length, leb, every, trim, if◌then◌else◌, Text, codes, is_nil, is_alnum,
  is_label_char, dash, same_text, arith, subst,
}
use supabase_installer.Contracts.Configuration.{ManagedTlsConfig}
use supabase_installer.Validation.Laws.{inr-inj, otherwise}
use supabase_installer.Validation.Texts.{Url, has_suffix, split_at}

-- ^[a-z0-9][a-z0-9-]{0,62}$
abbrev pub matches_managed_tls_name : Text → Bool
matches_managed_tls_name [] = false
matches_managed_tls_name (c ∷ s) = is_alnum c && leb (length s) 62 && every is_label_char s

abbrev pub managed_tls_directory : Text
managed_tls_directory = codes "/etc/nginx/ssl"

abbrev pub in_directory : Text → String → Text
in_directory base extension = managed_tls_directory ++ (codes "/" ++ (base ++ codes extension))

-- the name of the certificate, which ends with the first label
abbrev pub tls_base : Text → Text → Text
tls_base name label = if has_suffix (dash ∷ label) name then name else name ++ dash ∷ label

abbrev pub tls_files : Text → Text → ManagedTlsConfig
tls_files name label =
    let base = tls_base name label in
    record {
      certificate_name = name;
      certificate_file = in_directory base ".pem";
      private_key_file = in_directory base ".key";
    }

abbrev pub tls_labels : Text → List Text → String ⊎ ManagedTlsConfig
tls_labels name (label ∷ next ∷ labels) =
    if is_nil label
    then inl "site URL must include a base domain"
    else if not (every matches_managed_tls_name (label ∷ next ∷ labels))
    then inl "site URL has an invalid base domain label"
    else inr (tls_files name label)
tls_labels name _ = inl "site URL must include a base domain"

module _ (to_lower : ℕ → ℕ) (is_space : ℕ → Bool) (parse : Text → Option Url) where
  abbrev pub tls_url : Text → Option Url → String ⊎ ManagedTlsConfig
  tls_url name none = inl "site URL must be an http or https base domain"
  tls_url name (some u) =
      if not (same_text u.scheme (codes "https") || same_text u.scheme (codes "http"))
        || is_nil u.hostname
      then inl "site URL must be an http or https base domain"
      else tls_labels name (split_at 46 (map to_lower u.hostname))

  unfoldable pub managed_tls_paths : Text → Text → String ⊎ ManagedTlsConfig
  managed_tls_paths certificate_name site_url =
      let name = trim is_space (map to_lower certificate_name) in
      if not (matches_managed_tls_name name)
      then inl "certificate name must contain lowercase letters, digits, and hyphens only"
      else tls_url name (parse (trim is_space site_url))

-- both files are in the directory, with one name of letters a-z, digits and dashes
abbrev pub IsInside : ManagedTlsConfig → Type 0
IsInside tls =
    (base : Text) × (every is_label_char base ≡ true)
    × (tls.certificate_file ≡ in_directory base ".pem")
    × (tls.private_key_file ≡ in_directory base ".key")

every-append :
    (a b : Text)
    → every is_label_char a ≡ true
    → every is_label_char b ≡ true
    → every is_label_char (a ++ b) ≡ true
every-append [] b h k = k
every-append (c ∷ a) b h k = ground (arith, every-append a b)

matches_managed_tls_name-every :
    (s : Text) → matches_managed_tls_name s ≡ true → every is_label_char s ≡ true
matches_managed_tls_name-every [] h = refl
matches_managed_tls_name-every (c ∷ s) h = ground arith

chosen :
    (b : Bool) (x y : Text)
    → every is_label_char x ≡ true
    → every is_label_char y ≡ true
    → every is_label_char (if b then x else y) ≡ true
chosen true x y h k = h
chosen false x y h k = k

tls_files-IsInside :
    (name label : Text)
    → every is_label_char name ≡ true
    → every is_label_char label ≡ true
    → IsInside (tls_files name label)
tls_files-IsInside name label h k = (
  tls_base name label,
  chosen (has_suffix (dash ∷ label) name) name (name ++ dash ∷ label) h
      (every-append name (dash ∷ label) h (ground arith)),
  refl,
  refl,
)

tls_labels-IsInside :
    (name : Text) (labels : List Text) (tls : ManagedTlsConfig)
    → every is_label_char name ≡ true
    → tls_labels name labels ≡ inr tls
    → IsInside tls
tls_labels-IsInside name [] tls h made = cc
tls_labels-IsInside name (label ∷ []) tls h made = cc
tls_labels-IsInside name (label ∷ next ∷ labels) tls h made =
    let nonempty = (otherwise (is_nil label) _ _ tls made).1 in
    let (valid, is) =
      otherwise (not (every matches_managed_tls_name (label ∷ next ∷ labels))) _
        (inr (tls_files name label)) tls nonempty in
    subst IsInside (inr-inj is)
      (tls_files-IsInside name label h (matches_managed_tls_name-every label (ground arith)))

module _ (to_lower : ℕ → ℕ) (is_space : ℕ → Bool) (parse : Text → Option Url) where
  tls_url-IsInside :
      (name : Text) (u : Option Url) (tls : ManagedTlsConfig)
      → every is_label_char name ≡ true
      → tls_url to_lower is_space parse name u ≡ inr tls
      → IsInside tls
  tls_url-IsInside name none tls h made = cc
  tls_url-IsInside name (some u) tls h made =
      tls_labels-IsInside name (split_at 46 (map to_lower u.hostname)) tls h
        (otherwise
          (not (same_text u.scheme (codes "https") || same_text u.scheme (codes "http"))
            || is_nil u.hostname)
          _ _ tls made).1

  -- The two files that are derived for a certificate stand directly in the directory of managed certificates and
  -- differ only in their extension: whatever the name and the URL, their common name has only letters a-z, digits and dashes.
  pub managed_tls_paths-IsInside :
      (certificate_name site_url : Text) (tls : ManagedTlsConfig)
      → managed_tls_paths to_lower is_space parse certificate_name site_url ≡ inr tls
      → IsInside tls
  unfolding managed_tls_paths
  managed_tls_paths-IsInside certificate_name site_url tls h =
      let name = trim is_space (map to_lower certificate_name) in
      let (valid, made) = otherwise (not (matches_managed_tls_name name)) _ _ tls h in
      tls_url-IsInside name (parse (trim is_space site_url)) tls
        (matches_managed_tls_name-every name (ground arith)) made
