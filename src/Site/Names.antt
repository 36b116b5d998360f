-- ===== src/Site/Names.antt =====
-- apps/nginxproxy/internal/site/site.go and store.go: the names of the files that belong to a server.
pub mod Pairs
use supabase_installer.Prelude.{
  ℕ, Bool, true, false, ◌&&◌, ◌||◌, List, [], ◌∷◌, ◌++◌, leb, ◌==◌, length, every, if◌then◌else◌,
  Text, codes, is_alnum, is_label_char, has_prefix, same_text, is_nil, Option, none, some, String,
}

-- ^[a-z0-9][a-z0-9-]{0,62}$
unfoldable pub matches_site_slug : Text → Bool
matches_site_slug [] = false
matches_site_slug (c ∷ s) = is_alnum c && leb (length s) 62 && every is_label_char s

-- ^P[a-z0-9][a-z0-9-]{0,62}S$ for a fixed prefix P and suffix S: the text after P, without S at its end
abbrev pub drop_prefix : Text → Text → Option Text
drop_prefix [] s = some s
drop_prefix (c ∷ p) [] = none
drop_prefix (c ∷ p) (d ∷ s) = if c == d then drop_prefix p s else none

abbrev cons_stem : ℕ → Option Text → Option Text
cons_stem c none = none
cons_stem c (some s) = some (c ∷ s)

abbrev pub drop_suffix : Text → Text → Option Text
drop_suffix suffix [] = if same_text [] suffix then some [] else none
drop_suffix suffix (c ∷ s) =
    let rest = drop_suffix suffix s in
    if same_text (c ∷ s) suffix then some [] else cons_stem c rest

abbrev pub manager_prefix : Text
manager_prefix = codes "supabase-manager-"

abbrev pub conf : Text
conf = codes ".conf"

abbrev pub htpasswd : Text
htpasswd = codes ".htpasswd"

abbrev stem : Text → Option Text → Option Text
stem suffix none = none
stem suffix (some rest) = drop_suffix suffix rest

abbrev is_managed_stem : Option Text → Bool
is_managed_stem none = false
is_managed_stem (some s) = matches_site_slug s

-- availableNamePattern and credentialNamePattern
unfoldable pub matches_available : Text → Bool
unfolding matches_site_slug
matches_available name = is_managed_stem (stem conf (drop_prefix manager_prefix name))

unfoldable pub matches_credential : Text → Bool
unfolding matches_site_slug
matches_credential name = is_managed_stem (stem htpasswd (drop_prefix manager_prefix name))

-- `none` is "invalid server slug"
unfoldable pub managed_site_name : Text → Option Text
managed_site_name slug =
    if matches_site_slug slug then some (manager_prefix ++ slug ++ conf) else none

unfoldable pub managed_credential_name : Text → Option Text
managed_credential_name slug =
    if matches_site_slug slug then some (manager_prefix ++ slug ++ htpasswd) else none

-- strings.TrimSuffix
abbrev pub trim_suffix : Text → Text → Text
trim_suffix suffix name = elim (drop_suffix suffix name) [ none ↦ name | some s ↦ s ]

unfoldable pub managed_credential_name_from_site : Text → Option Text
managed_credential_name_from_site name =
    if matches_available name then some (trim_suffix conf name ++ htpasswd) else none
