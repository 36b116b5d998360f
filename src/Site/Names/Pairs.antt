-- ===== src/Site/Names/Pairs.antt =====
-- The names of the renderer in apps/nginxproxy/internal/site/site.go and those that store.go derives.
use supabase_installer.Prelude.{
  ℕ, Bool, true, false, [], ◌∷◌, ◌++◌, ◌≡◌, refl, ap, ◌∙◌, length, length-append, same_text-eq,
  same_text_self, none, some, if◌then◌else◌, Text, same_text, arith, Bool-cases, inl, inr,
}
use supabase_installer.Site.Names.{
  matches_site_slug, drop_prefix, drop_suffix, cons_stem, manager_prefix, conf, htpasswd, stem,
  is_managed_stem, matches_available, managed_site_name, managed_credential_name, trim_suffix,
  managed_credential_name_from_site,
}

drop_prefix-++ : (p s : Text) → drop_prefix p (p ++ s) ≡ some s
drop_prefix-++ [] s = refl
drop_prefix-++ (c ∷ p) s = let rest = drop_prefix-++ p s in ground arith

-- a text that is longer than the suffix is not the suffix
longer : (c : ℕ) (s suffix : Text) → same_text (c ∷ (s ++ suffix)) suffix ≡ false
longer c s suffix = elim (Bool-cases (same_text (c ∷ (s ++ suffix)) suffix)) [
  | inr e ↦ e
  | inl e ↦
      let len = ap length (same_text-eq (c ∷ (s ++ suffix)) suffix e) in
      let sum = length-append s suffix in absurd (omega arith)
]

drop_suffix-same : (suffix s : Text) → same_text s suffix ≡ true → drop_suffix suffix s ≡ some []
drop_suffix-same suffix [] e = ap (λ b. if b then some [] else none) e
drop_suffix-same suffix (c ∷ s) e =
    ap (λ b. if b then some [] else cons_stem c (drop_suffix suffix s)) e

drop_suffix-++ : (suffix s : Text) → drop_suffix suffix (s ++ suffix) ≡ some s
drop_suffix-++ suffix [] = drop_suffix-same suffix suffix (same_text_self suffix)
drop_suffix-++ suffix (c ∷ s) =
    let rest = drop_suffix-++ suffix s in
    let l = longer c s suffix in
    ap (λ b. if b then some [] else cons_stem c (drop_suffix suffix (s ++ suffix))) l
    ∙ ap (cons_stem c) rest

-- the test on the slug of a name with the prefix and the suffix
matched :
    (suffix slug : Text)
    → is_managed_stem (stem suffix (drop_prefix manager_prefix (manager_prefix ++ slug ++ suffix)))
      ≡ matches_site_slug slug
matched suffix slug =
    ap (λ x. is_managed_stem (stem suffix x)) (drop_prefix-++ manager_prefix (slug ++ suffix))
    ∙ ap is_managed_stem (drop_suffix-++ suffix slug)

trimmed : (slug : Text) → trim_suffix conf (manager_prefix ++ slug ++ conf) ≡ manager_prefix ++ slug
trimmed slug =
    ap (λ o. elim o [ none ↦ manager_prefix ++ slug ++ conf | some s ↦ s ])
      (drop_suffix-++ conf (manager_prefix ++ slug))

-- what is derived from the name of a slug that is accepted
from_site :
    (slug : Text)
    → matches_site_slug slug ≡ true
    → managed_credential_name_from_site (manager_prefix ++ slug ++ conf)
      ≡ some (manager_prefix ++ slug ++ htpasswd)
unfolding managed_credential_name_from_site matches_available
from_site slug m =
    ap
      (λ b.
        if b then some (trim_suffix conf (manager_prefix ++ slug ++ conf) ++ htpasswd) else none)
      (matched conf slug ∙ m)
    ∙ ap (λ t. some (t ++ htpasswd)) (trimmed slug)

named_credential :
    (b : Bool) (slug : Text) {name : Text}
    → matches_site_slug slug ≡ b
    → (if b then some (manager_prefix ++ slug ++ conf) else none) ≡ some name
    → managed_credential_name_from_site name
      ≡ (if b then some (manager_prefix ++ slug ++ htpasswd) else none)
named_credential true slug m p = let e = from_site slug m in cc
named_credential false slug m p = cc

-- The credential name that Remove derives from a site name is the one that the renderer gives to the slug
-- of that site name.
pub managed_credential_name_from_site-managed_site_name :
    (slug : Text) {name : Text}
    → managed_site_name slug ≡ some name
    → managed_credential_name_from_site name ≡ managed_credential_name slug
unfolding managed_site_name managed_credential_name
managed_credential_name_from_site-managed_site_name slug p =
    named_credential (matches_site_slug slug) slug refl p
