-- ===== src/Site/Store/RoundTrip.antt =====
-- Apply and then Remove in apps/nginxproxy/internal/site/store.go.
use supabase_installer.Prelude.{
  Bool, true, false, ◌&&◌, ◌||◌, not, Option, none, some, ◌≡◌, refl, sym, ap, ◌∙◌, if◌then◌else◌,
  Text, is_nil,
}
use supabase_installer.Site.Names.{managed_site_name, managed_credential_name}
use supabase_installer.Site.Names.Pairs.{managed_credential_name_from_site-managed_site_name}
use supabase_installer.Site.Host.{Place, same_place, Node, Files, Outcome, done, Host}
use supabase_installer.Site.Store.{Store, RenderedSite, apply, remove}
use supabase_installer.Site.Store.Restore.{belongs}
use supabase_installer.Site.Store.Apply.{apply_frame}
use supabase_installer.Site.Store.Remove.{removed_files, named-is_nil, remove-done}

cleared :
    (a e c n : Bool) (x y : Option Node)
    → n ≡ false
    → ((a || e || (not n && c)) ≡ false → x ≡ y)
    → (if c then none else (if a then none else (if e then none else x)))
      ≡ (if a || e || (not n && c) then none else y)
cleared a e true true x y no_ same_ = cc
cleared true e true false x y no_ same_ = refl
cleared false true true false x y no_ same_ = refl
cleared false false true false x y no_ same_ = refl
cleared true e false n x y no_ same_ = refl
cleared false true false n x y no_ same_ = refl
cleared false false false true x y no_ same_ = cc
cleared false false false false x y no_ same_ = same_ refl

-- If apply installs the site of a slug with the names that belong to it, and remove then takes that site
-- away, then none of its three places holds anything, and every other place is as before both.
pub remove-apply :
    (store : Store) (r : RenderedSite) (slug : Text) (h h1 h2 : Host)
    → managed_site_name slug ≡ some r.available_name
    → managed_credential_name slug ≡ some r.auth_file_name
    → apply store r h ≡ (done tt, h1)
    → remove store r.available_name h1 ≡ (done tt, h2)
    → (q : Place)
    → h2.files q ≡ (if belongs r.available_name r.auth_file_name q then none else h.files q)
unfolding removed_files
remove-apply store r slug h h1 h2 site credential p p' q =
    let (auth, derived, files, _) = remove-done store r.available_name h1 p' in
    let from_slug = managed_credential_name_from_site-managed_site_name slug site in
    let is_auth : auth ≡ r.auth_file_name = cc in
    let named = named-is_nil r.available_name (from_slug ∙ credential) in
    let frame : belongs r.available_name r.auth_file_name q ≡ false → h1.files q ≡ h.files q =
      λ out.
        sym (ap (λ (y : Outcome (Unit {0}) × Host). y.1.files q) p) ∙ apply_frame store r h q out in
    ap (λ (f : Files). f q) files
    ∙ ap (λ a. removed_files r.available_name a h1.files q) is_auth
    ∙ cleared (same_place (Place.available r.available_name) q)
        (same_place (Place.enabled r.available_name) q) (same_place (Place.auth r.auth_file_name) q)
        (is_nil r.auth_file_name) (h1.files q) (h.files q) named frame
