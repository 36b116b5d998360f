-- ===== src/Tests/Site.antt =====
-- apps/nginxproxy/internal/site/store.go on the site of one server.
use supabase_installer.Prelude.{
  Bool, true, false, none, some, List, [], ◌∷◌, ◌≡◌, refl, Text, codes,
}
use supabase_installer.Site.Names.{
  matches_site_slug, matches_available, matches_credential, managed_site_name,
  managed_credential_name, managed_credential_name_from_site,
}
use supabase_installer.Site.Paths.{clean, clean_elements, split, dir}
use supabase_installer.Site.Host.{
  Place, Files, SiteError, Outcome, done, failed, Host, ◌>>=◌, call, next_fault, look, or_else,
}
use supabase_installer.Site.Store.{
  Store, RenderedSite, validate, ensure_nginx_can_read_credentials, snapshot_file, snapshot_link,
  snapshot_credential, snapshot, write_atomic, replace_enabled_link, remove_if_present, restore,
  restore_after_failure, write_credential, install, prepare, apply, uninstall, remove,
}
use supabase_installer.Site.Store.Change.{Failed}
use supabase_installer.Site.Store.Apply.{site_files, apply-done, apply-failed, apply_frame}
use supabase_installer.Site.Store.Remove.{removed_files, remove-done, remove-failed}
use supabase_installer.Site.Store.RoundTrip.{remove-apply}

abbrev store : Store
store = record {
  available_directory = codes "/etc/nginx/sites-available";
  auth_directory = codes "/etc/nginx/auth/studio/";
  has_runner = true;
}

abbrev slug : Text
slug = codes "blog"

abbrev rendered : RenderedSite
rendered = record {
  available_name = codes "supabase-manager-blog.conf";
  contents = codes "server {}";
  auth_directory = codes "/etc/nginx/auth/./studio";
  auth_file_name = codes "supabase-manager-blog.htpasswd";
  auth_contents = codes "admin:x";
}

abbrev no_files : Files
no_files p = none

abbrev host : List Bool → Host
host faults = record { files = no_files; loaded = no_files; faults = faults }

abbrev installed : Host
installed = (apply store rendered (host [])).1

applied : apply store rendered (host []) ≡ (done tt, installed)
unfolding apply remove prepare validate matches_available matches_credential matches_site_slug
    managed_credential_name_from_site ensure_nginx_can_read_credentials snapshot snapshot_file
    snapshot_link snapshot_credential write_credential install uninstall restore
    restore_after_failure remove_if_present write_atomic replace_enabled_link or_else call
    next_fault look ◌>>=◌ clean clean_elements split dir
applied = refl

apply-done_example :
    (installed.files ≡ site_files store rendered no_files) × (installed.loaded ≡ installed.files)
apply-done_example = apply-done store rendered (host []) applied

-- the credentials are in place, and then their directory cannot be synced
abbrev unsynced : List Bool
unsynced =
    false ∷ false ∷ false ∷ false ∷ false ∷ false ∷ false ∷ false ∷ false ∷ false ∷ false ∷ false
    ∷ false ∷ false ∷ false ∷ true ∷ []

abbrev refused : Outcome (Unit {0}) × Host
refused = apply store rendered (host unsynced)

not_applied : refused ≡ (failed SiteError.system_call, refused.1)
unfolding apply remove prepare validate matches_available matches_credential matches_site_slug
    managed_credential_name_from_site ensure_nginx_can_read_credentials snapshot snapshot_file
    snapshot_link snapshot_credential write_credential install uninstall restore
    restore_after_failure remove_if_present write_atomic replace_enabled_link or_else call
    next_fault look ◌>>=◌ clean clean_elements split dir
not_applied = refl

apply-failed_example : Failed (host unsynced) SiteError.system_call refused.1
apply-failed_example = apply-failed store rendered (host unsynced) not_applied

apply_frame_example : installed.files (Place.enabled (codes "default")) ≡ none
apply_frame_example = apply_frame store rendered (host []) (Place.enabled (codes "default")) refl

removed_ :
    remove store rendered.available_name installed
    ≡ (done tt, (remove store rendered.available_name installed).1)
unfolding apply remove prepare validate matches_available matches_credential matches_site_slug
    managed_credential_name_from_site ensure_nginx_can_read_credentials snapshot snapshot_file
    snapshot_link snapshot_credential write_credential install uninstall restore
    restore_after_failure remove_if_present write_atomic replace_enabled_link or_else call
    next_fault look ◌>>=◌ clean clean_elements split dir
removed_ = refl

remove-done_example :
    (auth : Text) × (managed_credential_name_from_site rendered.available_name ≡ some auth)
    × ((remove store rendered.available_name installed).1.files
        ≡ removed_files rendered.available_name auth installed.files)
    × ((remove store rendered.available_name installed).1.loaded
        ≡ (remove store rendered.available_name installed).1.files)
remove-done_example = remove-done store rendered.available_name installed removed_

abbrev unknown : Text
unknown = codes "default"

not_removed : remove store unknown installed ≡ (failed SiteError.invalid_site_name, installed)
unfolding apply remove prepare validate matches_available matches_credential matches_site_slug
    managed_credential_name_from_site ensure_nginx_can_read_credentials snapshot snapshot_file
    snapshot_link snapshot_credential write_credential install uninstall restore
    restore_after_failure remove_if_present write_atomic replace_enabled_link or_else call
    next_fault look ◌>>=◌ clean clean_elements split dir
not_removed = refl

remove-failed_example : Failed installed SiteError.invalid_site_name installed
remove-failed_example = remove-failed store unknown installed not_removed

site_name : managed_site_name slug ≡ some rendered.available_name
unfolding managed_site_name matches_site_slug
site_name = refl

credential_name : managed_credential_name slug ≡ some rendered.auth_file_name
unfolding managed_credential_name matches_site_slug
credential_name = refl

remove-apply_example :
    (remove store rendered.available_name installed).1.files (Place.auth rendered.auth_file_name)
    ≡ none
remove-apply_example =
    remove-apply store rendered slug (host []) installed
      (remove store rendered.available_name installed).1 site_name credential_name applied removed_
      (Place.auth rendered.auth_file_name)
