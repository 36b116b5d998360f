-- ===== src/Site/Store.antt =====
-- apps/nginxproxy/internal/site/store.go: Apply and Remove, and what they restore after a failure.
pub mod Effects
pub mod Steps
pub mod Snapshot
pub mod Restore
pub mod Rollback
pub mod Change
pub mod Prepare
pub mod Apply
pub mod Remove
pub mod RoundTrip
use supabase_installer.Prelude.{
  ℕ, Bool, true, false, ◌&&◌, ◌||◌, not, List, [], ◌∷◌, Option, none, some, if◌then◌else◌, Text,
  is_nil, same_text,
}
use supabase_installer.Site.Names.{
  matches_available, matches_credential, managed_credential_name_from_site,
}
use supabase_installer.Site.Paths.{clean, dir, join}
use supabase_installer.Site.Host.{
  Place, Node, Files, SiteError, Outcome, done, failed, Host, Act, pure, fail, ◌>>=◌, ◌>>◌, or_else,
  call, system, write, look, test, reload,
}

pub record Store : Type 0 where
  pub available_directory : Text
  pub auth_directory : Text
  pub has_runner : Bool

pub record RenderedSite : Type 0 where
  pub available_name : Text
  pub contents : Text
  pub auth_directory : Text
  pub auth_file_name : Text
  pub auth_contents : Text

abbrev pub check : Bool → SiteError → Act (Unit {0})
check b e = if b then pure tt else fail e

-- the three directories are looked at: each may be missing or not be a directory
unfoldable pub validate : Store → Text → Text → Act (Unit {0})
validate store available_name auth_file_name =
    check (matches_available available_name) SiteError.invalid_site_name
    >> check (is_nil auth_file_name || matches_credential auth_file_name)
        SiteError.invalid_credential_name
    >> check store.has_runner SiteError.no_runner
    >> system
    >> system
    >> system

-- the parent's permissions, then the directory's
unfoldable pub ensure_nginx_can_read_credentials : Store → Act (Unit {0})
ensure_nginx_can_read_credentials store =
    let auth_directory = clean store.auth_directory in
    let parent_directory = dir auth_directory in
    check (not (same_text parent_directory auth_directory || same_text parent_directory (47 ∷ [])))
      SiteError.no_dedicated_parent
    >> system
    >> system

pub data FileSnapshot : Type 0 where
  no_file : FileSnapshot
  file : Text → ℕ → FileSnapshot

pub data LinkSnapshot : Type 0 where
  no_link : LinkSnapshot
  target : Text → LinkSnapshot

pub record SiteSnapshot : Type 0 where
  pub available : FileSnapshot
  pub enabled : LinkSnapshot
  pub credential : FileSnapshot

abbrev pub read_file : Option Node → Act FileSnapshot
read_file none = pure FileSnapshot.no_file
read_file (some (Node.regular data_ mode)) = system >> pure (FileSnapshot.file data_ mode)
read_file (some (Node.link _)) = fail SiteError.not_regular
read_file (some Node.other) = fail SiteError.not_regular

-- Lstat, then ReadFile
unfoldable pub snapshot_file : Place → Act FileSnapshot
snapshot_file p = system >> (look p >>= read_file)

abbrev pub read_link : Option Node → Act LinkSnapshot
read_link none = pure LinkSnapshot.no_link
read_link (some (Node.link t)) = system >> pure (LinkSnapshot.target t)
read_link (some (Node.regular _ _)) = fail SiteError.not_link
read_link (some Node.other) = fail SiteError.not_link

-- Lstat, then Readlink
unfoldable pub snapshot_link : Place → Act LinkSnapshot
snapshot_link p = system >> (look p >>= read_link)

unfoldable pub snapshot_credential : Text → Act FileSnapshot
snapshot_credential auth_file_name =
    if is_nil auth_file_name
    then pure FileSnapshot.no_file
    else snapshot_file (Place.auth auth_file_name)

unfoldable pub snapshot : Text → Text → Act SiteSnapshot
snapshot available_name auth_file_name =
    snapshot_file (Place.available available_name) >>= λ available.
    snapshot_link (Place.enabled available_name) >>= λ enabled.
    snapshot_credential auth_file_name >>= λ credential.
    pure (record { available = available; enabled = enabled; credential = credential })

-- open, then sync
abbrev pub sync_directory : Act (Unit {0})
sync_directory = system >> system

-- create, chmod, write, sync and close a temporary file, then rename it
unfoldable pub write_atomic : Place → Text → ℕ → Act (Unit {0})
write_atomic p contents mode =
    system
    >> system
    >> system
    >> system
    >> system
    >> write p (some (Node.regular contents mode))
    >> sync_directory

-- create, close and remove a temporary file, link it, then rename it
unfoldable pub replace_enabled_link : Text → Text → Act (Unit {0})
replace_enabled_link available_name t =
    system
    >> system
    >> system
    >> system
    >> write (Place.enabled available_name) (some (Node.link t))
    >> sync_directory

unfoldable pub remove_if_present : Place → Act (Unit {0})
remove_if_present p = write p none

abbrev pub restore_file : Place → FileSnapshot → Act (Unit {0})
restore_file p FileSnapshot.no_file = remove_if_present p
restore_file p (FileSnapshot.file data_ mode) = write_atomic p data_ mode

abbrev pub restore_credential : Text → FileSnapshot → Act (Unit {0})
restore_credential auth_file_name s =
    if is_nil auth_file_name then pure tt else restore_file (Place.auth auth_file_name) s

abbrev pub restore_link : Text → LinkSnapshot → Act (Unit {0})
restore_link available_name LinkSnapshot.no_link = remove_if_present (Place.enabled available_name)
restore_link available_name (LinkSnapshot.target t) = replace_enabled_link available_name t

unfoldable pub restore : Text → Text → SiteSnapshot → Act (Unit {0})
restore available_name auth_file_name previous =
    restore_credential auth_file_name previous.credential
    >> restore_file (Place.available available_name) previous.available
    >> restore_link available_name previous.enabled

unfoldable pub restore_after_failure : Text → Text → SiteSnapshot → SiteError → Act (Unit {0})
restore_after_failure available_name auth_file_name previous operation_err =
    or_else (restore available_name auth_file_name previous >> test >> reload)
      (λ restore_err. fail (SiteError.restore_failed operation_err restore_err))
    >> fail operation_err

unfoldable pub write_credential : RenderedSite → Act (Unit {0})
write_credential r =
    if is_nil r.auth_file_name
    then pure tt
    else (if is_nil r.auth_contents
        then remove_if_present (Place.auth r.auth_file_name)
        else write_atomic (Place.auth r.auth_file_name) r.auth_contents 420)

abbrev pub available_path : Store → Text → Text
available_path store available_name = join store.available_directory available_name

-- 0o644 is 420
unfoldable pub install : Store → RenderedSite → Act (Unit {0})
install store r =
    write_credential r
    >> write_atomic (Place.available r.available_name) r.contents 420
    >> replace_enabled_link r.available_name (available_path store r.available_name)
    >> test
    >> reload

unfoldable pub prepare : Store → RenderedSite → Act (Unit {0})
prepare store r =
    validate store r.available_name r.auth_file_name
    >> check
        (is_nil r.auth_directory || same_text (clean r.auth_directory) (clean store.auth_directory))
        SiteError.credential_directory
    >> (if is_nil r.auth_file_name || is_nil r.auth_contents
        then pure tt
        else ensure_nginx_can_read_credentials store)

unfoldable pub apply : Store → RenderedSite → Act (Unit {0})
apply store r =
    prepare store r
    >> (snapshot r.available_name r.auth_file_name >>= λ previous.
        or_else (install store r)
          (restore_after_failure r.available_name r.auth_file_name previous))

unfoldable pub uninstall : Text → Text → Act (Unit {0})
uninstall available_name auth_file_name =
    remove_if_present (Place.enabled available_name)
    >> remove_if_present (Place.available available_name)
    >> remove_if_present (Place.auth auth_file_name)
    >> test
    >> reload

abbrev pub remove_credential_of : Store → Text → Option Text → Act (Unit {0})
remove_credential_of store available_name none = fail SiteError.invalid_site_name
remove_credential_of store available_name (some auth_file_name) =
    validate store available_name auth_file_name
    >> (snapshot available_name auth_file_name >>= λ previous.
        or_else (uninstall available_name auth_file_name)
          (restore_after_failure available_name auth_file_name previous))

unfoldable pub remove : Store → Text → Act (Unit {0})
remove store available_name =
    remove_credential_of store available_name (managed_credential_name_from_site available_name)
