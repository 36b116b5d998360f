-- ===== src/Site/Store/Remove.antt =====
-- Remove in apps/nginxproxy/internal/site/store.go.
use supabase_installer.Prelude.{
  Bool, true, false, [], ◌∷◌, ◌++◌, Option, none, some, ◌≡◌, refl, sym, ap, ◌∙◌, if◌then◌else◌,
  Text, is_nil,
}
use supabase_installer.Site.Names.{
  matches_available, managed_credential_name_from_site, htpasswd, conf, trim_suffix,
}
use supabase_installer.Site.Host.{
  Place, Files, put, SiteError, Outcome, done, failed, Host, Act, fail, ◌>>◌, test,
}
use supabase_installer.Site.Store.{
  Store, validate, uninstall, remove, remove_credential_of, remove_if_present,
}
use supabase_installer.Site.Store.Effects.{
  Frame, Puts, Frame-fail, Quiet-fail, >>=-done, at_first, after_first, >>=-failed,
}
use supabase_installer.Site.Store.Steps.{
  Frame->>, Puts->>, Frame-remove_if_present, Puts-remove_if_present, Frame-test, Puts-test,
  Frame-reload, Puts-reload, loads,
}
use supabase_installer.Site.Store.Restore.{belongs, Avoids-available, Avoids-enabled, Avoids-auth}
use supabase_installer.Site.Store.Change.{
  Failed, since, stays, changing, changing-done, changing-failed,
}
use supabase_installer.Site.Store.Prepare.{Frame-validate, Quiet-validate, leaves}

-- the files that Remove means to leave
unfoldable pub removed_files : Text → Text → Files → Files
removed_files name auth f =
    put (Place.auth auth) none (put (Place.available name) none (put (Place.enabled name) none f))

is_nil-htpasswd : (s : Text) → is_nil (s ++ htpasswd) ≡ false
is_nil-htpasswd [] = refl
is_nil-htpasswd (_ ∷ _) = refl

named_by :
    (b : Bool) (s : Text) {auth : Text}
    → (if b then some (s ++ htpasswd) else none) ≡ some auth
    → is_nil auth ≡ false
named_by true s p = let e = is_nil-htpasswd s in cc
named_by false s p = cc

pub named-is_nil :
    (name : Text) {auth : Text}
    → managed_credential_name_from_site name ≡ some auth
    → is_nil auth ≡ false
unfolding managed_credential_name_from_site
named-is_nil name p = named_by (matches_available name) (trim_suffix conf name) p

module _ (store : Store) (name auth : Text) where
  uninstall_loads : (h h' : Host) → uninstall name auth h ≡ (done tt, h') → h'.loaded ≡ h'.files
  unfolding uninstall
  uninstall_loads h h' p =
      loads
        (remove_if_present (Place.enabled name)
          >> remove_if_present (Place.available name)
          >> remove_if_present (Place.auth auth)
          >> test)
        h p

  Puts-uninstall : Puts (removed_files name auth) (uninstall name auth)
  unfolding uninstall removed_files
  Puts-uninstall =
      Puts->>
        (Puts->>
          (Puts->>
            (Puts->> (Puts-remove_if_present (Place.enabled name))
              (Puts-remove_if_present (Place.available name)))
            (Puts-remove_if_present (Place.auth auth)))
          Puts-test)
        Puts-reload

  abbrev removing : Act (Unit {0})
  removing = changing name auth (uninstall name auth)

  module _ (named : is_nil auth ≡ false) where
    Frame-uninstall : Frame (belongs name auth) (uninstall name auth)
    unfolding uninstall
    Frame-uninstall =
        Frame->>
          (Frame->>
            (Frame->>
              (Frame->> (Frame-remove_if_present (Place.enabled name) (Avoids-enabled name auth))
                (Frame-remove_if_present (Place.available name) (Avoids-available name auth)))
              (Frame-remove_if_present (Place.auth auth) (Avoids-auth name auth named)))
            Frame-test)
          Frame-reload

    removing-done :
        (h : Host) {h' : Host}
        → (validate store name auth >> removing) h ≡ (done tt, h')
        → (h'.files ≡ removed_files name auth h.files) × (h'.loaded ≡ h'.files)
    removing-done h p =
        let t = >>=-done (validate store name auth) (λ _. removing) h p in
        let before = leaves (validate store name auth) (Frame-validate store name auth) h t.first in
        let (files, loaded) =
          changing-done name auth (uninstall name auth) Frame-uninstall Puts-uninstall
            uninstall_loads t.between t.second in
        (files ∙ ap (removed_files name auth) before, loaded)

    removing-failed :
        (h : Host) {e : SiteError} {h' : Host}
        → (validate store name auth >> removing) h ≡ (failed e, h')
        → Failed h e h'
    removing-failed h p = elim (>>=-failed (validate store name auth) (λ _. removing) h p) [
      | at_first q ↦
          stays (validate store name auth) (Frame-validate store name auth)
            (Quiet-validate store name auth) h q
      | after_first x g first second ↦
          since h g (leaves (validate store name auth) (Frame-validate store name auth) h first)
            (sym (ap (λ (y : Outcome (Unit {0}) × Host). y.1.loaded) first)
              ∙ (Quiet-validate store name auth).quiet h)
            (changing-failed name auth (uninstall name auth) Frame-uninstall g second)
    ]

module _ (store : Store) (name : Text) where
  done_by :
      (auth : Option Text)
      → managed_credential_name_from_site name ≡ auth
      → (h : Host) {h' : Host} → remove_credential_of store name auth h ≡ (done tt, h')
      → (a : Text) × (auth ≡ some a)
        × (h'.files ≡ removed_files name a h.files)
        × (h'.loaded ≡ h'.files)
  done_by none e h p = cc
  done_by (some auth) e h p =
      let (files, loaded) = removing-done store name auth (named-is_nil name e) h p in
      (auth, refl, files, loaded)

  failed_by :
      (auth : Option Text)
      → managed_credential_name_from_site name ≡ auth
      → (h : Host) {x : SiteError} {h' : Host}
      → remove_credential_of store name auth h ≡ (failed x, h')
      → Failed h x h'
  failed_by none e h p =
      stays (fail {A = Unit {0}} SiteError.invalid_site_name) (Frame-fail _) (Quiet-fail _) h p
  failed_by (some auth) e h p = removing-failed store name auth (named-is_nil name e) h p

  -- If remove succeeds, the name is one of a managed site, its configuration, its link and the credentials
  -- with the name that belongs to it are gone, every other file is as before, and nginx has loaded that.
  pub remove-done :
      (h : Host) {h' : Host}
      → remove store name h ≡ (done tt, h')
      → (auth : Text) × (managed_credential_name_from_site name ≡ some auth)
        × (h'.files ≡ removed_files name auth h.files)
        × (h'.loaded ≡ h'.files)
  unfolding remove
  remove-done h p = done_by (managed_credential_name_from_site name) refl h p

  -- If remove fails and the error does not say that restoring the site failed too, then every file is as
  -- before, and nginx runs what it ran before or has loaded these files.
  pub remove-failed :
      (h : Host) {e : SiteError} {h' : Host} → remove store name h ≡ (failed e, h') → Failed h e h'
  unfolding remove
  remove-failed h p = failed_by (managed_credential_name_from_site name) refl h p
