-- ===== src/Site/Store/Apply.antt =====
-- Apply in apps/nginxproxy/internal/site/store.go.
use supabase_installer.Prelude.{
  false, [], ◌∷◌, none, some, ◌≡◌, refl, sym, ap, ◌∙◌, if◌then◌else◌, Text, is_nil,
}
use supabase_installer.Site.Host.{
  Place, Node, Files, put, SiteError, Outcome, done, failed, Host, Act, pure, ◌>>◌, test,
}
use supabase_installer.Site.Store.{
  Store, RenderedSite, write_credential, install, prepare, apply, write_atomic, remove_if_present,
  available_path, replace_enabled_link,
}
use supabase_installer.Site.Store.Effects.{
  Frame, Puts, Frame-pure, Puts-pure, >>=-done, at_first, after_first, >>=-failed,
}
use supabase_installer.Site.Store.Steps.{
  Frame->>, Puts->>, Frame-write_atomic, Puts-write_atomic, Frame-replace_enabled_link,
  Puts-replace_enabled_link, Frame-remove_if_present, Puts-remove_if_present, Frame-test, Puts-test,
  Frame-reload, Puts-reload, loads,
}
use supabase_installer.Site.Store.Restore.{belongs, Avoids-available, Avoids-enabled, Avoids-auth}
use supabase_installer.Site.Store.Change.{
  Failed, since, stays, changing, Frame-changing, changing-done, changing-failed,
}
use supabase_installer.Site.Store.Prepare.{Frame-prepare, Quiet-prepare, leaves}

-- the credentials after Apply: no site of its own for them, none asked for, or the ones given
unfoldable pub credential_files : Text → Text → Files → Files
credential_files [] contents f = f
credential_files (c ∷ auth) [] f = put (Place.auth (c ∷ auth)) none f
credential_files (c ∷ auth) (d ∷ contents) f =
    put (Place.auth (c ∷ auth)) (some (Node.regular (d ∷ contents) 420)) f

-- the files that Apply means to leave
unfoldable pub site_files : Store → RenderedSite → Files → Files
site_files store r f =
    put (Place.enabled r.available_name) (some (Node.link (available_path store r.available_name)))
      (put (Place.available r.available_name) (some (Node.regular r.contents 420))
        (credential_files r.auth_file_name r.auth_contents f))

module _ (name : Text) where
  Frame-credential :
      (auth contents : Text)
      → Frame (belongs name auth) (
          if is_nil auth
          then pure tt
          else (if is_nil contents
              then remove_if_present (Place.auth auth)
              else write_atomic (Place.auth auth) contents 420))
  Frame-credential [] contents = Frame-pure tt
  Frame-credential (c ∷ auth) [] =
      Frame-remove_if_present (Place.auth (c ∷ auth)) (Avoids-auth name (c ∷ auth) refl)
  Frame-credential (c ∷ auth) (d ∷ contents) =
      Frame-write_atomic (Place.auth (c ∷ auth)) (d ∷ contents) 420
        (Avoids-auth name (c ∷ auth) refl)

Puts-credential :
    (auth contents : Text)
    → Puts (credential_files auth contents) (
        if is_nil auth
        then pure tt
        else (if is_nil contents
            then remove_if_present (Place.auth auth)
            else write_atomic (Place.auth auth) contents 420))
unfolding credential_files
Puts-credential [] contents = Puts-pure tt
Puts-credential (c ∷ auth) [] = Puts-remove_if_present (Place.auth (c ∷ auth))
Puts-credential (c ∷ auth) (d ∷ contents) =
    Puts-write_atomic (Place.auth (c ∷ auth)) (d ∷ contents) 420

module _ (store : Store) (r : RenderedSite) where
  Frame-install : Frame (belongs r.available_name r.auth_file_name) (install store r)
  unfolding install write_credential
  Frame-install =
      Frame->>
        (Frame->>
          (Frame->>
            (Frame->> (Frame-credential r.available_name r.auth_file_name r.auth_contents) (
              Frame-write_atomic (Place.available r.available_name) r.contents 420
                (Avoids-available r.available_name r.auth_file_name)))
            (Frame-replace_enabled_link r.available_name (available_path store r.available_name)
              (Avoids-enabled r.available_name r.auth_file_name)))
          Frame-test)
        Frame-reload

  Puts-install : Puts (site_files store r) (install store r)
  unfolding install write_credential site_files
  Puts-install =
      Puts->>
        (Puts->>
          (Puts->>
            (Puts->> (Puts-credential r.auth_file_name r.auth_contents)
              (Puts-write_atomic (Place.available r.available_name) r.contents 420))
            (Puts-replace_enabled_link r.available_name (available_path store r.available_name)))
          Puts-test)
        Puts-reload

  install_loads : (h h' : Host) → install store r h ≡ (done tt, h') → h'.loaded ≡ h'.files
  unfolding install
  install_loads h h' p =
      loads
        (write_credential r
          >> write_atomic (Place.available r.available_name) r.contents 420
          >> replace_enabled_link r.available_name (available_path store r.available_name)
          >> test)
        h p

  abbrev changed : Act (Unit {0})
  changed = changing r.available_name r.auth_file_name (install store r)

  -- If apply succeeds, the files are the ones before with the site's three places set (its configuration,
  -- the link to it, and its credentials, taken away if none are given), and nginx has loaded them.
  pub apply-done :
      (h : Host) {h' : Host}
      → apply store r h ≡ (done tt, h')
      → (h'.files ≡ site_files store r h.files) × (h'.loaded ≡ h'.files)
  unfolding apply
  apply-done h p =
      let t = >>=-done (prepare store r) (λ _. changed) h p in
      let before = leaves (prepare store r) (Frame-prepare store r) h t.first in
      let (files, loaded) =
        changing-done r.available_name r.auth_file_name (install store r) Frame-install Puts-install
          install_loads t.between t.second in
      (files ∙ ap (site_files store r) before, loaded)

  -- If apply fails and the error does not say that restoring the site failed too, then every file is as
  -- before, and nginx runs what it ran before or has loaded these files.
  pub apply-failed :
      (h : Host) {e : SiteError} {h' : Host} → apply store r h ≡ (failed e, h') → Failed h e h'
  unfolding apply
  apply-failed h {e} {h'} p = elim (>>=-failed (prepare store r) (λ _. changed) h p) [
    | at_first q ↦ stays (prepare store r) (Frame-prepare store r) (Quiet-prepare store r) h q
    | after_first x g first second ↦
        let before = leaves (prepare store r) (Frame-prepare store r) h first in
        let loaded =
          sym (ap (λ (y : Outcome (Unit {0}) × Host). y.1.loaded) first)
          ∙ (Quiet-prepare store r).quiet h in
        since h g before loaded (
          changing-failed r.available_name r.auth_file_name (install store r) Frame-install g
            second)
  ]

  -- Whatever apply returns, it leaves every place of another site alone.
  pub apply_frame :
      (h : Host) (q : Place)
      → belongs r.available_name r.auth_file_name q ≡ false
      → (apply store r h).1.files q ≡ h.files q
  unfolding apply
  apply_frame h q out =
      let frame : Frame (belongs r.available_name r.auth_file_name) (prepare store r >> changed) =
        Frame->> (Frame-prepare store r)
          (Frame-changing r.available_name r.auth_file_name (install store r) Frame-install) in
      frame.keeps h q out
