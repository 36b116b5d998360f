-- ===== src/Site/Store/Change.antt =====
-- The part that Apply and Remove in apps/nginxproxy/internal/site/store.go share: a snapshot, the steps of the
-- change, and restoreAfterFailure where one of them fails.
use supabase_installer.Prelude.{false, ◌≡◌, refl, sym, ap, ◌∙◌, inl, inr, subst, Text}
use supabase_installer.Site.Host.{
  Place, Files, SiteError, Outcome, done, failed, Host, Act, ◌>>=◌, or_else,
}
use supabase_installer.Site.Store.{SiteSnapshot, restore_after_failure, snapshot}
use supabase_installer.Site.Store.Effects.{
  Frame, Puts, Quiet, Frame->>=, >>=-done, at_first, after_first, >>=-failed,
}
use supabase_installer.Site.Store.Snapshot.{Recorded, snapshot-done, Frame-snapshot, Quiet-snapshot}
use supabase_installer.Site.Store.Restore.{belongs}
use supabase_installer.Site.Store.Rollback.{
  Restored, restore_after_failure_restores, Frame-restore_after_failure, Frame-or_else, went_well,
  caught, or_else-cases,
}

-- after an error: the restoration failed too, or every file is as before and nginx runs what it ran or
-- what the directories hold
pub data Failed (before : Host) (e : SiteError) (after : Host) : Type 0 where
  not_restored :
      (op restore_err : SiteError)
      → e ≡ SiteError.restore_failed op restore_err
      → Failed before e after
  untouched :
      ((q : Place) → after.files q ≡ before.files q)
      → after.loaded ≡ before.loaded
      → Failed before e after
  restored :
      ((q : Place) → after.files q ≡ before.files q)
      → after.loaded ≡ after.files
      → Failed before e after

-- an action that touches no place and reloads nothing
pub stays :
    {A : Type 0} (m : Act A)
    → Frame (λ _. false) m
    → Quiet m
    → (h : Host) {e : SiteError} {h' : Host} → m h ≡ (failed e, h')
    → Failed h e h'
stays {A} m fm qm h p =
    untouched (λ q. sym (ap (λ (y : Outcome A × Host). y.1.files q) p) ∙ fm.keeps h q refl)
      (sym (ap (λ (y : Outcome A × Host). y.1.loaded) p) ∙ qm.quiet h)

-- a change of one site, as Apply and Remove make it
module _ (name auth : Text) (m : Act (Unit {0})) where
  abbrev pub changing : Act (Unit {0})
  changing = snapshot name auth >>= λ previous. or_else m (restore_after_failure name auth previous)

  pub Frame-changing : Frame (belongs name auth) m → Frame (belongs name auth) changing
  Frame-changing fm = Frame->>= {m = snapshot name auth} (Frame-snapshot name auth) λ s.
      Frame-or_else m (restore_after_failure name auth s) fm
        (Frame-restore_after_failure name auth s)

  -- the handler runs where the steps of `m` failed
  undone :
      (s : SiteSnapshot) (h g x : Host) (op : SiteError) {r : Outcome (Unit {0})} {h' : Host}
      → Frame (belongs name auth) m
      → g.files ≡ h.files
      → Recorded name auth h.files s
      → m g ≡ (failed op, x)
      → restore_after_failure name auth s op x ≡ (r, h')
      → (e : SiteError) × (r ≡ failed e) × Restored h.files op e h'
  undone s h g x op fm kept rec ran end =
      restore_after_failure_restores name auth s h.files x op rec
        (λ q out.
          sym (ap (λ (y : Outcome (Unit {0}) × Host). y.1.files q) ran)
          ∙ fm.keeps g q out
          ∙ ap (λ (f : Files). f q) kept)
        end

  -- a change that succeeds took the steps of `m` from the files as they were
  pub changing-done :
      {g : Files → Files}
      → Frame (belongs name auth) m
      → Puts g m
      → ((h h' : Host) → m h ≡ (done tt, h') → h'.loaded ≡ h'.files)
      → (h : Host) {h' : Host} → changing h ≡ (done tt, h')
      → (h'.files ≡ g h.files) × (h'.loaded ≡ h'.files)
  changing-done {g} fm pm lm h {h'} p =
      let t =
        >>=-done (snapshot name auth) (λ s. or_else m (restore_after_failure name auth s)) h p in
      let (kept, rec) = snapshot-done name auth h t.first in
      elim (or_else-cases m (restore_after_failure name auth t.value) t.between t.second) [
        | went_well x ran end ↦
            let same_ : x ≡ h' = cc in
            (
              sym (ap (λ (y : Host). y.files) same_) ∙ pm.effect t.between ran ∙ ap g kept,
              subst (λ (y : Host). y.loaded ≡ y.files) same_ (lm t.between x ran),
            )
        | caught op x ran end ↦
            let (e, failed_, _) = undone t.value h t.between x op fm kept rec ran end in (cc, cc)
      ]

  failed_of : (h : Host) (op e : SiteError) (h' : Host) → Restored h.files op e h' → Failed h e h'
  failed_of h op e h' (inl (x, p)) = not_restored op x p
  failed_of h op e h' (inr t) = restored t.back t.loads_them

  pub changing-failed :
      Frame (belongs name auth) m
      → (h : Host) {e : SiteError} {h' : Host} → changing h ≡ (failed e, h')
      → Failed h e h'
  changing-failed fm h {e} {h'} p =
      elim (>>=-failed (snapshot name auth) (λ s. or_else m (restore_after_failure name auth s)) h
        p) [
          | at_first q ↦
              stays (snapshot name auth) (Frame-snapshot name auth) (Quiet-snapshot name auth) h q
          | after_first s g first second ↦
              let (kept, rec) = snapshot-done name auth h first in
              elim (or_else-cases m (restore_after_failure name auth s) g second) [
                | went_well x ran end ↦ let no_ : (failed e) ≡ done tt = cc in not_restored e e cc
                | caught op x ran end ↦
                    let (e', is_e', back) = undone s h g x op fm kept rec ran end in
                    let same_ : e' ≡ e = cc in
                    failed_of h op e h' (subst (λ y. Restored h.files op y h') same_ back)
              ]
        ]

-- an error after a part that left files and nginx alone
pub since :
    (h g : Host) {e : SiteError} {h' : Host}
    → g.files ≡ h.files
    → g.loaded ≡ h.loaded
    → Failed g e h'
    → Failed h e h'
since h g files loaded (not_restored op x p) = not_restored op x p
since h g files loaded (untouched back same_) =
    untouched (λ q. back q ∙ ap (λ (f : Files). f q) files) (same_ ∙ loaded)
since h g files loaded (restored back same_) =
    restored (λ q. back q ∙ ap (λ (f : Files). f q) files) same_
