-- ===== src/Site/Store/Rollback.antt =====
-- restoreAfterFailure in apps/nginxproxy/internal/site/store.go.
use supabase_installer.Prelude.{Bool, false, ◌≡◌, refl, ap, ◌∙◌, ◌⊎◌, inl, inr, Text}
use supabase_installer.Site.Host.{
  Place, Files, SiteError, Outcome, done, failed, Host, Act, fail, ◌>>=◌, ◌>>◌, test, reload,
  or_else, recover, continue,
}
use supabase_installer.Site.Store.{SiteSnapshot, restore, restore_after_failure}
use supabase_installer.Site.Store.Effects.{Frame, Frame-fail}
use supabase_installer.Site.Store.Steps.{Frame->>, loads}
use supabase_installer.Site.Store.Snapshot.{Recorded}
use supabase_installer.Site.Store.Restore.{belongs, Puts-whole, Frame-whole, put_back}

-- a failed restoration, or the files as they were, and loaded
pub record TakenBack (before : Files) (op e : SiteError) (after : Host) : Type 0 where
  pub same_error : e ≡ op
  pub back : (q : Place) → after.files q ≡ before q
  pub loads_them : after.loaded ≡ after.files

abbrev pub Restored : Files → SiteError → SiteError → Host → Type 0
Restored before op e after =
    ((restore_err : SiteError) × (e ≡ SiteError.restore_failed op restore_err))
    ⊎ TakenBack before op e after

recovered_keeps :
    {inside : Place → Bool} (r : Outcome (Unit {0})) (f : SiteError → Act (Unit {0}))
    → ((e : SiteError) → Frame inside (f e))
    → (h : Host) (q : Place) → inside q ≡ false
    → (recover r f h).1.files q ≡ h.files q
recovered_keeps (done a) f ff h q out = refl
recovered_keeps (failed e) f ff h q out = (ff e).keeps h q out

pub Frame-or_else :
    {inside : Place → Bool} (m : Act (Unit {0})) (f : SiteError → Act (Unit {0}))
    → Frame inside m
    → ((e : SiteError) → Frame inside (f e))
    → Frame inside (or_else m f)
unfolding or_else
Frame-or_else m f fm ff = record {
  keeps = λ h q out. recovered_keeps (m h).0 f ff (m h).1 q out ∙ fm.keeps h q out;
}

abbrev pub ended : Outcome (Unit {0}) → Host → Outcome (Unit {0}) × Host
ended r h = (r, h)

-- the result of the handler, by the result of the restoration
handled :
    (r : Outcome (Unit {0})) (g : Host) (op : SiteError) {r' : Outcome (Unit {0})} {h' : Host}
    → continue
        (recover r (λ x. fail (SiteError.restore_failed op x)) g).0
        (λ _. fail op)
        (recover r (λ x. fail (SiteError.restore_failed op x)) g).1
      ≡ (r', h')
    → ((x : SiteError) × (r' ≡ failed (SiteError.restore_failed op x)))
      ⊎ ((r' ≡ failed op) × (ended r g ≡ ended (done tt) h'))
handled (done a) g op p = inr (cc, cc)
handled (failed x) g op p = inl (x, cc)

module _ (name auth : Text) (s : SiteSnapshot) where
  abbrev undo : Act (Unit {0})
  undo = restore name auth s >> test >> reload

  -- restore_after_failure fails, with the files taken back or with both errors
  pub restore_after_failure_restores :
      (before : Files) (h : Host) (op : SiteError) {r : Outcome (Unit {0})} {h' : Host}
      → Recorded name auth before s
      → ((q : Place) → belongs name auth q ≡ false → h.files q ≡ before q)
      → restore_after_failure name auth s op h ≡ (r, h')
      → (e : SiteError) × (r ≡ failed e) × Restored before op e h'
  unfolding restore_after_failure or_else ◌>>=◌
  restore_after_failure_restores before h op {r} {h'} rec framed p =
      elim (handled (undo h).0 (undo h).1 op p) [
        | inl (x, e) ↦ (SiteError.restore_failed op x, e, inl (x, refl))
        | inr (e, ran) ↦
            let files = (Puts-whole name auth s).effect h ran in
            (
              op,
              e,
              inr (record {
                same_error = refl;
                back = λ q.
                    ap (λ (f : Files). f q) files
                    ∙ put_back name auth s before h.files rec framed q;
                loads_them = loads (restore name auth s >> test) h ran;
              }),
            )
      ]

  pub Frame-restore_after_failure :
      (op : SiteError) → Frame (belongs name auth) (restore_after_failure name auth s op)
  unfolding restore_after_failure
  Frame-restore_after_failure op =
      Frame->>
        (Frame-or_else undo (λ x. fail (SiteError.restore_failed op x)) (Frame-whole name auth s)
          (λ x. Frame-fail _))
        (Frame-fail op)

-- how a guarded action ends: it succeeds, or its handler starts where it failed
pub data Guarded (m : Act (Unit {0})) (f : SiteError → Act (Unit {0})) (h : Host)
    (r : Outcome (Unit {0})) (h' : Host) : Type 0 where
  went_well :
      (g : Host) → m h ≡ ended (done tt) g → ended (done tt) g ≡ ended r h' → Guarded m f h r h'
  caught :
      (op : SiteError) (g : Host)
      → m h ≡ ended (failed op) g
      → f op g ≡ (r, h')
      → Guarded m f h r h'

guarded :
    (m : Act (Unit {0})) (f : SiteError → Act (Unit {0})) (h : Host) {r : Outcome (Unit {0})}
    {h' : Host}
    → (x : Outcome (Unit {0})) (g : Host) → m h ≡ ended x g
    → recover x f g ≡ (r, h')
    → Guarded m f h r h'
guarded m f h (done a) g e p = went_well g e p
guarded m f h (failed x) g e p = caught x g e p

pub or_else-cases :
    (m : Act (Unit {0})) (f : SiteError → Act (Unit {0})) (h : Host) {r : Outcome (Unit {0})}
    {h' : Host}
    → or_else m f h ≡ (r, h')
    → Guarded m f h r h'
unfolding or_else
or_else-cases m f h p = guarded m f h (m h).0 (m h).1 refl p
