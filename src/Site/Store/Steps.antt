-- ===== src/Site/Store/Steps.antt =====
-- What the steps of Apply and Remove in apps/nginxproxy/internal/site/store.go do to the files.
use supabase_installer.Prelude.{ℕ, Bool, false, none, some, ◌≡◌, refl, Text}
use supabase_installer.Site.Host.{
  Place, same_place, Node, Files, put, SiteError, done, Host, Act, ◌>>◌, test, reload,
}
use supabase_installer.Site.Store.{
  write_atomic, replace_enabled_link, remove_if_present, sync_directory,
}
use supabase_installer.Site.Store.Effects.{
  Frame, Puts, Quiet, Frame->>=, Puts->>=, Quiet->>=, Frame-system, Puts-system, Frame-write,
  Puts-write, >>=-done, Frame-call, call-done,
}

module _ {A : Type 0} {m : Act (Unit {0})} {n : Act A} where
  pub Frame->> : {inside : Place → Bool} → Frame inside m → Frame inside n → Frame inside (m >> n)
  Frame->> fm fn = Frame->>= {m = m} {k = λ _. n} fm (λ _. fn)

  pub Quiet->> : Quiet m → Quiet n → Quiet (m >> n)
  Quiet->> fm fn = Quiet->>= {m = m} {k = λ _. n} fm (λ _. fn)

  pub Puts->> : {g g' : Files → Files} → Puts g m → Puts g' n → Puts (λ f. g' (g f)) (m >> n)
  Puts->> fm fn = Puts->>= {m = m} {k = λ _. n} fm (λ _. fn)

-- the places that are not p's
abbrev pub Avoids : (Place → Bool) → Place → Type 0
Avoids inside p = (q : Place) → inside q ≡ false → same_place p q ≡ false

pub Frame-sync : {inside : Place → Bool} → Frame inside sync_directory
Frame-sync = Frame->> Frame-system Frame-system

Puts-sync : Puts (λ f. f) sync_directory
Puts-sync = Puts->> Puts-system Puts-system

pub Frame-write_atomic :
    {inside : Place → Bool} (p : Place) (contents : Text) (mode : ℕ)
    → Avoids inside p
    → Frame inside (write_atomic p contents mode)
unfolding write_atomic
Frame-write_atomic p contents mode out =
    Frame->>
      (Frame->>
        (Frame->>
          (Frame->> (Frame->> (Frame->> Frame-system Frame-system) Frame-system) Frame-system)
          Frame-system)
        (Frame-write p (some (Node.regular contents mode)) out))
      Frame-sync

pub Puts-write_atomic :
    (p : Place) (contents : Text) (mode : ℕ)
    → Puts (put p (some (Node.regular contents mode))) (write_atomic p contents mode)
unfolding write_atomic
Puts-write_atomic p contents mode =
    Puts->>
      (Puts->>
        (Puts->> (Puts->> (Puts->> (Puts->> Puts-system Puts-system) Puts-system) Puts-system)
          Puts-system)
        (Puts-write p (some (Node.regular contents mode))))
      Puts-sync

pub Frame-replace_enabled_link :
    {inside : Place → Bool} (name t : Text)
    → Avoids inside (Place.enabled name)
    → Frame inside (replace_enabled_link name t)
unfolding replace_enabled_link
Frame-replace_enabled_link name t out =
    Frame->>
      (Frame->> (Frame->> (Frame->> (Frame->> Frame-system Frame-system) Frame-system) Frame-system)
        (Frame-write (Place.enabled name) (some (Node.link t)) out))
      Frame-sync

pub Puts-replace_enabled_link :
    (name t : Text)
    → Puts (put (Place.enabled name) (some (Node.link t))) (replace_enabled_link name t)
unfolding replace_enabled_link
Puts-replace_enabled_link name t =
    Puts->>
      (Puts->> (Puts->> (Puts->> (Puts->> Puts-system Puts-system) Puts-system) Puts-system)
        (Puts-write (Place.enabled name) (some (Node.link t))))
      Puts-sync

pub Frame-remove_if_present :
    {inside : Place → Bool} (p : Place) → Avoids inside p → Frame inside (remove_if_present p)
unfolding remove_if_present
Frame-remove_if_present p out = Frame-write p none out

pub Puts-remove_if_present : (p : Place) → Puts (put p none) (remove_if_present p)
unfolding remove_if_present
Puts-remove_if_present p = Puts-write p none

pub Frame-test : {inside : Place → Bool} → Frame inside test
Frame-test = Frame-call SiteError.test_failed (λ h. h) (λ h q _. refl)

pub Puts-test : Puts (λ f. f) test
Puts-test = record {
  effect = λ h {a} {h'} p.
      call-done SiteError.test_failed (λ g. g) (λ g. g.files ≡ h.files) h p refl (λ rest. refl);
}

pub Frame-reload : {inside : Place → Bool} → Frame inside reload
Frame-reload =
    Frame-call SiteError.reload_failed (λ h. record h { loaded = h.files }) (λ h q _. refl)

pub Puts-reload : Puts (λ f. f) reload
Puts-reload = record {
  effect = λ h {a} {h'} p.
      call-done SiteError.reload_failed (λ g. record g { loaded = g.files })
        (λ g. g.files ≡ h.files) h p refl (λ rest. refl);
}

-- after a reload nginx runs what the directories hold
pub reload_loads : (h : Host) {h' : Host} → reload h ≡ (done tt, h') → h'.loaded ≡ h'.files
reload_loads h p =
    call-done SiteError.reload_failed (λ g. record g { loaded = g.files }) (λ g. g.loaded ≡ g.files)
      h p refl (λ rest. refl)

-- the same after a chain that ends with the reload
pub loads :
    (m : Act (Unit {0})) (h : Host) {h' : Host}
    → (m >> reload) h ≡ (done tt, h')
    → h'.loaded ≡ h'.files
loads m h p = let t = >>=-done m (λ _. reload) h p in reload_loads t.between t.second
