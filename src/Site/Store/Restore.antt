-- ===== src/Site/Store/Restore.antt =====
-- restore in apps/nginxproxy/internal/site/store.go and the places of a site.
use supabase_installer.Prelude.{
  Bool, true, false, ◌&&◌, ◌||◌, not, [], ◌∷◌, Option, ◌≡◌, refl, ap, ◌∙◌, if◌then◌else◌, Text,
  is_nil, same_text-eq, arith,
}
use supabase_installer.Site.Host.{Place, same_place, Node, Files, put, ◌>>◌, test, reload}
use supabase_installer.Site.Store.{
  FileSnapshot, LinkSnapshot, SiteSnapshot, restore_file, restore_credential, restore_link, restore,
}
use supabase_installer.Site.Store.Effects.{Frame, Puts, Frame-pure, Puts-pure}
use supabase_installer.Site.Store.Steps.{
  Frame->>, Puts->>, Avoids, Frame-write_atomic, Puts-write_atomic, Frame-replace_enabled_link,
  Puts-replace_enabled_link, Frame-remove_if_present, Puts-remove_if_present, Frame-test, Puts-test,
  Frame-reload, Puts-reload,
}
use supabase_installer.Site.Store.Snapshot.{file_node, link_node, Recorded}

-- the places of a site
abbrev pub belongs : Text → Text → Place → Bool
belongs name auth q =
    same_place (Place.available name) q
    || same_place (Place.enabled name) q
    || (not (is_nil auth) && same_place (Place.auth auth) q)

module _ (name auth : Text) where
  pub Avoids-available : Avoids (belongs name auth) (Place.available name)
  Avoids-available q out = ground arith

  pub Avoids-enabled : Avoids (belongs name auth) (Place.enabled name)
  Avoids-enabled q out = ground arith

  pub Avoids-auth : is_nil auth ≡ false → Avoids (belongs name auth) (Place.auth auth)
  Avoids-auth named q out = ground arith

same_place-eq : (p q : Place) → same_place p q ≡ true → p ≡ q
same_place-eq (Place.available a) (Place.available b) e = ap Place.available (same_text-eq a b e)
same_place-eq (Place.enabled a) (Place.enabled b) e = ap Place.enabled (same_text-eq a b e)
same_place-eq (Place.auth a) (Place.auth b) e = ap Place.auth (same_text-eq a b e)
same_place-eq (Place.available a) (Place.enabled b) e = cc
same_place-eq (Place.available a) (Place.auth b) e = cc
same_place-eq (Place.enabled a) (Place.available b) e = cc
same_place-eq (Place.enabled a) (Place.auth b) e = cc
same_place-eq (Place.auth a) (Place.available b) e = cc
same_place-eq (Place.auth a) (Place.enabled b) e = cc

pub Frame-restore_file :
    {inside : Place → Bool} (p : Place) (s : FileSnapshot)
    → Avoids inside p
    → Frame inside (restore_file p s)
Frame-restore_file p FileSnapshot.no_file out = Frame-remove_if_present p out
Frame-restore_file p (FileSnapshot.file d m) out = Frame-write_atomic p d m out

Puts-restore_file : (p : Place) (s : FileSnapshot) → Puts (put p (file_node s)) (restore_file p s)
Puts-restore_file p FileSnapshot.no_file = Puts-remove_if_present p
Puts-restore_file p (FileSnapshot.file d m) = Puts-write_atomic p d m

Frame-restore_link :
    {inside : Place → Bool} (name : Text) (s : LinkSnapshot)
    → Avoids inside (Place.enabled name)
    → Frame inside (restore_link name s)
Frame-restore_link name LinkSnapshot.no_link out = Frame-remove_if_present (Place.enabled name) out
Frame-restore_link name (LinkSnapshot.target t) out = Frame-replace_enabled_link name t out

Puts-restore_link :
    (name : Text) (s : LinkSnapshot)
    → Puts (put (Place.enabled name) (link_node s)) (restore_link name s)
Puts-restore_link name LinkSnapshot.no_link = Puts-remove_if_present (Place.enabled name)
Puts-restore_link name (LinkSnapshot.target t) = Puts-replace_enabled_link name t

abbrev pub credential_put : Text → Option Node → Files → Files
credential_put [] n f = f
credential_put (c ∷ auth) n f = put (Place.auth (c ∷ auth)) n f

Frame-restore_credential :
    (name auth : Text) (s : FileSnapshot) → Frame (belongs name auth) (restore_credential auth s)
Frame-restore_credential name [] s = Frame-pure tt
Frame-restore_credential name (c ∷ auth) s =
    Frame-restore_file (Place.auth (c ∷ auth)) s (Avoids-auth name (c ∷ auth) refl)

Puts-restore_credential :
    (auth : Text) (s : FileSnapshot)
    → Puts (credential_put auth (file_node s)) (restore_credential auth s)
Puts-restore_credential [] s = Puts-pure tt
Puts-restore_credential (c ∷ auth) s = Puts-restore_file (Place.auth (c ∷ auth)) s

-- the files that restore leaves
abbrev pub restored : Text → Text → SiteSnapshot → Files → Files
restored name auth s f = put (Place.enabled name) (link_node s.enabled) (
    put (Place.available name) (file_node s.available)
      (credential_put auth (file_node s.credential) f))

module _ (name auth : Text) (s : SiteSnapshot) where
  Frame-restore : Frame (belongs name auth) (restore name auth s)
  unfolding restore
  Frame-restore =
      Frame->>
        (Frame->> (Frame-restore_credential name auth s.credential)
          (Frame-restore_file (Place.available name) s.available (Avoids-available name auth)))
        (Frame-restore_link name s.enabled (Avoids-enabled name auth))

  Puts-restore : Puts (restored name auth s) (restore name auth s)
  unfolding restore
  Puts-restore =
      Puts->>
        (Puts->> (Puts-restore_credential auth s.credential)
          (Puts-restore_file (Place.available name) s.available))
        (Puts-restore_link name s.enabled)

  pub Puts-whole : Puts (restored name auth s) (restore name auth s >> test >> reload)
  Puts-whole = Puts->> (Puts->> Puts-restore Puts-test) Puts-reload

  pub Frame-whole : Frame (belongs name auth) (restore name auth s >> test >> reload)
  Frame-whole = Frame->> (Frame->> Frame-restore Frame-test) Frame-reload

chosen :
    (b : Bool) (n a c : Option Node)
    → (b ≡ true → n ≡ c)
    → (b ≡ false → a ≡ c)
    → (if b then n else a) ≡ c
chosen true n a c hit miss = hit refl
chosen false n a c hit miss = miss refl

put_over :
    (p q : Place) (n : Option Node) (g f : Files)
    → n ≡ f p
    → (same_place p q ≡ false → g q ≡ f q)
    → put p n g q ≡ f q
put_over p q n g f here elsewhere =
    chosen (same_place p q) n (g q) (f q) (λ e. here ∙ ap f (same_place-eq p q e)) elsewhere

credential_over :
    (auth : Text) (q : Place) (n : Option Node) (g f : Files)
    → (is_nil auth ≡ false → n ≡ f (Place.auth auth))
    → ((not (is_nil auth) && same_place (Place.auth auth) q) ≡ false → g q ≡ f q)
    → credential_put auth n g q ≡ f q
credential_over [] q n g f here elsewhere = elsewhere refl
credential_over (c ∷ auth) q n g f here elsewhere =
    put_over (Place.auth (c ∷ auth)) q n g f (here refl) elsewhere

or_false : (a b c : Bool) → a ≡ false → b ≡ false → c ≡ false → (a || b || c) ≡ false
or_false a b c p q r = cc

-- putting the snapshot back undoes every change to the site's places
pub put_back :
    (name auth : Text) (s : SiteSnapshot) (f f' : Files)
    → Recorded name auth f s
    → ((q : Place) → belongs name auth q ≡ false → f' q ≡ f q)
    → (q : Place) → restored name auth s f' q ≡ f q
put_back name auth s f f' rec framed q =
    put_over (Place.enabled name) q (link_node s.enabled)
      (put (Place.available name) (file_node s.available)
        (credential_put auth (file_node s.credential) f'))
      f rec.enabled
      λ e.
        put_over (Place.available name) q (file_node s.available)
          (credential_put auth (file_node s.credential) f') f rec.available
          λ a.
            credential_over auth q (file_node s.credential) f' f rec.credential
              λ c. framed q (or_false _ _ _ a e c)
