-- ===== src/Site/Store/Snapshot.antt =====
-- snapshot in apps/nginxproxy/internal/site/store.go: what it records, and that it only reads.
use supabase_installer.Prelude.{
  Bool, false, [], ◌∷◌, Option, none, some, ◌≡◌, refl, sym, ap, ◌∙◌, subst, Text, is_nil,
}
use supabase_installer.Site.Host.{
  Place, Node, Files, SiteError, Outcome, done, Host, Act, pure, ◌>>=◌, ◌>>◌, system, look,
}
use supabase_installer.Site.Store.{
  FileSnapshot, LinkSnapshot, SiteSnapshot, read_file, snapshot_file, read_link, snapshot_link,
  snapshot_credential, snapshot,
}
use supabase_installer.Site.Store.Effects.{
  Frame, Quiet, Frame-pure, Frame-fail, Frame->>=, Quiet->>=, Quiet-pure, Quiet-fail, Frame-system,
  Quiet-system, Puts-system, Frame-if, Quiet-if, >>=-done,
}
use supabase_installer.Site.Store.Steps.{Frame->>, Quiet->>}

abbrev pub file_node : FileSnapshot → Option Node
file_node FileSnapshot.no_file = none
file_node (FileSnapshot.file data_ mode) = some (Node.regular data_ mode)

abbrev pub link_node : LinkSnapshot → Option Node
link_node LinkSnapshot.no_link = none
link_node (LinkSnapshot.target t) = some (Node.link t)

-- the value read, and the files, which reading leaves alone
pub record Saw {A : Type 0} (node : A → Option Node) (p : Place) (h : Host) (a : A) (h' : Host)
    : Type 0 where
  pub unchanged : h'.files ≡ h.files
  pub seen : node a ≡ h.files p

after_system :
    {A : Type 0} (h : Host) (a : A) {b : A} {h' : Host}
    → (system >> pure a) h ≡ (done b, h')
    → (h'.files ≡ h.files) × (a ≡ b)
after_system {A} h a {b} {h'} p =
    let t = >>=-done system (λ _. pure a) h p in
    let files_same =
      sym (ap (λ (x : Outcome A × Host). x.1.files) t.second) ∙ Puts-system.effect h t.first in
    let e = t.second in (files_same, cc)

read_file-done :
    (n : Option Node) (h : Host) {s : FileSnapshot} {h' : Host}
    → read_file n h ≡ (done s, h')
    → (h'.files ≡ h.files) × (file_node s ≡ n)
read_file-done none h p = (cc, cc)
read_file-done (some (Node.regular d m)) h p =
    let (same_, e) = after_system h (FileSnapshot.file d m) p in (same_, cc)
read_file-done (some (Node.link t)) h p = (cc, cc)
read_file-done (some Node.other) h p = (cc, cc)

read_link-done :
    (n : Option Node) (h : Host) {s : LinkSnapshot} {h' : Host}
    → read_link n h ≡ (done s, h')
    → (h'.files ≡ h.files) × (link_node s ≡ n)
read_link-done none h p = (cc, cc)
read_link-done (some (Node.link t)) h p =
    let (same_, e) = after_system h (LinkSnapshot.target t) p in (same_, cc)
read_link-done (some (Node.regular d m)) h p = (cc, cc)
read_link-done (some Node.other) h p = (cc, cc)

module _ (p : Place) (h : Host) where
  snapshot_file-done :
      {s : FileSnapshot} {h' : Host} → snapshot_file p h ≡ (done s, h') → Saw file_node p h s h'
  unfolding snapshot_file ◌>>=◌ look
  snapshot_file-done e =
      let t = >>=-done system (λ _. look p >>= read_file) h e in
      let kept = Puts-system.effect h t.first in
      let (same_, node) = read_file-done (t.between.files p) t.between t.second in
      record { unchanged = same_ ∙ kept; seen = node ∙ ap (λ (f : Files). f p) kept }

  snapshot_link-done :
      {s : LinkSnapshot} {h' : Host} → snapshot_link p h ≡ (done s, h') → Saw link_node p h s h'
  unfolding snapshot_link ◌>>=◌ look
  snapshot_link-done e =
      let t = >>=-done system (λ _. look p >>= read_link) h e in
      let kept = Puts-system.effect h t.first in
      let (same_, node) = read_link-done (t.between.files p) t.between t.second in
      record { unchanged = same_ ∙ kept; seen = node ∙ ap (λ (f : Files). f p) kept }

-- the snapshot of a site's places
pub record Recorded (available_name auth_file_name : Text) (files : Files) (s : SiteSnapshot)
    : Type 0 where
  pub available : file_node s.available ≡ files (Place.available available_name)
  pub enabled : link_node s.enabled ≡ files (Place.enabled available_name)
  pub credential :
      is_nil auth_file_name ≡ false → file_node s.credential ≡ files (Place.auth auth_file_name)

credential-done :
    (auth_file_name : Text) (h : Host) {s : FileSnapshot} {h' : Host}
    → snapshot_credential auth_file_name h ≡ (done s, h')
    → (h'.files ≡ h.files)
      × (is_nil auth_file_name ≡ false → file_node s ≡ h.files (Place.auth auth_file_name))
unfolding snapshot_credential
credential-done [] h p = (cc, λ no. cc)
credential-done (c ∷ name) h p =
    let saw = snapshot_file-done (Place.auth (c ∷ name)) h p in (saw.unchanged, λ _. saw.seen)

abbrev site_snapshot : FileSnapshot → LinkSnapshot → FileSnapshot → SiteSnapshot
site_snapshot a e c = record { available = a; enabled = e; credential = c }

unfoldable with_credential : Text → FileSnapshot → LinkSnapshot → Act SiteSnapshot
with_credential auth available enabled = snapshot_credential auth >>= λ credential.
    pure (record { available = available; enabled = enabled; credential = credential })

pub snapshot-done :
    (available_name auth_file_name : Text) (h : Host) {s : SiteSnapshot} {h' : Host}
    → snapshot available_name auth_file_name h ≡ (done s, h')
    → (h'.files ≡ h.files) × Recorded available_name auth_file_name h.files s
unfolding snapshot with_credential
snapshot-done name auth h {s} {h'} p =
    let first =
      >>=-done (snapshot_file (Place.available name))
        (λ a. snapshot_link (Place.enabled name) >>= λ e. with_credential auth a e) h p in
    let second =
      >>=-done (snapshot_link (Place.enabled name)) (λ e. with_credential auth first.value e)
        first.between first.second in
    let third =
      >>=-done (snapshot_credential auth) (λ c. pure (site_snapshot first.value second.value c))
        second.between second.second in
    let saw_file = snapshot_file-done (Place.available name) h first.first in
    let saw_link = snapshot_link-done (Place.enabled name) first.between second.first in
    let (kept, credential) = credential-done auth second.between third.first in
    let whole = ap (λ (x : Outcome SiteSnapshot × Host). x.0) third.second in
    let end = ap (λ (x : Outcome SiteSnapshot × Host). x.1.files) third.second in
    let is_s : site_snapshot first.value second.value third.value ≡ s = cc in
    let before = saw_link.unchanged ∙ saw_file.unchanged in
    (
      sym end ∙ kept ∙ before,
      subst (λ x. Recorded name auth h.files x) is_s
          (record {
            available = saw_file.seen;
            enabled = saw_link.seen ∙ ap (λ (f : Files). f (Place.enabled name)) saw_file.unchanged;
            credential = λ no. credential no ∙ ap (λ (f : Files). f (Place.auth auth)) before;
          }),
    )

module _ {inside : Place → Bool} where
  Frame-read_file : (n : Option Node) → Frame inside (read_file n)
  Frame-read_file none = Frame-pure FileSnapshot.no_file
  Frame-read_file (some (Node.regular d m)) =
      Frame->> Frame-system (Frame-pure (FileSnapshot.file d m))
  Frame-read_file (some (Node.link t)) = Frame-fail SiteError.not_regular
  Frame-read_file (some Node.other) = Frame-fail SiteError.not_regular

  Frame-read_link : (n : Option Node) → Frame inside (read_link n)
  Frame-read_link none = Frame-pure LinkSnapshot.no_link
  Frame-read_link (some (Node.link t)) = Frame->> Frame-system (Frame-pure (LinkSnapshot.target t))
  Frame-read_link (some (Node.regular d m)) = Frame-fail SiteError.not_link
  Frame-read_link (some Node.other) = Frame-fail SiteError.not_link

  Frame-look : (p : Place) → Frame inside (look p)
  unfolding look
  Frame-look p = record { keeps = λ h q _. refl }

  Frame-snapshot_file : (p : Place) → Frame inside (snapshot_file p)
  unfolding snapshot_file
  Frame-snapshot_file p =
      Frame->> Frame-system (Frame->>= {m = look p} {k = read_file} (Frame-look p) Frame-read_file)

  Frame-snapshot_link : (p : Place) → Frame inside (snapshot_link p)
  unfolding snapshot_link
  Frame-snapshot_link p =
      Frame->> Frame-system (Frame->>= {m = look p} {k = read_link} (Frame-look p) Frame-read_link)

  Frame-snapshot_credential : (auth : Text) → Frame inside (snapshot_credential auth)
  unfolding snapshot_credential
  Frame-snapshot_credential auth =
      Frame-if (is_nil auth) (Frame-pure FileSnapshot.no_file)
        (Frame-snapshot_file (Place.auth auth))

  pub Frame-snapshot : (name auth : Text) → Frame inside (snapshot name auth)
  unfolding snapshot with_credential
  Frame-snapshot name auth =
      Frame->>= {m = snapshot_file (Place.available name)}
        {k = λ a. snapshot_link (Place.enabled name) >>= λ e. with_credential auth a e}
        (Frame-snapshot_file (Place.available name))
        λ a.
          Frame->>= {m = snapshot_link (Place.enabled name)} {k = λ e. with_credential auth a e}
            (Frame-snapshot_link (Place.enabled name))
            λ e.
              Frame->>= {m = snapshot_credential auth} (Frame-snapshot_credential auth)
                λ c. Frame-pure _

Quiet-read_file : (n : Option Node) → Quiet (read_file n)
Quiet-read_file none = Quiet-pure FileSnapshot.no_file
Quiet-read_file (some (Node.regular d m)) =
    Quiet->> Quiet-system (Quiet-pure (FileSnapshot.file d m))
Quiet-read_file (some (Node.link t)) = Quiet-fail SiteError.not_regular
Quiet-read_file (some Node.other) = Quiet-fail SiteError.not_regular

Quiet-read_link : (n : Option Node) → Quiet (read_link n)
Quiet-read_link none = Quiet-pure LinkSnapshot.no_link
Quiet-read_link (some (Node.link t)) = Quiet->> Quiet-system (Quiet-pure (LinkSnapshot.target t))
Quiet-read_link (some (Node.regular d m)) = Quiet-fail SiteError.not_link
Quiet-read_link (some Node.other) = Quiet-fail SiteError.not_link

Quiet-look : (p : Place) → Quiet (look p)
unfolding look
Quiet-look p = record { quiet = λ h. refl }

Quiet-snapshot_file : (p : Place) → Quiet (snapshot_file p)
unfolding snapshot_file
Quiet-snapshot_file p =
    Quiet->> Quiet-system (Quiet->>= {m = look p} {k = read_file} (Quiet-look p) Quiet-read_file)

Quiet-snapshot_link : (p : Place) → Quiet (snapshot_link p)
unfolding snapshot_link
Quiet-snapshot_link p =
    Quiet->> Quiet-system (Quiet->>= {m = look p} {k = read_link} (Quiet-look p) Quiet-read_link)

Quiet-snapshot_credential : (auth : Text) → Quiet (snapshot_credential auth)
unfolding snapshot_credential
Quiet-snapshot_credential auth =
    Quiet-if (is_nil auth) (Quiet-pure FileSnapshot.no_file) (Quiet-snapshot_file (Place.auth auth))

pub Quiet-snapshot : (name auth : Text) → Quiet (snapshot name auth)
unfolding snapshot with_credential
Quiet-snapshot name auth =
    Quiet->>= {m = snapshot_file (Place.available name)}
      {k = λ a. snapshot_link (Place.enabled name) >>= λ e. with_credential auth a e}
      (Quiet-snapshot_file (Place.available name))
      λ a.
        Quiet->>= {m = snapshot_link (Place.enabled name)} {k = λ e. with_credential auth a e}
          (Quiet-snapshot_link (Place.enabled name))
          λ e.
            Quiet->>= {m = snapshot_credential auth} (Quiet-snapshot_credential auth)
              λ c. Quiet-pure _
