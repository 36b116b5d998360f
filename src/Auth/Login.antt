-- ===== src/Auth/Login.antt =====
-- Login of apps/manager/internal/auth/service.go, what Authenticate makes of its session.
use supabase_installer.Prelude.{
  ℕ, ◌+◌, ◌*◌, ◌<◌, ◌≤◌, String, true, false, not, ◌||◌, Option, none, some, List, [], ◌∷◌, ◌++◌,
  ◌≡◌, refl, sym, ap, ◌∙◌, find, any, length, same_self, same_iff, same_text, Text, is_nil, arith,
  if◌then◌else◌, Bool-cases, inl, inr, subst,
}
use supabase_installer.Errors.{Result, ok, err, invalid_credentials, unauthenticated, driver}
use supabase_installer.Db.{
  Conn, Db, raise, lift, attempt, ignore, query, statement, ◌>>=◌, ◌>>◌, continue,
}
use supabase_installer.Db.Schema.{Tables, AdminRecord, SessionRecord}
use supabase_installer.Db.Laws.{calm, >>=-eq-ok, statement-ok, pure-ok}
use supabase_installer.Db.Guards.{then-ok, lift->>=-ok, attempt->>=-ok}
use supabase_installer.Store.Auth.{
  has_token, has_username, has_admin_id, find_session, scan_session, get_admin, scan_admin,
  find_admin_by_username, create_session, delete_session,
}
use supabase_installer.Auth.{
  Sources, Session, Identity, hour, is_stale, found_admin, found_session, identity_of, identify,
  authenticate, login, open_session, new_session, verified, random_token,
}
use supabase_installer.Auth.Encoding.{raw_url_encoding}
use supabase_installer.Auth.Sessions.{find_admin_by_username-ok}

pub same_text_self : (s : Text) → same_text s s ≡ true
same_text_self [] = refl
same_text_self (c ∷ s) = let rest = same_text_self s in ground arith

find_session-calm :
    (token : String) (t : Tables) (session : SessionRecord)
    → find (has_token token) t.sessions ≡ some session
    → find_session token (calm t) ≡ (ok session, calm t)
unfolding find_session query statement ◌>>=◌
find_session-calm token t session stored = λ i. (scan_session (stored i), calm t)

find_admin-calm :
    (username : String) (t : Tables) (admin : AdminRecord)
    → find (has_username username) t.admins ≡ some admin
    → find_admin_by_username username (calm t) ≡ (ok admin, calm t)
unfolding find_admin_by_username query statement ◌>>=◌
find_admin-calm username t admin stored = λ i. (scan_admin (stored i), calm t)

-- the only administrator is found by its id
pub get_admin-calm :
    (t : Tables) (admin : AdminRecord)
    → t.admins ≡ admin ∷ []
    → get_admin admin.id (calm t) ≡ (ok admin, calm t)
unfolding get_admin query statement ◌>>=◌
get_admin-calm t admin only =
    let by_id : find (has_admin_id admin.id) t.admins ≡ some admin =
      ap (find (has_admin_id admin.id)) only
      ∙ ap (λ b. if b then some admin else none) (same_text_self admin.id) in
    let by_username : find (has_username admin.username) t.admins ≡ some admin =
      ap (find (has_username admin.username)) only
      ∙ ap (λ b. if b then some admin else none) (same_self admin.username) in
    ap
      (λ (o : Option AdminRecord).
        continue (scan_admin o) (λ (a : AdminRecord). find_admin_by_username a.username) (calm t))
      by_id
    ∙ find_admin-calm admin.username t admin by_username

abbrev inserting : SessionRecord → Tables → Result (Unit {0} × Tables)
inserting session t =
    if any (has_token session.token_hash) t.sessions
      || not (any (has_admin_id session.admin_id) t.admins)
    then err driver
    else ok (tt, record t { sessions = t.sessions ++ session ∷ [] })

inserted_in :
    (t : Tables) (session : SessionRecord) {u : Unit {0}} {t' : Tables}
    → inserting session t ≡ ok (u, t')
    → (any (has_token session.token_hash) t.sessions ≡ false)
      × (t'.sessions ≡ t.sessions ++ session ∷ [])
      × (t'.admins ≡ t.admins)
inserted_in t session h = ground arith

encoded :
    (r : Result (List ℕ)) {read : Result (List ℕ)} {token : Text}
    → read ≡ r
    → elim r [ ok bytes ↦ ok (raw_url_encoding bytes) | err e ↦ err e ] ≡ ok token
    → (bytes : List ℕ) × (read ≡ ok bytes) × (token ≡ raw_url_encoding bytes)
encoded (ok bytes) is h = (bytes, is, cc h)
encoded (err e) is h = cc

module _ (s : Sources) where
  authenticate-calm :
      (token : Text) (t : Tables) (session : SessionRecord) (admin : AdminRecord)
      → is_nil token ≡ false
      → find (has_token (s.sha256 token)) t.sessions ≡ some session
      → is_stale s session ≡ false
      → t.admins ≡ admin ∷ []
      → session.admin_id ≡ admin.id
      → authenticate s token (calm t) ≡ (identity_of s (ok admin), calm t)
  unfolding authenticate identify attempt ◌>>=◌
  authenticate-calm token t session admin filled stored live only owner =
      let find_it : Db Identity = attempt (find_session (s.sha256 token)) >>= λ found.
      lift (found_session s found) >>= identify s in
      let name_it : Db Identity =
        attempt (get_admin session.admin_id) >>= λ found. lift (identity_of s found) in
      ap (λ b. (if b then raise unauthenticated else find_it) (calm t)) filled
      ∙ ap (λ (p : Result SessionRecord × Conn). continue (found_session s p.0) (identify s) p.1)
          (find_session-calm (s.sha256 token) t session stored)
      ∙ ap
          (λ b.
            (if b
                then (ignore (delete_session session.token_hash) >> raise unauthenticated)
                else name_it)
              (calm t))
          live
      ∙ ap (λ (p : Result AdminRecord × Conn). (identity_of s p.0, p.1))
          (ap (λ id. get_admin id (calm t)) owner ∙ get_admin-calm t admin only)

  -- the hash is found where the row has been added at the end
  find-append :
      (token : String) (sessions : List SessionRecord) (session : SessionRecord)
      → any (has_token token) sessions ≡ false
      → has_token token session ≡ true
      → find (has_token token) (sessions ++ session ∷ []) ≡ some session
  find-append token [] session free match = ap (λ b. if b then some session else none) match
  find-append token (old ∷ sessions) session free match =
      let rest = find-append token sessions session in ground arith

  create_session-ok :
      (session : SessionRecord) (c : Conn) {u : Unit {0}} {c' : Conn}
      → create_session session c ≡ (ok u, c')
      → (find (has_token session.token_hash) c'.tables.sessions ≡ some session)
        × (c'.tables.admins ≡ c.tables.admins)
  unfolding create_session
  create_session-ok session c {u} {c'} h =
      let (free, added, kept) =
        inserted_in c.tables session (statement-ok (inserting session) c h) in
      (
        ap (find (has_token session.token_hash)) added
            ∙ find-append session.token_hash c.tables.sessions session free
                (same_self session.token_hash),
        kept,
      )

  -- what a login that succeeds has done
  record IsOpened (username : String) (password : Text) (session : Session) (before after : Tables)
      : Type 0 where
    admin : AdminRecord
    named : find (has_username username) before.admins ≡ some admin
    valid : verified s (s.verify password admin.password_hash) ≡ true
    bytes : List ℕ
    drawn : s.read 0 32 ≡ ok bytes
    token : session.token ≡ raw_url_encoding bytes
    row : SessionRecord
    hash : row.token_hash ≡ s.sha256 session.token
    owner : row.admin_id ≡ admin.id
    expiry : row.expires_at ≡ session.expires_at
    seen : row.last_seen_at ≡ s.clock 0
    stored : find (has_token (s.sha256 session.token)) after.sessions ≡ some row
    kept : after.admins ≡ before.admins

  random_token-read :
      (n size : ℕ) {token : Text}
      → random_token s n size ≡ ok token
      → (bytes : List ℕ) × (s.read n size ≡ ok bytes) × (token ≡ raw_url_encoding bytes)
  random_token-read n size h = encoded (s.read n size) refl h

  open_session-ok :
      (username : String) (password : Text) (admin : AdminRecord) (c c' : Conn) (session : Session)
      → find (has_username username) c.tables.admins ≡ some admin
      → verified s (s.verify password admin.password_hash) ≡ true
      → open_session s admin c ≡ (ok session, c')
      → IsOpened username password session c.tables c'.tables
  unfolding open_session
  open_session-ok username password admin c c' session named valid h =
      let token = lift->>=-ok (random_token s 0 32) _ c h in
      let csrf = lift->>=-ok (random_token s 1 32) _ c token.rest in
      let row = new_session s admin token.value csrf.value in
      let inserted = >>=-eq-ok (create_session row) _ c csrf.rest in
      let (stored, kept) = create_session-ok row c inserted.first in
      let (opened, stay) = pure-ok _ inserted.middle inserted.second in
      let (bytes, drawn, encoding) = random_token-read 0 32 token.given in
      let token_is : session.token ≡ token.value = ap (λ (x : Session). x.token) opened in
      record {
        admin = admin;
        named = named;
        valid = valid;
        bytes = bytes;
        drawn = drawn;
        token = token_is ∙ encoding;
        row = row;
        hash = ap s.sha256 (sym token_is);
        owner = refl;
        expiry = ap (λ (x : Session). x.expires_at) (sym opened);
        seen = refl;
        stored =
            ap (λ (d : Conn). find (has_token (s.sha256 session.token)) d.tables.sessions) stay
            ∙ ap (λ text. find (has_token (s.sha256 text)) inserted.middle.tables.sessions) token_is
            ∙ stored;
        kept = ap (λ (d : Conn). d.tables.admins) stay ∙ kept;
      }

  found_admin-ok :
      (r : Result AdminRecord) {admin : AdminRecord} → found_admin s r ≡ ok admin → r ≡ ok admin
  found_admin-ok (ok admin) h = ap ok (cc h)
  found_admin-ok (err e) h = cc

  login-IsOpened :
      (username : String) (password : Text) (c c' : Conn) (session : Session)
      → login s username password c ≡ (ok session, c')
      → IsOpened username password session c.tables c'.tables
  unfolding login
  login-IsOpened username password c c' session h =
      let tried = attempt->>=-ok (find_admin_by_username username) _ c h in
      let found = lift->>=-ok (found_admin s tried.value) _ tried.middle tried.rest in
      let (named, kept) =
        find_admin_by_username-ok username c
          (tried.first ∙ (λ i. (found_admin-ok tried.value found.given i, tried.middle))) in
      let (valid, opened) =
        then-ok (verified s (s.verify password found.value.password_hash)) _ invalid_credentials
          tried.middle found.rest in
      let named_here = ap (λ (t : Tables). find (has_username username) t.admins) kept ∙ named in
      subst (λ (t : Tables). IsOpened username password session t c'.tables) kept
        (open_session-ok username password found.value tried.middle c' session named_here valid
          opened)

pub only_admin :
    (username : String) (only admin : AdminRecord)
    → find (has_username username) (only ∷ []) ≡ some admin
    → (admin ≡ only) × (only.username ≡ username)
only_admin username only admin h = elim (Bool-cases (has_username username only)) [
  | inl e ↦
      let found : some only ≡ some admin = ap (λ b. if b then some only else none) (sym e) ∙ h in
      (cc found, (same_iff only.username username).0 e)
  | inr e ↦
      let found : ◌≡◌ {A = Option AdminRecord} none (some admin) =
        ap (λ b. if b then some only else none) (sym e) ∙ h in
      cc found
]

fresh :
    (s : Sources) (session : SessionRecord)
    → s.clock 0 < session.expires_at
    → s.clock 1 ≤ session.last_seen_at + 12 * hour
    → is_stale s session ≡ false
fresh s session early lately = ground arith

not_nil : (bytes : List ℕ) → length bytes ≡ 32 → is_nil (raw_url_encoding bytes) ≡ false
unfolding raw_url_encoding
not_nil [] h = cc
not_nil (b ∷ bytes) h = refl

-- The session of a login by the only administrator is accepted from then on, until it expires and no later than
-- twelve hours after the login, as the identity of that administrator, if the random reader fills what it is
-- asked for and no statement fails.
pub authenticate-login :
    (s : Sources) (username : String) (password : Text) (c c' : Conn) (session : Session)
    (only : AdminRecord)
    → ((bytes : List ℕ) → s.read 0 32 ≡ ok bytes → length bytes ≡ 32)
    → c.tables.admins ≡ only ∷ []
    → login s username password c ≡ (ok session, c')
    → (clock : ℕ → ℕ) → clock 0 < session.expires_at
    → clock 1 ≤ s.clock 0 + 12 * hour
    → authenticate (record s { clock = clock }) session.token (calm c'.tables) ≡ (
      ok (record {
        admin_id = only.id;
        username = username;
        must_change_password = only.must_change_password;
      }),
      calm c'.tables,
    )
authenticate-login s username password c c' session only fills single h clock early lately =
    let later : Sources = record s { clock = clock } in
    let opened = login-IsOpened s username password c c' session h in
    let (is_only, same_username) =
      only_admin username only opened.admin
        (ap (find (has_username username)) (sym single) ∙ opened.named) in
    let filled = ap is_nil opened.token ∙ not_nil opened.bytes (fills opened.bytes opened.drawn) in
    let live =
      fresh later opened.row (subst (λ n. clock 0 < n) (sym opened.expiry) early)
        (subst (λ n. clock 1 ≤ n + 12 * hour) (sym opened.seen) lately) in
    authenticate-calm later session.token c'.tables opened.row only filled opened.stored live
      (opened.kept ∙ single) (opened.owner ∙ ap (λ (a : AdminRecord). a.id) is_only)
    ∙ ap
        (λ name. (
          ok (record {
            admin_id = only.id;
            username = name;
            must_change_password = only.must_change_password;
          }),
          calm c'.tables,
        ))
        same_username
