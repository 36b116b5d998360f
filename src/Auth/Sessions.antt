-- ===== src/Auth/Sessions.antt =====
-- Which sessions Authenticate of apps/manager/internal/auth/service.go accepts.
use supabase_installer.Prelude.{
  ℕ, ◌+◌, ◌*◌, ◌<◌, ◌≤◌, String, Bool, true, false, Option, none, some, List, ◌≡◌, refl, sym, ap,
  ◌∙◌, find, delete, subst, [], ◌∷◌, Text, is_nil, arith, if◌then◌else◌, Bool-cases, inl, inr,
}
use supabase_installer.Errors.{Result, ok, err, unauthenticated}
use supabase_installer.Db.{Conn, Db, raise, lift, attempt, ignore, query, ◌>>=◌, ◌>>◌}
use supabase_installer.Db.Schema.{Tables, AdminRecord, SessionRecord}
use supabase_installer.Db.Laws.{>>=-eq-ok, statement-ok, query-ok}
use supabase_installer.Db.Guards.{else-ok, lift-ok, attempt-ok, read-ok}
use supabase_installer.Store.Auth.{
  has_token, has_username, has_admin_id, find_session, scan_session, get_admin, scan_admin,
  find_admin_by_username, delete_session,
}
use supabase_installer.Auth.{
  Sources, Identity, hour, is_stale, found_session, identity_of, identify, authenticate, logout,
}

scan_session-ok :
    (o : Option SessionRecord) {session : SessionRecord}
    → scan_session o ≡ ok session
    → o ≡ some session
scan_session-ok none h = cc
scan_session-ok (some session) h = ap some (cc h)

scan_admin-ok :
    (o : Option AdminRecord) {admin : AdminRecord} → scan_admin o ≡ ok admin → o ≡ some admin
scan_admin-ok none h = cc
scan_admin-ok (some admin) h = ap some (cc h)

pub find_session-ok :
    (token : String) (c : Conn) {session : SessionRecord} {c' : Conn}
    → find_session token c ≡ (ok session, c')
    → (find (has_token token) c.tables.sessions ≡ some session) × (c'.tables ≡ c.tables)
unfolding find_session
find_session-ok token c h =
    let (scanned, kept) = read-ok (λ t. find (has_token token) t.sessions) scan_session c h in
    (scan_session-ok (find (has_token token) c.tables.sessions) scanned, kept)

pub find_admin_by_username-ok :
    (username : String) (c : Conn) {admin : AdminRecord} {c' : Conn}
    → find_admin_by_username username c ≡ (ok admin, c')
    → (find (has_username username) c.tables.admins ≡ some admin) × (c'.tables ≡ c.tables)
unfolding find_admin_by_username
find_admin_by_username-ok username c h =
    let (scanned, kept) = read-ok (λ t. find (has_username username) t.admins) scan_admin c h in
    (scan_admin-ok (find (has_username username) c.tables.admins) scanned, kept)

-- the administrator with this id, and the first one with its username
pub record IsAdmin (id : Text) (admin : AdminRecord) (t : Tables) : Type 0 where
  pub holder : AdminRecord
  pub by_id : find (has_admin_id id) t.admins ≡ some holder
  pub by_username : find (has_username holder.username) t.admins ≡ some admin

pub get_admin-ok :
    (id : Text) (c : Conn) {admin : AdminRecord} {c' : Conn}
    → get_admin id c ≡ (ok admin, c')
    → IsAdmin id admin c.tables × (c'.tables ≡ c.tables)
unfolding get_admin
get_admin-ok id c h =
    let f : Tables → Option AdminRecord = λ t. find (has_admin_id id) t.admins in
    let next : AdminRecord → Db AdminRecord = λ admin. find_admin_by_username admin.username in
    let bound = >>=-eq-ok (query f) (λ row. lift (scan_admin row) >>= next) c h in
    let (row, same_tables) = query-ok f c bound.first in
    let inner = >>=-eq-ok (lift (scan_admin bound.value)) next bound.middle bound.second in
    let (scanned, stay) = lift-ok (scan_admin bound.value) bound.middle inner.first in
    let (by_username, kept) =
      find_admin_by_username-ok inner.value.username inner.middle inner.second in
    let same_middle = ap (λ (d : Conn). d.tables) stay ∙ same_tables in
    (
      record {
        holder = inner.value;
        by_id = scan_admin-ok (f c.tables) (ap scan_admin (sym row) ∙ scanned);
        by_username =
            ap (λ (t : Tables). find (has_username inner.value.username) t.admins) (sym same_middle)
            ∙ by_username;
      },
      kept ∙ same_middle,
    )

module _ (s : Sources) where
  -- the session of the token is live, and the identity is its administrator's
  pub record IsLive (token : Text) (identity : Identity) (t : Tables) : Type 0 where
    pub session : SessionRecord
    pub stored : find (has_token (s.sha256 token)) t.sessions ≡ some session
    pub before_expiry : s.clock 0 < session.expires_at
    pub seen_lately : s.clock 1 ≤ session.last_seen_at + 12 * hour
    pub admin : AdminRecord
    pub is_admin : IsAdmin session.admin_id admin t
    pub same_id : identity.admin_id ≡ admin.id
    pub same_username : identity.username ≡ admin.username

  found_session-ok :
      (r : Result SessionRecord) {session : SessionRecord}
      → found_session s r ≡ ok session
      → r ≡ ok session
  found_session-ok (ok session) h = ap ok (cc h)
  found_session-ok (err e) h = cc

  identity_of-ok :
      (r : Result AdminRecord) {identity : Identity}
      → identity_of s r ≡ ok identity
      → (admin : AdminRecord) × (r ≡ ok admin)
        × (identity.admin_id ≡ admin.id)
        × (identity.username ≡ admin.username)
  identity_of-ok (ok admin) h = (admin, refl, cc h, cc h)
  identity_of-ok (err e) h = cc

  fresh :
      (session : SessionRecord)
      → is_stale s session ≡ false
      → (s.clock 0 < session.expires_at) × (s.clock 1 ≤ session.last_seen_at + 12 * hour)
  fresh session h = (ground arith, ground arith)

  dropped :
      (session : SessionRecord) (c : Conn) {identity : Identity} {c' : Conn}
      → (ignore {A = Unit {0}} (delete_session session.token_hash)
            >> raise {A = Identity} unauthenticated)
          c
        ≡ (ok identity, c')
      → ⊥
  unfolding ◌>>=◌ ignore raise
  dropped session c h = cc

  abbrev given : SessionRecord → Db Identity
  given session = attempt (get_admin session.admin_id) >>= λ admin. lift (identity_of s admin)

  identify_fresh :
      (stale : Bool) (session : SessionRecord) (c : Conn) {identity : Identity} {c' : Conn}
      → (if stale
            then (ignore {A = Unit {0}} (delete_session session.token_hash)
                >> raise unauthenticated)
            else given session)
          c
        ≡ (ok identity, c')
      → (stale ≡ false) × (given session c ≡ (ok identity, c'))
  identify_fresh true session c h = absurd (dropped session c h)
  identify_fresh false session c h = (refl, h)

  pub record Identified (session : SessionRecord) (identity : Identity) (t : Tables) : Type 0 where
    pub fresh : (s.clock 0 < session.expires_at) × (s.clock 1 ≤ session.last_seen_at + 12 * hour)
    pub admin : AdminRecord
    pub is_admin : IsAdmin session.admin_id admin t
    pub same_id : identity.admin_id ≡ admin.id
    pub same_username : identity.username ≡ admin.username

  identify-ok :
      (session : SessionRecord) (c : Conn) {identity : Identity} {c' : Conn}
      → identify s session c ≡ (ok identity, c')
      → Identified session identity c.tables
  unfolding identify
  identify-ok session c h =
      let (live, rest) = identify_fresh (is_stale s session) session c h in
      let bound =
        >>=-eq-ok (attempt (get_admin session.admin_id)) (λ admin. lift (identity_of s admin)) c
          rest in
      let (named, _) = lift-ok (identity_of s bound.value) bound.middle bound.second in
      let (admin, got, same_id, same_username) = identity_of-ok bound.value named in
      let (is_admin, _) =
        get_admin-ok session.admin_id c
          (attempt-ok (get_admin session.admin_id) c bound.first ∙ (λ i. (got i, bound.middle))) in
      record {
        fresh = fresh session live;
        admin = admin;
        is_admin = is_admin;
        same_id = same_id;
        same_username = same_username;
      }

  -- A token is accepted only if the session of its hash is stored, has not expired, and was seen at most twelve
  -- hours ago, and then the identity is the one of the session's administrator.
  pub authenticate-IsLive :
      (token : Text) (c c' : Conn) (identity : Identity)
      → authenticate s token c ≡ (ok identity, c')
      → IsLive token identity c.tables
  unfolding authenticate
  authenticate-IsLive token c c' identity h =
      let next : Result SessionRecord → Db Identity =
        λ found. lift (found_session s found) >>= identify s in
      let (_, run) =
        else-ok (is_nil token) (attempt (find_session (s.sha256 token)) >>= next) unauthenticated c
          h in
      let bound = >>=-eq-ok (attempt (find_session (s.sha256 token))) next c run in
      let inner =
        >>=-eq-ok (lift (found_session s bound.value)) (identify s) bound.middle bound.second in
      let (named, stay) = lift-ok (found_session s bound.value) bound.middle inner.first in
      let (stored, kept) = find_session-ok (s.sha256 token) c (
        attempt-ok (find_session (s.sha256 token)) c bound.first
        ∙ (λ i. (found_session-ok bound.value named i, bound.middle))) in
      let done = identify-ok inner.value inner.middle inner.second in
      let same_tables : inner.middle.tables ≡ c.tables = ap (λ (d : Conn). d.tables) stay ∙ kept in
      record {
        session = inner.value;
        stored = stored;
        before_expiry = done.fresh.0;
        seen_lately = done.fresh.1;
        admin = done.admin;
        is_admin = subst (IsAdmin inner.value.admin_id done.admin) same_tables done.is_admin;
        same_id = done.same_id;
        same_username = done.same_username;
      }

-- no session has the token
find-delete :
    (token : String) (sessions : List SessionRecord)
    → find (has_token token) (delete (has_token token) sessions) ≡ none
find-delete token [] = refl
find-delete token (session ∷ sessions) =
    let rest = find-delete token sessions in
    elim (Bool-cases (has_token token session)) [ inl e ↦ ground arith | inr e ↦ ground arith ]

logout_gone :
    (s : Sources) (token : Text) (c c' : Conn)
    → logout s token c ≡ (ok tt, c')
    → find (has_token (s.sha256 token)) c'.tables.sessions ≡ none
unfolding logout delete_session
logout_gone s token c c' h =
    let f : Tables → Result (Unit {0} × Tables) =
      λ t. ok (tt, record t { sessions = delete (has_token (s.sha256 token)) t.sessions }) in
    let done = statement-ok f c h in
    let sessions : delete (has_token (s.sha256 token)) c.tables.sessions ≡ c'.tables.sessions =
      cc done in
    ap (find (has_token (s.sha256 token))) (sym sessions)
    ∙ find-delete (s.sha256 token) c.tables.sessions

-- After a logout that succeeds its token is not accepted again, at no time and whatever statements fail.
pub logout-authenticate :
    (s : Sources) (token : Text) (c c' : Conn)
    → logout s token c ≡ (ok tt, c')
    → (clock : ℕ → ℕ) (d d' : Conn) (identity : Identity) → d.tables ≡ c'.tables
    → ¬ (authenticate (record s { clock = clock }) token d ≡ (ok identity, d'))
logout-authenticate s token c c' out clock d d' identity same_tables h =
    let live = authenticate-IsLive (record s { clock = clock }) token d d' identity h in
    let gone =
      ap (λ (t : Tables). find (has_token (s.sha256 token)) t.sessions) same_tables
      ∙ logout_gone s token c c' out in
    let stored = live.stored in cc
