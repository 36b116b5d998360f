-- ===== src/Store/Auth.antt =====
-- apps/manager/internal/store/auth.go: the rows of administrators, recovery codes and sessions.
use supabase_installer.Prelude.{
  ℕ, String, Bool, false, ◌||◌, not, Option, none, some, List, [], ◌∷◌, ◌++◌, ◌==◌, same, same_text,
  Text, if◌then◌else◌, find, update, delete, affected, any, length,
}
use supabase_installer.Errors.{Result, ok, err, not_found, conflict, driver}
use supabase_installer.Db.{Db, pure, raise, lift, statement, query, in_tx, ◌>>=◌, ◌>>◌}
use supabase_installer.Db.Schema.{AdminRecord, RecoveryCodeRow, SessionRecord}

pub record RecoveryCodeRecord : Type 0 where
  pub id : Text
  pub code_hash : String

unfoldable pub admin_count : Db ℕ
admin_count = query (λ t. length t.admins)

abbrev pub has_admin_id : Text → AdminRecord → Bool
has_admin_id id admin = same_text admin.id id

abbrev pub has_username : String → AdminRecord → Bool
has_username username admin = same admin.username username

abbrev pub has_code_id : Text → RecoveryCodeRow → Bool
has_code_id id row = same_text row.id id

abbrev pub has_token : String → SessionRecord → Bool
has_token token session = same session.token_hash token

-- the primary key and UNIQUE
unfoldable pub insert_admin : AdminRecord → Db (Unit {0})
insert_admin admin = statement λ t.
    if any (has_admin_id admin.id) t.admins || any (has_username admin.username) t.admins
    then err driver
    else ok (tt, record t { admins = t.admins ++ admin ∷ [] })

-- the primary key, and the administrator must exist
unfoldable pub insert_code : RecoveryCodeRow → Db (Unit {0})
insert_code row = statement λ t.
    if any (has_code_id row.id) t.recovery_codes || not (any (has_admin_id row.admin_id) t.admins)
    then err driver
    else ok (tt, record t { recovery_codes = t.recovery_codes ++ row ∷ [] })

unfoldable pub insert_codes : AdminRecord → List RecoveryCodeRecord → Db (Unit {0})
insert_codes admin [] = pure tt
insert_codes admin (code ∷ codes) =
    insert_code (record {
      id = code.id;
      admin_id = admin.id;
      code_hash = code.code_hash;
      created_at = admin.created_at;
    })
    >> insert_codes admin codes

-- the body of the transaction
unfoldable pub create_admin_if : ℕ → AdminRecord → List RecoveryCodeRecord → Db (Unit {0})
create_admin_if count admin codes =
    if not (count == 0) then raise conflict else insert_admin admin >> insert_codes admin codes

unfoldable pub create_first_admin : AdminRecord → List RecoveryCodeRecord → Db (Unit {0})
create_first_admin admin codes = in_tx (admin_count >>= λ count. create_admin_if count admin codes)

abbrev pub scan_admin : Option AdminRecord → Result AdminRecord
scan_admin none = err not_found
scan_admin (some admin) = ok admin

unfoldable pub find_admin_by_username : String → Db AdminRecord
find_admin_by_username username = do
  row ← query (λ t. find (has_username username) t.admins)
  lift (scan_admin row)

unfoldable pub get_admin : Text → Db AdminRecord
get_admin id = do
  row ← query (λ t. find (has_admin_id id) t.admins)
  admin ← lift (scan_admin row)
  find_admin_by_username admin.username

unfoldable pub update_admin_password : Text → String → ℕ → Db (Unit {0})
update_admin_password id password_hash now = do
  count ← statement λ t. ok (
    affected (has_admin_id id) t.admins,
    record t {
      admins =
          update (has_admin_id id)
            (λ admin. record admin {
              password_hash = password_hash;
              must_change_password = false;
              updated_at = now;
            })
            t.admins;
    },
  )
  if count == 0 then raise not_found else pure tt

-- the primary key, and the administrator must exist
unfoldable pub create_session : SessionRecord → Db (Unit {0})
create_session session = statement λ t.
    if any (has_token session.token_hash) t.sessions
      || not (any (has_admin_id session.admin_id) t.admins)
    then err driver
    else ok (tt, record t { sessions = t.sessions ++ session ∷ [] })

abbrev pub scan_session : Option SessionRecord → Result SessionRecord
scan_session none = err not_found
scan_session (some session) = ok session

unfoldable pub find_session : String → Db SessionRecord
find_session token = do
  row ← query (λ t. find (has_token token) t.sessions)
  lift (scan_session row)

unfoldable pub delete_session : String → Db (Unit {0})
delete_session token =
    statement λ t. ok (tt, record t { sessions = delete (has_token token) t.sessions })

unfoldable pub update_session_csrf : String → String → Db (Unit {0})
update_session_csrf token csrf = do
  count ← statement λ t. ok (
    affected (has_token token) t.sessions,
    record t {
      sessions =
          update (has_token token) (λ session. record session { csrf_hash = csrf }) t.sessions;
    },
  )
  if count == 0 then raise not_found else pure tt
