-- ===== src/Auth.antt =====
-- apps/manager/internal/auth/service.go: bootstrap, sessions and passwords of the manager's administrator.
pub mod Encoding
pub mod Sessions
pub mod Bootstrap
pub mod Login
pub mod Passwords
use supabase_installer.Prelude.{
  ℕ, zero, suc, ◌+◌, ◌*◌, String, Bool, true, false, ◌&&◌, ◌||◌, not, Option, none, some, List, [],
  ◌∷◌, map, ◌==◌, same, if◌then◌else◌, ltb, leb, every, length, Text, codes, is_nil, is_lower,
  is_digit,
}
use supabase_installer.Errors.{
  Error, Result, ok, err, is_not_found, is_conflict, already_bootstrapped, invalid_credentials,
  unauthenticated, bad_username, short_password,
}
use supabase_installer.Db.{Db, pure, raise, lift, attempt, ignore, ◌>>=◌, ◌>>◌}
use supabase_installer.Db.Schema.{AdminRecord, SessionRecord}
use supabase_installer.Validation.Texts.{byte_len}
use supabase_installer.Store.Auth.{
  RecoveryCodeRecord, admin_count, create_first_admin, find_admin_by_username, get_admin,
  update_admin_password, create_session, find_session, delete_session, update_session_csrf,
}
use supabase_installer.Auth.Encoding.{raw_url_encoding, lower_base32, dashed}

-- What the service is given: SHA-256, the password hasher, whose n-th call of Hash draws its own salt, the random
-- reader (its n-th read of so many bytes), and the clock.
pub record Sources : Type 0 where
  pub sha256 : Text → String
  pub hash : ℕ → Text → Result String
  pub verify : Text → String → Result Bool
  pub read : ℕ → ℕ → Result (List ℕ)
  pub clock : ℕ → ℕ

pub record BootstrapResult : Type 0 where
  pub admin_id : Text
  pub recovery_codes : List Text

pub record Session : Type 0 where
  pub token : Text
  pub csrf_token : Text
  pub expires_at : ℕ

pub record Identity : Type 0 where
  pub admin_id : Text
  pub username : String
  pub must_change_password : Bool

abbrev is_upper : ℕ → Bool
is_upper c = leb b'A' c && leb c b'Z'

abbrev is_word : ℕ → Bool
is_word c = is_upper c || is_lower c || is_digit c

abbrev is_word_or_mark : ℕ → Bool
is_word_or_mark c = is_word c || c == b'.' || c == b'_' || c == b'-'

-- ^[A-Za-z0-9][A-Za-z0-9._-]{2,63}$
abbrev pub matches_username : Text → Bool
matches_username [] = false
matches_username (c ∷ rest) =
    is_word c && every is_word_or_mark rest && leb 2 (length rest) && leb (length rest) 63

-- time.Hour
abbrev pub hour : ℕ
hour = 3600000000000

unfoldable pub setup_required : Db Bool
setup_required = do count ← admin_count; pure (count == 0)

module _ (s : Sources) where
  abbrev pub random_token : ℕ → ℕ → Result Text
  random_token n size = elim (s.read n size) [
    | ok bytes ↦ ok (raw_url_encoding bytes)
    | err e ↦ err e
  ]

  abbrev pub recovery_code : ℕ → Result Text
  recovery_code n = elim (s.read n 10) [
    | ok bytes ↦ ok (dashed (lower_base32 bytes))
    | err e ↦ err e
  ]

  -- the code of the `count`-th last index: two reads and one hash each
  unfoldable pub recovery_codes : ℕ → ℕ → Db (List (Text × RecoveryCodeRecord))
  recovery_codes index zero = pure []
  recovery_codes index (suc count) = do
    code ← lift (recovery_code (1 + 2 * index))
    code_hash ← lift (s.hash (1 + index) code)
    code_id ← lift (random_token (2 + 2 * index) 12)
    rest ← recovery_codes (suc index) count
    pure ((code, record { id = code_id; code_hash = code_hash }) ∷ rest)

  abbrev pub bootstrapped :
      Text → List (Text × RecoveryCodeRecord) → Result (Unit {0}) → Result BootstrapResult
  bootstrapped id codes (ok _) =
      ok (record { admin_id = id; recovery_codes = map (λ c. c.0) codes })
  bootstrapped id codes (err e) = err (if is_conflict e then already_bootstrapped else e)

  unfoldable pub bootstrap : String → Text → Db BootstrapResult
  bootstrap username password =
      if not (matches_username (codes username))
      then raise bad_username
      else (if ltb (byte_len password) 12 then raise short_password else do
        password_hash ← lift (s.hash 0 password)
        let now = s.clock 0
        id ← lift (random_token 0 16)
        codes ← recovery_codes 0 10
        created ← attempt (
            create_first_admin
              (record {
                id = id;
                username = username;
                password_hash = password_hash;
                must_change_password = false;
                created_at = now;
                updated_at = now;
              })
              (map (λ c. c.1) codes))
        lift (bootstrapped id codes created))

  -- err != nil || !valid
  abbrev pub verified : Result Bool → Bool
  verified (ok valid) = valid
  verified (err e) = false

  abbrev pub found_admin : Result AdminRecord → Result AdminRecord
  found_admin (ok admin) = ok admin
  found_admin (err e) = err (if is_not_found e then invalid_credentials else e)

  abbrev pub new_session : AdminRecord → Text → Text → SessionRecord
  new_session admin token csrf = record {
    token_hash = s.sha256 token;
    admin_id = admin.id;
    csrf_hash = s.sha256 csrf;
    last_seen_at = s.clock 0;
    expires_at = s.clock 0 + 168 * hour;
    created_at = s.clock 0;
  }

  unfoldable pub open_session : AdminRecord → Db Session
  open_session admin = do
    token ← lift (random_token 0 32)
    csrf ← lift (random_token 1 32)
    _ ← create_session (new_session admin token csrf)
    pure (record { token = token; csrf_token = csrf; expires_at = s.clock 0 + 168 * hour })

  unfoldable pub login : String → Text → Db Session
  login username password = do
    found ← attempt (find_admin_by_username username)
    admin ← lift (found_admin found)
    if verified (s.verify password admin.password_hash)
        then open_session admin
        else raise invalid_credentials

  abbrev pub found_session : Result SessionRecord → Result SessionRecord
  found_session (ok session) = ok session
  found_session (err e) = err (if is_not_found e then unauthenticated else e)

  -- !now.Before(expires) || now.Sub(lastSeen) > 12 hours; each side reads the clock
  abbrev pub is_stale : SessionRecord → Bool
  is_stale session =
      not (ltb (s.clock 0) session.expires_at) || ltb (session.last_seen_at + 12 * hour) (s.clock 1)

  abbrev pub identity_of : Result AdminRecord → Result Identity
  identity_of (ok admin) = ok (record {
    admin_id = admin.id;
    username = admin.username;
    must_change_password = admin.must_change_password;
  })
  identity_of (err e) = err unauthenticated

  unfoldable pub identify : SessionRecord → Db Identity
  identify session =
      if is_stale session
      then ignore (delete_session session.token_hash) >> raise unauthenticated
      else do admin ← attempt (get_admin session.admin_id); lift (identity_of admin)

  unfoldable pub authenticate : Text → Db Identity
  authenticate token = if is_nil token then raise unauthenticated else do
    found ← attempt (find_session (s.sha256 token))
    session ← lift (found_session found)
    identify session

  abbrev csrf_matches : Text → Result SessionRecord → Bool
  csrf_matches csrf (ok session) = same session.csrf_hash (s.sha256 csrf)
  csrf_matches csrf (err e) = false

  unfoldable pub validate_csrf : Text → Text → Db (Unit {0})
  validate_csrf token csrf = do
    found ← attempt (find_session (s.sha256 token))
    if csrf_matches csrf found then pure tt else raise unauthenticated

  unfoldable pub refresh_csrf : Text → Db Text
  refresh_csrf token = do
    _ ← authenticate token
    csrf ← lift (random_token 0 32)
    _ ← update_session_csrf (s.sha256 token) (s.sha256 csrf)
    pure csrf

  unfoldable pub logout : Text → Db (Unit {0})
  logout token = delete_session (s.sha256 token)

  abbrev pub or_unauthenticated : Result AdminRecord → Result AdminRecord
  or_unauthenticated (ok admin) = ok admin
  or_unauthenticated (err e) = err unauthenticated

  abbrev pub or_invalid : Result AdminRecord → Result AdminRecord
  or_invalid (ok admin) = ok admin
  or_invalid (err e) = err invalid_credentials

  unfoldable pub store_password : AdminRecord → Text → Db (Unit {0})
  store_password admin password = do
    hash ← lift (s.hash 0 password)
    update_admin_password admin.id hash (s.clock 0)

  unfoldable pub change_password : Identity → Text → Text → Db (Unit {0})
  change_password identity current next =
      if ltb (byte_len next) 12 then raise short_password else do
        found ← attempt (get_admin identity.admin_id)
        admin ← lift (or_unauthenticated found)
        if verified (s.verify current admin.password_hash)
            then store_password admin next
            else raise invalid_credentials

  unfoldable pub verify_password : Identity → Text → Db (Unit {0})
  verify_password identity password = do
    found ← attempt (get_admin identity.admin_id)
    admin ← lift (or_invalid found)
    if verified (s.verify password admin.password_hash) then pure tt else raise invalid_credentials
