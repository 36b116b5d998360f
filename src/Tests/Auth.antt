-- ===== src/Tests/Auth.antt =====
-- apps/manager/internal/auth/service.go with one administrator.
use supabase_installer.Prelude.{
  ℕ, zero, suc, ◌+◌, ◌*◌, String, true, List, [], ◌∷◌, ◌≡◌, refl, sym, ap, same, length, Text,
  codes, arith,
}
use supabase_installer.Errors.{Result, ok, err, ok-injective}
use supabase_installer.Db.{Conn, pure, raise, attempt, query, statement, in_tx, ◌>>=◌}
use supabase_installer.Db.Laws.{calm}
use supabase_installer.Db.Schema.{Tables, AdminRecord}
use supabase_installer.Store.Auth.{
  create_first_admin, create_admin_if, admin_count, insert_admin, insert_code, insert_codes,
  find_admin_by_username, get_admin, create_session, delete_session, update_admin_password,
}
use supabase_installer.Auth.{
  Sources, Session, Identity, BootstrapResult, hour, bootstrap, recovery_codes, login, open_session,
  authenticate, logout, change_password, store_password, verify_password,
}
use supabase_installer.Auth.Encoding.{raw_url_encoding, lower_base32, dashed}
use supabase_installer.Auth.Sessions.{IsLive, authenticate-IsLive, logout-authenticate}
use supabase_installer.Auth.Bootstrap.{IsFirst, bootstrap-IsFirst}
use supabase_installer.Auth.Login.{authenticate-login}
use supabase_installer.Auth.Passwords.{verify_password-change_password}
use supabase_installer.Tests.Operations

abbrev repeat : ℕ → ℕ → List ℕ
repeat zero n = []
repeat (suc count) n = n ∷ repeat count n

abbrev sources : Sources
sources = record {
  sha256 = λ t. "digest";
  hash = λ n t. ok "hash";
  verify = λ t h. ok (same h "hash");
  read = λ n size. ok (repeat size n);
  clock = λ n. 5;
}

abbrev password : Text
password = codes "correct horse battery"

abbrev admin : AdminRecord
admin = record {
  id = codes "admin";
  username = "root";
  password_hash = "hash";
  must_change_password = true;
  created_at = 1;
  updated_at = 1;
}

abbrev managed : Tables
managed = record Operations.waiting { admins = admin ∷ [] }

abbrev session : Session
session = record {
  token = raw_url_encoding (repeat 32 0);
  csrf_token = raw_url_encoding (repeat 32 1);
  expires_at = 5 + 168 * hour;
}

abbrev identity : Identity
identity = record { admin_id = codes "admin"; username = "root"; must_change_password = true }

abbrev opened : Conn
opened = (login sources "root" password (calm managed)).1

logs_in : login sources "root" password (calm managed) ≡ (ok session, opened)
unfolding login open_session find_admin_by_username create_session query statement attempt ◌>>=◌
    pure raise
logs_in = refl

fills : (bytes : List ℕ) → sources.read 0 32 ≡ ok bytes → length bytes ≡ 32
fills bytes h = ap length (sym (ok-injective h))

accepted :
    authenticate (record sources { clock = λ n. 6 }) session.token (calm opened.tables)
    ≡ (ok identity, calm opened.tables)
accepted =
    authenticate-login sources "root" password (calm managed) opened session admin fills refl
      logs_in (λ n. 6) (omega arith) (omega arith)

authenticate-login_example :
    authenticate (record sources { clock = λ n. 6 }) session.token (calm opened.tables)
    ≡ (ok identity, calm opened.tables)
authenticate-login_example =
    authenticate-login sources "root" password (calm managed) opened session admin fills refl
      logs_in (λ n. 6) (omega arith) (omega arith)

authenticate-IsLive_example :
    IsLive (record sources { clock = λ n. 6 }) session.token identity opened.tables
authenticate-IsLive_example =
    authenticate-IsLive (record sources { clock = λ n. 6 }) session.token (calm opened.tables)
      (calm opened.tables) identity accepted

abbrev closed : Conn
closed = (logout sources session.token opened).1

logs_out : logout sources session.token opened ≡ (ok tt, closed)
unfolding logout delete_session statement login open_session find_admin_by_username create_session
    query attempt ◌>>=◌ pure raise
logs_out = refl

logout-authenticate_example : ¬ (
    authenticate (record sources { clock = λ n. 6 }) session.token (calm closed.tables)
    ≡ (ok identity, calm closed.tables))
logout-authenticate_example =
    logout-authenticate sources session.token opened closed logs_out (λ n. 6) (calm closed.tables)
      (calm closed.tables) identity refl

abbrev result_of : Result BootstrapResult → BootstrapResult
result_of (ok r) = r
result_of (err e) = record { admin_id = []; recovery_codes = [] }

abbrev booted : Result BootstrapResult × Conn
booted = bootstrap sources "root" password (calm Operations.waiting)

boots :
    bootstrap sources "root" password (calm Operations.waiting)
    ≡ (ok (result_of booted.0), booted.1)
unfolding bootstrap recovery_codes create_first_admin create_admin_if admin_count insert_admin
    insert_code insert_codes query statement attempt in_tx ◌>>=◌ pure raise raw_url_encoding
    lower_base32 dashed
boots = refl

bootstrap-IsFirst_example :
    IsFirst sources "root" password (result_of booted.0) Operations.waiting booted.1.tables
bootstrap-IsFirst_example =
    bootstrap-IsFirst sources "root" password (calm Operations.waiting) booted.1
      (result_of booted.0) boots

abbrev next : Text
next = codes "another horse battery"

abbrev changed : Conn
changed = (change_password sources identity password next (calm managed)).1

changes : change_password sources identity password next (calm managed) ≡ (ok tt, changed)
unfolding change_password store_password get_admin find_admin_by_username update_admin_password
    query statement attempt ◌>>=◌ pure raise
changes = refl

verifies :
    (n : ℕ) (p : Text) (hash : String)
    → sources.hash n p ≡ ok hash
    → sources.verify p hash ≡ ok true
verifies n p hash h = ap (λ x. ok (same x "hash")) (sym (ok-injective h))

verify_password-change_password_example :
    (sources.verify password admin.password_hash ≡ ok true)
    × (verify_password sources identity next (calm changed.tables) ≡ (ok tt, calm changed.tables))
verify_password-change_password_example =
    verify_password-change_password sources identity password next (calm managed) changed admin
      verifies refl changes
