-- ===== src/Auth/Passwords.antt =====
-- ChangePassword and VerifyPassword of apps/manager/internal/auth/service.go.
use supabase_installer.Prelude.{
  ℕ, String, Bool, true, false, Option, none, some, List, [], ◌∷◌, ◌≡◌, sym, ap, ◌∙◌, find, update,
  affected, same_text-eq, Text, if◌then◌else◌, ltb, ◌==◌, Bool-cases, inl, inr,
}
use supabase_installer.Errors.{Result, ok, err, invalid_credentials, short_password, not_found}
use supabase_installer.Db.{Conn, Db, pure, raise, attempt, statement, ◌>>=◌, continue}
use supabase_installer.Db.Schema.{Tables, AdminRecord}
use supabase_installer.Db.Laws.{calm, >>=-eq-ok, statement-ok, pure-ok}
use supabase_installer.Db.Guards.{then-ok, else-ok, lift->>=-ok, attempt->>=-ok}
use supabase_installer.Validation.Texts.{byte_len}
use supabase_installer.Store.Auth.{has_username, has_admin_id, get_admin, update_admin_password}
use supabase_installer.Auth.{
  Sources, Identity, verified, change_password, verify_password, store_password, or_unauthenticated,
  or_invalid,
}
use supabase_installer.Auth.Sessions.{get_admin-ok, IsAdmin}
use supabase_installer.Auth.Login.{only_admin, get_admin-calm, same_text_self}

abbrev with_password : String → ℕ → AdminRecord → AdminRecord
with_password hash now admin = record admin {
  password_hash = hash;
  must_change_password = false;
  updated_at = now;
}

abbrev setting : Text → String → ℕ → Tables → Result (ℕ × Tables)
setting id hash now t = ok (
  affected (has_admin_id id) t.admins,
  record t { admins = update (has_admin_id id) (with_password hash now) t.admins },
)

abbrev admins_of : Result (ℕ × Tables) → List AdminRecord
admins_of (ok (_, t)) = t.admins
admins_of (err e) = []

update_admin_password-ok :
    (id : Text) (hash : String) (now : ℕ) (c : Conn) {u : Unit {0}} {c' : Conn}
    → update_admin_password id hash now c ≡ (ok u, c')
    → c'.tables.admins ≡ update (has_admin_id id) (with_password hash now) c.tables.admins
unfolding update_admin_password
update_admin_password-ok id hash now c {u} {c'} h =
    let after : ℕ → Db (Unit {0}) = λ count. if count == 0 then raise not_found else pure tt in
    let bound = >>=-eq-ok (statement (setting id hash now)) after c h in
    let (_, done) = else-ok (bound.value == 0) (pure tt) not_found bound.middle bound.second in
    let written = statement-ok (setting id hash now) c bound.first in
    let (_, stay) = pure-ok tt bound.middle done in
    ap (λ (d : Conn). d.tables.admins) stay ∙ ap admins_of (sym written)

only_holder :
    (id : Text) (only holder : AdminRecord)
    → find (has_admin_id id) (only ∷ []) ≡ some holder
    → (holder ≡ only) × (only.id ≡ id)
only_holder id only holder h = elim (Bool-cases (has_admin_id id only)) [
  | inl e ↦
      let found : some only ≡ some holder = ap (λ b. if b then some only else none) (sym e) ∙ h in
      (cc found, same_text-eq only.id id e)
  | inr e ↦
      let found : ◌≡◌ {A = Option AdminRecord} none (some holder) =
        ap (λ b. if b then some only else none) (sym e) ∙ h in
      cc found
]

only_is :
    (id : Text) (t : Tables) (only admin : AdminRecord)
    → t.admins ≡ only ∷ []
    → IsAdmin id admin t
    → (admin ≡ only) × (only.id ≡ id)
only_is id t only admin single is =
    let (holder_is, same_id) =
      only_holder id only is.holder (ap (find (has_admin_id id)) (sym single) ∙ is.by_id) in
    let (admin_is, _) =
      only_admin is.holder.username only admin
        (ap (find (has_username is.holder.username)) (sym single) ∙ is.by_username) in
    (admin_is, same_id)

verify_password-calm :
    (s : Sources) (identity : Identity) (password : Text) (t : Tables) (admin : AdminRecord)
    → t.admins ≡ admin ∷ []
    → admin.id ≡ identity.admin_id
    → s.verify password admin.password_hash ≡ ok true
    → verify_password s identity password (calm t) ≡ (ok tt, calm t)
unfolding verify_password attempt ◌>>=◌ pure
verify_password-calm s identity password t admin only is valid =
    let test : AdminRecord → Db (Unit {0}) = λ admin.
      if verified s (s.verify password admin.password_hash)
      then pure tt
      else raise invalid_credentials in
    ap (λ (p : Result AdminRecord × Conn). continue (or_invalid s p.0) test p.1)
      (ap (λ id. get_admin id (calm t)) (sym is) ∙ get_admin-calm t admin only)
    ∙ ap (λ r. (if verified s r then pure tt else raise invalid_credentials) (calm t)) valid

or_unauthenticated-ok :
    (s : Sources) (r : Result AdminRecord) {admin : AdminRecord}
    → or_unauthenticated s r ≡ ok admin
    → r ≡ ok admin
or_unauthenticated-ok s (ok admin) h = ap ok (cc h)
or_unauthenticated-ok s (err e) h = cc

verified-ok : (s : Sources) (r : Result Bool) → verified s r ≡ true → r ≡ ok true
verified-ok s (ok valid) h = ap ok h
verified-ok s (err e) h = cc

-- A change of the only administrator's password that succeeds was given the password before it, and from then on
-- the new password is verified, if the hasher verifies what it has hashed and no statement fails.
pub verify_password-change_password :
    (s : Sources) (identity : Identity) (current next : Text) (c c' : Conn) (only : AdminRecord)
    → ((n : ℕ) (password : Text) (hash : String)
        → s.hash n password ≡ ok hash
        → s.verify password hash ≡ ok true)
    → c.tables.admins ≡ only ∷ []
    → change_password s identity current next c ≡ (ok tt, c')
    → (s.verify current only.password_hash ≡ ok true)
      × (verify_password s identity next (calm c'.tables) ≡ (ok tt, calm c'.tables))
unfolding change_password store_password
verify_password-change_password s identity current next c c' only verifies single h =
    let (_, long) = else-ok (ltb (byte_len next) 12) _ short_password c h in
    let tried = attempt->>=-ok (get_admin identity.admin_id) _ c long in
    let found = lift->>=-ok (or_unauthenticated s tried.value) _ tried.middle tried.rest in
    let (is_admin, kept) =
      get_admin-ok identity.admin_id c
        (tried.first ∙ (λ i. (or_unauthenticated-ok s tried.value found.given i, tried.middle))) in
    let (is_only, same_id) = only_is identity.admin_id c.tables only found.value single is_admin in
    let (valid, stored) =
      then-ok (verified s (s.verify current found.value.password_hash)) _ invalid_credentials
        tried.middle found.rest in
    let hashed = lift->>=-ok (s.hash 0 next) _ tried.middle stored in
    let changed =
      update_admin_password-ok found.value.id hashed.value (s.clock 0) tried.middle hashed.rest in
    let after : c'.tables.admins ≡ with_password hashed.value (s.clock 0) only ∷ [] =
      changed
      ∙ ap (update (has_admin_id found.value.id) (with_password hashed.value (s.clock 0)))
          (ap (λ (t : Tables). t.admins) kept ∙ single)
      ∙ ap
          (λ (a : AdminRecord).
            update (has_admin_id a.id) (with_password hashed.value (s.clock 0)) (only ∷ []))
          is_only
      ∙ ap (λ b. (if b then with_password hashed.value (s.clock 0) only else only) ∷ [])
          (same_text_self only.id) in
    (
      ap (λ (a : AdminRecord). s.verify current a.password_hash) (sym is_only)
          ∙ verified-ok s (s.verify current found.value.password_hash) valid,
      verify_password-calm s identity next c'.tables (with_password hashed.value (s.clock 0) only)
          after same_id (verifies 0 next hashed.value hashed.given),
    )
