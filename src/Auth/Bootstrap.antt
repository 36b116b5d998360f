-- ===== src/Auth/Bootstrap.antt =====
-- Bootstrap of apps/manager/internal/auth/service.go and CreateFirstAdmin of apps/manager/internal/store/auth.go.
use mathlib.Core.List.{append-nil, append_assoc}
use supabase_installer.Prelude.{
  subst, ℕ, zero, suc, ◌+◌, ◌*◌, String, true, false, not, List, [], ◌∷◌, ◌++◌, map, ◌≡◌, refl, sym,
  ap, ◌∙◌, ◌==◌, length, Text, codes, arith, ltb,
}
use supabase_installer.Errors.{Result, ok, err, conflict, bad_username, short_password}
use supabase_installer.Db.{Conn, query, ◌>>=◌, ◌>>◌}
use supabase_installer.Db.Schema.{Tables, AdminRecord, RecoveryCodeRow}
use supabase_installer.Db.Laws.{>>=-eq-ok, statement-ok, query-ok, in_tx-ok, pure-ok}
use supabase_installer.Db.Guards.{else-ok, lift-ok, lift->>=-ok, attempt->>=-ok}
use supabase_installer.Validation.Texts.{byte_len}
use supabase_installer.Store.Auth.{
  RecoveryCodeRecord, admin_count, insert_admin, insert_code, insert_codes, create_admin_if,
  create_first_admin,
}
use supabase_installer.Auth.{
  Sources, BootstrapResult, matches_username, random_token, recovery_code, recovery_codes,
  bootstrapped, bootstrap,
}

-- the row of a recovery code
abbrev pub code_row : AdminRecord → RecoveryCodeRecord → RecoveryCodeRow
code_row admin code = record {
  id = code.id;
  admin_id = admin.id;
  code_hash = code.code_hash;
  created_at = admin.created_at;
}

insert_code-adds :
    (row : RecoveryCodeRow) (c : Conn) {u : Unit {0}} {c' : Conn}
    → insert_code row c ≡ (ok u, c')
    → (c'.tables.admins ≡ c.tables.admins)
      × (c'.tables.recovery_codes ≡ c.tables.recovery_codes ++ row ∷ [])
unfolding insert_code
insert_code-adds row c h = let done = statement-ok _ c h in (ground arith, ground arith)

insert_codes-adds :
    (admin : AdminRecord) (rows : List RecoveryCodeRecord) (c : Conn) {u : Unit {0}} {c' : Conn}
    → insert_codes admin rows c ≡ (ok u, c')
    → (c'.tables.admins ≡ c.tables.admins)
      × (c'.tables.recovery_codes ≡ c.tables.recovery_codes ++ map (code_row admin) rows)
unfolding insert_codes
insert_codes-adds admin [] c h =
    let done = pure-ok tt c h in
    (
      ap (λ (d : Conn). d.tables.admins) done.1,
      ap (λ (d : Conn). d.tables.recovery_codes) done.1 ∙ sym (append-nil c.tables.recovery_codes),
    )
insert_codes-adds admin (code ∷ rows) c h =
    let bound = >>=-eq-ok (insert_code (code_row admin code)) (λ _. insert_codes admin rows) c h in
    let (same_admins, added) = insert_code-adds (code_row admin code) c bound.first in
    let (still, rest) = insert_codes-adds admin rows bound.middle bound.second in
    (
      still ∙ same_admins,
      rest
          ∙ ap (λ codes. codes ++ map (code_row admin) rows) added
          ∙ append_assoc c.tables.recovery_codes (code_row admin code ∷ [])
              (map (code_row admin) rows),
    )

insert_admin-adds :
    (admin : AdminRecord) (c : Conn) {u : Unit {0}} {c' : Conn}
    → insert_admin admin c ≡ (ok u, c')
    → (c'.tables.admins ≡ c.tables.admins ++ admin ∷ [])
      × (c'.tables.recovery_codes ≡ c.tables.recovery_codes)
unfolding insert_admin
insert_admin-adds admin c h = let done = statement-ok _ c h in (ground arith, ground arith)

length-zero {ℓ} : {A : Type ℓ} (xs : List A) → (length xs == 0) ≡ true → xs ≡ []
length-zero [] h = refl
length-zero (x ∷ xs) h = ground arith

-- the first administrator, and its codes
record Created (admin : AdminRecord) (rows : List RecoveryCodeRecord) (before after : Tables)
    : Type 0 where
  free : before.admins ≡ []
  only : after.admins ≡ admin ∷ []
  stored : after.recovery_codes ≡ before.recovery_codes ++ map (code_row admin) rows

body-ok :
    (admin : AdminRecord) (rows : List RecoveryCodeRecord) (c : Conn) {u : Unit {0}} {c' : Conn}
    → (admin_count >>= λ count. create_admin_if count admin rows) c ≡ (ok u, c')
    → Created admin rows c.tables c'.tables
unfolding admin_count create_admin_if
body-ok admin rows c h =
    let count : Tables → ℕ = λ t. length t.admins in
    let bound = >>=-eq-ok (query count) (λ n. create_admin_if n admin rows) c h in
    let (counted, kept) = query-ok count c bound.first in
    let (none_yet, created) =
      else-ok (not (bound.value == 0)) (insert_admin admin >> insert_codes admin rows) conflict
        bound.middle bound.second in
    let free : c.tables.admins ≡ [] =
      length-zero c.tables.admins (ap (λ n. n == 0) (sym counted) ∙ ground arith) in
    let steps =
      >>=-eq-ok (insert_admin admin) (λ _. insert_codes admin rows) bound.middle created in
    let (same_admins, stored) = insert_codes-adds admin rows steps.middle steps.second in
    let (added, same_codes) = insert_admin-adds admin bound.middle steps.first in
    record {
      free = free;
      only =
          same_admins
          ∙ added
          ∙ ap (λ (t : Tables). t.admins ++ admin ∷ []) kept
          ∙ ap (λ admins. admins ++ admin ∷ []) free;
      stored =
          stored
          ∙ ap (λ codes. codes ++ map (code_row admin) rows)
              (same_codes ∙ ap (λ (t : Tables). t.recovery_codes) kept);
    }

create_first_admin-ok :
    (admin : AdminRecord) (rows : List RecoveryCodeRecord) (c : Conn) {u : Unit {0}} {c' : Conn}
    → create_first_admin admin rows c ≡ (ok u, c')
    → Created admin rows c.tables c'.tables
unfolding create_first_admin
create_first_admin-ok admin rows c h =
    let ran = in_tx-ok (admin_count >>= λ count. create_admin_if count admin rows) c h in
    let made = body-ok admin rows ran.start ran.body in
    record {
      free = ap (λ (t : Tables). t.admins) (sym ran.from) ∙ made.free;
      only = ap (λ (t : Tables). t.admins) ran.to ∙ made.only;
      stored =
          ap (λ (t : Tables). t.recovery_codes) ran.to
          ∙ made.stored
          ∙ ap (λ (t : Tables). t.recovery_codes ++ map (code_row admin) rows) ran.from;
    }

length-map {ℓ κ} :
    {A : Type ℓ} {B : Type κ} (f : A → B) (xs : List A) → length (map f xs) ≡ length xs
length-map f [] = refl
length-map f (x ∷ xs) = ap suc (length-map f xs)

module _ (s : Sources) where
  -- each record has the hash of its code
  abbrev pub Hashed : ℕ → List (Text × RecoveryCodeRecord) → Type 0
  Hashed index [] = Unit
  Hashed index ((code, row) ∷ drawn) =
      (s.hash (1 + index) code ≡ ok row.code_hash) × Hashed (suc index) drawn

  recovery_codes-ok :
      (index count : ℕ) (c : Conn) {codes : List (Text × RecoveryCodeRecord)} {c' : Conn}
      → recovery_codes s index count c ≡ (ok codes, c')
      → (length codes ≡ count) × (c' ≡ c) × Hashed index codes
  unfolding recovery_codes
  recovery_codes-ok index zero c h =
      let (codes, stay) = pure-ok [] c h in
      (ap length codes, stay, subst (Hashed index) (sym codes) tt)
  recovery_codes-ok index (suc count) c h =
      let one = lift->>=-ok (recovery_code s (1 + 2 * index)) _ c h in
      let two = lift->>=-ok (s.hash (1 + index) one.value) _ c one.rest in
      let three = lift->>=-ok (random_token s (2 + 2 * index) 12) _ c two.rest in
      let last = >>=-eq-ok (recovery_codes s (suc index) count) _ c three.rest in
      let (rest, stay, hashes) = recovery_codes-ok (suc index) count c last.first in
      let (codes, still) = pure-ok _ last.middle last.second in
      (
        ap length codes ∙ ap suc rest,
        still ∙ stay,
        subst (Hashed index) (sym codes) (two.given, hashes),
      )

  -- the administrator that is there afterwards
  pub record IsFirst (username : String) (password : Text) (result : BootstrapResult)
      (before after : Tables) : Type 0 where
    pub none_before : before.admins ≡ []
    pub admin : AdminRecord
    pub only : after.admins ≡ admin ∷ []
    pub same_id : result.admin_id ≡ admin.id
    pub same_username : admin.username ≡ username
    pub hashed : s.hash 0 password ≡ ok admin.password_hash
    -- the codes that are returned, with what is stored of them
    pub drawn : List (Text × RecoveryCodeRecord)
    pub codes_returned : result.recovery_codes ≡ map (λ d. d.0) drawn
    pub ten_codes : length result.recovery_codes ≡ 10
    pub stored :
        after.recovery_codes ≡ before.recovery_codes ++ map (code_row admin) (map (λ d. d.1) drawn)
    pub hashes : Hashed 0 drawn

  abbrev admin_of : String → String → Text → AdminRecord
  admin_of username password_hash id = record {
    id = id;
    username = username;
    password_hash = password_hash;
    must_change_password = false;
    created_at = s.clock 0;
    updated_at = s.clock 0;
  }

  abbrev id_of : Result BootstrapResult → Text
  id_of (ok r) = r.admin_id
  id_of (err e) = []

  abbrev codes_of : Result BootstrapResult → List Text
  codes_of (ok r) = r.recovery_codes
  codes_of (err e) = []

  bootstrapped-ok :
      (id : Text) (codes : List (Text × RecoveryCodeRecord)) (r : Result (Unit {0}))
      {result : BootstrapResult}
      → bootstrapped s id codes r ≡ ok result
      → (r ≡ ok tt) × (result.admin_id ≡ id) × (result.recovery_codes ≡ map (λ c. c.0) codes)
  bootstrapped-ok id codes (ok u) h =
      (refl, ap (λ r. id_of r) (sym h), ap (λ r. codes_of r) (sym h))
  bootstrapped-ok id codes (err e) h = cc

  -- A bootstrap that succeeds found no administrator, and leaves one: with the name and the hash of the password that were
  -- given and the id that is returned. It returns ten recovery codes, and exactly their ten rows have been stored, each of the
  -- administrator and with the hash of its code.
  pub bootstrap-IsFirst :
      (username : String) (password : Text) (c c' : Conn) (result : BootstrapResult)
      → bootstrap s username password c ≡ (ok result, c')
      → IsFirst username password result c.tables c'.tables
  unfolding bootstrap
  bootstrap-IsFirst username password c c' result h =
      let (_, named) = else-ok (not (matches_username (codes username))) _ bad_username c h in
      let (_, long) = else-ok (ltb (byte_len password) 12) _ short_password c named in
      let hashed = lift->>=-ok (s.hash 0 password) _ c long in
      let id = lift->>=-ok (random_token s 0 16) _ c hashed.rest in
      let drawn = >>=-eq-ok (recovery_codes s 0 10) _ c id.rest in
      let (ten, stay, hashes) = recovery_codes-ok 0 10 c drawn.first in
      let admin = admin_of username hashed.value id.value in
      let tried =
        attempt->>=-ok (create_first_admin admin (map (λ c. c.1) drawn.value)) _ drawn.middle
          drawn.second in
      let (given, last) =
        lift-ok (bootstrapped s id.value drawn.value tried.value) tried.middle tried.rest in
      let (created, same_id, returned) = bootstrapped-ok id.value drawn.value tried.value given in
      let made =
        create_first_admin-ok admin (map (λ c. c.1) drawn.value) drawn.middle
          (tried.first ∙ (λ i. (created i, tried.middle))) in
      record {
        none_before = ap (λ (d : Conn). d.tables.admins) (sym stay) ∙ made.free;
        admin = admin;
        only = ap (λ (d : Conn). d.tables.admins) last ∙ made.only;
        same_id = same_id;
        same_username = refl;
        hashed = hashed.given;
        drawn = drawn.value;
        codes_returned = returned;
        ten_codes = ap length returned ∙ length-map (λ c. c.0) drawn.value ∙ ten;
        stored =
            ap (λ (d : Conn). d.tables.recovery_codes) last
            ∙ made.stored
            ∙ ap
                (λ (d : Conn).
                  d.tables.recovery_codes ++ map (code_row admin) (map (λ c. c.1) drawn.value))
                stay;
        hashes = hashes;
      }
