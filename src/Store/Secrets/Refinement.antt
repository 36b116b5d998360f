-- ===== src/Store/Secrets/Refinement.antt =====
-- The secrets in apps/manager/internal/store/projects.go against a map from keys to envelopes.
use supabase_installer.Prelude.{
  String, Bool, true, false, ◌&&◌, not, Option, none, some, List, [], ◌∷◌, ◌≡◌, refl, ap, fun_ext,
  ◌∙◌, ◌==◌, if◌then◌else◌, delete, affected, any, arith, Bool-cases, inl, inr,
}
use supabase_installer.Contracts.{Project}
use supabase_installer.Errors.{not_found}
use supabase_installer.Db.{Conn, pure, raise, statement, ◌>>=◌}
use supabase_installer.Db.Laws.{calm}
use supabase_installer.Db.Schema.{Tables, SecretRow}
use supabase_installer.Store.Projects.{is_project}
use supabase_installer.Store.Secrets.{has_key, upsert, put_secret, get_secret, delete_secret}
use supabase_installer.Store.Secrets.Effects.{
  secret_at, secret_at-upsert, is_key, found, get_secret-found, first_key, second_key,
}

-- the writes of the store
pub data Command : Type 0 where
  put : String → String → String → Command
  remove : String → String → Command

abbrev pub execute : Command → Conn → Conn
execute (put p k e) c = (put_secret p k e c).1
execute (remove p k) c = (delete_secret p k c).1

abbrev pub execute_all : List Command → Conn → Conn
execute_all [] c = c
execute_all (command ∷ rest) c = execute_all rest (execute command c)

-- What the store promises: a function from keys to envelopes that each command changes at its key, a put only if its server
-- exists.
abbrev pub Secrets : Type 0
Secrets = String → String → Option String

abbrev pub change : List Project → Command → Secrets → Secrets
change projects (put p k e) secrets q l =
    if any (is_project p) projects && is_key p k q l then some e else secrets q l
change projects (remove p k) secrets q l = if is_key p k q l then none else secrets q l

abbrev pub change_all : List Project → List Command → Secrets → Secrets
change_all projects [] secrets = secrets
change_all projects (command ∷ rest) secrets =
    change_all projects rest (change projects command secrets)

abbrev pub view : Tables → Secrets
view t q l = secret_at q l t.secrets

kept_row :
    (K H Q : Bool) (old : String) (rest after : Option String)
    → after ≡ (if K then none else rest)
    → (Q ≡ true → H ≡ K)
    → (H ≡ true → Q ≡ K)
    → (if not H then (if Q then some old else after) else after)
      ≡ (if K then none else (if Q then some old else rest))
kept_row true true Q old rest after e q h = e
kept_row true false true old rest after e q h = cc (q refl)
kept_row true false false old rest after e q h = e
kept_row false true true old rest after e q h = cc (h refl)
kept_row false true false old rest after e q h = e
kept_row false false true old rest after e q h = refl
kept_row false false false old rest after e q h = e

secret_at-if :
    (b : Bool) (q l : String) (row : SecretRow) (rows : List SecretRow)
    → secret_at q l (if b then row ∷ rows else rows) ≡ (
        if b
        then (if has_key q l row then some row.envelope else secret_at q l rows)
        else secret_at q l rows)
secret_at-if true q l row rows = refl
secret_at-if false q l row rows = refl

no_row : (b : Bool) → ◌≡◌ {A = Option String} none (if b then none else none)
no_row true = refl
no_row false = refl

secret_at-delete :
    (p k q l : String) (rows : List SecretRow)
    → secret_at q l (delete (has_key p k) rows)
      ≡ (if is_key p k q l then none else secret_at q l rows)
secret_at-delete p k q l [] = no_row (is_key p k q l)
secret_at-delete p k q l (row ∷ rows) =
    secret_at-if (not (has_key p k row)) q l row (delete (has_key p k) rows)
    ∙ kept_row (is_key p k q l) (has_key p k row) (has_key q l row) row.envelope
        (secret_at q l rows) (secret_at q l (delete (has_key p k) rows))
        (secret_at-delete p k q l rows) (second_key p k q l row) (first_key p k q l row)

-- the tables after a command
abbrev after : Command → Tables → Tables
after (put p k e) t =
    if any (is_project p) t.projects then record t { secrets = upsert p k e t.secrets } else t
after (remove p k) t = record t { secrets = delete (has_key p k) t.secrets }

removed : (b : Bool) (c : Conn) → ((if b then raise {A = Unit {0}} not_found else pure tt) c).1 ≡ c
unfolding raise pure
removed true c = refl
removed false c = refl

execute-calm : (command : Command) (t : Tables) → execute command (calm t) ≡ calm (after command t)
unfolding put_secret delete_secret statement ◌>>=◌
execute-calm (put p k e) t = elim (Bool-cases (any (is_project p) t.projects)) [
  | inl there ↦ ground arith
  | inr gone ↦ ground arith
]
execute-calm (remove p k) t =
    removed (affected (has_key p k) t.secrets == 0)
      (calm (record t { secrets = delete (has_key p k) t.secrets }))

put_view :
    (b key : Bool) (e : String) (p k q l : String) (t : Tables)
    → secret_at q l (upsert p k e t.secrets) ≡ (if key then some e else secret_at q l t.secrets)
    → secret_at q l (if b then record t { secrets = upsert p k e t.secrets } else t).secrets
      ≡ (if b && key then some e else secret_at q l t.secrets)
put_view true key e p k q l t h = h
put_view false key e p k q l t h = refl

after-view :
    (command : Command) (t : Tables) → view (after command t) ≡ change t.projects command (view t)
after-view (put p k e) t = fun_ext λ q. fun_ext λ l.
    put_view (any (is_project p) t.projects) (is_key p k q l) e p k q l t
      (secret_at-upsert p k e q l t.secrets)
after-view (remove p k) t = fun_ext λ q. fun_ext λ l. secret_at-delete p k q l t.secrets

kept_projects :
    (b : Bool) (t : Tables) (rows : List SecretRow)
    → (if b then record t { secrets = rows } else t).projects ≡ t.projects
kept_projects true t rows = refl
kept_projects false t rows = refl

after-projects : (command : Command) (t : Tables) → (after command t).projects ≡ t.projects
after-projects (put p k e) t =
    kept_projects (any (is_project p) t.projects) t (upsert p k e t.secrets)
after-projects (remove p k) t = refl

abbrev after_all : List Command → Tables → Tables
after_all [] t = t
after_all (command ∷ rest) t = after_all rest (after command t)

execute_all-calm :
    (commands : List Command) (t : Tables)
    → execute_all commands (calm t) ≡ calm (after_all commands t)
execute_all-calm [] t = refl
execute_all-calm (command ∷ rest) t =
    ap (execute_all rest) (execute-calm command t) ∙ execute_all-calm rest (after command t)

view-after_all :
    (commands : List Command) (t : Tables)
    → view (after_all commands t) ≡ change_all t.projects commands (view t)
view-after_all [] t = refl
view-after_all (command ∷ rest) t =
    view-after_all rest (after command t)
    ∙ ap (λ projects. change_all projects rest (view (after command t))) (after-projects command t)
    ∙ ap (change_all t.projects rest) (after-view command t)

-- On a connection where no statement fails, reading a secret after any sequence of puts and deletions gives what the
-- map holds at its key after the same sequence, and not found where it holds nothing.
pub get_secret-execute_all :
    (commands : List Command) (t : Tables) (q l : String)
    → (get_secret q l (execute_all commands (calm t))).0
      ≡ found (change_all t.projects commands (view t) q l)
get_secret-execute_all commands t q l =
    ap (λ c. (get_secret q l c).0) (execute_all-calm commands t)
    ∙ get_secret-found q l (after_all commands t)
    ∙ ap (λ (f : Secrets). found (f q l)) (view-after_all commands t)
