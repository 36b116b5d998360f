-- ===== src/Store/Secrets.antt =====
-- apps/manager/internal/store/projects.go: the encrypted secrets of projects. An envelope is opaque here, and the
-- order of texts by which SQLite sorts the kinds is a parameter.
pub mod Effects
pub mod Refinement
use supabase_installer.Prelude.{
  ℕ, String, Bool, true, false, ◌&&◌, Option, none, some, List, [], ◌∷◌, ◌++◌, map, ◌==◌, same,
  if◌then◌else◌, find, select, update, delete, affected, any, order_by,
}
use supabase_installer.Errors.{Error, Result, ok, err, not_found, driver}
use supabase_installer.Db.{Db, pure, raise, lift, statement, query, ◌>>=◌}
use supabase_installer.Db.Schema.{Tables, SecretRow}
use supabase_installer.Store.Projects.{is_project}

-- the primary key
abbrev pub has_key : String → String → SecretRow → Bool
has_key project kind row = same row.project_id project && same row.kind kind

-- ON CONFLICT(project_id, kind) DO UPDATE
abbrev pub upsert : String → String → String → List SecretRow → List SecretRow
upsert project kind envelope rows =
    if any (has_key project kind) rows
    then update (has_key project kind) (λ row. record row { envelope = envelope }) rows
    else rows ++ record { project_id = project; kind = kind; envelope = envelope } ∷ []

-- the project must exist
unfoldable pub put_secret : String → String → String → Db (Unit {0})
put_secret project kind envelope = statement λ t.
    if any (is_project project) t.projects
    then ok (tt, record t { secrets = upsert project kind envelope t.secrets })
    else err driver

abbrev envelope_of : Option SecretRow → Result String
envelope_of none = err not_found
envelope_of (some row) = ok row.envelope

unfoldable pub get_secret : String → String → Db String
get_secret project kind = do
  row ← query (λ t. find (has_key project kind) t.secrets)
  lift (envelope_of row)

unfoldable pub list_secret_kinds : (String → String → Bool) → String → Db (List String)
list_secret_kinds before project = query λ t. order_by before (
    map (λ (row : SecretRow). row.kind)
      (select (λ (row : SecretRow). same row.project_id project) t.secrets))

unfoldable pub delete_secret : String → String → Db (Unit {0})
delete_secret project kind = do
  count ← statement λ t. ok (
    affected (has_key project kind) t.secrets,
    record t { secrets = delete (has_key project kind) t.secrets },
  )
  if count == 0 then raise not_found else pure tt
