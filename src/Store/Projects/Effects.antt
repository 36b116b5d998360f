-- ===== src/Store/Projects/Effects.antt =====
-- Results and failures of the methods of apps/manager/internal/store/projects.go that change a project.
use supabase_installer.Prelude.{
  find, some, ◌≢◌, Bool-cases, inl, inr, ◌∙◌, ℕ, String, Bool, true, false, List, [], ◌∷◌, ◌==◌,
  ◌≡◌, refl, sym, ap, if◌then◌else◌, fun_ext, subst, update, affected, arith,
}
use supabase_installer.Contracts.{Project, ProjectStatus, HealthStatus}
use supabase_installer.Errors.{Error, Result, ok, err, not_found}
use supabase_installer.Db.{Conn, Db, pure, raise, statement, ◌>>=◌}
use supabase_installer.Db.Laws.{statement-ok, statement-err, >>=-eq-ok, >>=-eq-err, early, late}
use supabase_installer.Db.Schema.{Tables}
use supabase_installer.Store.Projects.{
  is_project, without, delete_row, delete_project, update_project_status,
}

-- a number of rows, and the tables that a statement leaves
module _ (n : Tables → ℕ) (g : Tables → Tables) where
  abbrev counted : Db (Unit {0})
  counted = statement (λ t. ok (n t, if n t == 0 then t else g t)) >>= λ k.
      if k == 0 then raise not_found else pure tt

  some_rows :
      (b : Bool) (t : Tables) (c c' : Conn)
      → (if b then t else g t) ≡ c.tables
      → (if b then raise {A = Unit {0}} not_found else pure (tt {0})) c ≡ (ok (tt {0}), c')
      → c'.tables ≡ g t
  unfolding pure raise
  some_rows true t c c' e p = cc
  some_rows false t c c' e p = cc

  no_rows :
      (b : Bool) (t : Tables) (c c' : Conn) (x : Error)
      → (if b then t else g t) ≡ c.tables
      → (if b then raise {A = Unit {0}} not_found else pure (tt {0})) c ≡ (err x, c')
      → c'.tables ≡ t
  unfolding pure raise
  no_rows true t c c' x e p = cc
  no_rows false t c c' x e p = cc

  left :
      (k : ℕ) (t t' : Tables)
      → ◌≡◌ {A = Result (ℕ × Tables)} (ok (n t, if n t == 0 then t else g t)) (ok (k, t'))
      → (if k == 0 then t else g t) ≡ t'
  left k t t' e =
      let count : n t ≡ k = cc in
      let rest : (if n t == 0 then t else g t) ≡ t' = cc in
      subst (λ j. (if j == 0 then t else g t) ≡ t') count rest

  counted-done : (c c' : Conn) → counted c ≡ (ok tt, c') → c'.tables ≡ g c.tables
  counted-done c c' e =
      let steps =
        >>=-eq-ok (statement (λ t. ok (n t, if n t == 0 then t else g t)))
          (λ k. if k == 0 then raise not_found else pure tt) c e in
      some_rows (steps.value == 0) c.tables steps.middle c'
        (left steps.value c.tables steps.middle.tables
          (statement-ok (λ t. ok (n t, if n t == 0 then t else g t)) c steps.first))
        steps.second

  counted-failed : (c c' : Conn) (x : Error) → counted c ≡ (err x, c') → c'.tables ≡ c.tables
  counted-failed c c' x e =
      elim (>>=-eq-err (statement (λ t. ok (n t, if n t == 0 then t else g t)))
        (λ k. if k == 0 then raise not_found else pure tt) c e) [
          | early p ↦ statement-err (λ t. ok (n t, if n t == 0 then t else g t)) c p
          | late k d p q ↦
              no_rows (k == 0) c.tables d c' x
                (left k c.tables d.tables
                  (statement-ok (λ t. ok (n t, if n t == 0 then t else g t)) c p))
                q
        ]

-- a project that is deleted takes its rows with it
pub delete_project-done :
    (id : String) (c c' : Conn)
    → delete_project id c ≡ (ok tt, c')
    → c'.tables ≡ without id c.tables
unfolding delete_project delete_row
delete_project-done id = counted-done (λ t. affected (is_project id) t.projects) (without id)

pub delete_project-failed :
    (id : String) (c c' : Conn) (x : Error)
    → delete_project id c ≡ (err x, c')
    → c'.tables ≡ c.tables
unfolding delete_project delete_row
delete_project-failed id = counted-failed (λ t. affected (is_project id) t.projects) (without id)

-- the row of a project with its new status
abbrev pub with_status : ProjectStatus → HealthStatus → ℕ → Project → Project
with_status status health now p = record p { status = status; health = health; updated_at = now }

abbrev pub marked : String → ProjectStatus → HealthStatus → ℕ → Tables → Tables
marked id status health now t = record t {
  projects = update (is_project id) (with_status status health now) t.projects;
}

update-unaffected :
    (p : Project → Bool) (f : Project → Project) (rows : List Project)
    → affected p rows ≡ 0
    → update p f rows ≡ rows
update-unaffected p f [] e = refl
update-unaffected p f (x ∷ rows) e = let rest = update-unaffected p f rows in ground arith

module _ (id : String) (status : ProjectStatus) (health : HealthStatus) (now : ℕ) where
  unmarked :
      (b : Bool) (t : Tables)
      → (b ≡ true → marked id status health now t ≡ t)
      → (if b then t else marked id status health now t) ≡ marked id status health now t
  unmarked true t e = sym (e refl)
  unmarked false t e = refl

  zero_rows :
      (t : Tables)
      → (affected (is_project id) t.projects == 0) ≡ true
      → marked id status health now t ≡ t
  zero_rows t e =
      let none_there : affected (is_project id) t.projects ≡ 0 = ground arith in
      ap (λ (rows : List Project). record t { projects = rows })
        (update-unaffected (is_project id) (with_status status health now) t.projects none_there)

  abbrev plain : Tables → Result (ℕ × Tables)
  plain t = ok (affected (is_project id) t.projects, marked id status health now t)

  abbrev checked : Tables → Result (ℕ × Tables)
  checked t = ok (
    affected (is_project id) t.projects,
    if affected (is_project id) t.projects == 0 then t else marked id status health now t,
  )

  same_statement : plain ≡ checked
  same_statement = fun_ext λ (t : Tables).
      ap (λ (x : Tables). ok (affected (is_project id) t.projects, x))
        (sym (unmarked (affected (is_project id) t.projects == 0) t (zero_rows t)))

  abbrev by : (Tables → Result (ℕ × Tables)) → Db (Unit {0})
  by f = statement f >>= λ k. if k == 0 then raise not_found else pure tt

  pub update_project_status-done :
      (c c' : Conn)
      → update_project_status id status health now c ≡ (ok tt, c')
      → c'.tables ≡ marked id status health now c.tables
  unfolding update_project_status
  update_project_status-done c c' e =
      counted-done (λ t. affected (is_project id) t.projects) (marked id status health now) c c'
        (subst (λ f. by f c ≡ (ok tt, c')) same_statement e)

  pub update_project_status-failed :
      (c c' : Conn) (x : Error)
      → update_project_status id status health now c ≡ (err x, c')
      → c'.tables ≡ c.tables
  unfolding update_project_status
  update_project_status-failed c c' x e =
      counted-failed (λ t. affected (is_project id) t.projects) (marked id status health now) c c' x
        (subst (λ f. by f c ≡ (err x, c')) same_statement e)

  -- the row that is found before and after the update
  pub record WasThere (before after : Tables) : Type 0 where
    pub server : Project
    pub was : find (is_project id) before.projects ≡ some server
    pub is : find (is_project id) after.projects ≡ some (with_status status health now server)

  pub find-marked :
      (rows : List Project)
      → affected (is_project id) rows ≢ 0
      → (server : Project) × (find (is_project id) rows ≡ some server)
        × (find (is_project id) (update (is_project id) (with_status status health now) rows)
            ≡ some (with_status status health now server))
  find-marked [] h = absurd (h refl)
  find-marked (p ∷ rows) h = elim (Bool-cases (is_project id p)) [
    | inl e ↦ (p, ground arith, ground arith)
    | inr e ↦
        let (server, was, is) = find-marked rows (ground arith) in
        (server, ground arith, ground arith)
  ]

  counted_some :
      (k : ℕ) (c : Conn) {u : Unit {0}} {c' : Conn}
      → (if k == 0 then raise not_found else pure (tt {0})) c ≡ (ok u, c')
      → (k ≢ 0) × (c' ≡ c)
  unfolding pure raise
  counted_some k c h = (ground arith, ground arith)

  -- a project whose status has been updated is there
  pub update_project_status-WasThere :
      (c c' : Conn)
      → update_project_status id status health now c ≡ (ok tt, c')
      → WasThere c.tables c'.tables
  unfolding update_project_status
  update_project_status-WasThere c c' e =
      let steps = >>=-eq-ok (statement plain) _ c e in
      let (some_there, stay) = counted_some steps.value steps.middle steps.second in
      let written = statement-ok plain c steps.first in
      let count : affected (is_project id) c.tables.projects ≡ steps.value = cc in
      let rows : marked id status health now c.tables ≡ steps.middle.tables = cc in
      let (server, was, is) = find-marked c.tables.projects (λ z. some_there (sym count ∙ z)) in
      record {
        server = server;
        was = was;
        is =
            ap (λ (d : Conn). find (is_project id) d.tables.projects) stay
            ∙ ap (λ (t : Tables). find (is_project id) t.projects) (sym rows)
            ∙ is;
      }
