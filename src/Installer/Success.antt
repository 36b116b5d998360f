-- ===== src/Installer/Success.antt =====
-- What Run of apps/manager/internal/install/orchestrator.go has done when it returns no error.
use supabase_installer.Prelude.{
  true, none, some, List, ◌≡◌, sym, ap, ◌∙◌, find, any, select, not, [], ◌∷◌, arith,
}
use supabase_installer.Contracts.{Project, Operation}
use supabase_installer.Errors.{Result, ok}
use supabase_installer.Db.{Conn}
use supabase_installer.Db.Schema.{Tables}
use supabase_installer.Store.Projects.{is_project}
use supabase_installer.Lifecycle.{Ran}
use supabase_installer.Installer.Aside.{beside}
use supabase_installer.Installer.Bystanders.{run-Keeps}
use supabase_installer.Installer.Run.{Orchestrator, run}
use supabase_installer.Installer.Ready.{IsReady, run-IsReady}

module _ (o : Orchestrator) where
  module _ (project : Project) (queued : Operation) where
    -- what the runtime has answered, and what has become of the tables: the server had its row before, and the rows
    -- of the other servers are as they were
    pub record IsInstalled (before after : Tables) : Type 0 where
      pub was_there : any (is_project project.id) before.projects ≡ true
      pub others :
          select (λ p. not (is_project project.id p)) after.projects
          ≡ select (λ p. not (is_project project.id p)) before.projects
      pub ready : IsReady o project queued after

    found_any :
        (rows : List Project) (server : Project)
        → find (is_project project.id) rows ≡ some server
        → any (is_project project.id) rows ≡ true
    found_any [] server h = cc
    found_any (p ∷ rows) server h = ground (arith, found_any rows server)

    -- An installation that returns no error has had the runtime reconciled, started and inspected as healthy. The server
    -- had its row before, which is now running and healthy, its operation has succeeded, and the rows of the other servers
    -- are as they were.
    pub run-IsInstalled :
        (c c' : Conn) (ran : Ran)
        → run o project queued c ≡ (ok ran, c')
        → ran.error ≡ none
        → IsInstalled c.tables c'.tables
    run-IsInstalled c c' ran h clean =
        let ready = run-IsReady o project queued c c' h clean in
        let kept : beside project.id c'.tables ≡ beside project.id c.tables =
          ap (λ (p : Result Ran × Conn). beside project.id p.1.tables) (sym h)
          ∙ (run-Keeps o project queued).keeps c in
        record {
          was_there =
              sym (ap (λ v. v.0) kept)
              ∙ found_any c'.tables.projects ready.finished.server ready.finished.is_server;
          others = ap (λ v. v.1) kept;
          ready = ready;
        }
