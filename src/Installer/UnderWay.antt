-- ===== src/Installer/UnderWay.antt =====
-- The parts of Run in apps/manager/internal/install/orchestrator.go while its operation is running, on a connection
-- where no statement fails: each of them leaves the operation running.
use supabase_installer.Prelude.{ℕ, ◌+◌, String, true, [], ◌≡◌, refl, sym, ap, ◌∙◌, subst, find, any}
use supabase_installer.Contracts.{Project, Operation, OperationStatus}
use supabase_installer.Errors.{Result, ok, err}
use supabase_installer.Db.{Conn, Db, pure, continue, ◌>>=◌}
use supabase_installer.Db.Laws.{calm}
use supabase_installer.Db.Schema.{Tables}
use supabase_installer.Db.Frame.{Keeps}
use supabase_installer.Store.Projects.{is_project}
use supabase_installer.Store.Operations.{has_id}
use supabase_installer.Operation
use supabase_installer.Operation.Calls.{Call}
use supabase_installer.Operation.Methods.{perform, source, target}
use supabase_installer.Operation.Progress.{IsAt, perform-Advanced}
use supabase_installer.Installer.Run.{Orchestrator, step}
use supabase_installer.Installer.Aside.{aside}

pub calm_again : (c : Conn) → c.faults ≡ [] → c ≡ calm c.tables
calm_again c h i = record { tables = c.tables; faults = h i }

IsAt-same :
    (id : String) (status : OperationStatus) (t t' : Tables)
    → t'.operations ≡ t.operations
    → IsAt id status t
    → IsAt id status t'
IsAt-same id status t t' e here = record {
  row = here.row;
  project = here.project;
  is_row = ap (find (has_id id)) e ∙ here.is_row;
  of_project = here.of_project;
  is_at = here.is_at;
}

module _ (project : Project) (queued : Operation) where
  -- the operation with this status, on a connection without faults, of a server that has its row
  pub record IsUnderWay (status : OperationStatus) (c : Conn) : Type 0 where
    pub faultless : c.faults ≡ []
    pub here : IsAt queued.id status c.tables
    pub known : any (is_project project.id) c.tables.projects ≡ true

  abbrev pub Safe {ℓ} : {A : Type ℓ} → Db A → Type 0
  Safe m =
      (c : Conn) → IsUnderWay OperationStatus.running c → IsUnderWay OperationStatus.running (m c).1

  pub Safe-Keeps {ℓ} : {A : Type ℓ} (m : Db A) → Keeps (aside project.id) m → Safe m
  Safe-Keeps m k c u = record {
    faultless = k.calms c u.faultless;
    here =
        IsAt-same queued.id OperationStatus.running c.tables (m c).1.tables
          (ap (λ v. v.0) (k.keeps c)) u.here;
    known = ap (λ v. v.1.0) (k.keeps c) ∙ u.known;
  }

  pub record Passed (call : Call) (c : Conn) : Type 0 where
    pub answer : (perform queued.id call c).0 ≡ ok tt
    pub after : IsUnderWay (target call) (perform queued.id call c).1

  pub passed : (call : Call) (c : Conn) → IsUnderWay (source call) c → Passed call c
  passed call c u =
      let a = perform-Advanced queued.id call c.tables u.here in
      let done : perform queued.id call c ≡ (ok tt, calm a.after) =
        ap (perform queued.id call) (calm_again c u.faultless) ∙ a.done in
      record {
        answer = ap (λ (p : Result (Unit {0}) × Conn). p.0) done;
        after =
            subst (λ (p : Result (Unit {0}) × Conn). IsUnderWay (target call) p.1) (sym done)
              (record {
                faultless = refl;
                here = a.reached;
                known = ap (any (is_project project.id)) a.projects ∙ u.known;
              });
      }

  Safe-continue {ℓ κ} :
      {A : Type ℓ} {B : Type κ} (r : Result A) (f : A → Db B)
      → ((a : A) → Safe (f a))
      → Safe (continue r f)
  unfolding continue
  Safe-continue (ok a) f k c u = k a c u
  Safe-continue (err e) f k c u = u

  Safe-bind {ℓ κ} :
      {A : Type ℓ} {B : Type κ} (m : Db A) (f : A → Db B)
      → Safe m
      → ((a : A) → Safe (f a))
      → Safe (m >>= f)
  unfolding ◌>>=◌
  Safe-bind m f km k c u = Safe-continue (m c).0 f k (m c).1 (km c u)

  pub Safe-step {ℓ} :
      {A : Type ℓ} (o : Orchestrator) (tick : ℕ) (name : String) (progress : ℕ) (action : Db A)
      → Keeps (aside project.id) action
      → Safe (step o tick queued.id name progress action)
  unfolding step perform pure
  Safe-step o tick name progress action k =
      Safe-bind (Operation.start_step (o.clock tick) queued.id name progress) _
        (λ c u. (passed (Call.start_step (o.clock tick) name progress) c u).after)
        (λ _. Safe-bind action _ (Safe-Keeps action k) (λ a.
          Safe-bind (Operation.complete_step (o.clock (tick + 1)) queued.id name progress) _
            (λ c u. (passed (Call.complete_step (o.clock (tick + 1)) name progress) c u).after)
            (λ _ c u. u)))
