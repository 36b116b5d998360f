-- ===== src/Lifecycle/Force.antt =====
-- ForceDelete in apps/manager/internal/lifecycle/service.go.
use supabase_installer.Prelude.{
  ℕ, String, same_iff, Bool, true, false, not, same, ◌≡◌, refl, if◌then◌else◌,
}
use supabase_installer.Contracts.{Project, ProjectStatus, HealthStatus}
use supabase_installer.Errors.{Error, Result, ok, err, confirmation_required}
use supabase_installer.Db.{Conn, Db, raise, lift, ◌>>=◌, ◌>>◌}
use supabase_installer.Db.Schema.{Tables}
use supabase_installer.Store.Projects.{without, delete_project, update_project_status}
use supabase_installer.Store.Projects.Effects.{
  marked, delete_project-done, delete_project-failed, update_project_status-done, WasThere,
  update_project_status-WasThere, update_project_status-failed,
}
use supabase_installer.Lifecycle.{
  Action, Provisioner, LifecycleRequest, action_name, provisioner_action, force_delete,
}

module _ (provisioner : Provisioner) (operation_id : String) (now : ℕ) (project : Project)
    (confirmation : String) where
  -- what the provisioner is asked to do
  abbrev pub asked : Action → LifecycleRequest
  asked action = record {
    operation_id = operation_id;
    key_action = action_name action;
    project_id = project.id;
    project_name = project.name;
    slug = project.slug;
    action = provisioner_action action;
    confirm_project_name = confirmation;
  }

  -- the provisioner has removed what was asked, and the tables follow
  pub data Deleted (before after : Tables) : Action → Type 0 where
    data_deleted :
        confirmation ≡ project.name
        → provisioner.lifecycle (asked Action.delete_data) ≡ ok tt
        → after ≡ without project.id before
        → Deleted before after Action.delete_data
    runtime_deleted :
        provisioner.lifecycle (asked Action.delete_runtime) ≡ ok tt
        → WasThere project.id ProjectStatus.stopped HealthStatus.stopped now before after
        → after ≡ marked project.id ProjectStatus.stopped HealthStatus.stopped now before
        → Deleted before after Action.delete_runtime

  provisioned :
      (r : Result (Unit {0})) (m : Db (Unit {0})) (c c' : Conn)
      → (lift r >> m) c ≡ (ok tt, c')
      → (r ≡ ok tt) × (m c ≡ (ok tt, c'))
  unfolding ◌>>=◌
  provisioned (ok u) m c c' e = (refl, e)
  provisioned (err x) m c c' e = (cc, cc)

  refused :
      (r : Result (Unit {0})) (m : Db (Unit {0}))
      → ((c c' : Conn) (x : Error) → m c ≡ (err x, c') → c'.tables ≡ c.tables)
      → (c c' : Conn) (x : Error) → (lift r >> m) c ≡ (err x, c')
      → c'.tables ≡ c.tables
  unfolding ◌>>=◌
  refused (ok u) m failed_ c c' x e = failed_ c c' x e
  refused (err y) m failed_ c c' x e = cc

  abbrev delete_all : Db (Unit {0})
  delete_all = lift (provisioner.lifecycle (asked Action.delete_data)) >> delete_project project.id

  abbrev mark_stopped : Db (Unit {0})
  mark_stopped = update_project_status project.id ProjectStatus.stopped HealthStatus.stopped now

  confirmed :
      (b : Bool) (c c' : Conn)
      → same confirmation project.name ≡ b
      → (if not b then raise confirmation_required else delete_all) c ≡ (ok tt, c')
      → Deleted c.tables c'.tables Action.delete_data
  unfolding raise
  confirmed true c c' same_name e =
      let (done, ran) =
        provisioned (provisioner.lifecycle (asked Action.delete_data)) (delete_project project.id) c
          c' e in
      data_deleted ((same_iff confirmation project.name).0 same_name) done
        (delete_project-done project.id c c' ran)
  confirmed false c c' same_name e = let impossible : ⊥ = cc in absurd impossible

  -- If ForceDelete succeeds, the action is one of the two deletions, the provisioner has done it, and the tables
  -- are without the project and all its rows, its name having been confirmed, or have its row, which was
  -- there, as stopped.
  pub force_delete-Deleted :
      (action : Action) (c : Conn) {c' : Conn}
      → force_delete provisioner operation_id now project action confirmation c ≡ (ok tt, c')
      → Deleted c.tables c'.tables action
  unfolding force_delete raise
  force_delete-Deleted Action.delete_data c {c'} e =
      confirmed (same confirmation project.name) c c' refl e
  force_delete-Deleted Action.delete_runtime c {c'} e =
      let (done, ran) =
        provisioned (provisioner.lifecycle (asked Action.delete_runtime)) mark_stopped c c' e in
      runtime_deleted done
        (update_project_status-WasThere project.id ProjectStatus.stopped HealthStatus.stopped now c
          c' ran)
        (update_project_status-done project.id ProjectStatus.stopped HealthStatus.stopped now c c'
          ran)
  force_delete-Deleted Action.start c e = cc
  force_delete-Deleted Action.stop c e = cc
  force_delete-Deleted Action.restart c e = cc
  force_delete-Deleted (Action.other n) c e = cc

  unconfirmed :
      (b : Bool) (c c' : Conn) (x : Error)
      → (if not b then raise confirmation_required else delete_all) c ≡ (err x, c')
      → c'.tables ≡ c.tables
  unfolding raise
  unconfirmed true c c' x e =
      refused (provisioner.lifecycle (asked Action.delete_data)) (delete_project project.id)
        (delete_project-failed project.id) c c' x e
  unconfirmed false c c' x e = cc

  -- If ForceDelete fails, because the action is no deletion, the name is not confirmed, the provisioner fails or
  -- the statement does, no table has changed.
  pub force_delete_failure :
      (action : Action) (c : Conn) {x : Error} {c' : Conn}
      → force_delete provisioner operation_id now project action confirmation c ≡ (err x, c')
      → c'.tables ≡ c.tables
  unfolding force_delete raise
  force_delete_failure Action.delete_data c {x} {c'} e =
      unconfirmed (same confirmation project.name) c c' x e
  force_delete_failure Action.delete_runtime c {x} {c'} e =
      refused (provisioner.lifecycle (asked Action.delete_runtime)) mark_stopped
        (update_project_status-failed project.id ProjectStatus.stopped HealthStatus.stopped now) c
        c' x e
  force_delete_failure Action.start c e = cc
  force_delete_failure Action.stop c e = cc
  force_delete_failure Action.restart c e = cc
  force_delete_failure (Action.other n) c e = cc
