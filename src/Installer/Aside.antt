-- ===== src/Installer/Aside.antt =====
-- What the parts of apps/manager/internal/install/orchestrator.go leave alone, whatever they return: the operations,
-- whether the server has a row, and the rows of the other servers.
use supabase_installer.Prelude.{
  ℕ, zero, suc, ◌+◌, String, Bool, not, List, [], ◌∷◌, ◌≡◌, refl, ap, any, select, update, ℤ, pos,
  negsuc, arith, same,
}
use supabase_installer.Contracts.{Project}
use supabase_installer.Errors.{ok}
use supabase_installer.Db.{attempt, statement}
use supabase_installer.Db.Schema.{Tables, OperationRow}
use supabase_installer.Db.Frame.{
  Keeps, Keeps-statement, Kept, Keeps-bind, frame_rules, statement_rules,
}
use supabase_installer.Store.Projects.{is_project}
use supabase_installer.Store.Ports.{
  reserved_port, insert_allocation, claim, claim_all, try_reserve_ports, release_port,
}
use supabase_installer.Ports.{
  Allocator, Known, look, known_ports, reread, attempts, reserve_many, release,
}
use supabase_installer.Ports.Attempts.{attempts-suc}
use supabase_installer.Installer.Ports.{allocate_configuration_ports}
use supabase_installer.Contracts.Configuration.{ProjectConfiguration}
use supabase_installer.Store.Configuration.{
  get_desired_configuration, write_canonical, insert_services, insert_port, replace_ports,
  update_canonical_projection, write_aggregate, persist_at, persist_allocated_configuration,
  PortProjection,
}
use supabase_installer.Store.Secrets.{get_secret, put_secret}

-- whether the server has a row, and the rows of the others
abbrev pub beside : String → Tables → Bool × List Project
beside id t = (any (is_project id) t.projects, select (λ p. not (is_project id p)) t.projects)

abbrev pub aside : String → Tables → List OperationRow × (Bool × List Project)
aside id t = (t.operations, beside id t)

known-update :
    (id : String) (f : Project → Project)
    → ((p : Project) → (f p).id ≡ p.id)
    → (rows : List Project)
    → any (is_project id) (update (is_project id) f rows) ≡ any (is_project id) rows
known-update id f k [] = refl
known-update id f k (p ∷ rows) =
    let rest = known-update id f k rows in
    let here : is_project id (f p) ≡ is_project id p = ap (λ x. same x id) (k p) in ground arith

others-update :
    (id : String) (f : Project → Project)
    → ((p : Project) → (f p).id ≡ p.id)
    → (rows : List Project)
    → select (λ p. not (is_project id p)) (update (is_project id) f rows)
      ≡ select (λ p. not (is_project id p)) rows
others-update id f k [] = refl
others-update id f k (p ∷ rows) =
    let rest = others-update id f k rows in
    let here : is_project id (f p) ≡ is_project id p = ap (λ x. same x id) (k p) in ground arith

-- a change of the row of the server
pub beside-update :
    (id : String) (f : Project → Project)
    → ((p : Project) → (f p).id ≡ p.id)
    → (rows : List Project)
    → ◌≡◌ {A = Bool × List Project}
        (
          any (is_project id) (update (is_project id) f rows),
          select (λ p. not (is_project id p)) (update (is_project id) f rows),
        )
        (any (is_project id) rows, select (λ p. not (is_project id p)) rows)
beside-update id f k rows i = (known-update id f k rows i, others-update id f k rows i)

module _ (id : String) where
  pub get_secret-Keeps : (project kind : String) → Keeps (aside id) (get_secret project kind)
  unfolding get_secret
  get_secret-Keeps project kind = search frame_rules

  pub put_secret-Keeps :
      (project kind envelope : String) → Keeps (aside id) (put_secret project kind envelope)
  unfolding put_secret
  put_secret-Keeps project kind envelope = search statement_rules

  reserved_port-Keeps : (project kind : String) → Keeps (aside id) (reserved_port project kind)
  unfolding reserved_port
  reserved_port-Keeps project kind = search frame_rules

  insert_allocation-Keeps :
      (project kind : String) (port now : ℕ)
      → Keeps (aside id) (insert_allocation project kind port now)
  unfolding insert_allocation
  insert_allocation-Keeps project kind port now = search statement_rules

  claim-Keeps :
      (project : String) (now : ℕ) (kind : String) (port : ℕ)
      → Keeps (aside id) (claim project now kind port)
  unfolding claim
  claim-Keeps project now kind port = search (frame_rules, insert_allocation-Keeps)

  claim_all-Keeps :
      (project : String) (now : ℕ) (new : List (String × ℕ))
      → Keeps (aside id) (claim_all project now new)
  unfolding claim_all
  claim_all-Keeps project now [] = search frame_rules
  claim_all-Keeps project now ((kind, port) ∷ rest) =
      Keeps-bind (aside id) (claim project now kind port) (λ _. claim_all project now rest)
        (claim-Keeps project now kind port) (λ _. claim_all-Keeps project now rest)

  try_reserve_ports-Keeps :
      (project : String) (new : List (String × ℕ)) (now : ℕ)
      → Keeps (aside id) (try_reserve_ports project new now)
  unfolding try_reserve_ports
  try_reserve_ports-Keeps project new now = search (frame_rules, claim_all-Keeps)

  release_port-Keeps : (project kind : String) → Keeps (aside id) (release_port project kind)
  unfolding release_port
  release_port-Keeps project kind = search statement_rules

  release-Keeps : (project kind : String) → Keeps (aside id) (release project kind)
  unfolding release
  release-Keeps project kind = release_port-Keeps project kind

  known_ports-Keeps :
      (project : String) (kinds : List String) (known : Known)
      → Keeps (aside id) (known_ports project kinds known)
  unfolding known_ports look
  known_ports-Keeps project [] known = search frame_rules
  known_ports-Keeps project (kind ∷ kinds) known =
      Keeps-bind (aside id) _ (known_ports project kinds)
        (search (frame_rules, reserved_port-Keeps)) (λ next. known_ports-Keeps project kinds next)

  reread-Keeps :
      (project : String) (kinds : List String) (known : Known)
      → Keeps (aside id) (reread project kinds known)
  unfolding reread
  reread-Keeps project [] known = search frame_rules
  reread-Keeps project (kind ∷ kinds) known =
      Keeps-bind (aside id) (attempt (reserved_port project kind)) _
        (search (frame_rules, reserved_port-Keeps)) (λ answer. reread-Keeps project kinds _)

  attempts-Keeps :
      (a : Allocator) (project : String) (now left cursor : ℕ) (known : Known)
      → Keeps (aside id) (attempts a project now left cursor known)
  attempts-Keeps a project now zero cursor known = unfold attempts in search frame_rules
  attempts-Keeps a project now (suc left) cursor known =
      let again = λ (next : Known). attempts-Keeps a project now left (cursor + 1) next in
      rw (attempts-suc a project now left cursor known)
        (search (frame_rules, try_reserve_ports-Keeps, reread-Keeps, again) depth 8)

  reserve_many-Keeps :
      (a : Allocator) (project : String) (kinds : List String) (now : ℕ)
      → Keeps (aside id) (reserve_many a project kinds now)
  unfolding reserve_many
  reserve_many-Keeps a project kinds now = search (frame_rules, known_ports-Keeps, attempts-Keeps)

  pub allocate_configuration_ports-Keeps :
      (a : Allocator) (project : String) (now : ℕ) (cfg : ProjectConfiguration)
      → Keeps (aside id) (allocate_configuration_ports a project now cfg)
  unfolding allocate_configuration_ports
  allocate_configuration_ports-Keeps a project now cfg =
      search (frame_rules, release-Keeps, reserve_many-Keeps) depth 8

  write_canonical-Keeps :
      (project : String) (cfg : ProjectConfiguration) (now : ℕ)
      → Keeps (aside id) (write_canonical project cfg now)
  unfolding write_canonical
  write_canonical-Keeps project cfg now = search statement_rules

  insert_services-Keeps :
      (project : String) (services : List (String × Bool))
      → Keeps (aside id) (insert_services project services)
  unfolding insert_services
  insert_services-Keeps project [] = search frame_rules
  insert_services-Keeps project ((name, enabled) ∷ rest) =
      Keeps-bind (aside id) _ _ (search statement_rules) (λ _. insert_services-Keeps project rest)

  insert_port-Keeps :
      (project kind : String) (now : ℕ) (port : ℤ)
      → Keeps (aside id) (insert_port project kind now port)
  unfolding insert_port
  insert_port-Keeps project kind now (negsuc n) = search frame_rules
  insert_port-Keeps project kind now (pos n) = search (frame_rules, statement_rules)

  replace_ports-Keeps :
      (project : String) (now : ℕ) (ports : List PortProjection)
      → Keeps (aside id) (replace_ports project now ports)
  unfolding replace_ports
  replace_ports-Keeps project now [] = search frame_rules
  replace_ports-Keeps project now (p ∷ rest) =
      let again = replace_ports-Keeps project now rest in
      search (frame_rules, statement_rules, insert_port-Keeps) depth 8

  projected-Keeps :
      (f : Project → Project)
      → ((p : Project) → (f p).id ≡ p.id)
      → Keeps (aside id) (
          statement (λ t. ok (tt {0}, record t { projects = update (is_project id) f t.projects })))
  projected-Keeps f k =
      Keeps-statement (aside id) _
        (λ t. Kept.done tt _ (λ i. (t.operations, beside-update id f k t.projects i)))

  update_canonical_projection-Keeps :
      (cfg : ProjectConfiguration) (now : ℕ)
      → Keeps (aside id) (update_canonical_projection id cfg now)
  unfolding update_canonical_projection
  update_canonical_projection-Keeps cfg now =
      let projected =
        projected-Keeps
          (λ p. record p {
            domain = cfg.general.domain;
            site_url = cfg.general.site_url;
            supabase_version = cfg.general.supabase_version;
            services = cfg.services;
            updated_at = now;
          })
          (λ p. refl) in
      search
        (
          frame_rules, statement_rules, write_canonical-Keeps, insert_services-Keeps,
          replace_ports-Keeps,
        )
        depth 8

  write_aggregate-Keeps :
      (project : String) (revision : ℕ) (cfg : ProjectConfiguration)
      → Keeps (aside id) (write_aggregate project revision cfg)
  unfolding write_aggregate
  write_aggregate-Keeps project revision cfg = search (frame_rules, statement_rules)

  persist_at-Keeps :
      (cfg : ProjectConfiguration) (now revision : ℕ)
      → Keeps (aside id) (persist_at id cfg now revision)
  unfolding persist_at
  persist_at-Keeps cfg now revision =
      search (
        frame_rules, write_aggregate-Keeps, write_canonical-Keeps,
        update_canonical_projection-Keeps,
      )

  pub persist_allocated_configuration-Keeps :
      (cfg : ProjectConfiguration) (now : ℕ)
      → Keeps (aside id) (persist_allocated_configuration id cfg now)
  unfolding persist_allocated_configuration
  persist_allocated_configuration-Keeps cfg now = search (frame_rules, persist_at-Keeps)

  pub get_desired_configuration-Keeps :
      (project : String) → Keeps (aside id) (get_desired_configuration project)
  unfolding get_desired_configuration
  get_desired_configuration-Keeps project = search frame_rules
