-- ===== src/Validation/Services.antt =====
-- validateServicesConfiguration in apps/manager/internal/project/configuration.go and a table of what each service
-- needs.
use supabase_installer.Prelude.{
  ℕ, Bool, true, false, ◌&&◌, ◌||◌, not, List, [], ◌∷◌, ◌≡◌, refl, every, arith, ◌↔◌,
}
use supabase_installer.Contracts.{Services}
use supabase_installer.Validation.{run}
use supabase_installer.Validation.Parts.{validate_services_configuration}
use supabase_installer.Validation.Laws.{passes, run-accepts, failing_at, passes-failing_at}

pub data Service : Type 0 where
  database gateway auth rest studio postgres_meta realtime storage imgproxy functions supavisor logs
        vector direct_db :
      Service

abbrev pub enabled : Services → Service → Bool
enabled s Service.database = s.database
enabled s Service.gateway = s.gateway
enabled s Service.auth = s.auth
enabled s Service.rest = s.rest
enabled s Service.studio = s.studio
enabled s Service.postgres_meta = s.postgres_meta
enabled s Service.realtime = s.realtime
enabled s Service.storage = s.storage
enabled s Service.imgproxy = s.imgproxy
enabled s Service.functions = s.functions
enabled s Service.supavisor = s.supavisor
enabled s Service.logs = s.logs
enabled s Service.vector = s.vector
enabled s Service.direct_db = s.direct_db

-- what a service needs
abbrev pub needs : Service → List Service
needs Service.auth = Service.gateway ∷ []
needs Service.rest = Service.gateway ∷ []
needs Service.studio = Service.postgres_meta ∷ Service.gateway ∷ []
needs Service.realtime = Service.gateway ∷ []
needs Service.storage = Service.gateway ∷ Service.rest ∷ []
needs Service.imgproxy = Service.storage ∷ []
needs Service.functions = Service.gateway ∷ []
needs Service.logs = Service.vector ∷ []
needs Service.vector = Service.logs ∷ []
needs _ = []

-- the database is enabled, and what an enabled service needs is enabled
pub record IsClosed (s : Services) : Type 0 where
  pub database : s.database ≡ true
  pub closed : (x : Service) → enabled s x ≡ true → every (enabled s) (needs x) ≡ true

closed-passes : (s : Services) → IsClosed s → passes (validate_services_configuration s) ≡ true
unfolding validate_services_configuration
closed-passes s c = ground (
  arith,
  c.closed Service.auth,
  c.closed Service.rest,
  c.closed Service.studio,
  c.closed Service.realtime,
  c.closed Service.storage,
  c.closed Service.imgproxy,
  c.closed Service.functions,
  c.closed Service.logs,
  c.closed Service.vector,
)

needs_one : (a b : Bool) → (a && not b) ≡ false → a ≡ true → (b && true) ≡ true
needs_one a b h e = ground arith

needs_both : (a b c : Bool) → (a && (not b || not c)) ≡ false → a ≡ true → (c && true) ≡ true
needs_both a b c h e = ground arith

module _ (auth rest studio realtime storage gateway : Bool)
    (h : ((auth || rest || studio || realtime || storage) && not gateway) ≡ false) where
  auth_gateway : auth ≡ true → (gateway && true) ≡ true
  auth_gateway e = ground arith

  rest_gateway : rest ≡ true → (gateway && true) ≡ true
  rest_gateway e = ground arith

  realtime_gateway : realtime ≡ true → (gateway && true) ≡ true
  realtime_gateway e = ground arith

  studio_gateway :
      (meta : Bool)
      → (studio && not meta) ≡ false
      → studio ≡ true
      → (meta && (gateway && true)) ≡ true
  studio_gateway meta m e = ground arith

  storage_gateway :
      (db : Bool)
      → (storage && (not db || not rest)) ≡ false
      → storage ≡ true
      → (gateway && (rest && true)) ≡ true
  storage_gateway db m e = ground arith

module _ (s : Services) (p : passes (validate_services_configuration s) ≡ true) where
  off : (n : ℕ) → failing_at n (validate_services_configuration s) ≡ false
  off n = passes-failing_at n (validate_services_configuration s) p

  passes-closed : (x : Service) → enabled s x ≡ true → every (enabled s) (needs x) ≡ true
  unfolding validate_services_configuration
  passes-closed Service.database e = refl
  passes-closed Service.gateway e = refl
  passes-closed Service.auth e =
      auth_gateway s.auth s.rest s.studio s.realtime s.storage s.gateway (off 2) e
  passes-closed Service.rest e =
      rest_gateway s.auth s.rest s.studio s.realtime s.storage s.gateway (off 2) e
  passes-closed Service.studio e =
      studio_gateway s.auth s.rest s.studio s.realtime s.storage s.gateway (off 2) s.postgres_meta
        (off 1) e
  passes-closed Service.postgres_meta e = refl
  passes-closed Service.realtime e =
      realtime_gateway s.auth s.rest s.studio s.realtime s.storage s.gateway (off 2) e
  passes-closed Service.storage e =
      storage_gateway s.auth s.rest s.studio s.realtime s.storage s.gateway (off 2) s.database
        (off 4) e
  passes-closed Service.imgproxy e = needs_one s.imgproxy s.storage (off 10) e
  passes-closed Service.functions e = needs_one s.functions s.gateway (off 3) e
  passes-closed Service.supavisor e = refl
  passes-closed Service.logs e = needs_both s.logs s.database s.vector (off 8) e
  passes-closed Service.vector e = needs_one s.vector s.logs (off 9) e
  passes-closed Service.direct_db e = refl

  passes-database : s.database ≡ true
  unfolding validate_services_configuration
  passes-database = ground (arith, off 0)

pub IsClosed-of_passes :
    (s : Services) → passes (validate_services_configuration s) ≡ true → IsClosed s
IsClosed-of_passes s p = record { database = passes-database s p; closed = passes-closed s p }

-- The services of a configuration leave no message exactly when the database is enabled and every enabled
-- service has what it needs.
pub validate_services_configuration-IsClosed :
    (s : Services) → (run (validate_services_configuration s) [] ≡ []) ↔ IsClosed s
validate_services_configuration-IsClosed s =
    let accepts = run-accepts (validate_services_configuration s) in
    ((λ e. IsClosed-of_passes s (accepts.0 e)), (λ c. accepts.1 (closed-passes s c)))
