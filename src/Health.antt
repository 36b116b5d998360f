-- ===== src/Health.antt =====
-- apps/provisioner/internal/health/inspect.go: the health of a server, put together from its containers.
pub mod Summary
use supabase_installer.Prelude.{
  ℕ, String, Bool, true, false, ◌||◌, not, Option, none, some, List, [], ◌∷◌, ◌++◌, same,
  if◌then◌else◌, Text, codes, is_some,
}
use supabase_installer.Contracts.{HealthStatus}
use supabase_installer.Errors.{Error, Result, ok, err}

pub record Container : Type 0 where
  pub service : String
  pub state : String
  pub health : String

-- what lists the containers of a compose project: some sources are told the services that count
pub data Source : Type 0 where
  plain : (Text → Result (List Container)) → Source
  filtered : (Text → List String → Result (List Container)) → Source

pub record ProjectRef : Type 0 where
  pub slug : Text
  pub enabled : List String

-- contracts.ServiceState
pub record ServiceState : Type 0 where
  pub name : String
  pub health : HealthStatus
  pub status : String

pub record Report : Type 0 where
  pub health : HealthStatus
  pub services : List ServiceState
  pub checked_at : ℕ

-- byService[name]: of two containers of one service the later one stays
abbrev pub by_service : String → List Container → Option Container
by_service name [] = none
by_service name (c ∷ cs) =
    let later = by_service name cs in
    if is_some later then later else (if same c.service name then some c else none)

unfoldable pub derive_container_health : Option Container → HealthStatus
derive_container_health none = HealthStatus.unhealthy
derive_container_health (some c) =
    if same c.state "created" || same c.state "restarting"
    then HealthStatus.starting
    else (if not (same c.state "running")
        then HealthStatus.unhealthy
        else (if same c.health "healthy" || same c.health ""
            then HealthStatus.healthy
            else (if same c.health "starting"
                then HealthStatus.starting
                else HealthStatus.unhealthy)))

unfoldable pub is_core : String → Bool
is_core service =
    same service "db"
    || same service "api-gw"
    || same service "envoy"
    || same service "kong"
    || same service "auth"
    || same service "rest"
    || same service "meta"
    || same service "studio"

abbrev pub is_healthy : HealthStatus → Bool
is_healthy HealthStatus.healthy = true
is_healthy _ = false

abbrev pub is_unhealthy : HealthStatus → Bool
is_unhealthy HealthStatus.unhealthy = true
is_unhealthy _ = false

-- container.State of the zero Container is ""
abbrev state_of : Option Container → String
state_of none = ""
state_of (some c) = c.state

abbrev pub service_state : List Container → String → ServiceState
service_state containers name =
    let container = by_service name containers in
    record { name = name; health = derive_container_health container; status = state_of container }

-- the variables of the loop
pub record Tally : Type 0 where
  pub health : HealthStatus
  pub services : List ServiceState

-- what the loop makes of the health so far
abbrev lower : String → HealthStatus → HealthStatus → HealthStatus
lower name found so_far =
    if is_healthy found
    then so_far
    else (if is_core name
        then HealthStatus.unhealthy
        else (if is_unhealthy so_far then so_far else HealthStatus.degraded))

-- for _, name := range project.Enabled
unfoldable pub tally : List Container → List String → Tally → Tally
tally containers [] t = t
tally containers (name ∷ names) t =
    let s = service_state containers name in
    tally containers names
      (record { health = lower name s.health t.health; services = t.services ++ s ∷ [] })

abbrev report : List Container → List String → ℕ → Report
report [] enabled now = record { health = HealthStatus.stopped; services = []; checked_at = now }
report (c ∷ cs) enabled now =
    let t = tally (c ∷ cs) enabled (record { health = HealthStatus.healthy; services = [] }) in
    record { health = t.health; services = t.services; checked_at = now }

abbrev containers_of : Source → ProjectRef → Result (List Container)
containers_of (Source.plain list) p = list (codes "supabase-manager-" ++ p.slug)
containers_of (Source.filtered list) p = list (codes "supabase-manager-" ++ p.slug) p.enabled

abbrev reported : ProjectRef → ℕ → Result (List Container) → Result Report
reported p now (ok containers) = ok (report containers p.enabled now)
reported p now (err e) = err e

unfoldable pub project : Source → ProjectRef → ℕ → Result Report
project source p now = reported p now (containers_of source p)
