-- ===== src/Health/Summary.antt =====
-- Inspector.Project in apps/provisioner/internal/health/inspect.go and a description of its report.
use supabase_installer.Prelude.{
  ℕ, String, Bool, true, false, ◌&&◌, ◌||◌, not, List, [], ◌∷◌, ◌++◌, map, any, ◌≡◌, refl, sym, ap,
  ◌∙◌, if◌then◌else◌, arith,
}
use mathlib.Core.List.{append-nil, append_assoc}
use supabase_installer.Contracts.{HealthStatus}
use supabase_installer.Errors.{ok}
use supabase_installer.Health.{
  Container, Source, ProjectRef, Tally, is_core, is_healthy, is_unhealthy, service_state, tally,
  lower, report, reported, containers_of, project,
}

-- a service that is not healthy, and one that is also core
abbrev pub ails : List Container → String → Bool
ails cs name = not (is_healthy (service_state cs name).health)

abbrev pub ails_core : List Container → String → Bool
ails_core cs name = is_core name && ails cs name

-- the health that the enabled services have together
abbrev pub overall : List Container → List String → HealthStatus
overall cs names =
    if any (ails_core cs) names
    then HealthStatus.unhealthy
    else (if any (ails cs) names then HealthStatus.degraded else HealthStatus.healthy)

abbrev from : HealthStatus → List Container → List String → HealthStatus
from so_far cs names =
    if is_unhealthy so_far || any (ails_core cs) names
    then HealthStatus.unhealthy
    else (if any (ails cs) names then HealthStatus.degraded else so_far)

settled : (h : HealthStatus) → h ≡ (if is_unhealthy h || false then HealthStatus.unhealthy else h)
settled HealthStatus.healthy = refl
settled HealthStatus.degraded = refl
settled HealthStatus.starting = refl
settled HealthStatus.stopped = refl
settled HealthStatus.unhealthy = refl
settled HealthStatus.unknown = refl

-- one more service, by what it is, what the others are, and the health so far
one_more :
    (core well core_ails some_ails ill : Bool) (h : HealthStatus)
    → is_unhealthy h ≡ ill
    → (let next =
          if well
          then h
          else (if core
              then HealthStatus.unhealthy
              else (if ill then h else HealthStatus.degraded)) in
        if is_unhealthy next || core_ails
        then HealthStatus.unhealthy
        else (if some_ails then HealthStatus.degraded else next))
      ≡ (if ill || ((core && not well) || core_ails)
          then HealthStatus.unhealthy
          else (if not well || some_ails then HealthStatus.degraded else h))
one_more core true core_ails some_ails ill h e = ground arith
one_more true false core_ails some_ails ill h e = ground arith
one_more false false core_ails some_ails true h e = ground arith
one_more false false true some_ails false h e = ground arith
one_more false false false true false h e = refl
one_more false false false false false h e = refl

tally-health :
    (cs : List Container) (names : List String) (t : Tally)
    → (tally cs names t).health ≡ from t.health cs names
unfolding tally
tally-health cs [] t = settled t.health
tally-health cs (name ∷ names) t =
    let s = service_state cs name in
    tally-health cs names
      (record { health = lower name s.health t.health; services = t.services ++ s ∷ [] })
    ∙ one_more (is_core name) (is_healthy s.health) (any (ails_core cs) names) (any (ails cs) names)
        (is_unhealthy t.health) t.health refl

tally-services :
    (cs : List Container) (names : List String) (t : Tally)
    → (tally cs names t).services ≡ t.services ++ map (service_state cs) names
unfolding tally
tally-services cs [] t = sym (append-nil t.services)
tally-services cs (name ∷ names) t =
    let s = service_state cs name in
    tally-services cs names
      (record { health = lower name s.health t.health; services = t.services ++ s ∷ [] })
    ∙ append_assoc t.services (s ∷ []) (map (service_state cs) names)

abbrev start : Tally
start = record { health = HealthStatus.healthy; services = [] }

abbrev no_containers : List Container → Bool
no_containers [] = true
no_containers (_ ∷ _) = false

report-overall :
    (cs : List Container) (enabled : List String) (now : ℕ)
    → report cs enabled now ≡ record {
      health = if no_containers cs then HealthStatus.stopped else overall cs enabled;
      services = if no_containers cs then [] else map (service_state cs) enabled;
      checked_at = now;
    }
report-overall [] enabled now = refl
report-overall (c ∷ cs) enabled now =
    let h = tally-health (c ∷ cs) enabled start in
    let s = tally-services (c ∷ cs) enabled start in
    λ i. record { health = h i; services = s i; checked_at = now }

-- The report of a server whose containers could be listed is STOPPED if it has none; else it gives each
-- enabled service its own health, in order, and the server is UNHEALTHY if a core one is not healthy,
-- DEGRADED if only others are not healthy, and HEALTHY if all are.
pub project-overall :
    (source : Source) (p : ProjectRef) (now : ℕ) {cs : List Container}
    → containers_of source p ≡ ok cs
    → project source p now
      ≡ ok (record {
        health = if no_containers cs then HealthStatus.stopped else overall cs p.enabled;
        services = if no_containers cs then [] else map (service_state cs) p.enabled;
        checked_at = now;
      })
unfolding project
project-overall source p now {cs} e =
    ap (reported p now) e ∙ ap ok (report-overall cs p.enabled now)
