-- ===== src/Tests/Ports.antt =====
-- apps/manager/internal/ports/allocator.go and store/ports.go on one server that asks for two ports.
use supabase_installer.Prelude.{String, true, none, List, [], ◌∷◌, ◌≡◌, refl}
use supabase_installer.Errors.{ok, err, exhausted}
use supabase_installer.Db.{Conn, query, statement, attempt, in_tx, continue, ◌>>=◌, pure, raise}
use supabase_installer.Db.Laws.{calm}
use supabase_installer.Tests.Operations.{project}
use supabase_installer.Db.Schema.{Tables, AllocationRow}
use supabase_installer.Store.Ports.{
  reserved_port, port_in_use, insert_allocation, claim, claim_all, try_reserve_ports,
}
use supabase_installer.Store.Ports.Laws.{Tried, try_reserve_ports-Tried}
use supabase_installer.Store.Ports.Unique.{Change}
use supabase_installer.Ports.{
  Allocator, available, known_ports, look, scan, select_ports, reread, attempts, reserve_many,
  candidates, candidate_many,
}
use supabase_installer.Ports.Reserve.{Reserved}
use supabase_installer.Ports.Attempts.{reserve_many-Reserved}
use supabase_installer.Ports.Failure.{reserve_many_failure}
use supabase_installer.Ports.Candidates.{Candidates, candidate_many-Candidates}

abbrev a : Allocator
a = record { min = 8000; max = 8002; probe = λ p. true; remote = none }

abbrev taken : AllocationRow
taken = record { port = 8000; project_id = "q"; kind = "API"; created_at = 1 }

abbrev tables : Tables
tables = record {
  projects = project ∷ [];
  operations = [];
  events = [];
  allocations = taken ∷ [];
  reservations = [];
  secrets = [];
  admins = [];
  recovery_codes = [];
  sessions = [];
  configurations = [];
  aggregates = [];
  project_services = [];
  last_good = [];
  leases = [];
  operation_configurations = [];
}

abbrev kinds : List String
kinds = "API" ∷ "STUDIO" ∷ []

abbrev c : Conn
c = calm tables

reserves :
    reserve_many a "p" kinds 7 c
    ≡ (ok (("STUDIO", 8002) ∷ ("API", 8001) ∷ []), (reserve_many a "p" kinds 7 c).1)
unfolding reserve_many known_ports look reserved_port query statement attempt in_tx continue ◌>>=◌
    pure raise port_in_use insert_allocation claim claim_all try_reserve_ports available scan
    select_ports reread attempts
reserves = refl

reserve_many-Reserved_example :
    Reserved a "p" kinds 7
      (("STUDIO", 8002) ∷ ("API", 8001) ∷ [])
      tables
      (reserve_many a "p" kinds 7 c).1.tables
reserve_many-Reserved_example = reserve_many-Reserved a "p" kinds 7 c reserves

abbrev narrow : Allocator
narrow = record { min = 8000; max = 8001; probe = λ p. true; remote = none }

refuses : reserve_many narrow "p" kinds 7 c ≡ (err exhausted, (reserve_many narrow "p" kinds 7 c).1)
unfolding reserve_many known_ports look reserved_port query statement attempt in_tx continue ◌>>=◌
    pure raise port_in_use insert_allocation claim claim_all try_reserve_ports available scan
    select_ports reread attempts
refuses = refl

reserve_many_failure_example : (reserve_many narrow "p" kinds 7 c).1.tables ≡ tables
reserve_many_failure_example = reserve_many_failure narrow "p" kinds 7 c refuses

offers :
    candidate_many a "p" kinds c
    ≡ (ok (("API", 8001) ∷ ("STUDIO", 8002) ∷ []), (candidate_many a "p" kinds c).1)
unfolding candidate_many candidates known_ports look reserved_port query statement attempt in_tx
    continue ◌>>=◌ pure raise port_in_use available
offers = refl

candidate_many-Candidates_example :
    ((candidate_many a "p" kinds c).1.tables ≡ tables)
    × Candidates a "p" kinds tables (("API", 8001) ∷ ("STUDIO", 8002) ∷ [])
candidate_many-Candidates_example = candidate_many-Candidates a "p" kinds c offers

abbrev changes : List Change
changes =
    Change.reserve "p" (("API", 8001) ∷ ("STUDIO", 8001) ∷ []) 7
    ∷ Change.reserve "p" (("API", 8001) ∷ []) 8
    ∷ Change.release_all "q"
    ∷ []

try_reserve_ports-Tried_example :
    Tried "p" 7
      (("API", 8000) ∷ [])
      tables
      (try_reserve_ports "p" (("API", 8000) ∷ []) 7 c).0
      (try_reserve_ports "p" (("API", 8000) ∷ []) 7 c).1.tables
try_reserve_ports-Tried_example = try_reserve_ports-Tried "p" 7 (("API", 8000) ∷ []) c

-- 8001 and 8003 are free, but no two neighbours are
abbrev alternating : Conn
alternating = calm (record tables {
  allocations =
      taken ∷ record { port = 8002; project_id = "q"; kind = "STUDIO"; created_at = 1 } ∷ [];
})

abbrev four : Allocator
four = record { min = 8000; max = 8003; probe = λ p. true; remote = none }

gives_up : (reserve_many four "p" kinds 7 alternating).0 ≡ err exhausted
unfolding reserve_many known_ports look reserved_port query statement attempt in_tx continue ◌>>=◌
    pure raise port_in_use insert_allocation claim claim_all try_reserve_ports available scan
    select_ports reread attempts
gives_up = refl

-- a kind that is listed twice
listed_twice : (reserve_many four "p" ("API" ∷ "API" ∷ []) 7 c).0 ≡ err exhausted
unfolding reserve_many known_ports look reserved_port query statement attempt in_tx continue ◌>>=◌
    pure raise port_in_use insert_allocation claim claim_all try_reserve_ports available scan
    select_ports reread attempts
listed_twice = refl
