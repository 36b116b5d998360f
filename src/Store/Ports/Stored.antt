-- ===== src/Store/Ports/Stored.antt =====
-- What `ReservedPort` reads, before and after ports are claimed.
use supabase_installer.Prelude.{
  ℕ, String, Bool, true, false, Option, none, some, List, [], ◌∷◌, ◌++◌, ◌≡◌, refl, ap, arith, find,
  inl, inr, ◌⊎◌,
}
use supabase_installer.Errors.{Result, ok, err, is_not_found, driver}
use supabase_installer.Db.{Conn, lift, query, continue, ◌>>=◌}
use supabase_installer.Db.Laws.{query_result}
use supabase_installer.Db.Reads.{Reads, Reads-bind, Reads-query, Reads-lift}
use supabase_installer.Db.Schema.{Tables, AllocationRow}
use supabase_installer.Store.Ports.{has_kind, port_of, reserved_port}
use supabase_installer.Store.Ports.Laws.{allocation, add_allocation, add_all, claimable}

abbrev pub owned : Option AllocationRow → Option ℕ
owned none = none
owned (some row) = some row.port

-- the port of this kind that the project owns
abbrev pub stored : String → String → Tables → Option ℕ
stored project kind t = owned (find (has_kind project kind) t.allocations)

-- what a result of `ReservedPort` says of the tables
abbrev pub Looked : String → String → Tables → Result ℕ → Type 0
Looked project kind t (ok port) = stored project kind t ≡ some port
Looked project kind t (err e) = is_not_found e ≡ true → stored project kind t ≡ none

pub reserved_port-Reads : (project kind : String) → Reads (reserved_port project kind)
unfolding reserved_port
reserved_port-Reads project kind =
    Reads-bind (query (λ t. find (has_kind project kind) t.allocations)) (λ row. lift (port_of row))
      (Reads-query (λ t. find (has_kind project kind) t.allocations))
      (λ row. Reads-lift (port_of row))

abbrev is_not_found_result : Result (Option AllocationRow) → Bool
is_not_found_result (ok _) = false
is_not_found_result (err e) = is_not_found e

stored-append :
    (project kind : String) (rows : List AllocationRow) (row : AllocationRow) (port : ℕ)
    → owned (find (has_kind project kind) rows) ≡ some port
    → owned (find (has_kind project kind) (rows ++ row ∷ [])) ≡ some port
stored-append project kind [] row port h = cc
stored-append project kind (x ∷ rows) row port h =
    ground (arith, stored-append project kind rows row port)

Looked-here :
    (project kind : String) (t : Tables) (row : Option AllocationRow)
    → find (has_kind project kind) t.allocations ≡ row
    → Looked project kind t (port_of row)
Looked-here project kind t none h = λ _. rw (h, stored) refl
Looked-here project kind t (some row) h = rw (h, stored) refl

Looked-of :
    (project kind : String) (t : Tables) (r : Result (Option AllocationRow)) (d : Conn)
    → (r ≡ ok (find (has_kind project kind) t.allocations)) ⊎ (r ≡ err driver)
    → Looked project kind t (continue r (λ row. lift (port_of row)) d).0
unfolding continue
Looked-of project kind t (ok row) d (inl e) = Looked-here project kind t row (cc e)
Looked-of project kind t (ok row) d (inr e) = absurd (cc e)
Looked-of project kind t (err x) d (inl e) = absurd (cc e)
Looked-of project kind t (err x) d (inr e) =
    λ n. absurd (let k = ap is_not_found_result e in cc (k, n))

pub reserved_port-Looked :
    (project kind : String) (c : Conn)
    → Looked project kind c.tables (reserved_port project kind c).0
unfolding reserved_port ◌>>=◌
reserved_port-Looked project kind c =
    let look = query (λ t. find (has_kind project kind) t.allocations) in
    Looked-of project kind c.tables (look c).0 (look c).1
      (query_result (λ t. find (has_kind project kind) t.allocations) c)

-- the map of new ports, and otherwise what was stored
pub stored-add_all :
    (project : String) (now : ℕ) (new : List (String × ℕ)) (kind : String) (t : Tables) (port : ℕ)
    → claimable project now new t ≡ true
    → stored project kind t ≡ some port
    → stored project kind (add_all project now new t) ≡ some port
stored-add_all project now [] kind t port c h = h
stored-add_all project now ((k, p) ∷ rest) kind t port c h =
    stored-add_all project now rest kind (add_allocation (allocation project now k p) t) port
      (ground arith) (stored-append project kind t.allocations (allocation project now k p) port h)
