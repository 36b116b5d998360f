-- ===== src/Store/Ports/Laws.antt =====
-- `TryReservePorts` of apps/manager/internal/store/ports.go: success, conflict and failure.
use supabase_installer.Prelude.{
  ℕ, String, same, Bool, true, false, ◌&&◌, not, Option, none, some, List, [], ◌∷◌, ◌++◌, ◌≡◌, refl,
  sym, ap, subst, arith, ◌==◌, any, find, is_some, if◌then◌else◌,
}
use supabase_installer.Contracts.{Project}
use supabase_installer.Errors.{Result, ok, err, port_conflict}
use supabase_installer.Db.{Conn, Db, pure, raise, query, attempt, in_tx, ◌>>=◌}
use supabase_installer.Db.Laws.{
  Ran, >>=-eq-ok, statement-ok, query-ok, pure-ok, in_tx-ok, in_tx-err,
}
use supabase_installer.Db.Schema.{Tables, AllocationRow, ReservationRow}
use supabase_installer.Store.Ports.{
  has_kind, has_port, is_pending, insert_allocation, claim, claim_all, reserved, try_reserve_ports,
}

abbrev pub allocation : String → ℕ → String → ℕ → AllocationRow
allocation project now kind port = record {
  port = port;
  project_id = project;
  kind = kind;
  created_at = now;
}

abbrev pub add_allocation : AllocationRow → Tables → Tables
add_allocation row t = record t { allocations = t.allocations ++ row ∷ [] }

abbrev pub project_exists : String → Tables → Bool
project_exists project t = any (λ (p : Project). same p.id project) t.projects

-- the port is nobody's, allocated or pending, and the project has none of this kind
abbrev pub is_free : String → String → ℕ → Tables → Bool
is_free project kind port t =
    not (is_some (find (is_pending port) t.reservations))
    && not (any (has_port port) t.allocations)
    && not (any (has_kind project kind) t.allocations)
    && project_exists project t

abbrev pub add_all : String → ℕ → List (String × ℕ) → Tables → Tables
add_all project now [] t = t
add_all project now ((kind, port) ∷ rest) t =
    add_all project now rest (add_allocation (allocation project now kind port) t)

-- each entry is free after the entries before it
abbrev pub claimable : String → ℕ → List (String × ℕ) → Tables → Bool
claimable project now [] t = true
claimable project now ((kind, port) ∷ rest) t =
    is_free project kind port t
    && claimable project now rest (add_allocation (allocation project now kind port) t)

pub record Claimed (project : String) (now : ℕ) (new : List (String × ℕ)) (t t' : Tables)
    : Type 0 where
  pub was_free : claimable project now new t ≡ true
  pub added : t' ≡ add_all project now new t

insert_allocation-ok :
    (project kind : String) (port now : ℕ) (c : Conn) {n : ℕ} {c' : Conn}
    → insert_allocation project kind port now c ≡ (ok n, c')
    → (n == 1) ≡ true
    → (any (has_port port) c.tables.allocations ≡ false)
      × (any (has_kind project kind) c.tables.allocations ≡ false)
      × (project_exists project c.tables ≡ true)
      × (c'.tables ≡ add_allocation (allocation project now kind port) c.tables)
unfolding insert_allocation
insert_allocation-ok project kind port now c h one =
    let e = statement-ok _ c h in (ground arith, ground arith, ground arith, ground arith)

abbrev after_insert : ℕ → Db (Unit {0})
after_insert count = if count == 1 then pure tt else raise port_conflict

abbrev after_pending : String → ℕ → String → ℕ → Option ReservationRow → Db (Unit {0})
after_pending project now kind port pending =
    if is_some pending
    then raise port_conflict
    else (insert_allocation project kind port now >>= after_insert)

after_insert-ok :
    (n : ℕ) (c : Conn) {c' : Conn} → after_insert n c ≡ (ok tt, c') → ((n == 1) ≡ true) × (c' ≡ c)
unfolding pure raise
after_insert-ok n c h = (ground arith, ground arith)

abbrev Inserts : String → String → ℕ → ℕ → Tables → Tables → Type 0
Inserts project kind port now t t' =
    (any (has_port port) t.allocations ≡ false)
    × (any (has_kind project kind) t.allocations ≡ false)
    × (project_exists project t ≡ true)
    × (t' ≡ add_allocation (allocation project now kind port) t)

Inserts-of :
    (project kind : String) (port now n : ℕ) (c d e : Conn)
    → insert_allocation project kind port now c ≡ (ok n, d)
    → after_insert n d ≡ (ok tt, e)
    → Inserts project kind port now c.tables e.tables
Inserts-of project kind port now n c d e first second =
    let (one, same_conn) = after_insert-ok n d second in
    subst (λ (x : Conn). Inserts project kind port now c.tables x.tables) (sym same_conn)
      (insert_allocation-ok project kind port now c first one)

after_pending-ok :
    (project kind : String) (port now : ℕ) (pending : Option ReservationRow) (c : Conn) {c' : Conn}
    → after_pending project now kind port pending c ≡ (ok tt, c')
    → (is_some pending ≡ false) × Inserts project kind port now c.tables c'.tables
unfolding raise
after_pending-ok project kind port now none c {c'} h =
    let inner = >>=-eq-ok (insert_allocation project kind port now) after_insert c h in
    (refl, Inserts-of project kind port now inner.value c inner.middle c' inner.first inner.second)
after_pending-ok project kind port now (some r) c h = cc

claimed_of :
    (project kind : String) (port now : ℕ) (pending : Option ReservationRow) (t d t' : Tables)
    → pending ≡ find (is_pending port) t.reservations
    → d ≡ t
    → is_some pending ≡ false
    → Inserts project kind port now d t'
    → (is_free project kind port t ≡ true)
      × (t' ≡ add_allocation (allocation project now kind port) t)
claimed_of project kind port now pending t d t' p q clear row =
    let here = subst (λ (x : Tables). Inserts project kind port now x t') q row in
    (ground arith, here.3)

claim-ok :
    (project kind : String) (port now : ℕ) (c : Conn) {c' : Conn}
    → claim project now kind port c ≡ (ok tt, c')
    → (is_free project kind port c.tables ≡ true)
      × (c'.tables ≡ add_allocation (allocation project now kind port) c.tables)
unfolding claim
claim-ok project kind port now c {c'} h =
    let look = query (λ t. find (is_pending port) t.reservations) in
    let steps = >>=-eq-ok look (after_pending project now kind port) c h in
    let seen = query-ok (λ t. find (is_pending port) t.reservations) c steps.first in
    let done = after_pending-ok project kind port now steps.value steps.middle steps.second in
    claimed_of project kind port now steps.value c.tables steps.middle.tables c'.tables seen.0
      seen.1 done.0 done.1

claim_rest :
    (project kind : String) (port now : ℕ) (rest : List (String × ℕ)) (t d t' : Tables)
    → is_free project kind port t ≡ true
    → d ≡ add_allocation (allocation project now kind port) t
    → Claimed project now rest d t'
    → Claimed project now ((kind, port) ∷ rest) t t'
claim_rest project kind port now rest t d t' free e later =
    let here = subst (λ (x : Tables). Claimed project now rest x t') e later in
    record { was_free = rw (free, here.was_free) refl; added = here.added }

claim_all-ok :
    (project : String) (now : ℕ) (new : List (String × ℕ)) (c : Conn) {c' : Conn}
    → claim_all project now new c ≡ (ok tt, c')
    → Claimed project now new c.tables c'.tables
unfolding claim_all
claim_all-ok project now [] c h = record {
  was_free = refl;
  added = ap (λ (x : Conn). x.tables) (pure-ok tt c h).1;
}
claim_all-ok project now ((kind, port) ∷ rest) c {c'} h =
    let steps = >>=-eq-ok (claim project now kind port) (λ _. claim_all project now rest) c h in
    let one = claim-ok project kind port now c steps.first in
    claim_rest project kind port now rest c.tables steps.middle.tables c'.tables one.0 one.1
      (claim_all-ok project now rest steps.middle steps.second)

-- what `TryReservePorts` has done, by its result
abbrev pub Tried : String → ℕ → List (String × ℕ) → Tables → Result Bool → Tables → Type 0
Tried project now new t (ok true) t' = Claimed project now new t t'
Tried project now new t (ok false) t' = t' ≡ t
Tried project now new t (err _) t' = t' ≡ t

Claimed-Ran :
    (project : String) (now : ℕ) (new : List (String × ℕ)) (c c' : Conn)
    → Ran (claim_all project now new) c tt c'
    → Claimed project now new c.tables c'.tables
Claimed-Ran project now new c c' ran =
    let done = claim_all-ok project now new ran.start ran.body in
    let from = subst (λ (x : Tables). Claimed project now new x ran.stop.tables) ran.from done in
    subst (Claimed project now new c.tables) (sym ran.to) from

Tried-of :
    (project : String) (now : ℕ) (new : List (String × ℕ)) (c c' : Conn) (r : Result (Unit {0}))
    → in_tx (claim_all project now new) c ≡ (r, c')
    → Tried project now new c.tables (reserved r) c'.tables
Tried-of project now new c c' (ok u) h =
    Claimed-Ran project now new c c' (in_tx-ok (claim_all project now new) c h)
Tried-of project now new c c' (err port_conflict) h = in_tx-err (claim_all project now new) c h
Tried-of project now new c c' (err _) h = in_tx-err (claim_all project now new) c h

-- A reservation that succeeds has claimed every port; one that meets a conflict, or fails, has
-- claimed none.
pub try_reserve_ports-Tried :
    (project : String) (now : ℕ) (new : List (String × ℕ)) (c : Conn)
    → let (r, c') = try_reserve_ports project new now c in
      Tried project now new c.tables r c'.tables
unfolding try_reserve_ports attempt ◌>>=◌
try_reserve_ports-Tried project now new c =
    let m = in_tx (claim_all project now new) in Tried-of project now new c (m c).1 (m c).0 refl
