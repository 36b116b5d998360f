-- ===== src/Store/Ports/Unique.antt =====
-- The constraints of `port_allocations` under the operations of apps/manager/internal/store/ports.go.
use supabase_installer.Prelude.{
  ℕ, String, same, same_iff, Bool, true, false, ◌&&◌, ◌||◌, not, List, [], ◌∷◌, ◌++◌, ◌≡◌, refl,
  sym, subst, arith, any, select, delete, find, is_some, ◌∙◌,
}
use supabase_installer.Errors.{Result, ok, err}
use supabase_installer.Db.{Conn, statement}
use supabase_installer.Db.Laws.{statement-ok, statement-err}
use supabase_installer.Db.Schema.{Tables, AllocationRow, ReservationRow}
use supabase_installer.Store.Ports.{
  has_kind, has_port, is_pending, try_reserve_ports, release_port, release_project_ports,
}
use supabase_installer.Store.Ports.Laws.{
  allocation, add_allocation, add_all, claimable, is_free, Tried, try_reserve_ports-Tried,
}

abbrev pub unique : List AllocationRow → Bool
unique [] = true
unique (x ∷ xs) =
    not (any (has_port x.port) xs) && not (any (has_kind x.project_id x.kind) xs) && unique xs

abbrev pub IsUnique : Tables → Type 0
IsUnique t = unique t.allocations ≡ true

any-append {ℓ} :
    {A : Type ℓ} (p : A → Bool) (xs : List A) (x : A) → any p (xs ++ x ∷ []) ≡ (any p xs || p x)
any-append p [] x = ground arith
any-append p (y ∷ xs) x = ground (arith, any-append p xs x)

unique-append :
    (xs : List AllocationRow) (r : AllocationRow)
    → unique xs ≡ true
    → any (has_port r.port) xs ≡ false
    → any (has_kind r.project_id r.kind) xs ≡ false
    → unique (xs ++ r ∷ []) ≡ true
unique-append [] r u p k = refl
unique-append (x ∷ xs) r u p k = ground (
  arith,
  unique-append xs r,
  any-append (has_port x.port) xs r,
  any-append (has_kind x.project_id x.kind) xs r,
  same_iff x.project_id r.project_id,
  same_iff r.project_id x.project_id,
  same_iff x.kind r.kind,
  same_iff r.kind x.kind,
)

any-select {ℓ} :
    {A : Type ℓ} (p q : A → Bool) (xs : List A) → any q xs ≡ false → any q (select p xs) ≡ false
any-select p q [] h = refl
any-select p q (x ∷ xs) h = ground (arith, any-select p q xs)

unique-select :
    (p : AllocationRow → Bool) (xs : List AllocationRow)
    → unique xs ≡ true
    → unique (select p xs) ≡ true
unique-select p [] h = refl
unique-select p (x ∷ xs) h = ground (
  arith,
  unique-select p xs,
  any-select p (has_port x.port) xs,
  any-select p (has_kind x.project_id x.kind) xs,
)

-- an operation on the allocations
pub data Change : Type 0 where
  reserve : String → List (String × ℕ) → ℕ → Change
  release_all : String → Change
  release_one : String → String → Change

unfoldable pub apply : Change → Conn → Conn
apply (Change.reserve project new now) c = (try_reserve_ports project new now c).1
apply (Change.release_all project) c = (release_project_ports project c).1
apply (Change.release_one project kind) c = (release_port project kind c).1

unfoldable pub apply_all : List Change → Conn → Conn
apply_all [] c = c
apply_all (x ∷ xs) c = apply_all xs (apply x c)

-- a property of the tables that a free port and any deletion keep
module _ (P : Tables → Type 0)
    (adds : (project : String) (now : ℕ) (kind : String) (port : ℕ) (t : Tables)
      → is_free project kind port t ≡ true
      → P t
      → P (add_allocation (allocation project now kind port) t))
    (deletes : (p : AllocationRow → Bool) (t : Tables)
      → P t
      → P (record t { allocations = delete p t.allocations })) where
  claimed_keeps :
      (project : String) (now : ℕ) (new : List (String × ℕ)) (t : Tables)
      → claimable project now new t ≡ true
      → P t
      → P (add_all project now new t)
  claimed_keeps project now [] t c h = h
  claimed_keeps project now ((kind, port) ∷ rest) t c h =
      claimed_keeps project now rest (add_allocation (allocation project now kind port) t)
        (ground arith) (adds project now kind port t (ground arith) h)

  tried_keeps :
      (project : String) (now : ℕ) (new : List (String × ℕ)) (t t' : Tables) (r : Result Bool)
      → Tried project now new t r t'
      → P t
      → P t'
  tried_keeps project now new t t' (ok true) c h =
      subst P (sym c.added) (claimed_keeps project now new t c.was_free h)
  tried_keeps project now new t t' (ok false) e h = subst P (sym e) h
  tried_keeps project now new t t' (err _) e h = subst P (sym e) h

  abbrev deleting : (AllocationRow → Bool) → Tables → Result (Unit {0} × Tables)
  deleting p t = ok (tt, record t { allocations = delete p t.allocations })

  deleted_keeps :
      (p : AllocationRow → Bool) (c c' : Conn) (r : Result (Unit {0}))
      → statement (deleting p) c ≡ (r, c')
      → P c.tables
      → P c'.tables
  deleted_keeps p c c' (ok x) h k =
      let e = statement-ok (deleting p) c h in
      let after : record c.tables { allocations = delete p c.tables.allocations } ≡ c'.tables =
        cc e in
      subst P after (deletes p c.tables k)
  deleted_keeps p c c' (err x) h k = subst P (sym (statement-err (deleting p) c h)) k

  applied_keeps : (x : Change) (c : Conn) → P c.tables → P (apply x c).tables
  unfolding apply release_project_ports release_port
  applied_keeps (Change.reserve project new now) c h =
      let (r, c') = try_reserve_ports project new now c in
      tried_keeps project now new c.tables c'.tables r (try_reserve_ports-Tried project now new c) h
  applied_keeps (Change.release_all project) c h =
      let m = release_project_ports project c in
      deleted_keeps (λ row. same row.project_id project) c m.1 m.0 refl h
  applied_keeps (Change.release_one project kind) c h =
      let m = release_port project kind c in deleted_keeps (has_kind project kind) c m.1 m.0 refl h

  all_keep : (xs : List Change) (c : Conn) → P c.tables → P (apply_all xs c).tables
  unfolding apply_all
  all_keep [] c h = h
  all_keep (x ∷ xs) c h = all_keep xs (apply x c) (applied_keeps x c h)

-- After any reservations and releases of ports, whether they succeed, meet a conflict or fail in the
-- driver, no port has two owners and no server has two ports of one kind.
pub apply_all-IsUnique :
    (xs : List Change) (c : Conn) → IsUnique c.tables → IsUnique (apply_all xs c).tables
apply_all-IsUnique =
    all_keep IsUnique
      (λ project now kind port t free u.
        unique-append t.allocations (allocation project now kind port) u (ground arith)
          (ground arith))
      (λ p t u. unique-select (λ row. not (p row)) t.allocations u)

-- the port is in a pending configuration
abbrev pub waits : List ReservationRow → AllocationRow → Bool
waits reservations row = is_some (find (is_pending row.port) reservations)

abbrev pub IsApart : Tables → Type 0
IsApart t = any (waits t.reservations) t.allocations ≡ false

pub apply_all-IsApart :
    (xs : List Change) (c : Conn) → IsApart c.tables → IsApart (apply_all xs c).tables
apply_all-IsApart =
    all_keep IsApart
      (λ project now kind port t free h.
        any-append (waits t.reservations) t.allocations (allocation project now kind port)
        ∙ ground arith)
      (λ p t h. any-select (λ row. not (p row)) (waits t.reservations) t.allocations h)
