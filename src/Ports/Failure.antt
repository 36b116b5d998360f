-- ===== src/Ports/Failure.antt =====
-- `ReserveMany` of apps/manager/internal/ports/allocator.go when it fails.
use supabase_installer.Prelude.{
  ℕ, zero, suc, ◌+◌, String, Bool, true, false, List, ◌≡◌, ◌∙◌, subst, ◌==◌, length, if◌then◌else◌,
}
use supabase_installer.Errors.{Error, Result, ok, err, exhausted}
use supabase_installer.Db.{Conn, Db, pure, raise, lift, ◌>>=◌}
use supabase_installer.Db.Laws.{Failed, >>=-eq-err}
use supabase_installer.Db.Reads.{
  Atomic, Atomic-bind, Atomic-Reads, Reads-pure, Reads-raise, Reads-lift,
}
use supabase_installer.Db.Schema.{Tables}
use supabase_installer.Store.Ports.{try_reserve_ports}
use supabase_installer.Store.Ports.Laws.{Tried, try_reserve_ports-Tried}
use supabase_installer.Ports.{
  Allocator, Ports, range_size, Known, known_ports, Choice, select_ports, reread, is_empty,
  attempts, reserve_many,
}
use supabase_installer.Ports.FirstLoop.{known_ports-Reads, reread-Reads}
use supabase_installer.Ports.Attempts.{
  nothing, after_known, start, blank, after_reread, after_try, after_choice, attempt_at,
  attempts-suc, Tried-of_result,
}

module _ (a : Allocator) (project : String) (now : ℕ) (again : Known → Db Ports)
    (again-Atomic : (known : Known) → Atomic (again known)) (known : Known) where
  after_reread-Atomic :
      (next : Known) (empty : Bool) → Atomic (if empty then pure next.allocated else again next)
  after_reread-Atomic next true = Atomic-Reads (pure next.allocated) (Reads-pure next.allocated)
  after_reread-Atomic next false = again-Atomic next

  lost :
      Atomic (reread project known.missing (blank known) >>= after_reread a project now again known)
  lost =
      Atomic-bind (reread project known.missing (blank known))
        (after_reread a project now again known) (reread-Reads project known.missing (blank known))
        (λ next. after_reread-Atomic next (is_empty next.missing))

  after_try-err :
      (choice : Choice) (done : Bool) (t : Tables) (c : Conn) {e : Error} {c' : Conn}
      → Tried project now choice.selected t (ok done) c.tables
      → after_try a project now again known choice done c ≡ (err e, c')
      → c'.tables ≡ t
  after_try-err choice true t c tried h = unfold pure in cc h
  after_try-err choice false t c tried h = lost.undoes c h ∙ tried

  try_failed :
      (choice : Choice) (c : Conn) {e : Error} {c' : Conn}
      → Failed
          (try_reserve_ports project choice.selected now)
          (after_try a project now again known choice)
          c
          e
          c'
      → c'.tables ≡ c.tables
  try_failed choice c {e} {c'} (Failed.early h) =
      subst (λ (x : Result Bool × Conn). Tried project now choice.selected c.tables x.0 x.1.tables)
        h (try_reserve_ports-Tried project now choice.selected c)
  try_failed choice c (Failed.late done d first second) =
      after_try-err choice done c.tables d
        (Tried-of_result project now choice.selected c done d first) second

  after_choice-Atomic :
      (choice : Choice) (enough : Bool)
      → Atomic (
          if enough
          then (try_reserve_ports project choice.selected now
              >>= after_try a project now again known choice)
          else raise exhausted)
  after_choice-Atomic choice true = record {
    undoes = λ c h. try_failed choice c (
        >>=-eq-err (try_reserve_ports project choice.selected now)
          (after_try a project now again known choice) c h);
  }
  after_choice-Atomic choice false = Atomic-Reads (raise exhausted) (Reads-raise exhausted)

  attempt_at-Atomic : (cursor : ℕ) → Atomic (attempt_at a project now again known cursor)
  attempt_at-Atomic cursor =
      let r = select_ports a cursor known.missing (start known) in
      Atomic-bind (lift r) (after_choice a project now again known) (Reads-lift r)
        (λ choice. after_choice-Atomic choice (length choice.selected == length known.missing))

attempts-Atomic :
    (a : Allocator) (project : String) (now left cursor : ℕ) (known : Known)
    → Atomic (attempts a project now left cursor known)
attempts-Atomic a project now zero cursor known =
    unfold attempts in Atomic-Reads (raise exhausted) (Reads-raise exhausted)
attempts-Atomic a project now (suc left) cursor known =
    rw (attempts-suc a project now left cursor known) (
      attempt_at-Atomic a project now (attempts a project now left (cursor + 1))
        (λ next. attempts-Atomic a project now left (cursor + 1) next) known cursor)

-- When `ReserveMany` fails, for whatever reason and after however many conflicts, no table has
-- changed: no reservation of a part of the set is left behind.
pub reserve_many_failure :
    (a : Allocator) (project : String) (kinds : List String) (now : ℕ) (c : Conn) {e : Error}
    {c' : Conn}
    → reserve_many a project kinds now c ≡ (err e, c')
    → c'.tables ≡ c.tables
unfolding reserve_many
reserve_many_failure a project kinds now c h =
    (Atomic-bind (known_ports project kinds nothing) (after_known a project now)
        (known_ports-Reads project kinds nothing)
        (λ known.
          after_reread-Atomic a project now (attempts a project now (range_size a) 0)
            (λ next. attempts-Atomic a project now (range_size a) 0 next) known known
            (is_empty known.missing))).undoes
      c h
