-- ===== src/Ports/Attempts.antt =====
-- The attempts of `ReserveMany` in apps/manager/internal/ports/allocator.go, one for each cursor.
use supabase_installer.Prelude.{
  ℕ, zero, suc, ◌+◌, ◌≤◌, ◌<◌, String, Bool, true, false, ◌||◌, List, [], ◌∷◌, ◌≡◌, refl, sym, ap,
  ◌∙◌, subst, arith, ◌==◌, length, is_some, if◌then◌else◌,
}
use supabase_installer.Errors.{Result, ok, exhausted}
use supabase_installer.Db.{Conn, Db, pure, raise, lift, ◌>>=◌}
use supabase_installer.Db.Laws.{>>=-eq-ok, pure-ok}
use supabase_installer.Db.Schema.{Tables}
use supabase_installer.Store.Ports.{try_reserve_ports}
use supabase_installer.Store.Ports.Laws.{Tried, try_reserve_ports-Tried}
use supabase_installer.Ports.{
  Allocator, Ports, port_at, put_all, values, range_size, Known, known_ports, Choice, select_ports,
  reread, is_empty, attempts, reserve_many,
}
use supabase_installer.Ports.Lookup.{member, Agrees, Advanced}
use supabase_installer.Ports.FirstLoop.{known_ports-Advanced, reread-Advanced}
use supabase_installer.Ports.Selection.{Selected, select_ports-Selected}
use supabase_installer.Ports.Reserve.{Reserved, nothing_new, IsKnown, won}

abbrev pub start : Known → Choice
start known = record { selected = []; used = values known.allocated }

abbrev pub blank : Known → Known
blank known = record { allocated = known.allocated; missing = [] }

-- the parts of an attempt, in the order in which they run; `again` is the next cursor
module _ (a : Allocator) (project : String) (now : ℕ) (again : Known → Db Ports)
    (known : Known) where
  abbrev pub after_reread : Known → Db Ports
  after_reread next = if is_empty next.missing then pure next.allocated else again next

  abbrev pub after_try : Choice → Bool → Db Ports
  after_try choice done =
      if done
      then pure (put_all choice.selected known.allocated)
      else (reread project known.missing (blank known) >>= after_reread)

  abbrev pub after_choice : Choice → Db Ports
  after_choice choice =
      if length choice.selected == length known.missing
      then (try_reserve_ports project choice.selected now >>= after_try choice)
      else raise exhausted

  abbrev pub attempt_at : ℕ → Db Ports
  attempt_at cursor = lift (select_ports a cursor known.missing (start known)) >>= after_choice

pub attempts-suc :
    (a : Allocator) (project : String) (now left cursor : ℕ) (known : Known)
    → attempts a project now (suc left) cursor known
      ≡ attempt_at a project now (attempts a project now left (cursor + 1)) known cursor
unfolding attempts
attempts-suc a project now left cursor known = refl

all_read :
    (kind : String) (m : Ports) (missing : List String)
    → is_empty missing ≡ true
    → (is_some (port_at kind m) || member kind missing) ≡ true
    → is_some (port_at kind m) ≡ true
all_read kind m [] e h = ground arith
all_read kind m (x ∷ xs) e h = cc

known_after :
    (project : String) (kinds : List String) (known next : Known) (t u v : Tables)
    → IsKnown project kinds known t
    → u ≡ t
    → Advanced project known.missing (blank known) next u v
    → IsKnown project kinds next v
known_after project kinds known next t u v k e adv = record {
  agrees =
      subst (Agrees project next.allocated) (sym adv.same_tables)
        (adv.agrees (subst (Agrees project known.allocated) (sym e) k.agrees));
  covers = λ kind h. adv.covers kind (ground (arith, k.covers kind h));
}

pub Tried-of_result :
    (project : String) (now : ℕ) (new : Ports) (c : Conn) (done : Bool) (d : Conn)
    → try_reserve_ports project new now c ≡ (ok done, d)
    → Tried project now new c.tables (ok done) d.tables
Tried-of_result project now new c done d h =
    subst (λ (x : Result Bool × Conn). Tried project now new c.tables x.0 x.1.tables) h
      (try_reserve_ports-Tried project now new c)

module _ (a : Allocator) (project : String) (kinds : List String) (now : ℕ)
    (again : Known → Db Ports)
    (again-ok : (known : Known) (c : Conn) (m : Ports) (c' : Conn)
      → IsKnown project kinds known c.tables
      → again known c ≡ (ok m, c')
      → Reserved a project kinds now m c.tables c'.tables)
    (known : Known) where
  after_reread-ok :
      (next : Known) (empty : Bool) (c : Conn) (m : Ports) (c' : Conn)
      → is_empty next.missing ≡ empty
      → IsKnown project kinds next c.tables
      → (if empty then pure next.allocated else again next) c ≡ (ok m, c')
      → Reserved a project kinds now m c.tables c'.tables
  after_reread-ok next true c m c' e k h =
      let (same_map, same_conn) = pure-ok next.allocated c h in
      subst (λ (x : Ports). Reserved a project kinds now x c.tables c'.tables) (sym same_map)
        (nothing_new a project kinds now next.allocated c.tables c'.tables
          (ap (λ (x : Conn). x.tables) same_conn) k.agrees
          (λ kind asked. all_read kind next.allocated next.missing e (k.covers kind asked)))
  after_reread-ok next false c m c' e k h = again-ok next c m c' k h

  after_try-ok :
      (choice : Choice) (done : Bool) (t : Tables) (c : Conn) (m : Ports) (c' : Conn)
      → IsKnown project kinds known t
      → Selected a known.missing [] choice.selected
      → (length choice.selected == length known.missing) ≡ true
      → Tried project now choice.selected t (ok done) c.tables
      → after_try a project now again known choice done c ≡ (ok m, c')
      → Reserved a project kinds now m t c'.tables
  after_try-ok choice true t c m c' k s n tried h =
      let (same_map, same_conn) = pure-ok (put_all choice.selected known.allocated) c h in
      subst (λ (x : Ports). Reserved a project kinds now x t c'.tables) (sym same_map)
        (subst
          (λ (x : Conn).
            Reserved a project kinds now (put_all choice.selected known.allocated) t x.tables)
          (sym same_conn) (won a project kinds now known choice t c.tables k s n tried))
  after_try-ok choice false t c m c' k s n tried h =
      let steps =
        >>=-eq-ok (reread project known.missing (blank known))
          (after_reread a project now again known) c h in
      let next = steps.value in
      let adv = reread-Advanced project known.missing (blank known) c steps.first in
      subst (λ (x : Tables). Reserved a project kinds now m x c'.tables) (adv.same_tables ∙ tried)
        (after_reread-ok next (is_empty next.missing) steps.middle m c' refl
          (known_after project kinds known next t c.tables steps.middle.tables k tried adv)
          steps.second)

  after_choice-ok :
      (choice : Choice) (enough : Bool) (c : Conn) (m : Ports) (c' : Conn)
      → IsKnown project kinds known c.tables
      → Selected a known.missing [] choice.selected
      → (length choice.selected == length known.missing) ≡ enough
      → (if enough
            then (try_reserve_ports project choice.selected now
                >>= after_try a project now again known choice)
            else raise exhausted)
          c
        ≡ (ok m, c')
      → Reserved a project kinds now m c.tables c'.tables
  after_choice-ok choice false c m c' k s n h = unfold raise in cc h
  after_choice-ok choice true c m c' k s n h =
      let steps =
        >>=-eq-ok (try_reserve_ports project choice.selected now)
          (after_try a project now again known choice) c h in
      after_try-ok choice steps.value c.tables steps.middle m c' k s n
        (Tried-of_result project now choice.selected c steps.value steps.middle steps.first)
        steps.second

  attempt_at-ok :
      (cursor : ℕ) (c : Conn) (m : Ports) (c' : Conn)
      → 0 < range_size a
      → IsKnown project kinds known c.tables
      → attempt_at a project now again known cursor c ≡ (ok m, c')
      → Reserved a project kinds now m c.tables c'.tables
  attempt_at-ok cursor c m c' w k h =
      let r = select_ports a cursor known.missing (start known) in
      let steps = >>=-eq-ok (lift r) (after_choice a project now again known) c h in
      let chosen : r ≡ ok steps.value = ap (λ (x : Result Choice × Conn). x.0) steps.first in
      let same_conn : c ≡ steps.middle = ap (λ (x : Result Choice × Conn). x.1) steps.first in
      let choice = steps.value in
      after_choice-ok choice (length choice.selected == length known.missing) c m c' k
        (select_ports-Selected a cursor known.missing (start known) choice w chosen) refl
        (subst (λ (x : Conn). after_choice a project now again known choice x ≡ (ok m, c'))
          (sym same_conn) steps.second)

attempts-Reserved :
    (a : Allocator) (project : String) (kinds : List String) (now left cursor : ℕ) (known : Known)
    (c : Conn) (m : Ports) (c' : Conn)
    → left ≤ range_size a
    → IsKnown project kinds known c.tables
    → attempts a project now left cursor known c ≡ (ok m, c')
    → Reserved a project kinds now m c.tables c'.tables
attempts-Reserved a project kinds now zero cursor known c m c' w k h = unfold attempts raise in cc h
attempts-Reserved a project kinds now (suc left) cursor known c m c' w k h =
    attempt_at-ok a project kinds now (attempts a project now left (cursor + 1))
      (λ next d m' d' k' h'.
        attempts-Reserved a project kinds now left (cursor + 1) next d m' d' (omega arith) k' h')
      known cursor c m c' (omega arith) k
      (sym (ap (λ (x : Db Ports). x c) (attempts-suc a project now left cursor known)) ∙ h)

abbrev pub nothing : Known
nothing = record { allocated = []; missing = [] }

abbrev pub after_known : Allocator → String → ℕ → Known → Db Ports
after_known a project now known =
    if is_empty known.missing
    then pure known.allocated
    else attempts a project now (range_size a) 0 known

known_first :
    (project : String) (kinds : List String) (known : Known) (t u : Tables)
    → Advanced project kinds nothing known t u
    → IsKnown project kinds known u
known_first project kinds known t u adv = record {
  agrees =
      subst (Agrees project known.allocated) (sym adv.same_tables) (adv.agrees (λ kind port h. cc));
  covers = λ kind h. adv.covers kind (ground arith);
}

-- When `ReserveMany` succeeds, every requested kind has a port, the ports that it returns are those
-- that the store holds for the server, and the only change is new allocations of this server: each
-- of a kind that it had no port of, and of a port that lies in the range, is free on the host and was
-- neither allocated nor pending.
pub reserve_many-Reserved :
    (a : Allocator) (project : String) (kinds : List String) (now : ℕ) (c : Conn) {m : Ports}
    {c' : Conn}
    → reserve_many a project kinds now c ≡ (ok m, c')
    → Reserved a project kinds now m c.tables c'.tables
unfolding reserve_many
reserve_many-Reserved a project kinds now c {m} {c'} h =
    let steps = >>=-eq-ok (known_ports project kinds nothing) (after_known a project now) c h in
    let adv = known_ports-Advanced project kinds nothing c steps.first in
    let k = known_first project kinds steps.value c.tables steps.middle.tables adv in
    subst (λ (x : Tables). Reserved a project kinds now m x c'.tables) adv.same_tables
      (after_reread-ok a project kinds now (attempts a project now (range_size a) 0)
        (λ next d m' d' k' h'.
          attempts-Reserved a project kinds now (range_size a) 0 next d m' d' (omega arith) k' h')
        steps.value steps.value (is_empty steps.value.missing) steps.middle m c' refl k
        steps.second)
