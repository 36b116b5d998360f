-- ===== src/Ports/Candidates.antt =====
-- `CandidateMany` of apps/manager/internal/ports/allocator.go.
use supabase_installer.Prelude.{
  ℕ, zero, suc, ◌+◌, ◌≤◌, String, same, same_iff, Bool, true, false, ◌||◌, List, [], ◌∷◌, some, ◌≡◌,
  refl, sym, ap, ◌∙◌, subst, arith, any, is_some, if◌then◌else◌, ◌⊎◌, inl, inr, Bool-cases,
}
use supabase_installer.Errors.{Result, ok, exhausted}
use supabase_installer.Db.{Conn, Db, pure, raise, lift, ◌>>=◌}
use supabase_installer.Db.Laws.{>>=-eq-ok, pure-ok, query-ok}
use supabase_installer.Db.Reads.{
  Reads, Reads-pure, Reads-raise, Reads-lift, Reads-bind, Reads-if, Reads-query,
}
use supabase_installer.Db.Schema.{Tables}
use supabase_installer.Store.Ports.{has_port, is_pending, port_in_use}
use supabase_installer.Store.Ports.Stored.{stored}
use supabase_installer.Ports.{
  Allocator, Ports, port_at, put_port, values, range_size, is_used, available, Known, known_ports,
  candidates, candidate_many,
}
use supabase_installer.Ports.Lookup.{member, port_at-put_port}
use supabase_installer.Ports.FirstLoop.{known_ports-Reads, known_ports-Advanced}
use supabase_installer.Ports.Selection.{IsGood, in_range}
use supabase_installer.Ports.Attempts.{nothing}

-- an allocation or a pending configuration has the port
abbrev pub in_use : ℕ → Tables → Bool
in_use port t = any (has_port port) t.allocations || any (is_pending port) t.reservations

-- a port that a candidate may have
abbrev pub MayHave : Allocator → String → Tables → String → ℕ → Type 0
MayHave a project t kind port =
    (stored project kind t ≡ some port) ⊎ (IsGood a port × (in_use port t ≡ false))

abbrev AllMayHave : Allocator → String → Tables → Ports → Type 0
AllMayHave a project t m =
    (kind : String) (port : ℕ) → port_at kind m ≡ some port → MayHave a project t kind port

may_put :
    (a : Allocator) (project : String) (t : Tables) (kind : String) (port : ℕ) (m : Ports)
    → MayHave a project t kind port
    → AllMayHave a project t m
    → AllMayHave a project t (put_port kind port m)
may_put a project t kind port m g h k p e = elim (Bool-cases (same kind k)) [
  | inl one ↦
      let same_port : port ≡ p = ground (arith, port_at-put_port k kind port m) in
      subst (MayHave a project t k) same_port
        (subst (λ (x : String). MayHave a project t x port) ((same_iff kind k).0 one) g)
  | inr other ↦ h k p (ground (arith, port_at-put_port k kind port m))
]

-- the two parts of a round of the loop whose port is not used yet
abbrev if_idle : Db Ports → Db Ports → Bool → Db Ports
if_idle skip take busy = if busy then skip else take

abbrev if_free : ℕ → Db Ports → Db Ports → Bool → Db Ports
if_free port skip take free = if free then (port_in_use port >>= if_idle skip take) else skip

port_in_use-Reads : (port : ℕ) → Reads (port_in_use port)
unfolding port_in_use
port_in_use-Reads port = Reads-query (λ t. in_use port t)

round-Reads :
    (port : ℕ) (used : Bool) (r : Result Bool) (skip take : Db Ports)
    → Reads skip
    → Reads take
    → Reads (if used then skip else (lift r >>= if_free port skip take))
round-Reads port used r skip take s t = Reads-if used skip (lift r >>= if_free port skip take) s (
    Reads-bind (lift r) (if_free port skip take) (Reads-lift r) (λ free.
      Reads-if free (port_in_use port >>= if_idle skip take) skip
        (Reads-bind (port_in_use port) (if_idle skip take) (port_in_use-Reads port)
          (λ busy. Reads-if busy skip take s t))
        s))

candidates-Reads :
    (a : Allocator) (left offset : ℕ) (m : Ports) (used : List ℕ) (kinds : List String)
    → Reads (candidates a left offset m used kinds)
unfolding candidates
candidates-Reads a zero offset m used [] = Reads-pure m
candidates-Reads a (suc left) offset m used [] = Reads-pure m
candidates-Reads a zero offset m used (kind ∷ kinds) = Reads-raise exhausted
candidates-Reads a (suc left) offset m used (kind ∷ kinds) =
    let port = a.min + offset in
    round-Reads port (is_used port used) (available a port)
      (candidates a left (offset + 1) m used (kind ∷ kinds))
      (candidates a left (offset + 1) (put_port kind port m) (port ∷ used) kinds)
      (candidates-Reads a left (offset + 1) m used (kind ∷ kinds))
      (candidates-Reads a left (offset + 1) (put_port kind port m) (port ∷ used) kinds)

-- what a loop that has returned promises, from a map that it started with
pub record Found (a : Allocator) (project : String) (kinds : List String) (old new : Ports)
    (t : Tables) : Type 0 where
  pub may_have : AllMayHave a project t old → AllMayHave a project t new
  pub complete :
      (j : String)
      → (member j kinds || is_some (port_at j old)) ≡ true
      → is_some (port_at j new) ≡ true

-- how a round of the loop has gone: on to the next port, or with this one
pub data Round (r : Result Bool) (port : ℕ) (skip take : Db Ports) (c : Conn) (m : Ports)
    (c' : Conn) : Type 0 where
  skipped : (d : Conn) → d.tables ≡ c.tables → skip d ≡ (ok m, c') → Round r port skip take c m c'
  taken :
      (d : Conn)
      → d.tables ≡ c.tables
      → r ≡ ok true
      → in_use port c.tables ≡ false
      → take d ≡ (ok m, c')
      → Round r port skip take c m c'

idle_round :
    (r : Result Bool) (port : ℕ) (skip take : Db Ports) (busy : Bool) (c d : Conn) (m : Ports)
    (c' : Conn)
    → r ≡ ok true
    → busy ≡ in_use port c.tables
    → d.tables ≡ c.tables
    → if_idle skip take busy d ≡ (ok m, c')
    → Round r port skip take c m c'
idle_round r port skip take true c d m c' f b e h = Round.skipped d e h
idle_round r port skip take false c d m c' f b e h = Round.taken d e f (sym b) h

free_round :
    (r : Result Bool) (port : ℕ) (skip take : Db Ports) (free : Bool) (c : Conn) (m : Ports)
    (c' : Conn)
    → r ≡ ok free
    → if_free port skip take free c ≡ (ok m, c')
    → Round r port skip take c m c'
unfolding port_in_use
free_round r port skip take true c m c' f h =
    let steps = >>=-eq-ok (port_in_use port) (if_idle skip take) c h in
    let seen = query-ok (λ t. in_use port t) c steps.first in
    idle_round r port skip take steps.value c steps.middle m c' f seen.0 seen.1 steps.second
free_round r port skip take false c m c' f h = Round.skipped c refl h

round :
    (r : Result Bool) (port : ℕ) (used : Bool) (skip take : Db Ports) (c : Conn) (m : Ports)
    (c' : Conn)
    → (if used then skip else (lift r >>= if_free port skip take)) c ≡ (ok m, c')
    → Round r port skip take c m c'
round r port true skip take c m c' h = Round.skipped c refl h
round r port false skip take c m c' h =
    let steps = >>=-eq-ok (lift r) (if_free port skip take) c h in
    let known : r ≡ ok steps.value = ap (λ (x : Result Bool × Conn). x.0) steps.first in
    let same_conn : c ≡ steps.middle = ap (λ (x : Result Bool × Conn). x.1) steps.first in
    free_round r port skip take steps.value c m c' known (
      subst (λ (x : Conn). if_free port skip take steps.value x ≡ (ok m, c')) (sym same_conn)
        steps.second)

Found-taken :
    (a : Allocator) (project kind : String) (port : ℕ) (kinds : List String) (old new : Ports)
    (t : Tables)
    → MayHave a project t kind port
    → Found a project kinds (put_port kind port old) new t
    → Found a project (kind ∷ kinds) old new t
Found-taken a project kind port kinds old new t g f = record {
  may_have = λ h. f.may_have (may_put a project t kind port old g h);
  complete = λ j e. f.complete j (ground (arith, port_at-put_port j kind port old));
}

Found-round :
    (a : Allocator) (project : String) (left offset : ℕ) (old : Ports) (used : List ℕ)
    (kind : String) (kinds : List String) (c : Conn) (m : Ports) (c' : Conn)
    → offset + suc left ≤ range_size a
    → ((d : Conn)
        → candidates a left (offset + 1) old used (kind ∷ kinds) d ≡ (ok m, c')
        → Found a project (kind ∷ kinds) old m d.tables)
    → ((d : Conn)
        → candidates a left
            (offset + 1)
            (put_port kind (a.min + offset) old)
            ((a.min + offset) ∷ used)
            kinds
            d
          ≡ (ok m, c')
        → Found a project kinds (put_port kind (a.min + offset) old) m d.tables)
    → Round
        (available a (a.min + offset))
        (a.min + offset)
        (candidates a left (offset + 1) old used (kind ∷ kinds))
        (candidates a left
          (offset + 1)
          (put_port kind (a.min + offset) old)
          ((a.min + offset) ∷ used)
          kinds)
        c
        m
        c'
    → Found a project (kind ∷ kinds) old m c.tables
Found-round a project left offset old used kind kinds c m c' w skip take (Round.skipped d e h) =
    subst (Found a project (kind ∷ kinds) old m) e (skip d h)
Found-round a project left offset old used kind kinds c m c' w skip take
      (Round.taken d e free idle h) =
    let port = a.min + offset in
    Found-taken a project kind port kinds old m c.tables
      (inr (
        record {
          above = omega arith;
          below = in_range a.min a.max offset (omega arith);
          vacant = free;
        },
        idle,
      ))
      (subst (Found a project kinds (put_port kind port old) m) e (take d h))

candidates-nil :
    (a : Allocator) (left offset : ℕ) (m : Ports) (used : List ℕ)
    → candidates a left offset m used [] ≡ pure m
unfolding candidates
candidates-nil a zero offset m used = refl
candidates-nil a (suc left) offset m used = refl

candidates-cons :
    (a : Allocator) (left offset : ℕ) (m : Ports) (used : List ℕ) (kind : String)
    (kinds : List String)
    → candidates a (suc left) offset m used (kind ∷ kinds) ≡ (
        if is_used (a.min + offset) used
        then candidates a left (offset + 1) m used (kind ∷ kinds)
        else (lift (available a (a.min + offset))
            >>= if_free (a.min + offset) (candidates a left (offset + 1) m used (kind ∷ kinds)) (
                candidates a left
                  (offset + 1)
                  (put_port kind (a.min + offset) m)
                  ((a.min + offset) ∷ used)
                  kinds)))
unfolding candidates
candidates-cons a left offset m used kind kinds = refl

Found-nil :
    (a : Allocator) (project : String) (old m : Ports) (c c' : Conn)
    → pure old c ≡ (ok m, c')
    → Found a project [] old m c.tables
Found-nil a project old m c c' h =
    let one = (pure-ok old c h).0 in
    record {
      may_have = λ g. subst (AllMayHave a project c.tables) (sym one) g;
      complete = λ j e. subst (λ (x : Ports). is_some (port_at j x) ≡ true) (sym one) e;
    }

candidates-Found :
    (a : Allocator) (project : String) (left offset : ℕ) (old : Ports) (used : List ℕ)
    (kinds : List String) (c : Conn) (m : Ports) (c' : Conn)
    → offset + left ≤ range_size a
    → candidates a left offset old used kinds c ≡ (ok m, c')
    → Found a project kinds old m c.tables
candidates-Found a project zero offset old used [] c m c' w h =
    Found-nil a project old m c c'
      (sym (ap (λ (x : Db Ports). x c) (candidates-nil a zero offset old used)) ∙ h)
candidates-Found a project zero offset old used (kind ∷ kinds) c m c' w h =
    unfold candidates raise in cc h
candidates-Found a project (suc left) offset old used [] c m c' w h =
    Found-nil a project old m c c'
      (sym (ap (λ (x : Db Ports). x c) (candidates-nil a (suc left) offset old used)) ∙ h)
candidates-Found a project (suc left) offset old used (kind ∷ kinds) c m c' w h =
    let port = a.min + offset in
    let skip = candidates a left (offset + 1) old used (kind ∷ kinds) in
    let take = candidates a left (offset + 1) (put_port kind port old) (port ∷ used) kinds in
    Found-round a project left offset old used kind kinds c m c' w
      (λ d e.
        candidates-Found a project left (offset + 1) old used (kind ∷ kinds) d m c' (omega arith) e)
      (λ d e.
        candidates-Found a project left (offset + 1) (put_port kind port old) (port ∷ used) kinds d
          m c' (omega arith) e)
      (round (available a port) port (is_used port used) skip take c m c'
        (sym (ap (λ (x : Db Ports). x c) (candidates-cons a left offset old used kind kinds)) ∙ h))

abbrev rest_of : Allocator → Known → Db Ports
rest_of a known =
    candidates a (range_size a) 0 known.allocated (values known.allocated) known.missing

candidate_many-Reads :
    (a : Allocator) (project : String) (kinds : List String)
    → Reads (candidate_many a project kinds)
unfolding candidate_many
candidate_many-Reads a project kinds =
    Reads-bind (known_ports project kinds nothing) (rest_of a)
      (known_ports-Reads project kinds nothing)
      (λ known.
        candidates-Reads a (range_size a) 0 known.allocated (values known.allocated) known.missing)

candidate_many-ok :
    (a : Allocator) (project : String) (kinds : List String) (c : Conn) (m : Ports) (c' : Conn)
    → candidate_many a project kinds c ≡ (ok m, c')
    → ((kind : String) → member kind kinds ≡ true → is_some (port_at kind m) ≡ true)
      × AllMayHave a project c.tables m
unfolding candidate_many
candidate_many-ok a project kinds c m c' h =
    let steps = >>=-eq-ok (known_ports project kinds nothing) (rest_of a) c h in
    let known = steps.value in
    let adv = known_ports-Advanced project kinds nothing c steps.first in
    let found =
      candidates-Found a project (range_size a) 0 known.allocated (values known.allocated)
        known.missing steps.middle m c' (omega arith) steps.second in
    let here = subst (Found a project known.missing known.allocated m) adv.same_tables found in
    (
      λ kind e. here.complete kind (ground (arith, adv.covers kind)),
      here.may_have (λ kind port e. inl (adv.agrees (λ k p x. cc) kind port e)),
    )

-- every requested kind has a port, and one that it may have
pub record Candidates (a : Allocator) (project : String) (kinds : List String) (t : Tables)
    (m : Ports) : Type 0 where
  pub complete : (kind : String) → member kind kinds ≡ true → is_some (port_at kind m) ≡ true
  pub may_have :
      (kind : String) (port : ℕ) → port_at kind m ≡ some port → MayHave a project t kind port

-- When `CandidateMany` succeeds, it has changed no table, and every requested kind has a port, which the
-- server owns already or which lies in the range, is free on the host and is neither allocated nor
-- pending.
pub candidate_many-Candidates :
    (a : Allocator) (project : String) (kinds : List String) (c : Conn) {m : Ports} {c' : Conn}
    → candidate_many a project kinds c ≡ (ok m, c')
    → (c'.tables ≡ c.tables) × Candidates a project kinds c.tables m
candidate_many-Candidates a project kinds c {m} {c'} h =
    let (complete, may_have) = candidate_many-ok a project kinds c m c' h in
    (
      sym (ap (λ (x : Result Ports × Conn). x.1.tables) h)
          ∙ (candidate_many-Reads a project kinds).keeps c,
      record { complete = complete; may_have = may_have },
    )
