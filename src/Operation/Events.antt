-- ===== src/Operation/Events.antt =====
-- The event log of an operation: numbering, and the replay that `EventsAfter` gives to a client.
use supabase_installer.Prelude.{
  ℕ, zero, suc, ◌+◌, ◌-◌, ◌≤◌, ◌<◌, String, same_iff, Bool, true, ◌&&◌, ◌||◌, not, some, List, [],
  ◌∷◌, ◌++◌, ◌≡◌, refl, ◌∙◌, sym, ap, arith, ltb, ◌==◌, select, order_by, insert_ordered, length,
  drop, first?, if◌then◌else◌, Bool-cases, inl, inr,
}
use supabase_installer.Contracts.{OperationEvent}
use supabase_installer.Errors.{ok}
use supabase_installer.Db.{Conn}
use supabase_installer.Db.Laws.{query-ok}
use supabase_installer.Store.Operations.{of_operation, max_sequence, operation_events_after}
use supabase_installer.Operation.{events_after}

-- the events of one operation, in the order of the table
abbrev pub log : String → List OperationEvent → List OperationEvent
log id events = select (of_operation id) events

-- the events of `id` are numbered from `k + 1` on without a gap
abbrev pub numbered : String → ℕ → List OperationEvent → Bool
numbered id k [] = true
numbered id k (e ∷ es) =
    (not (of_operation id e) || e.sequence == suc k)
    && numbered id (if of_operation id e then suc k else k) es

max_sequence-numbered :
    (id : String) (k : ℕ) (es : List OperationEvent)
    → numbered id k es ≡ true
    → max_sequence id es ≡ (if length (log id es) == 0 then 0 else k + length (log id es))
max_sequence-numbered id k [] h = refl
max_sequence-numbered id k (e ∷ es) h =
    ground (arith, max_sequence-numbered id (suc k) es, max_sequence-numbered id k es)

pub numbered-append :
    (id : String) (k : ℕ) (es : List OperationEvent) (e : OperationEvent)
    → numbered id k es ≡ true
    → (of_operation id e ≡ true → e.sequence ≡ suc (k + length (log id es)))
    → numbered id k (es ++ e ∷ []) ≡ true
numbered-append id k [] e h s = ground arith
numbered-append id k (x ∷ es) e h s =
    ground (arith, numbered-append id (suc k) es e, numbered-append id k es e)

-- what `append_operation_event` appends keeps every log numbered
pub numbered-next :
    (id j : String) (es : List OperationEvent) (e : OperationEvent)
    → e.operation_id ≡ j
    → e.sequence ≡ max_sequence j es + 1
    → numbered id 0 es ≡ true
    → numbered id 0 (es ++ e ∷ []) ≡ true
numbered-next id j es e p q h = numbered-append id 0 es e h (λ same_op. ground (
  arith,
  max_sequence-numbered id 0 es h,
  same_iff e.operation_id id,
  ap (λ (x : String). max_sequence x es) p,
))

drop-nil : (n : ℕ) → drop {A = OperationEvent} n [] ≡ []
drop-nil zero = refl
drop-nil (suc n) = refl

drop-cons_past :
    (n k : ℕ) (e : OperationEvent) (es : List OperationEvent)
    → k < n
    → drop (n - k) (e ∷ es) ≡ drop (n - suc k) es
drop-cons_past n k e es h = let step : n - k ≡ suc (n - suc k) = omega arith in rw step

drop-all : (n k : ℕ) (es : List OperationEvent) → n ≤ k → drop (n - k) es ≡ es
drop-all n k es h = let none_left : n - k ≡ 0 = omega arith in rw none_left

-- the events that a client has not seen, read off a numbered log
replay :
    (id : String) (k n : ℕ) (es : List OperationEvent)
    → numbered id k es ≡ true
    → select (λ e. of_operation id e && ltb n e.sequence) es ≡ drop (n - k) (log id es)
replay id k n [] h = sym (drop-nil (n - k))
replay id k n (e ∷ es) h = elim (Bool-cases (of_operation id e)) [
  | inl own ↦ elim (Bool-cases (ltb n (suc k))) [
    | inl unseen ↦ ground (
      arith,
      replay id (suc k) n es,
      drop-all n k (e ∷ log id es),
      drop-all n (suc k) (log id es),
    )
    | inr seen ↦ ground (arith, replay id (suc k) n es, drop-cons_past n k e (log id es))
  ]
  | inr other ↦ ground (arith, replay id k n es)
]

abbrev earlier : OperationEvent → OperationEvent → Bool
earlier a b = ltb a.sequence b.sequence

abbrev unseen : String → ℕ → List OperationEvent → List OperationEvent
unseen id n es = select (λ e. of_operation id e && ltb n e.sequence) es

insert_first :
    (x : OperationEvent) (ys : List OperationEvent)
    → ((y : OperationEvent) → first? ys ≡ some y → x.sequence < y.sequence)
    → insert_ordered earlier x ys ≡ x ∷ ys
insert_first x [] h = refl
insert_first x (y ∷ ys) h = ground (arith, h y refl)

unseen_bound :
    (id : String) (k n : ℕ) (es : List OperationEvent) (y : OperationEvent)
    → numbered id k es ≡ true
    → first? (unseen id n es) ≡ some y
    → k < y.sequence
unseen_bound id k n [] y h f = cc
unseen_bound id k n (e ∷ es) y h f =
    ground (arith, unseen_bound id (suc k) n es y, unseen_bound id k n es y)

-- the log is in order already
sorted_unseen :
    (id : String) (k n : ℕ) (es : List OperationEvent)
    → numbered id k es ≡ true
    → order_by earlier (unseen id n es) ≡ unseen id n es
sorted_unseen id k n [] h = refl
sorted_unseen id k n (e ∷ es) h = elim (Bool-cases (of_operation id e && ltb n e.sequence)) [
  | inl shown ↦ rw shown (
      rw (sorted_unseen id (suc k) n es (ground arith))
        (insert_first e (unseen id n es) (λ y f. ground (arith, unseen_bound id (suc k) n es y))))
  | inr hidden ↦
      rw hidden (sorted_unseen id (if of_operation id e then suc k else k) n es (ground arith))
]

-- `EventsAfter` of a numbered log, when it succeeds, returns the log without its first n events, in
-- the order in which they were appended, and changes nothing.
pub events_after-replay :
    (id : String) (n : ℕ) (c : Conn) {es : List OperationEvent} {c' : Conn}
    → numbered id 0 c.tables.events ≡ true
    → events_after id n c ≡ (ok es, c')
    → (es ≡ drop n (log id c.tables.events)) × (c'.tables ≡ c.tables)
unfolding events_after operation_events_after
events_after-replay id n c h r =
    let (shown, same_tables) = query-ok (λ t. order_by earlier (unseen id n t.events)) c r in
    (
      shown
          ∙ sorted_unseen id 0 n c.tables.events h
          ∙ replay id 0 n c.tables.events h
          ∙ ap (λ (m : ℕ). drop m (log id c.tables.events)) (omega arith),
      same_tables,
    )
