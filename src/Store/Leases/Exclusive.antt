-- ===== src/Store/Leases/Exclusive.antt =====
-- One owner at a time of the leases of apps/manager/internal/store/configuration.go.
use supabase_installer.Prelude.{
  ℕ, suc, ◌≤◌, String, Bool, true, false, ◌&&◌, ◌||◌, not, Option, none, some, List, [], ◌∷◌, ◌≡◌,
  refl, subst, sym, ap, ◌∙◌, ◌==◌, same, same_self, if◌then◌else◌, find, update, affected,
  Bool-cases, inl, inr, arith,
}
use supabase_installer.Errors.{Result, ok, err, configuration_busy, external}
use supabase_installer.Db.{Conn, Db, pure, raise, lift, attempt, statement, query, ◌>>=◌, continue}
use supabase_installer.Db.Schema.{Tables, LeaseRow}
use supabase_installer.Db.Laws.{calm, in_tx-calm, query-ok, >>=-eq-ok, pure-ok}
use supabase_installer.Db.Guards.{lift->>=-ok}
use supabase_installer.Store.Leases.{
  ConfigurationLease, is_lease, held_by, is_live, take_over, admit, admit_lease, admitted, acquired,
  validate_owner, owns, acquire_tx, acquire_for_operation,
}

none_selected :
    (p q : LeaseRow → Bool) (rows : List LeaseRow)
    → affected p rows ≡ 0
    → affected (λ row. p row && q row) rows ≡ 0
none_selected p q [] h = refl
none_selected p q (row ∷ rows) h = let rest = none_selected p q rows in ground arith

affected-head :
    (p : LeaseRow → Bool) (row : LeaseRow) (rows : List LeaseRow)
    → affected p (row ∷ rows) ≡ (if p row then suc (affected p rows) else affected p rows)
affected-head p row rows = elim (Bool-cases (p row)) [ inl e ↦ ground arith | inr e ↦ ground arith ]

-- the row of the list, its two tests being known
head_or_tail :
    (a b : Bool) (n m : ℕ) (row : LeaseRow) (rest : Option LeaseRow) (q : LeaseRow → Bool)
    → q row ≡ b
    → (if a then suc n else n) ≤ 1
    → (if a && b then suc m else m) ≡ 1
    → (n ≡ 0 → m ≡ 0)
    → (n ≤ 1 → m ≡ 1 → (r : LeaseRow) × (rest ≡ some r) × (q r ≡ true))
    → (r : LeaseRow) × ((if a then some row else rest) ≡ some r) × (q r ≡ true)
head_or_tail true true n m row rest q e single found none_there again = (row, refl, e)
head_or_tail true false n m row rest q e single found none_there again =
    let zero_rows : n ≡ 0 = omega arith in
    let no_more = none_there zero_rows in absurd (omega (arith, no_more))
head_or_tail false b n m row rest q e single found none_there again = again single found

-- the only row that the first test selects is the one that both select
the_row :
    (p q : LeaseRow → Bool) (rows : List LeaseRow)
    → affected p rows ≤ 1
    → affected (λ row. p row && q row) rows ≡ 1
    → (row : LeaseRow) × (find p rows ≡ some row) × (q row ≡ true)
the_row p q [] single found = cc found
the_row p q (row ∷ rows) single found =
    head_or_tail (p row) (q row) (affected p rows) (affected (λ r. p r && q r) rows) row
      (find p rows) q refl (subst (λ n. n ≤ 1) (affected-head p row rows) single)
      (sym (affected-head (λ r. p r && q r) row rows) ∙ found) (none_selected p q rows)
      (the_row p q rows)

owns-row :
    (is_space : ℕ → Bool) (project owner : String) (fence now : ℕ) (c c' : Conn)
    → affected (is_lease project) c.tables.leases ≤ 1
    → owns is_space project owner fence now c ≡ (ok true, c')
    → (row : LeaseRow) × (find (is_lease project) c.tables.leases ≡ some row)
      × (is_live now row ≡ true)
unfolding owns
owns-row is_space project owner fence now c c' single h =
    let checked = lift->>=-ok (validate_owner is_space owner fence) _ c h in
    let held : LeaseRow → Bool = λ row. held_by owner fence row && is_live now row in
    let count : Tables → ℕ = λ t. affected (λ row. is_lease project row && held row) t.leases in
    let bound = >>=-eq-ok (query count) (λ n. pure (n == 1)) c checked.rest in
    let (counted, _) = query-ok count c bound.first in
    let (one, _) = pure-ok (bound.value == 1) bound.middle bound.second in
    let is_one : count c.tables ≡ 1 = sym counted ∙ ground arith in
    let (row, first, both) = the_row (is_lease project) held c.tables.leases single is_one in
    (row, first, ground arith)

admit_busy :
    (project owner : String) (now ttl : ℕ) (t : Tables) (row : LeaseRow)
    → find (is_lease project) t.leases ≡ some row
    → is_live now row ≡ true
    → admit_lease project owner now ttl (calm t) ≡ (ok 0, calm t)
unfolding admit_lease statement
admit_busy project owner now ttl t row first live =
    ap
      (λ (r : Result (ℕ × Tables)). elim r [
        | ok (n, t') ↦ (ok n, calm t')
        | err e ↦ (err e, calm t)
      ])
      (ap (admit project owner now ttl t) first
        ∙ ap
            (λ b.
              if b
              then ok (0, t)
              else ok (
                1,
                record t { leases = update (is_lease project) (take_over owner now ttl) t.leases },
              ))
            live)

tx_busy :
    (project owner : String) (now ttl : ℕ) (t : Tables) (row : LeaseRow)
    → find (is_lease project) t.leases ≡ some row
    → is_live now row ≡ true
    → acquire_tx project owner owner now ttl (calm t) ≡ (err configuration_busy, calm t)
unfolding acquire_tx ◌>>=◌ admitted raise
tx_busy project owner now ttl t row first live =
    in_tx-calm (admit_lease project owner now ttl >>= admitted project owner owner) t (
      ap (λ (p : Result ℕ × Conn). continue p.0 (admitted project owner owner) p.1)
        (admit_busy project owner now ttl t row first live))

-- While an operation owns the lease of a server, another one that asks for it at the same moment is told that the server is
-- busy, and nothing is written, on a connection where no statement fails and with at most one lease for the server.
pub acquire_for_operation-owns :
    (is_space : ℕ → Bool) (project holder : String) (fence now : ℕ) (t : Tables) (c' : Conn)
    → affected (is_lease project) t.leases ≤ 1
    → owns is_space project holder fence now (calm t) ≡ (ok true, c')
    → (owner : String) (ttl : ℕ) → validate_owner is_space owner 1 ≡ ok tt
    → same owner "" ≡ false
    → acquire_for_operation is_space project owner owner now ttl (calm t) ≡ (ok none, calm t)
unfolding acquire_for_operation attempt ◌>>=◌
acquire_for_operation-owns is_space project holder fence now t c' single owned owner ttl valid
      filled =
    let (row, first, live) = owns-row is_space project holder fence now (calm t) c' single owned in
    let wrong : Db (Option ConfigurationLease) =
      raise (external "configuration lease owner must match operation id") in
    let ask : Db (Option ConfigurationLease) =
      attempt (acquire_tx project owner owner now ttl) >>= λ r. lift (acquired r) in
    ap
      (λ r.
        continue r (λ _. if same owner "" || not (same owner owner) then wrong else ask) (calm t))
      valid
    ∙ ap (λ b. (if b || not (same owner owner) then wrong else ask) (calm t)) filled
    ∙ ap (λ b. (if not b then wrong else ask) (calm t)) (same_self owner)
    ∙ ap (λ (p : Result ConfigurationLease × Conn). (acquired p.0, p.1))
        (tx_busy project owner now ttl t row first live)
