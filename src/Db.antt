-- ===== src/Db.antt =====
-- apps/manager/internal/store/sqlite.go: the connection, single statements and transactions.
-- SQLite is not part of the repository: a statement either runs with the meaning that SQL gives it
-- or fails in the driver, and which of them fail is an input, one entry of `faults` a statement
-- (and none failing from where the list ends). `SetMaxOpenConns(1)` and `_txlock=immediate` make
-- statements and transactions take turns.
pub mod Schema
pub mod Laws
pub mod Reads
pub mod Guards
pub mod Frame
use supabase_installer.Prelude.{Bool, true, false, List, [], ◌∷◌}
use supabase_installer.Errors.{Error, Result, ok, err, driver}
use supabase_installer.Db.Schema.{Tables}

pub record Conn : Type 0 where
  pub tables : Tables
  pub faults : List Bool

abbrev pub Db {ℓ} : Type ℓ → Type ℓ
Db A = Conn → Result A × Conn

module _ {ℓ} {A : Type ℓ} where
  unfoldable pub pure : A → Db A
  pure a c = (ok a, c)

  unfoldable pub raise : Error → Db A
  raise e c = (err e, c)

  abbrev pub lift : Result A → Db A
  lift r c = (r, c)

  run : (Tables → Result (A × Tables)) → Conn → Result A × Conn
  run f c = elim (f c.tables) [ ok (a, t) ↦ (ok a, record c { tables = t }) | err e ↦ (err e, c) ]

  next_fault : List Bool → (Tables → Result (A × Tables)) → Conn → Result A × Conn
  unfolding run
  next_fault [] f c = run f c
  next_fault (true ∷ rest) f c = (err driver, record c { faults = rest })
  next_fault (false ∷ rest) f c = run f (record c { faults = rest })

  -- db.ExecContext and tx.ExecContext: a statement that may write, or break a constraint
  unfoldable pub statement : (Tables → Result (A × Tables)) → Db A
  unfolding next_fault
  statement f c = next_fault c.faults f c

  -- db.QueryRowContext: a statement that reads
  unfoldable pub query : (Tables → A) → Db A
  unfolding statement
  query f = statement (λ t. ok (f t, t))

  -- err = m, and the caller goes on with the error at hand
  unfoldable pub attempt : Db A → Db (Result A)
  attempt m c = let (r, c') = m c in (ok r, c')

  -- `_ = m`
  unfoldable pub ignore : Db A → Db (Unit {ℓ})
  ignore m c = let (_, c') = m c in (ok tt, c')

  end_tx : Tables → Result A → Conn → Result A × Conn
  end_tx before (err e) c = (err e, record c { tables = before })
  end_tx before (ok a) c = elim c.faults [
    | [] ↦ (ok a, c)
    | fault ∷ rest ↦ elim fault [
      | true ↦ (err driver, record { tables = before; faults = rest })
      | false ↦ (ok a, record c { faults = rest })
    ]
  ]

  begun : Db A → List Bool → Conn → Result A × Conn
  unfolding end_tx
  begun m [] c = let (r, c') = m c in end_tx c.tables r c'
  begun m (true ∷ rest) c = (err driver, record c { faults = rest })
  begun m (false ∷ rest) c = let (r, c') = m (record c { faults = rest }) in end_tx c.tables r c'

  -- InTx: BEGIN may fail, an error of the body rolls back, and so does a failed COMMIT
  unfoldable pub in_tx : Db A → Db A
  unfolding begun
  in_tx m c = begun m c.faults c

module _ {ℓ κ} {A : Type ℓ} {B : Type κ} where
  unfoldable pub continue : Result A → (A → Db B) → Db B
  continue (ok a) f c = f a c
  continue (err e) f c = (err e, c)

  infixl 10 ◌>>=◌
  -- if err != nil { return err }
  unfoldable pub ◌>>=◌ : Db A → (A → Db B) → Db B
  unfolding continue pure raise
  ◌>>=◌ m f c = let (r, c') = m c in continue r f c'

infixl 10 ◌>>◌
abbrev pub ◌>>◌ {ℓ κ} : {A : Type ℓ} {B : Type κ} → Db A → Db B → Db B
m >> n = m >>= λ _. n
