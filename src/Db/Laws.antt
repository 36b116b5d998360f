-- ===== src/Db/Laws.antt =====
-- What a caller may conclude from the result of a statement, a transaction or a chain of them.
use supabase_installer.Prelude.{
  Bool, true, false, List, [], ◌∷◌, ◌≡◌, refl, ap, ◌∙◌, arith, ◌⊎◌, inl, inr,
}
use supabase_installer.Errors.{Error, Result, ok, err, driver}
use supabase_installer.Db.Schema.{Tables}
use supabase_installer.Db.{
  Conn, Db, pure, statement, query, run, next_fault, in_tx, begun, end_tx, continue, ◌>>=◌,
}

-- a connection on which no statement fails in the driver
abbrev pub calm : Tables → Conn
calm t = record { tables = t; faults = [] }

module _ {ℓ} {A : Type ℓ} where
  run-ok :
      (f : Tables → Result (A × Tables)) (c : Conn) {a : A} {c' : Conn}
      → run f c ≡ (ok a, c')
      → f c.tables ≡ ok (a, c'.tables)
  unfolding run
  run-ok f c h = ground arith

  run-err :
      (f : Tables → Result (A × Tables)) (c : Conn) {e : Error} {c' : Conn}
      → run f c ≡ (err e, c')
      → c'.tables ≡ c.tables
  unfolding run
  run-err f c h = ground arith

  next_fault-ok :
      (fs : List Bool) (f : Tables → Result (A × Tables)) (c : Conn) {a : A} {c' : Conn}
      → next_fault fs f c ≡ (ok a, c')
      → f c.tables ≡ ok (a, c'.tables)
  unfolding next_fault
  next_fault-ok [] f c h = run-ok f c h
  next_fault-ok (true ∷ rest) f c h = cc
  next_fault-ok (false ∷ rest) f c h = run-ok f (record c { faults = rest }) h

  next_fault-err :
      (fs : List Bool) (f : Tables → Result (A × Tables)) (c : Conn) {e : Error} {c' : Conn}
      → next_fault fs f c ≡ (err e, c')
      → c'.tables ≡ c.tables
  unfolding next_fault
  next_fault-err [] f c h = run-err f c h
  next_fault-err (true ∷ rest) f c h = ground arith
  next_fault-err (false ∷ rest) f c h = run-err f (record c { faults = rest }) h

  -- a statement that succeeds has had its effect
  pub statement-ok :
      (f : Tables → Result (A × Tables)) (c : Conn) {a : A} {c' : Conn}
      → statement f c ≡ (ok a, c')
      → f c.tables ≡ ok (a, c'.tables)
  unfolding statement
  statement-ok f c h = next_fault-ok c.faults f c h

  -- a statement that fails has changed nothing
  pub statement-err :
      (f : Tables → Result (A × Tables)) (c : Conn) {e : Error} {c' : Conn}
      → statement f c ≡ (err e, c')
      → c'.tables ≡ c.tables
  unfolding statement
  statement-err f c h = next_fault-err c.faults f c h

  pub query-ok :
      (f : Tables → A) (c : Conn) {a : A} {c' : Conn}
      → query f c ≡ (ok a, c')
      → (a ≡ f c.tables) × (c'.tables ≡ c.tables)
  unfolding query
  query-ok f c h = let e = statement-ok (λ t. ok (f t, t)) c h in (cc e, cc e)

  pub query-err :
      (f : Tables → A) (c : Conn) {e : Error} {c' : Conn}
      → query f c ≡ (err e, c')
      → c'.tables ≡ c.tables
  unfolding query
  query-err f c h = statement-err (λ t. ok (f t, t)) c h

  fault_result :
      (fs : List Bool) (f : Tables → A) (c : Conn)
      → ((next_fault fs (λ t. ok (f t, t)) c).0 ≡ ok (f c.tables))
        ⊎ ((next_fault fs (λ t. ok (f t, t)) c).0 ≡ err driver)
  unfolding next_fault
  fault_result [] f c = inl refl
  fault_result (true ∷ rest) f c = inr refl
  fault_result (false ∷ rest) f c = inl refl

  -- a query returns what it reads, or fails in the driver
  pub query_result :
      (f : Tables → A) (c : Conn) → ((query f c).0 ≡ ok (f c.tables)) ⊎ ((query f c).0 ≡ err driver)
  unfolding query statement
  query_result f c = fault_result c.faults f c

  end_tx-err :
      (t : Tables) (r : Result A) (c : Conn) {e : Error} {c' : Conn}
      → end_tx t r c ≡ (err e, c')
      → c'.tables ≡ t
  unfolding end_tx
  end_tx-err t (err x) c h = ground arith
  end_tx-err t (ok a) c h = ground arith

  end_tx-ok :
      (t : Tables) (r : Result A) (c : Conn) {a : A} {c' : Conn}
      → end_tx t r c ≡ (ok a, c')
      → (r ≡ ok a) × (c'.tables ≡ c.tables)
  unfolding end_tx
  end_tx-ok t (err x) c h = cc
  end_tx-ok t (ok a) c h = ground arith

  begun-err :
      (m : Db A) (fs : List Bool) (c : Conn) {e : Error} {c' : Conn}
      → begun m fs c ≡ (err e, c')
      → c'.tables ≡ c.tables
  unfolding begun
  begun-err m [] c h = end_tx-err c.tables (m c).0 (m c).1 h
  begun-err m (true ∷ rest) c h = ground arith
  begun-err m (false ∷ rest) c h =
      let d = record c { faults = rest } in end_tx-err c.tables (m d).0 (m d).1 h

  -- a transaction that fails, at BEGIN, in its body or at COMMIT, has changed nothing
  pub in_tx-err :
      (m : Db A) (c : Conn) {e : Error} {c' : Conn} → in_tx m c ≡ (err e, c') → c'.tables ≡ c.tables
  unfolding in_tx
  in_tx-err m c h = begun-err m c.faults c h

  -- without a fault, the error of the body is the error of the transaction
  pub in_tx-calm :
      (m : Db A) (t : Tables) {e : Error} {t' : Tables}
      → m (calm t) ≡ (err e, calm t')
      → in_tx m (calm t) ≡ (err e, calm t)
  unfolding in_tx begun end_tx
  in_tx-calm m t h = ap (λ (p : Result A × Conn). end_tx t p.0 p.1) h

  -- one run of the body `m` from the tables of `c` to the tables of `c'`
  pub record Ran (m : Db A) (c : Conn) (a : A) (c' : Conn) : Type ℓ where
    pub start : Conn
    pub stop : Conn
    pub from : start.tables ≡ c.tables
    pub body : m start ≡ (ok a, stop)
    pub to : c'.tables ≡ stop.tables

  begun-ok :
      (m : Db A) (fs : List Bool) (c : Conn) {a : A} {c' : Conn}
      → begun m fs c ≡ (ok a, c')
      → Ran m c a c'
  unfolding begun
  begun-ok m [] c h =
      let (p, q) = end_tx-ok c.tables (m c).0 (m c).1 h in
      record { start = c; stop = (m c).1; from = refl; body = λ i. (p i, (m c).1); to = q }
  begun-ok m (true ∷ rest) c h = cc
  begun-ok m (false ∷ rest) c h =
      let d = record c { faults = rest } in
      let (p, q) = end_tx-ok c.tables (m d).0 (m d).1 h in
      record { start = d; stop = (m d).1; from = refl; body = λ i. (p i, (m d).1); to = q }

  -- a transaction that succeeds is one run of its body
  pub in_tx-ok : (m : Db A) (c : Conn) {a : A} {c' : Conn} → in_tx m c ≡ (ok a, c') → Ran m c a c'
  unfolding in_tx
  in_tx-ok m c h = begun-ok m c.faults c h

module _ {ℓ κ} {A : Type ℓ} {B : Type κ} where
  -- the step that a chain has made before its result
  pub record Bound (m : Db A) (f : A → Db B) (c : Conn) (b : B) (c' : Conn) : Type (ℓ ⊔ κ) where
    pub value : A
    pub middle : Conn
    pub first : m c ≡ (ok value, middle)
    pub second : f value middle ≡ (ok b, c')

  continue-ok :
      (m : Db A) (f : A → Db B) (c : Conn) (r : Result A) {b : B} {c' : Conn}
      → (m c).0 ≡ r
      → continue r f (m c).1 ≡ (ok b, c')
      → Bound m f c b c'
  unfolding continue
  continue-ok m f c (ok a) p h = record {
    value = a;
    middle = (m c).1;
    first = λ i. (p i, (m c).1);
    second = h;
  }
  continue-ok m f c (err e) p h = cc

  -- a chain succeeds only if its first part does
  pub >>=-eq-ok :
      (m : Db A) (f : A → Db B) (c : Conn) {b : B} {c' : Conn}
      → (m >>= f) c ≡ (ok b, c')
      → Bound m f c b c'
  unfolding ◌>>=◌
  >>=-eq-ok m f c h = continue-ok m f c (m c).0 refl h

pub pure-ok {ℓ} :
    {A : Type ℓ} (a : A) (c : Conn) {x : A} {c' : Conn} → pure a c ≡ (ok x, c') → (x ≡ a) × (c' ≡ c)
unfolding pure
pure-ok a c h = (cc h, cc h)

module _ {ℓ κ} {A : Type ℓ} {B : Type κ} where
  -- the ways in which a chain fails: its first part does, or the rest
  pub data Failed (m : Db A) (f : A → Db B) (c : Conn) (e : Error) (c' : Conn) : Type (ℓ ⊔ κ) where
    early : m c ≡ (err e, c') → Failed m f c e c'
    late : (a : A) (d : Conn) → m c ≡ (ok a, d) → f a d ≡ (err e, c') → Failed m f c e c'

  continue-err :
      (m : Db A) (f : A → Db B) (c : Conn) (r : Result A) {e : Error} {c' : Conn}
      → (m c).0 ≡ r
      → continue r f (m c).1 ≡ (err e, c')
      → Failed m f c e c'
  unfolding continue
  continue-err m f c (ok a) p h = late a (m c).1 (λ i. (p i, (m c).1)) h
  continue-err m f c (err x) p h = early ((λ i. (p i, (m c).1)) ∙ cc h)

  pub >>=-eq-err :
      (m : Db A) (f : A → Db B) (c : Conn) {e : Error} {c' : Conn}
      → (m >>= f) c ≡ (err e, c')
      → Failed m f c e c'
  unfolding ◌>>=◌
  >>=-eq-err m f c h = continue-err m f c (m c).0 refl h
