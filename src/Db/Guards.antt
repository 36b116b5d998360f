-- ===== src/Db/Guards.antt =====
-- What a caller may conclude from the result of an action under a test, of a value and of an error at hand.
use supabase_installer.Prelude.{Bool, true, false, ◌≡◌, refl, ap, ◌∙◌, sym, if◌then◌else◌}
use supabase_installer.Errors.{Error, Result, ok, err}
use supabase_installer.Db.{Conn, Db, raise, lift, attempt, query, continue, ◌>>=◌}
use supabase_installer.Db.Schema.{Tables}
use supabase_installer.Db.Laws.{query-ok, >>=-eq-ok}

module _ {ℓ} {A : Type ℓ} where
  pub then-ok :
      (b : Bool) (m : Db A) (e : Error) (c : Conn) {a : A} {c' : Conn}
      → (if b then m else raise e) c ≡ (ok a, c')
      → (b ≡ true) × (m c ≡ (ok a, c'))
  unfolding raise
  then-ok true m e c h = (refl, h)
  then-ok false m e c h = cc

  pub else-ok :
      (b : Bool) (m : Db A) (e : Error) (c : Conn) {a : A} {c' : Conn}
      → (if b then raise e else m) c ≡ (ok a, c')
      → (b ≡ false) × (m c ≡ (ok a, c'))
  unfolding raise
  else-ok true m e c h = cc
  else-ok false m e c h = (refl, h)

  pub lift-ok :
      (r : Result A) (c : Conn) {a : A} {c' : Conn} → lift r c ≡ (ok a, c') → (r ≡ ok a) × (c' ≡ c)
  lift-ok r c h = (cc h, cc h)

  pub attempt-ok :
      (m : Db A) (c : Conn) {r : Result A} {c' : Conn} → attempt m c ≡ (ok r, c') → m c ≡ (r, c')
  unfolding attempt
  attempt-ok m c h = cc h

  -- a query and what is made of the row
  pub read-ok {κ} :
      {B : Type κ} (f : Tables → B) (scan : B → Result A) (c : Conn) {a : A} {c' : Conn}
      → (query f >>= λ row. lift (scan row)) c ≡ (ok a, c')
      → (scan (f c.tables) ≡ ok a) × (c'.tables ≡ c.tables)
  read-ok f scan c h =
      let bound = >>=-eq-ok (query f) (λ row. lift (scan row)) c h in
      let (row, same_tables) = query-ok f c bound.first in
      let (scanned, stay) = lift-ok (scan bound.value) bound.middle bound.second in
      (ap scan (sym row) ∙ scanned, ap (λ (d : Conn). d.tables) stay ∙ same_tables)

module _ {ℓ κ} {A : Type ℓ} {B : Type κ} where
  -- a value at hand, and then the rest
  pub record Lifted (r : Result A) (f : A → Db B) (c : Conn) (b : B) (c' : Conn)
      : Type (ℓ ⊔ κ) where
    pub value : A
    pub given : r ≡ ok value
    pub rest : f value c ≡ (ok b, c')

  pub lift->>=-ok :
      (r : Result A) (f : A → Db B) (c : Conn) {b : B} {c' : Conn}
      → (lift r >>= f) c ≡ (ok b, c')
      → Lifted r f c b c'
  unfolding ◌>>=◌ continue
  lift->>=-ok (ok a) f c h = record { value = a; given = refl; rest = h }
  lift->>=-ok (err e) f c h = cc

  -- a result at hand, and then the rest
  pub record Attempted (m : Db A) (f : Result A → Db B) (c : Conn) (b : B) (c' : Conn)
      : Type (ℓ ⊔ κ) where
    pub value : Result A
    pub middle : Conn
    pub first : m c ≡ (value, middle)
    pub rest : f value middle ≡ (ok b, c')

  pub attempt->>=-ok :
      (m : Db A) (f : Result A → Db B) (c : Conn) {b : B} {c' : Conn}
      → (attempt m >>= f) c ≡ (ok b, c')
      → Attempted m f c b c'
  attempt->>=-ok m f c h =
      let bound = >>=-eq-ok (attempt m) f c h in
      record {
        value = bound.value;
        middle = bound.middle;
        first = attempt-ok m c bound.first;
        rest = bound.second;
      }
