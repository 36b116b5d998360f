-- ===== src/Db/Reads.antt =====
-- Actions that change no table, and actions that change none if they fail: a rule for each way to
-- build an action.
use supabase_installer.Prelude.{
  Bool, true, false, List, [], ◌∷◌, ◌≡◌, refl, sym, ap, ◌∙◌, if◌then◌else◌,
}
use supabase_installer.Errors.{Error, Result, ok, err}
use supabase_installer.Db.Schema.{Tables}
use supabase_installer.Db.{
  Conn, Db, pure, raise, lift, statement, query, attempt, next_fault, in_tx, continue, ◌>>=◌,
}
use supabase_installer.Db.Laws.{statement-err, in_tx-err}

-- `m` changes no table, whatever its result
pub record Reads {ℓ} {A : Type ℓ} (m : Db A) : Type ℓ where
  pub keeps : (c : Conn) → (m c).1.tables ≡ c.tables

-- `m` changes no table if it fails
pub record Atomic {ℓ} {A : Type ℓ} (m : Db A) : Type ℓ where
  pub undoes : (c : Conn) {e : Error} {c' : Conn} → m c ≡ (err e, c') → c'.tables ≡ c.tables

module _ {ℓ} {A : Type ℓ} where
  pub Reads-pure : (a : A) → Reads (pure a)
  unfolding pure
  Reads-pure a = record { keeps = λ c. refl }

  pub Reads-raise : (e : Error) → Reads (raise {A = A} e)
  unfolding raise
  Reads-raise e = record { keeps = λ c. refl }

  pub Reads-lift : (r : Result A) → Reads (lift r)
  Reads-lift r = record { keeps = λ c. refl }

  query_keeps :
      (fs : List Bool) (f : Tables → A) (c : Conn)
      → (next_fault fs (λ t. ok (f t, t)) c).1.tables ≡ c.tables
  unfolding next_fault
  query_keeps [] f c = refl
  query_keeps (true ∷ rest) f c = refl
  query_keeps (false ∷ rest) f c = refl

  pub Reads-query : (f : Tables → A) → Reads (query f)
  unfolding query statement
  Reads-query f = record { keeps = λ c. query_keeps c.faults f c }

  pub Reads-attempt : (m : Db A) → Reads m → Reads (attempt m)
  unfolding attempt
  Reads-attempt m r = record { keeps = λ c. r.keeps c }

  pub Reads-if : (b : Bool) (m n : Db A) → Reads m → Reads n → Reads (if b then m else n)
  Reads-if true m n rm rn = rm
  Reads-if false m n rm rn = rn

  pub Atomic-Reads : (m : Db A) → Reads m → Atomic m
  Atomic-Reads m r = record {
    undoes = λ c h. sym (ap (λ (p : Result A × Conn). p.1.tables) h) ∙ r.keeps c;
  }

  pub Atomic-in_tx : (m : Db A) → Atomic (in_tx m)
  Atomic-in_tx m = record { undoes = λ c h. in_tx-err m c h }

  pub Atomic-statement : (f : Tables → Result (A × Tables)) → Atomic (statement f)
  Atomic-statement f = record { undoes = λ c h. statement-err f c h }

module _ {ℓ κ} {A : Type ℓ} {B : Type κ} where
  continue_keeps :
      (r : Result A) (f : A → Db B) (c : Conn)
      → ((a : A) → Reads (f a))
      → (continue r f c).1.tables ≡ c.tables
  unfolding continue
  continue_keeps (ok a) f c k = (k a).keeps c
  continue_keeps (err e) f c k = refl

  pub Reads-bind : (m : Db A) (f : A → Db B) → Reads m → ((a : A) → Reads (f a)) → Reads (m >>= f)
  unfolding ◌>>=◌
  Reads-bind m f r k = record { keeps = λ c. continue_keeps (m c).0 f (m c).1 k ∙ r.keeps c }

  continue_undoes :
      (r : Result A) (f : A → Db B) (c : Conn) {e : Error} {c' : Conn}
      → ((a : A) → Atomic (f a))
      → continue r f c ≡ (err e, c')
      → c'.tables ≡ c.tables
  unfolding continue
  continue_undoes (ok a) f c k h = (k a).undoes c h
  continue_undoes (err e) f c k h = cc

  -- reads, and then a last part that is atomic
  pub Atomic-bind :
      (m : Db A) (f : A → Db B) → Reads m → ((a : A) → Atomic (f a)) → Atomic (m >>= f)
  unfolding ◌>>=◌
  Atomic-bind m f r k = record { undoes = λ c h. continue_undoes (m c).0 f (m c).1 k h ∙ r.keeps c }

  continue-pure :
      (r : Result A) (g : A → B) (c : Conn) {e : Error} {c' : Conn}
      → continue r (λ a. pure (g a)) c ≡ (err e, c')
      → (r ≡ err e) × (c' ≡ c)
  unfolding continue pure
  continue-pure (ok a) g c h = cc
  continue-pure (err x) g c h = (cc h, cc h)

  -- an atomic part, and then a value
  pub Atomic-value : (m : Db A) (g : A → B) → Atomic m → Atomic (m >>= λ a. pure (g a))
  unfolding ◌>>=◌
  Atomic-value m g a = record {
    undoes = λ c h.
        let (failed, last) = continue-pure (m c).0 g (m c).1 h in
        ap (λ (d : Conn). d.tables) last ∙ a.undoes c (λ i. (failed i, (m c).1));
  }

pub ruleset reads_rules = (Reads-pure, Reads-raise, Reads-lift, Reads-query, Reads-if, Reads-bind)

pub ruleset atomic_rules = (reads_rules, Atomic-Reads, Atomic-in_tx, Atomic-statement, Atomic-bind)
