-- ===== src/Db/Frame.antt =====
-- What an action leaves alone, whatever its result: a view of the tables, and the absence of faults. A rule for each
-- way to build an action.
use supabase_installer.Prelude.{
  Bool, true, false, List, [], ◌∷◌, ◌≡◌, refl, sym, ap, ◌∙◌, if◌then◌else◌,
}
use supabase_installer.Errors.{Error, Result, ok, err}
use supabase_installer.Db.Schema.{Tables}
use supabase_installer.Db.{
  Conn, Db, pure, raise, lift, run, next_fault, statement, query, attempt, ignore, end_tx, begun,
  in_tx, continue, ◌>>=◌,
}

module _ {X : Type 0} (view : Tables → X) where
  pub record Keeps {ℓ} {A : Type ℓ} (m : Db A) : Type ℓ where
    pub keeps : (c : Conn) → view (m c).1.tables ≡ view c.tables
    pub calms : (c : Conn) → c.faults ≡ [] → (m c).1.faults ≡ []

  -- the outcome of a statement keeps the view
  pub data Kept {ℓ} {A : Type ℓ} (t : Tables) : Result (A × Tables) → Type ℓ where
    done : (a : A) (t' : Tables) → view t' ≡ view t → Kept t (ok (a, t'))
    undone : (e : Error) → Kept t (err e)

  module _ {ℓ} {A : Type ℓ} where
    pub Kept-if :
        (b : Bool) (t : Tables) (r s : Result (A × Tables))
        → Kept t r
        → Kept t s
        → Kept t (if b then r else s)
    Kept-if true t r s h k = h
    Kept-if false t r s h k = k

    pub Keeps-pure : (a : A) → Keeps (pure a)
    unfolding pure
    Keeps-pure a = record { keeps = λ c. refl; calms = λ c h. h }

    pub Keeps-raise : (e : Error) → Keeps (raise {A = A} e)
    unfolding raise
    Keeps-raise e = record { keeps = λ c. refl; calms = λ c h. h }

    pub Keeps-lift : (r : Result A) → Keeps (lift r)
    Keeps-lift r = record { keeps = λ c. refl; calms = λ c h. h }

    pub Keeps-if : (b : Bool) (m n : Db A) → Keeps m → Keeps n → Keeps (if b then m else n)
    Keeps-if true m n km kn = km
    Keeps-if false m n km kn = kn

    ran_keeps :
        (f : Tables → Result (A × Tables)) (c : Conn) (r : Result (A × Tables))
        → f c.tables ≡ r
        → Kept c.tables r
        → view (run f c).1.tables ≡ view c.tables
    unfolding run
    ran_keeps f c _ is (done a t k) = rw (run, is) k
    ran_keeps f c _ is (undone e) = rw (run, is) refl

    ran_faults :
        (f : Tables → Result (A × Tables)) (c : Conn) (r : Result (A × Tables))
        → f c.tables ≡ r
        → (run f c).1.faults ≡ c.faults
    unfolding run
    ran_faults f c (ok (a, t)) is = rw (run, is) refl
    ran_faults f c (err e) is = rw (run, is) refl

    fault_keeps :
        (fs : List Bool) (f : Tables → Result (A × Tables)) (c : Conn)
        → ((t : Tables) → Kept t (f t))
        → view (next_fault fs f c).1.tables ≡ view c.tables
    unfolding next_fault
    fault_keeps [] f c k = ran_keeps f c (f c.tables) refl (k c.tables)
    fault_keeps (true ∷ rest) f c k = refl
    fault_keeps (false ∷ rest) f c k =
        ran_keeps f (record c { faults = rest }) (f c.tables) refl (k c.tables)

    fault_calms :
        (fs : List Bool) (f : Tables → Result (A × Tables)) (c : Conn)
        → c.faults ≡ []
        → fs ≡ []
        → (next_fault fs f c).1.faults ≡ []
    unfolding next_fault
    fault_calms [] f c h k = ran_faults f c (f c.tables) refl ∙ h
    fault_calms (x ∷ rest) f c h k = cc

    pub Keeps-statement :
        (f : Tables → Result (A × Tables)) → ((t : Tables) → Kept t (f t)) → Keeps (statement f)
    unfolding statement
    Keeps-statement f k = record {
      keeps = λ c. fault_keeps c.faults f c k;
      calms = λ c h. fault_calms c.faults f c h h;
    }

    pub Keeps-query : (f : Tables → A) → Keeps (query f)
    unfolding query
    Keeps-query f = Keeps-statement (λ t. ok (f t, t)) (λ t. done (f t) t refl)

    pub Keeps-attempt : (m : Db A) → Keeps m → Keeps (attempt m)
    unfolding attempt
    Keeps-attempt m k = record { keeps = k.keeps; calms = k.calms }

    pub Keeps-ignore : (m : Db A) → Keeps m → Keeps (ignore m)
    unfolding ignore
    Keeps-ignore m k = record { keeps = k.keeps; calms = k.calms }

    ended_keeps :
        (before : Tables) (r : Result A) (t : Tables) (fs : List Bool)
        → view t ≡ view before
        → view (end_tx before r (record { tables = t; faults = fs })).1.tables ≡ view before
    unfolding end_tx
    ended_keeps before (err e) t fs h = refl
    ended_keeps before (ok a) t [] h = h
    ended_keeps before (ok a) t (true ∷ rest) h = refl
    ended_keeps before (ok a) t (false ∷ rest) h = h

    ended_calms :
        (before : Tables) (r : Result A) (t : Tables) (fs : List Bool)
        → fs ≡ []
        → (end_tx before r (record { tables = t; faults = fs })).1.faults ≡ []
    unfolding end_tx
    ended_calms before (err e) t fs h = h
    ended_calms before (ok a) t [] h = refl
    ended_calms before (ok a) t (x ∷ rest) h = cc

    begun-Keeps :
        (m : Db A) (fs : List Bool) (c : Conn)
        → Keeps m
        → view (begun m fs c).1.tables ≡ view c.tables
    unfolding begun
    begun-Keeps m [] c k = ended_keeps c.tables (m c).0 (m c).1.tables (m c).1.faults (k.keeps c)
    begun-Keeps m (true ∷ rest) c k = refl
    begun-Keeps m (false ∷ rest) c k =
        let d = record c { faults = rest } in
        ended_keeps c.tables (m d).0 (m d).1.tables (m d).1.faults (k.keeps d)

    begun_calms :
        (m : Db A) (fs : List Bool) (c : Conn)
        → Keeps m
        → fs ≡ []
        → c.faults ≡ []
        → (begun m fs c).1.faults ≡ []
    unfolding begun
    begun_calms m [] c k e h =
        ended_calms c.tables (m c).0 (m c).1.tables (m c).1.faults (k.calms c h)
    begun_calms m (x ∷ rest) c k e h = cc

    pub Keeps-in_tx : (m : Db A) → Keeps m → Keeps (in_tx m)
    unfolding in_tx
    Keeps-in_tx m k = record {
      keeps = λ c. begun-Keeps m c.faults c k;
      calms = λ c h. begun_calms m c.faults c k h h;
    }

  module _ {ℓ κ} {A : Type ℓ} {B : Type κ} where
    continue-Keeps :
        (r : Result A) (f : A → Db B) (c : Conn)
        → ((a : A) → Keeps (f a))
        → view (continue r f c).1.tables ≡ view c.tables
    unfolding continue
    continue-Keeps (ok a) f c k = (k a).keeps c
    continue-Keeps (err e) f c k = refl

    continue_calms :
        (r : Result A) (f : A → Db B) (c : Conn)
        → ((a : A) → Keeps (f a))
        → c.faults ≡ []
        → (continue r f c).1.faults ≡ []
    unfolding continue
    continue_calms (ok a) f c k h = (k a).calms c h
    continue_calms (err e) f c k h = h

    pub Keeps-bind : (m : Db A) (f : A → Db B) → Keeps m → ((a : A) → Keeps (f a)) → Keeps (m >>= f)
    unfolding ◌>>=◌
    Keeps-bind m f km kf = record {
      keeps = λ c. continue-Keeps (m c).0 f (m c).1 kf ∙ km.keeps c;
      calms = λ c h. continue_calms (m c).0 f (m c).1 kf (km.calms c h);
    }

pub ruleset frame_rules = (
  Keeps-pure, Keeps-raise, Keeps-lift, Keeps-if, Keeps-query, Keeps-attempt, Keeps-ignore,
  Keeps-in_tx, Keeps-bind,
)

pub ruleset statement_rules = (Keeps-statement, Kept-if, Kept.done, Kept.undone, refl)
