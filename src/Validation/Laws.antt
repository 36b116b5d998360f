-- ===== src/Validation/Laws.antt =====
-- What `run` makes of a list of checks.
use supabase_installer.Prelude.{
  String, Bool, true, false, ◌&&◌, not, List, [], ◌∷◌, ◌++◌, ◌≡◌, refl, sym, ap, ◌∙◌, if◌then◌else◌,
  arith, ◌↔◌, Bool-cases, ◌⊎◌, inl, inr, ℕ, zero, suc,
}
use supabase_installer.Validation.{Field, ValidationError, has_field, add, Check, step, run, joined}

-- no check applies
abbrev pub passes : List Check → Bool
passes [] = true
passes (c ∷ checks) = not c.failing && passes checks

pub passes-append : (a b : List Check) → passes (a ++ b) ≡ (passes a && passes b)
passes-append [] b = refl
passes-append (c ∷ a) b = let rest = passes-append a b in ground arith

-- whether the n-th check applies
abbrev pub failing_at : ℕ → List Check → Bool
failing_at n [] = false
failing_at zero (c ∷ checks) = c.failing
failing_at (suc n) (c ∷ checks) = failing_at n checks

pub passes-failing_at :
    (n : ℕ) (checks : List Check) → passes checks ≡ true → failing_at n checks ≡ false
passes-failing_at n [] p = refl
passes-failing_at zero (c ∷ checks) p = ground arith
passes-failing_at (suc n) (c ∷ checks) p = passes-failing_at n checks (ground arith)

abbrev pub part_at : ℕ → List (List Check) → List Check
part_at n [] = []
part_at zero (checks ∷ parts) = checks
part_at (suc n) (checks ∷ parts) = part_at n parts

pub passes-part_at :
    (n : ℕ) (parts : List (List Check))
    → passes (joined parts) ≡ true
    → passes (part_at n parts) ≡ true
passes-part_at n [] p = refl
passes-part_at zero (checks ∷ parts) p =
    let split = passes-append checks (joined parts) in ground arith
passes-part_at (suc n) (checks ∷ parts) p =
    let split = passes-append checks (joined parts) in passes-part_at n parts (ground arith)

append-ne : (v : ValidationError) (x : Field × String) → v ++ x ∷ [] ≡ [] → ⊥
append-ne [] x e = cc
append-ne (y ∷ v) x e = cc

has_field-nil : (v : ValidationError) (f : Field) → v ≡ [] → has_field f v ≡ false
has_field-nil v f e = ap (has_field f) e

add-ne : (f : Field) (m : String) (v : ValidationError) → add f m v ≡ [] → ⊥
unfolding add
add-ne f m v e = elim (Bool-cases (has_field f v)) [
  | inl there ↦
      let v_nil : v ≡ [] = ap (λ b. if b then v else v ++ (f, m) ∷ []) (sym there) ∙ e in
      let absent = has_field-nil v f v_nil in cc
  | inr absent ↦ append-ne v (f, m) (ap (λ b. if b then v else v ++ (f, m) ∷ []) (sym absent) ∙ e)
]

step-nil :
    (b : Bool) (f : Field) (m : String) (v : ValidationError)
    → (if b then add f m v else v) ≡ []
    → (b ≡ false) × (v ≡ [])
step-nil true f m v e = absurd (add-ne f m v e)
step-nil false f m v e = (refl, e)

run-nil :
    (checks : List Check) (v : ValidationError)
    → run checks v ≡ []
    → (v ≡ []) × (passes checks ≡ true)
unfolding run step
run-nil [] v e = (e, refl)
run-nil (c ∷ checks) v e =
    let (stepped, rest) = run-nil checks (if c.failing then add c.field c.message v else v) e in
    let (off, before) = step-nil c.failing c.field c.message v stepped in (before, ground arith)

run-passes : (checks : List Check) (v : ValidationError) → passes checks ≡ true → run checks v ≡ v
unfolding run step
run-passes [] v e = refl
run-passes (c ∷ checks) v e =
    let off : c.failing ≡ false = ground arith in
    let rest : passes checks ≡ true = ground arith in
    ap (λ b. run checks (if b then add c.field c.message v else v)) off ∙ run-passes checks v rest

-- a list of checks leaves no message exactly when none of them applies
pub run-accepts : (checks : List Check) → (run checks [] ≡ []) ↔ (passes checks ≡ true)
run-accepts checks = ((λ e. (run-nil checks [] e).1), (λ e. run-passes checks [] e))

module _ {ℓ κ} {A : Type ℓ} {B : Type κ} where
  pub inr-inj : {a b : B} → ◌≡◌ {A = A ⊎ B} (inr a) (inr b) → a ≡ b
  inr-inj h = cc

  -- the test that did not fail
  pub otherwise :
      (b : Bool) (m : A) (s : A ⊎ B) (a : B)
      → (if b then inl m else s) ≡ inr a
      → (b ≡ false) × (s ≡ inr a)
  otherwise true m s a h = cc
  otherwise false m s a h = (refl, h)
