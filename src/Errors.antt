-- ===== src/Errors.antt =====
-- The errors of the manager. `errors.Is` looks at what an error wraps, so a wrapped error is the
-- error itself, and the text that `fmt.Errorf` puts before it is left out.
use supabase_installer.Prelude.{String, Bool, true, false, ◌≡◌, refl}
use supabase_installer.Contracts.{OperationStatus, HealthStatus}

pub data Error : Type 0 where
  not_found conflict exhausted : Error
  port_conflict : Error
  driver null_column : Error
  empty_id : Error
  invalid_transition : OperationStatus → Error
  confirmation_required unsupported_action : Error
  runtime_health : HealthStatus → Error
  secret_unavailable cipher_unavailable : Error
  already_bootstrapped invalid_credentials unauthenticated bad_username short_password : Error
  configuration_busy blank_owner bad_fence : Error
  external : String → Error

-- errors.Is(err, store.ErrNotFound)
abbrev pub is_not_found : Error → Bool
is_not_found not_found = true
is_not_found _ = false

-- errors.Is(err, store.ErrConflict)
abbrev pub is_conflict : Error → Bool
is_conflict conflict = true
is_conflict _ = false

-- errors.Is(err, store.ErrConfigurationBusy)
abbrev pub is_busy : Error → Bool
is_busy configuration_busy = true
is_busy _ = false

pub data Result {ℓ} (A : Type ℓ) : Type ℓ where
  ok : A → Result A
  err : Error → Result A

-- err == nil
abbrev pub is_ok {ℓ} : {A : Type ℓ} → Result A → Bool
is_ok (ok _) = true
is_ok (err _) = false

module _ {ℓ κ} {A : Type ℓ} {B : Type κ} where
  infixl 10 ◌>>=◌
  -- if err != nil { return err }
  abbrev pub ◌>>=◌ : Result A → (A → Result B) → Result B
  ok a >>= f = f a
  err e >>= f = err e

  -- the values with which a chain succeeds
  pub record Chained (m : Result A) (f : A → Result B) (b : B) : Type (ℓ ⊔ κ) where
    pub value : A
    pub first : m ≡ ok value
    pub second : f value ≡ ok b

  pub >>=-ok : (m : Result A) (f : A → Result B) {b : B} → (m >>= f) ≡ ok b → Chained m f b
  >>=-ok (ok a) f h = record { value = a; first = refl; second = h }
  >>=-ok (err e) f h = cc

pub ok-injective {ℓ} : {A : Type ℓ} {a b : A} → ok a ≡ ok b → a ≡ b
ok-injective h = cc h
