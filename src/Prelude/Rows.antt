-- ===== src/Prelude/Rows.antt =====
-- SQL over a table that is a list of rows: SELECT ... WHERE, UPDATE, DELETE and COUNT.
use Prim.Native.Nat.{ℕ}
use mathlib.Core.Bool.{Bool, not}
use mathlib.Core.Option.{Option, none, some}
use mathlib.Core.List.{List, [], ◌∷◌}
use supabase_installer.Prelude.Tests.{if◌then◌else◌}
use supabase_installer.Prelude.Lists.{length}

module _ {ℓ} {A : Type ℓ} where
  -- the first row that the test selects
  abbrev pub find : (A → Bool) → List A → Option A
  find p [] = none
  find p (x ∷ xs) = if p x then some x else find p xs

  -- all rows that the test selects
  abbrev pub select : (A → Bool) → List A → List A
  select p [] = []
  select p (x ∷ xs) = let rest = select p xs in if p x then x ∷ rest else rest

  -- UPDATE ... SET f WHERE p
  abbrev pub update : (A → Bool) → (A → A) → List A → List A
  update p f [] = []
  update p f (x ∷ xs) = (if p x then f x else x) ∷ update p f xs

  -- DELETE ... WHERE p
  abbrev pub delete : (A → Bool) → List A → List A
  delete p xs = select (λ x. not (p x)) xs

  -- the number of rows that a statement affects
  abbrev pub affected : (A → Bool) → List A → ℕ
  affected p xs = length (select p xs)

  -- ORDER BY: an insertion sort, which keeps the order of rows that tie
  abbrev pub insert_ordered : (A → A → Bool) → A → List A → List A
  insert_ordered before x [] = x ∷ []
  insert_ordered before x (y ∷ ys) =
      if before y x then y ∷ insert_ordered before x ys else x ∷ y ∷ ys

  abbrev pub order_by : (A → A → Bool) → List A → List A
  order_by before [] = []
  order_by before (x ∷ xs) = insert_ordered before x (order_by before xs)

  abbrev pub first? : List A → Option A
  first? [] = none
  first? (x ∷ _) = some x
