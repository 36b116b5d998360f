-- ===== src/Validation.antt =====
-- apps/manager/internal/project/configuration.go: which configurations of a server are accepted. A validator is
-- the list of its `if ... { validation.add(...) }` in order, and `run` adds the ones that apply.
pub mod Texts
pub mod Parts
pub mod Limits
pub mod Mailer
pub mod Auth
pub mod Whole
pub mod Laws
pub mod Services
pub mod Bounds
pub mod Presets
pub mod Accepted
pub mod Address
pub mod Domains
pub mod Tls
pub mod Draft
use supabase_installer.Prelude.{
  ℕ, String, Bool, true, false, ◌&&◌, ◌||◌, List, [], ◌∷◌, ◌++◌, ◌==◌, same, same_text,
  if◌then◌else◌, any, Text,
}

-- A key of the map of messages: "a.b", "a[3].b", "a.P.b" for an entry P of a map, and "a.P.fields.K". Keys
-- that are built in different ways count as different.
pub data Field : Type 0 where
  named : String → Field
  indexed : String → ℕ → String → Field
  entry : String → String → String → Field
  entry_field : String → String → Text → Field

abbrev pub same_field : Field → Field → Bool
same_field (named a) (named b) = same a b
same_field (indexed a i s) (indexed b j t) = same a b && i == j && same s t
same_field (entry a p s) (entry b q t) = same a b && same p q && same s t
same_field (entry_field a p k) (entry_field b q l) = same a b && same p q && same_text k l
same_field _ _ = false

-- ValidationError.Fields
abbrev pub ValidationError : Type 0
ValidationError = List (Field × String)

abbrev pub has_field : Field → ValidationError → Bool
has_field f [] = false
has_field f ((g, _) ∷ v) = same_field g f || has_field f v

-- the first message of a field stays
unfoldable pub add : Field → String → ValidationError → ValidationError
add f message v = if has_field f v then v else v ++ (f, message) ∷ []

pub record Check : Type 0 where
  pub failing : Bool
  pub field : Field
  pub message : String

abbrev pub check : Bool → Field → String → Check
check b f m = record { failing = b; field = f; message = m }

abbrev pub only_if : Bool → List Check → List Check
only_if b checks = if b then checks else []

-- the validators of a configuration one after another
abbrev pub joined : List (List Check) → List Check
joined [] = []
joined (checks ∷ parts) = checks ++ joined parts

abbrev step : Check → ValidationError → ValidationError
unfolding add
step c v = if c.failing then add c.field c.message v else v

unfoldable pub run : List Check → ValidationError → ValidationError
unfolding step
run [] v = v
run (c ∷ checks) v = run checks (step c v)
