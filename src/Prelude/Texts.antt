-- ===== src/Prelude/Texts.antt =====
-- Texts that the program walks: lists of code points, with the functions of package strings on them.
use Prim.Native.Nat.{ℕ}
use Prim.Native.Char.{code}
use Prim.Native.String.{String}
use mathlib.Core.Path.{◌≡◌, refl}
use native.Mathlib.Omega.{arith}
use mathlib.Core.Bool.{Bool, true, false, ◌&&◌, ◌||◌}
use mathlib.Core.List.{List, [], ◌∷◌}
use supabase_installer.Prelude.Tests.{leb, ◌==◌, if◌then◌else◌}

abbrev pub codes : String → List ℕ
codes String.[] = []
codes (String.◌∷◌ c s) = code c ∷ codes s

abbrev pub Text : Type 0
Text = List ℕ

abbrev pub is_lower : ℕ → Bool
is_lower c = leb b'a' c && leb c b'z'

abbrev pub is_digit : ℕ → Bool
is_digit c = leb b'0' c && leb c b'9'

-- [a-z0-9]
abbrev pub is_alnum : ℕ → Bool
is_alnum c = is_lower c || is_digit c

abbrev pub dash : ℕ
dash = b'-'

-- [a-z0-9-]
abbrev pub is_label_char : ℕ → Bool
is_label_char c = is_alnum c || c == dash

abbrev pub trim_left : (ℕ → Bool) → Text → Text
trim_left p [] = []
trim_left p (c ∷ s) = let rest = trim_left p s in if p c then rest else c ∷ s

abbrev pub keep_tail : Bool → ℕ → Text → Text
keep_tail drop c [] = if drop then [] else c ∷ []
keep_tail drop c (d ∷ s) = c ∷ d ∷ s

abbrev pub trim_right : (ℕ → Bool) → Text → Text
trim_right p [] = []
trim_right p (c ∷ s) = keep_tail (p c) c (trim_right p s)

-- strings.Trim and strings.TrimSpace, with the set that they cut
abbrev pub trim : (ℕ → Bool) → Text → Text
trim p s = trim_right p (trim_left p s)

abbrev pub is_nil : Text → Bool
is_nil [] = true
is_nil (_ ∷ _) = false

-- the last character satisfies the test
abbrev pub ends_with : (ℕ → Bool) → Text → Bool
ends_with p [] = false
ends_with p (c ∷ []) = p c
ends_with p (_ ∷ d ∷ s) = ends_with p (d ∷ s)

-- strings.HasPrefix
abbrev pub has_prefix : Text → Text → Bool
has_prefix [] s = true
has_prefix (c ∷ p) [] = false
has_prefix (c ∷ p) (d ∷ s) = c == d && has_prefix p s

-- equality of texts
abbrev pub same_text : Text → Text → Bool
same_text [] [] = true
same_text [] (_ ∷ _) = false
same_text (_ ∷ _) [] = false
same_text (c ∷ s) (d ∷ t) = c == d && same_text s t

pub same_text-eq : (a b : Text) → same_text a b ≡ true → a ≡ b
same_text-eq [] [] p = refl
same_text-eq [] (_ ∷ _) p = cc
same_text-eq (_ ∷ _) [] p = cc
same_text-eq (c ∷ a) (d ∷ b) p =
    let tail : same_text a b ≡ true = ground arith in
    let head : c ≡ d = ground arith in let rest = same_text-eq a b tail in cc

pub same_text_self : (a : Text) → same_text a a ≡ true
same_text_self [] = refl
same_text_self (c ∷ a) = let rest = same_text_self a in ground arith
