-- ===== src/Store/Times.antt =====
-- formatTime of apps/manager/internal/store/projects.go, as SQLite compares its texts: time.RFC3339Nano drops the zeros
-- at the end of a fraction of a second, and the fraction with them. A time is the number of nanoseconds.
use supabase_installer.Prelude.{
  ℕ, zero, suc, ◌*◌, ◌/◌, ◌%◌, ◌+◌, Bool, true, false, ◌&&◌, ◌||◌, [], ◌∷◌, ◌++◌, ◌==◌, ltb, Text,
  trim_right,
}

abbrev power_ten : ℕ → ℕ
power_ten zero = 1
power_ten (suc n) = 10 * power_ten n

-- the lowest `count` decimal digits, the highest first
abbrev decimals : ℕ → ℕ → Text
decimals zero n = []
decimals (suc count) n = (48 + (n / power_ten count) % 10) ∷ decimals count n

abbrev pointed : Text → Text
pointed [] = []
pointed (c ∷ s) = 46 ∷ c ∷ s

-- what follows the seconds: ".5Z" or "Z"
abbrev pub fraction_text : ℕ → Text
fraction_text time = pointed (trim_right (λ c. c == 48) (decimals 9 (time % 1000000000))) ++ 90 ∷ []

-- the order of two texts
abbrev pub text_at_most : Text → Text → Bool
text_at_most [] t = true
text_at_most (c ∷ s) [] = false
text_at_most (c ∷ s) (d ∷ t) = let rest = text_at_most s t in ltb c d || (c == d && rest)

-- formatTime(a) <= formatTime(b); up to the seconds the texts are as wide as each other
unfoldable pub time_at_most : ℕ → ℕ → Bool
time_at_most a b =
    let fractions = text_at_most (fraction_text a) (fraction_text b) in
    ltb (a / 1000000000) (b / 1000000000) || (a / 1000000000 == b / 1000000000 && fractions)
