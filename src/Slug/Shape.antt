-- ===== src/Slug/Shape.antt =====
-- The shape of a normalized name in apps/manager/internal/project/slug.go.
use supabase_installer.Prelude.{
  ℕ, Bool, true, false, ◌&&◌, ◌||◌, not, [], ◌∷◌, ◌++◌, map, ◌≡◌, refl, sym, ap, ◌∙◌, subst, arith,
  leb, ◌==◌, length, every, Text, is_alnum, is_label_char, dash, trim, trim_left, trim_right,
  keep_tail, is_nil, ends_with,
}
use supabase_installer.Slug.{Builder, write_rune, write_runes, normalize_slug, matches_slug}

-- `need` says that a letter or digit must come next
abbrev pub shape : Bool → Text → Bool
shape need [] = not need
shape need (c ∷ s) = (is_alnum c || (c == dash && not need)) && shape (not (is_alnum c)) s

shape-append :
    (need : Bool) (s : Text) (c : ℕ)
    → shape need s ≡ true
    → is_alnum c ≡ true
    → shape need (s ++ c ∷ []) ≡ true
shape-append need [] c h a = ground arith
shape-append need (d ∷ s) c h a = ground (arith, shape-append (not (is_alnum d)) s c)

shape-dash :
    (need : Bool) (s : Text) (c : ℕ)
    → shape need s ≡ true
    → is_alnum c ≡ true
    → shape need ((s ++ dash ∷ []) ++ c ∷ []) ≡ true
shape-dash need [] c h a = ground arith
shape-dash need (d ∷ s) c h a = ground (arith, shape-dash (not (is_alnum d)) s c)

-- a slug that the loop has built so far
abbrev pub IsSlug : Text → Type 0
IsSlug s = (is_nil s || shape true s) ≡ true

write_rune-IsSlug :
    (is_space : ℕ → Bool) (r : ℕ) (b : Builder)
    → IsSlug b.slug
    → IsSlug (write_rune is_space r b).slug
unfolding write_rune
write_rune-IsSlug is_space r b h =
    ground (arith, shape-append true b.slug r, shape-dash true b.slug r)

pub write_runes-IsSlug :
    (is_space : ℕ → Bool) (rs : Text) (b : Builder)
    → IsSlug b.slug
    → IsSlug (write_runes is_space rs b).slug
unfolding write_runes
write_runes-IsSlug is_space [] b h = h
write_runes-IsSlug is_space (r ∷ rs) b h =
    write_runes-IsSlug is_space rs (write_rune is_space r b) (write_rune-IsSlug is_space r b h)

trim_right-shape :
    (need : Bool) (s : Text) → shape need s ≡ true → trim_right (λ c. c == dash) s ≡ s
trim_right-shape need [] h = refl
trim_right-shape need (c ∷ []) h = ground arith
trim_right-shape need (c ∷ d ∷ s) h =
    let rest = trim_right-shape (not (is_alnum c)) (d ∷ s) (ground arith) in
    ap (keep_tail (c == dash) c) rest

pub trim-IsSlug : (s : Text) → IsSlug s → trim (λ c. c == dash) s ≡ s
trim-IsSlug [] h = refl
trim-IsSlug (c ∷ s) h =
    let kept : trim_left (λ d. d == dash) (c ∷ s) ≡ c ∷ s = ground arith in
    ap (trim_right (λ d. d == dash)) kept ∙ trim_right-shape true (c ∷ s) h

-- Whatever the tables of Unicode say, a normalized name is empty or has the shape of a slug.
pub normalize_slug-IsSlug :
    (to_lower : ℕ → ℕ) (is_space : ℕ → Bool) (name : Text)
    → IsSlug (normalize_slug to_lower is_space name)
unfolding normalize_slug
normalize_slug-IsSlug to_lower is_space name =
    let s =
      (write_runes is_space (map to_lower (trim is_space name))
        (record { slug = []; separator_pending = false })).slug in
    let h =
      write_runes-IsSlug is_space (map to_lower (trim is_space name))
        (record { slug = []; separator_pending = false }) refl in
    subst IsSlug (sym (trim-IsSlug s h)) h

pub every-shape : (need : Bool) (s : Text) → shape need s ≡ true → every is_label_char s ≡ true
every-shape need [] h = refl
every-shape need (c ∷ s) h = ground (arith, every-shape (not (is_alnum c)) s)

ends-shape :
    (need : Bool) (c : ℕ) (s : Text) → shape need (c ∷ s) ≡ true → ends_with is_alnum (c ∷ s) ≡ true
ends-shape need c [] h = ground arith
ends-shape need c (d ∷ s) h = ends-shape (not (is_alnum c)) d s (ground arith)

shaped_matches : (s : Text) → IsSlug s → matches_slug s ≡ (not (is_nil s) && leb (length s) 63)
unfolding matches_slug
shaped_matches [] h = refl
shaped_matches (c ∷ []) h = ground arith
shaped_matches (c ∷ d ∷ s) h =
    ground (arith, every-shape (not (is_alnum c)) (d ∷ s), ends-shape (not (is_alnum c)) d s)

-- A normalized name is accepted by `slugPattern` exactly when it has 1 to 63 characters.
pub matches_slug-normalize_slug :
    (to_lower : ℕ → ℕ) (is_space : ℕ → Bool) (name : Text)
    → let s = normalize_slug to_lower is_space name in
      matches_slug s ≡ (not (is_nil s) && leb (length s) 63)
matches_slug-normalize_slug to_lower is_space name =
    shaped_matches (normalize_slug to_lower is_space name)
      (normalize_slug-IsSlug to_lower is_space name)
