-- ===== src/Slug/Content.antt =====
-- The characters of a normalized name in apps/manager/internal/project/slug.go.
use supabase_installer.Prelude.{
  ℕ, Bool, true, false, ◌&&◌, ◌||◌, not, List, [], ◌∷◌, ◌++◌, map, ◌≡◌, refl, sym, ap, ◌∙◌, arith,
  select, every, if◌then◌else◌, Bool-cases, inl, inr, Text, is_alnum, is_label_char, dash, trim,
  trim_left, trim_right, keep_tail, is_nil,
}
use mathlib.Core.List.{append-nil, append_assoc}
use supabase_installer.Slug.{Builder, write_rune, write_runes, normalize_slug}
use supabase_installer.Slug.Shape.{
  shape, IsSlug, trim-IsSlug, write_runes-IsSlug, every-shape, normalize_slug-IsSlug,
}

select-append {ℓ} :
    {A : Type ℓ} (p : A → Bool) (xs ys : List A) → select p (xs ++ ys) ≡ select p xs ++ select p ys
select-append p [] ys = refl
select-append p (x ∷ xs) ys = ground (arith, select-append p xs ys)

letters_rune :
    (is_space : ℕ → Bool) (r : ℕ) (b : Builder)
    → select is_alnum (write_rune is_space r b).slug
      ≡ select is_alnum b.slug ++ select is_alnum (r ∷ [])
unfolding write_rune
letters_rune is_space r b = ground (
  arith,
  select-append is_alnum b.slug (r ∷ []),
  select-append is_alnum (b.slug ++ dash ∷ []) (r ∷ []),
  select-append is_alnum b.slug (dash ∷ []),
  append-nil (select is_alnum b.slug),
)

select_cons :
    (r : ℕ) (rs : Text) → select is_alnum (r ∷ []) ++ select is_alnum rs ≡ select is_alnum (r ∷ rs)
select_cons r rs = ground arith

letters_runes :
    (is_space : ℕ → Bool) (rs : Text) (b : Builder)
    → select is_alnum (write_runes is_space rs b).slug
      ≡ select is_alnum b.slug ++ select is_alnum rs
unfolding write_runes
letters_runes is_space [] b = sym (append-nil (select is_alnum b.slug))
letters_runes is_space (r ∷ rs) b =
    letters_runes is_space rs (write_rune is_space r b)
    ∙ ap (λ (x : Text). x ++ select is_alnum rs) (letters_rune is_space r b)
    ∙ append_assoc (select is_alnum b.slug) (select is_alnum (r ∷ [])) (select is_alnum rs)
    ∙ ap (λ (x : Text). select is_alnum b.slug ++ x) (select_cons r rs)

abbrev empty : Builder
empty = record { slug = []; separator_pending = false }

normalize_slug-runes :
    (to_lower : ℕ → ℕ) (is_space : ℕ → Bool) (name : Text)
    → normalize_slug to_lower is_space name
      ≡ (write_runes is_space (map to_lower (trim is_space name)) empty).slug
unfolding normalize_slug
normalize_slug-runes to_lower is_space name =
    let rs = map to_lower (trim is_space name) in
    trim-IsSlug (write_runes is_space rs empty).slug (write_runes-IsSlug is_space rs empty refl)

-- A normalized name has exactly the letters [a-z] and digits of the name in lower case, in order: only
-- other characters are dropped or replaced by dashes.
pub normalize_slug_letters :
    (to_lower : ℕ → ℕ) (is_space : ℕ → Bool) (name : Text)
    → select is_alnum (normalize_slug to_lower is_space name)
      ≡ select is_alnum (map to_lower (trim is_space name))
normalize_slug_letters to_lower is_space name =
    ap (select is_alnum) (normalize_slug-runes to_lower is_space name)
    ∙ letters_runes is_space (map to_lower (trim is_space name)) empty

-- what precedes the next letter: the slug so far, with the dash that is pending
abbrev joined : Bool → Text → Text
joined need p = if need && not (is_nil p) then p ++ dash ∷ [] else p

rune_alnum :
    (is_space : ℕ → Bool) (c : ℕ) (need : Bool) (p : Text)
    → is_alnum c ≡ true
    → write_rune is_space c (record { slug = p; separator_pending = need && not (is_nil p) })
      ≡ record { slug = joined need p ++ c ∷ []; separator_pending = false }
unfolding write_rune
rune_alnum is_space c need p h = ground arith

rune_other :
    (is_space : ℕ → Bool) (c : ℕ) (b : Builder)
    → is_alnum c ≡ false
    → write_rune is_space c b ≡ record b { separator_pending = not (is_nil b.slug) }
unfolding write_rune
rune_other is_space c b h = ground arith

nil-append : (p : Text) (c : ℕ) → is_nil (p ++ c ∷ []) ≡ false
nil-append [] c = refl
nil-append (d ∷ p) c = refl

after_dash :
    (need : Bool) (c : ℕ) (s p : Text)
    → need ≡ false
    → c ≡ dash
    → (need || not (is_nil p)) ≡ true
    → joined true p ++ s ≡ joined need p ++ c ∷ s
after_dash need c s p e d n = ground (arith, append_assoc p (dash ∷ []) s)

-- the loop over a text that has the shape of a slug already
rebuilt :
    (is_space : ℕ → Bool) (need : Bool) (s p : Text)
    → shape need s ≡ true
    → (need || not (is_nil p)) ≡ true
    → (write_runes is_space s
        (record { slug = p; separator_pending = need && not (is_nil p) })).slug
      ≡ joined need p ++ s
unfolding write_runes
rebuilt is_space false [] p h n = sym (append-nil p)
rebuilt is_space true [] p h n = cc
rebuilt is_space need (c ∷ s) p h n = elim (Bool-cases (is_alnum c)) [
  | inl letter ↦
      let p' = joined need p ++ c ∷ [] in
      ap (λ (b : Builder). (write_runes is_space s b).slug) (rune_alnum is_space c need p letter)
      ∙ rebuilt is_space false s p' (ground arith) (ground (arith, nil-append (joined need p) c))
      ∙ append_assoc (joined need p) (c ∷ []) s
  | inr other ↦
      let b =
        (let x : Builder = record { slug = p; separator_pending = need && not (is_nil p) } in x) in
      ap (λ (x : Builder). (write_runes is_space s x).slug) (rune_other is_space c b other)
      ∙ rebuilt is_space true s p (ground arith) refl
      ∙ after_dash need c s p (ground arith) (ground arith) n
]

lowered :
    (to_lower : ℕ → ℕ) (s : Text)
    → ((c : ℕ) → is_label_char c ≡ true → to_lower c ≡ c)
    → every is_label_char s ≡ true
    → map to_lower s ≡ s
lowered to_lower [] f h = refl
lowered to_lower (c ∷ s) f h =
    let first = f c (ground arith) in
    let rest = lowered to_lower s f (ground arith) in λ i. first i ∷ rest i

kept_left :
    (is_space : ℕ → Bool) (s : Text)
    → ((c : ℕ) → is_label_char c ≡ true → is_space c ≡ false)
    → every is_label_char s ≡ true
    → trim_left is_space s ≡ s
kept_left is_space [] f h = refl
kept_left is_space (c ∷ s) f h = ground (arith, f c)

kept_right :
    (is_space : ℕ → Bool) (s : Text)
    → ((c : ℕ) → is_label_char c ≡ true → is_space c ≡ false)
    → every is_label_char s ≡ true
    → trim_right is_space s ≡ s
kept_right is_space [] f h = refl
kept_right is_space (c ∷ []) f h = ground (arith, f c)
kept_right is_space (c ∷ d ∷ s) f h =
    ap (keep_tail (is_space c) c) (kept_right is_space (d ∷ s) f (ground arith))

label_chars : (s : Text) → IsSlug s → every is_label_char s ≡ true
label_chars [] h = refl
label_chars (c ∷ s) h = every-shape true (c ∷ s) h

slug_rebuilt : (is_space : ℕ → Bool) (s : Text) → IsSlug s → (write_runes is_space s empty).slug ≡ s
slug_rebuilt is_space [] h = unfold write_runes in refl
slug_rebuilt is_space (c ∷ s) h = rebuilt is_space true (c ∷ s) [] h refl

-- With tables that leave the characters of slugs alone (no lower case changes them, and none is a
-- space), normalizing a normalized name returns it as it is.
pub normalize_slug_idem :
    (to_lower : ℕ → ℕ) (is_space : ℕ → Bool) (name : Text)
    → ((c : ℕ) → is_label_char c ≡ true → to_lower c ≡ c)
    → ((c : ℕ) → is_label_char c ≡ true → is_space c ≡ false)
    → let s = normalize_slug to_lower is_space name in normalize_slug to_lower is_space s ≡ s
normalize_slug_idem to_lower is_space name low sp =
    let s = normalize_slug to_lower is_space name in
    let h = normalize_slug-IsSlug to_lower is_space name in
    let all = label_chars s h in
    let left = kept_left is_space s sp all in
    let trimmed : trim is_space s ≡ s =
      ap (trim_right is_space) left ∙ kept_right is_space s sp all in
    let lower : map to_lower (trim is_space s) ≡ s =
      ap (map to_lower) trimmed ∙ lowered to_lower s low all in
    normalize_slug-runes to_lower is_space s
    ∙ ap (λ (x : Text). (write_runes is_space x empty).slug) lower
    ∙ slug_rebuilt is_space s h
