-- ===== src/Slug.antt =====
-- apps/manager/internal/project/slug.go, and `slugPattern` of validate.go: the slug that is made of a
-- server's name. The Unicode tables of `strings.ToLower` and `unicode.IsSpace` are parameters; a rune
-- is its code point.
pub mod Shape
pub mod Content
use supabase_installer.Prelude.{
  ℕ, Bool, true, false, ◌&&◌, ◌||◌, not, List, [], ◌∷◌, ◌++◌, map, leb, ◌==◌, length, every,
  if◌then◌else◌, Text, is_alnum, is_label_char, dash, trim, is_nil, ends_with,
}

-- the variables of the loop
pub record Builder : Type 0 where
  pub slug : Text
  pub separator_pending : Bool

module _ (is_space : ℕ → Bool) where
  -- the body of the loop, its three cases
  unfoldable pub write_rune : ℕ → Builder → Builder
  write_rune r b =
      if is_alnum r
      then record {
        slug =
            (if b.separator_pending && not (is_nil b.slug) then b.slug ++ dash ∷ [] else b.slug)
            ++ r ∷ [];
        separator_pending = false;
      }
      else if r == dash || r == b'_' || is_space r
      then record b { separator_pending = not (is_nil b.slug) }
      else record b { separator_pending = not (is_nil b.slug) }

  unfoldable pub write_runes : Text → Builder → Builder
  write_runes [] b = b
  write_runes (r ∷ rs) b = write_runes rs (write_rune r b)

module _ (to_lower : ℕ → ℕ) (is_space : ℕ → Bool) where
  unfoldable pub normalize_slug : Text → Text
  unfolding write_rune write_runes
  normalize_slug name =
      trim (λ c. c == dash)
        (write_runes is_space (map to_lower (trim is_space name))
          (record { slug = []; separator_pending = false })).slug

-- ^[a-z0-9](?:[a-z0-9-]{0,61}[a-z0-9])?$
unfoldable pub matches_slug : Text → Bool
matches_slug [] = false
matches_slug (c ∷ s) =
    is_alnum c && (is_nil s || (leb (length s) 62 && every is_label_char s && ends_with is_alnum s))
