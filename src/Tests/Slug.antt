-- ===== src/Tests/Slug.antt =====
-- apps/manager/internal/project/slug.go, with the tables of ASCII.
use supabase_installer.Prelude.{
  ℕ, Bool, ◌&&◌, not, ◌+◌, ◌==◌, leb, if◌then◌else◌, ◌≡◌, refl, Text, codes, is_alnum, is_nil,
  length, select, map, trim,
}
use supabase_installer.Slug.{normalize_slug, write_rune, write_runes, matches_slug}
use supabase_installer.Slug.Shape.{matches_slug-normalize_slug}
use supabase_installer.Slug.Content.{normalize_slug_letters}

-- strings.ToLower and unicode.IsSpace on ASCII
abbrev to_lower : ℕ → ℕ
to_lower c = if leb 65 c && leb c 90 then c + 32 else c

abbrev is_space : ℕ → Bool
is_space c = c == 32

abbrev name : Text
name = codes " My Blog_2 "

normalized : normalize_slug to_lower is_space name ≡ codes "my-blog-2"
unfolding normalize_slug write_rune write_runes
normalized = refl

matches_slug-normalize_slug_example : matches_slug (normalize_slug to_lower is_space name) ≡ (
    not (is_nil (normalize_slug to_lower is_space name))
    && leb (length (normalize_slug to_lower is_space name)) 63)
matches_slug-normalize_slug_example = matches_slug-normalize_slug to_lower is_space name

normalize_slug_letters_example :
    select is_alnum (normalize_slug to_lower is_space name)
    ≡ select is_alnum (map to_lower (trim is_space name))
normalize_slug_letters_example = normalize_slug_letters to_lower is_space name
