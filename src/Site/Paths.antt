-- ===== src/Site/Paths.antt =====
-- path/filepath as apps/nginxproxy/internal/site/store.go uses it, on paths with the separator `/`:
-- Clean, Dir and Join.
use supabase_installer.Prelude.{
  ℕ, Bool, true, false, ◌||◌, List, [], ◌∷◌, ◌++◌, ◌==◌, if◌then◌else◌, Text, codes, same_text,
  is_nil,
}

abbrev slash : ℕ
slash = 47

abbrev cons_first : ℕ → List Text → List Text
cons_first c [] = (c ∷ []) ∷ []
cons_first c (word ∷ words) = (c ∷ word) ∷ words

-- the text between the separators
unfoldable pub split : Text → List Text
split [] = [] ∷ []
split (c ∷ s) = let rest = split s in if c == slash then [] ∷ rest else cons_first c rest

abbrev dots : Text
dots = codes ".."

-- the elements so far, the last one first: `..` takes one away, and stays at the start of a relative path
abbrev pop : Bool → List Text → List Text
pop absolute [] = if absolute then [] else dots ∷ []
pop absolute (e ∷ es) = if same_text e dots then dots ∷ e ∷ es else es

abbrev push : Bool → List Text → Text → List Text
push absolute es word =
    if is_nil word || same_text word (codes ".")
    then es
    else (if same_text word dots then pop absolute es else word ∷ es)

abbrev push_all : Bool → List Text → List Text → List Text
push_all absolute es [] = es
push_all absolute es (word ∷ words) = push_all absolute (push absolute es word) words

abbrev is_absolute : Text → Bool
is_absolute [] = false
is_absolute (c ∷ s) = c == slash

-- the elements of the cleaned path, the last one first
unfoldable pub clean_elements : Text → List Text
unfolding split
clean_elements path = push_all (is_absolute path) [] (split path)

abbrev slashed : List Text → Text
slashed [] = []
slashed (e ∷ []) = e
slashed (e ∷ es) = slashed es ++ (slash ∷ []) ++ e

abbrev pub print : Bool → List Text → Text
print true es = slash ∷ slashed es
print false [] = codes "."
print false (e ∷ es) = slashed (e ∷ es)

-- filepath.Clean
unfoldable pub clean : Text → Text
unfolding clean_elements
clean path = print (is_absolute path) (clean_elements path)

abbrev parent : List Text → List Text
parent [] = []
parent (_ ∷ es) = es

-- filepath.Dir of a cleaned path
unfoldable pub dir : Text → Text
unfolding clean_elements
dir path = print (is_absolute path) (parent (clean_elements path))

-- filepath.Join of two elements, the second not empty
unfoldable pub join : Text → Text → Text
unfolding clean
join a b = if is_nil a then clean b else clean (a ++ (slash ∷ []) ++ b)
