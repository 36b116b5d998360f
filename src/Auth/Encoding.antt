-- ===== src/Auth/Encoding.antt =====
-- base64.RawURLEncoding and base32.StdEncoding without padding, as randomToken and recoveryCode of
-- apps/manager/internal/auth/service.go use them: the bits of the bytes, in groups of six or five.
use supabase_installer.Prelude.{
  ℕ, zero, suc, ◌+◌, ◌-◌, ◌*◌, ◌/◌, ◌%◌, Bool, true, false, List, [], ◌∷◌, ◌++◌, map, ◌==◌, ltb,
  if◌then◌else◌, Text, take, drop,
}

abbrev bit : Bool → ℕ
bit true = 1
bit false = 0

abbrev power : ℕ → ℕ
power zero = 1
power (suc n) = 2 * power n

-- the lowest `count` bits of a number, the highest first
abbrev bits_of : ℕ → ℕ → List ℕ
bits_of zero n = []
bits_of (suc count) n = (n / power count) % 2 ∷ bits_of count n

abbrev bits : List ℕ → List ℕ
bits [] = []
bits (byte ∷ bytes) = bits_of 8 byte ++ bits bytes

-- groups of `width` bits, the last one filled with zeros; `count` bits of the current one are in `value`
abbrev groups : ℕ → ℕ → ℕ → List ℕ → List ℕ
groups width count value [] = if count == 0 then [] else value * power (width - count) ∷ []
groups width count value (b ∷ rest) =
    let full = value * 2 + b in
    let start = groups width 0 0 rest in
    let more = groups width (suc count) full rest in
    if suc count == width then full ∷ start else more

-- A-Z a-z 0-9 - _
abbrev url_letter : ℕ → ℕ
url_letter n =
    if ltb n 26
    then 65 + n
    else (if ltb n 52
        then 97 + (n - 26)
        else (if ltb n 62 then 48 + (n - 52) else (if n == 62 then 45 else 95)))

-- strings.ToLower of A-Z 2-7
abbrev lower_letter : ℕ → ℕ
lower_letter n = if ltb n 26 then 97 + n else 50 + (n - 26)

unfoldable pub raw_url_encoding : List ℕ → Text
raw_url_encoding bytes = map url_letter (groups 6 0 0 (bits bytes))

unfoldable pub lower_base32 : List ℕ → Text
lower_base32 bytes = map lower_letter (groups 5 0 0 (bits bytes))

-- four groups of four characters
unfoldable pub dashed : Text → Text
dashed encoded =
    take 4 encoded
    ++ (45 ∷ take 4 (drop 4 encoded)
        ++ (45 ∷ take 4 (drop 8 encoded) ++ (45 ∷ take 4 (drop 12 encoded))))
