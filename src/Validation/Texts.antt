-- ===== src/Validation/Texts.antt =====
-- apps/manager/internal/project/validate.go: hostnames and URLs. The parsers of packages net, net/url and net/mail
-- and the spaces of Unicode are parameters.
use supabase_installer.Prelude.{
  ℕ, ◌+◌, Bool, false, ◌&&◌, ◌||◌, not, Option, none, some, List, [], ◌∷◌, ltb, leb, ◌==◌,
  if◌then◌else◌, Text, codes, is_nil, same_text, has_prefix, every, any,
}
use supabase_installer.Slug.{matches_slug}

pub record Url : Type 0 where
  pub scheme : Text
  pub host : Text
  -- Hostname() and Port() of the host
  pub hostname : Text
  pub port : Text
  pub path : Text
  pub raw_query : Text
  pub fragment : Text
  -- User is not nil
  pub has_user : Bool

pub record Address : Type 0 where
  pub name : Text
  pub address : Text

-- what is called of the packages net, net/url, net/mail and unicode
pub record Packages : Type 0 where
  pub is_space : ℕ → Bool
  pub parse_request_uri : Text → Option Url
  pub split_host_port : Text → Option Text
  pub is_ip : Text → Bool
  pub parse_address : Text → Option Address

-- len of a string: the bytes of its UTF-8 form
abbrev rune_len : ℕ → ℕ
rune_len c = if ltb c 128 then 1 else (if ltb c 2048 then 2 else (if ltb c 65536 then 3 else 4))

abbrev pub byte_len : Text → ℕ
byte_len [] = 0
byte_len (c ∷ s) = rune_len c + byte_len s

-- strings.Contains
abbrev pub contains : Text → Text → Bool
contains part [] = is_nil part
contains part (c ∷ s) = has_prefix part (c ∷ s) || contains part s

-- strings.HasSuffix
abbrev pub has_suffix : Text → Text → Bool
has_suffix suffix [] = is_nil suffix
has_suffix suffix (c ∷ s) = same_text (c ∷ s) suffix || has_suffix suffix s

abbrev cons_first : ℕ → List Text → List Text
cons_first c [] = (c ∷ []) ∷ []
cons_first c (word ∷ words) = (c ∷ word) ∷ words

-- strings.Split at one character
abbrev pub split_at : ℕ → Text → List Text
split_at d [] = [] ∷ []
split_at d (c ∷ s) = let rest = split_at d s in if c == d then [] ∷ rest else cons_first c rest

module _ (packages : Packages) where
  -- strings.TrimSpace(s) == ""
  abbrev pub is_blank : Text → Bool
  is_blank s = every packages.is_space s

  abbrev pub is_http : Option Url → Bool
  is_http none = false
  is_http (some u) =
      (same_text u.scheme (codes "http") || same_text u.scheme (codes "https"))
      && not (is_nil u.host)

  unfoldable pub valid_absolute_http_url : Text → Bool
  valid_absolute_http_url value = is_http (packages.parse_request_uri value)

  abbrev host_of : Text → Option Text → Text
  host_of value none = value
  host_of value (some host) = host

  abbrev valid_host : Text → Bool
  valid_host host =
      same_text host (codes "localhost")
      || packages.is_ip host
      || (leb (byte_len host) 253
          && contains (codes ".") host
          && every matches_slug (split_at 46 host))

  unfoldable pub valid_domain : Text → Bool
  valid_domain value =
      not (is_nil value || any (λ c. c == 47 || c == 32) value || contains (codes "://") value)
      && valid_host (host_of value (packages.split_host_port value))

  abbrev is_plain : Text → Option Address → Bool
  is_plain value none = false
  is_plain value (some a) = is_nil a.name && same_text a.address value

  -- the test of auth.smtp.senderEmail
  abbrev pub is_email : Text → Bool
  is_email value = is_plain value (packages.parse_address value) && not (is_blank value)
