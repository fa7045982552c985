-- ===== src/Domain.antt =====
-- `RfoDomain` of src/domain.rs: parsing and validation of domains. A site's name is ASCII or not;
-- `is_alphanumeric` of the letters outside ASCII, and the lengths in bytes, are those of Rust's `str`.
pub mod Labels
pub mod Parsing
pub mod Metadata
pub mod Schemas
use rfo_protocol.Base.{
  ℕ, ◌+◌, ◌-◌, Bool, true, false, not, ◌&&◌, ◌||◌, Option, none, some, List, [], ◌∷◌, ◌++◌, Text,
  codes, Outcome, ok, err, ◌==◌, leb, ltb, if◌then◌else◌, length, take,
}
use rfo_protocol.Base.Strings.{is_empty, trim, to_lowercase, ends_with, split, as_bytes}

pub data Tld : Type 0 where
  standard opt : Tld

-- `Display for Tld`
unfoldable pub display_tld : Tld → Text
display_tld standard = []
display_tld opt = codes ".opt"

pub data DomainError : Type 0 where
  empty invalid_format empty_name invalid_characters invalid_hyphen name_too_long : DomainError

-- `Display for DomainError`
unfoldable pub display : DomainError → Text
display empty = codes "domain is empty"
display invalid_format = codes "invalid domain format"
display empty_name = codes "domain name is empty"
display invalid_characters = codes "domain contains invalid characters"
display invalid_hyphen = codes "domain cannot start or end with hyphen"
display name_too_long = codes "domain name exceeds 63 characters"

pub record RfoDomain : Type 0 where
  pub full : Text
  pub name : Text
  pub tld : Tld
  pub is_subdomain : Bool
  pub subdomain : Option Text

-- `parts.join(".")`
unfoldable pub join : List Text → Text
join [] = []
join (part ∷ []) = part
join (part ∷ next ∷ parts) = part ++ (46 ∷ join (next ∷ parts))

-- `parts.last().unwrap()`
unfoldable pub last : Text → List Text → Text
last part [] = part
last part (next ∷ parts) = last next parts

-- `parts[..parts.len() - 1]`
unfoldable pub but_last : Text → List Text → List Text
but_last part [] = []
but_last part (next ∷ parts) = part ∷ but_last next parts

-- The `.opt` branch of `parse`, on the parts of what stands before the suffix.
unfoldable pub parse_opt : Text → List Text → Outcome DomainError RfoDomain
parse_opt full [] = err invalid_format
parse_opt full (part ∷ []) =
    ok (record { full = full; name = part; tld = opt; is_subdomain = false; subdomain = none })
parse_opt full (part ∷ next ∷ parts) = ok (record {
  full = full;
  name = last part (next ∷ parts);
  tld = opt;
  is_subdomain = true;
  subdomain = some (join (but_last part (next ∷ parts)));
})

-- The standard branch, on all the parts: the name is `parts[parts.len() - 2]`, the last of those before
-- the suffix.
unfoldable pub parse_standard : Text → List Text → Outcome DomainError RfoDomain
parse_standard full [] = err invalid_format
parse_standard full (part ∷ []) = err invalid_format
parse_standard full (name ∷ suffix ∷ []) =
    ok (record { full = full; name = name; tld = standard; is_subdomain = false; subdomain = none })
parse_standard full (first ∷ second ∷ third ∷ parts) =
    let rest = but_last second (third ∷ parts) in
    ok (record {
      full = full;
      name = last first rest;
      tld = standard;
      is_subdomain = true;
      subdomain = some (join (but_last first rest));
    })

-- `RfoDomain::parse`
unfoldable pub parse : Text → Outcome DomainError RfoDomain
parse domain =
    let domain_str = to_lowercase (trim domain) in
    if is_empty domain_str
    then err empty
    else if ends_with domain_str (codes ".opt")
    then parse_opt domain_str (split 46 (take (length domain_str - 4) domain_str))
    else parse_standard domain_str (split 46 domain_str)

unfoldable pub is_opt : RfoDomain → Bool
is_opt d = elim d.tld [ opt ↦ true | standard ↦ false ]

unfoldable pub site_id_input : RfoDomain → Text
site_id_input d = d.full

unfoldable pub display_url : RfoDomain → Text
display_url d = codes "https://" ++ d.full

unfoldable pub doc_path : RfoDomain → Text
doc_path d = codes "/rfo/doc/" ++ d.full

unfoldable pub mdoc_path : RfoDomain → Text
mdoc_path d = codes "/rfo/mdoc/" ++ d.full

unfoldable pub stream_path : RfoDomain → Text
stream_path d = codes "/rfo/stream/" ++ d.full

-- `c.is_alphanumeric() || c == '-'`; which code points past ASCII are letters or numbers is a table
-- of Rust's library, and a parameter.
unfoldable pub is_name_char : (ℕ → Bool) → ℕ → Bool
is_name_char other_alphanumeric c =
    (leb 48 c && leb c 57)
    || (leb 65 c && leb c 90)
    || (leb 97 c && leb c 122)
    || (leb 128 c && other_alphanumeric c)
    || c == 45

unfoldable pub all_chars : (ℕ → Bool) → Text → Bool
all_chars test [] = true
all_chars test (c ∷ cs) = test c && all_chars test cs

abbrev pub starts_hyphen : Text → Bool
starts_hyphen [] = false
starts_hyphen (c ∷ cs) = c == 45

unfoldable pub ends_hyphen : Text → Bool
ends_hyphen [] = false
ends_hyphen (c ∷ []) = c == 45
ends_hyphen (c ∷ d ∷ cs) = ends_hyphen (d ∷ cs)

unfoldable pub validate : (ℕ → Bool) → RfoDomain → Outcome DomainError (Unit {0})
validate other_alphanumeric d =
    if is_empty d.name
    then err empty_name
    else if not (all_chars (is_name_char other_alphanumeric) d.name)
    then err invalid_characters
    else if starts_hyphen d.name || ends_hyphen d.name
    then err invalid_hyphen
    else if ltb 63 (length (as_bytes d.name))
    then err name_too_long
    else ok tt
