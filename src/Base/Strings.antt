-- ===== src/Base/Strings.antt =====
-- What the source uses of Rust's `str`, on text whose letters are ASCII: `to_lowercase` maps the
-- letters A to Z and leaves every other code point as it is.
use rfo_protocol.Base.Tests.{ltb, leb, ◌==◌, if◌then◌else◌}
use rfo_protocol.Base.Lists.{length, drop}
use rfo_protocol.Base.Words.{Text}
use rfo_protocol.Base.Keys.{text_beq}
use Prim.Native.Nat.{ℕ, zero, suc, ◌+◌, ◌-◌, ◌/◌, ◌%◌}
use mathlib.Core.Bool.{Bool, true, false, ◌&&◌, ◌||◌}
use mathlib.Core.Option.{Option, none, some}
use mathlib.Core.List.{List, [], ◌∷◌, ◌++◌, map}

-- `char::is_whitespace`
unfoldable pub is_whitespace : ℕ → Bool
is_whitespace c =
    (leb 9 c && leb c 13)
    || c == 32
    || c == 0x85
    || c == 0xa0
    || c == 0x1680
    || (leb 0x2000 c && leb c 0x200a)
    || c == 0x2028
    || c == 0x2029
    || c == 0x202f
    || c == 0x205f
    || c == 0x3000

unfoldable pub trim_start : Text → Text
unfolding is_whitespace
trim_start [] = []
trim_start (c ∷ cs) = if is_whitespace c then trim_start cs else c ∷ cs

-- `s.is_empty()`
abbrev pub is_empty : Text → Bool
is_empty [] = true
is_empty (c ∷ cs) = false

unfoldable pub trim_end : Text → Text
unfolding is_whitespace
trim_end [] = []
trim_end (c ∷ cs) =
    let rest = trim_end cs in if is_whitespace c && is_empty rest then [] else c ∷ rest

unfoldable pub trim : Text → Text
unfolding trim_start trim_end
trim s = trim_end (trim_start s)

unfoldable pub to_lower : ℕ → ℕ
to_lower c = if leb 65 c && leb c 90 then c + 32 else c

unfoldable pub to_lowercase : Text → Text
unfolding to_lower
to_lowercase = map to_lower

-- `s.ends_with(suffix)`
unfoldable pub ends_with : Text → Text → Bool
ends_with s suffix =
    leb (length suffix) (length s) && text_beq (drop (length s - length suffix) s) suffix

-- `s.starts_with(prefix)`
unfoldable pub starts_with : Text → Text → Bool
starts_with s [] = true
starts_with [] (p ∷ ps) = false
starts_with (c ∷ cs) (p ∷ ps) = (c == p) && starts_with cs ps

-- `s.contains(part)`
unfoldable pub contains : Text → Text → Bool
unfolding starts_with
contains [] part = starts_with [] part
contains (c ∷ cs) part = starts_with (c ∷ cs) part || contains cs part

-- `as_bytes`: the UTF-8 form of a code point, and of a text.
utf8_char : ℕ → List ℕ
utf8_char c =
    if ltb c 0x80
    then c ∷ []
    else if ltb c 0x800
    then (0xc0 + c / 64) ∷ (0x80 + c % 64) ∷ []
    else if ltb c 0x10000
    then (0xe0 + c / 4096) ∷ (0x80 + c / 64 % 64) ∷ (0x80 + c % 64) ∷ []
    else (0xf0 + c / 262144) ∷ (0x80 + c / 4096 % 64) ∷ (0x80 + c / 64 % 64) ∷ (0x80 + c % 64) ∷ []

unfoldable pub as_bytes : Text → List ℕ
unfolding utf8_char
as_bytes [] = []
as_bytes (c ∷ cs) = utf8_char c ++ as_bytes cs

-- Puts a code point in front of the first part.
abbrev extend_first : ℕ → List Text → List Text
extend_first c [] = (c ∷ []) ∷ []
extend_first c (part ∷ parts) = (c ∷ part) ∷ parts

-- `s.split(separator)`
unfoldable pub split : ℕ → Text → List Text
split separator [] = [] ∷ []
split separator (c ∷ cs) =
    let parts = split separator cs in if c == separator then [] ∷ parts else extend_first c parts

abbrev extend_left : ℕ → Option (Text × Text) → Option (Text × Text)
extend_left c none = none
extend_left c (some (left, right)) = some (c ∷ left, right)

-- `s.splitn(2, separator)` where it has two parts.
unfoldable pub split_once : ℕ → Text → Option (Text × Text)
split_once separator [] = none
split_once separator (c ∷ cs) =
    let later = split_once separator cs in
    if c == separator then some ([], cs) else extend_left c later

-- `s.join(separator)`
unfoldable pub join : Text → List Text → Text
join separator [] = []
join separator (part ∷ []) = part
join separator (part ∷ next ∷ parts) = part ++ (separator ++ join separator (next ∷ parts))

-- `s.strip_prefix(prefix)`
unfoldable pub strip_prefix : Text → Text → Option Text
strip_prefix s [] = some s
strip_prefix [] (p ∷ ps) = none
strip_prefix (c ∷ cs) (p ∷ ps) = let later = strip_prefix cs ps in if c == p then later else none

-- `s.trim_start_matches(c)`
unfoldable pub trim_start_matches : ℕ → Text → Text
trim_start_matches d [] = []
trim_start_matches d (c ∷ cs) = if c == d then trim_start_matches d cs else c ∷ cs

-- A carriage return in front of the line's end belongs to it.
unfoldable pub strip_return : Text → Text
strip_return [] = []
strip_return (c ∷ []) = if c == 13 then [] else c ∷ []
strip_return (c ∷ d ∷ cs) = c ∷ strip_return (d ∷ cs)

-- What follows the last line's end is a line only where it is not empty.
unfoldable pub ended : List Text → List Text
unfolding strip_return
ended [] = []
ended (last ∷ []) = if is_empty last then [] else last ∷ []
ended (line ∷ next ∷ more) = strip_return line ∷ ended (next ∷ more)

-- `s.lines()`
unfoldable pub lines : Text → List Text
unfolding ended split
lines s = ended (split 10 s)

-- The matches that are found from the left, none overlapping another; `skip` letters are part of the
-- last one.
unfoldable pub matches_from : Text → ℕ → Text → ℕ
unfolding starts_with
matches_from part skip [] = 0
matches_from part (suc skip) (c ∷ cs) = matches_from part skip cs
matches_from part zero (c ∷ cs) =
    let found = starts_with (c ∷ cs) part in
    (if found then 1 else 0) + matches_from part (if found then length part - 1 else 0) cs

-- `s.matches(part).count()`, for a part that is not empty.
unfoldable pub match_count : Text → Text → ℕ
unfolding matches_from
match_count s part = matches_from part 0 s
