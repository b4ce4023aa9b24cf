-- ===== src/Base/Text.antt =====
-- The functions of Go's `strings` and `strconv` that the program calls, on whole characters. The
-- separators are ASCII, so splitting by character and by byte is the same.
pub mod Laws
pub mod Split
use Prim.Native.Nat.{ℕ, ◌+◌}
use Prim.Native.Char.{Char, code}
use Prim.Native.String.{String}
use mathlib.Core.Bool.{Bool, true, false, ◌&&◌, ◌||◌}
use mathlib.Core.Option.{Option, none, some}
use mathlib.Core.List.{List}
use rke.Base.Tests.{◌==◌, ◌=ₛ◌, leb, if◌then◌else◌}

abbrev pub is : ℕ → Char → Bool
is sep c = code c == sep

-- A character put in front of the first piece.
abbrev pub onto_first : Char → List String → List String
onto_first c List.[] = List.◌∷◌ (String.◌∷◌ c "") List.[]
onto_first c (List.◌∷◌ s ss) = List.◌∷◌ (String.◌∷◌ c s) ss

-- strings.Split(s, sep) for a separator of one character.
unfoldable pub split : ℕ → String → List String
split sep String.[] = List.◌∷◌ "" List.[]
split sep (String.◌∷◌ c s) =
    let rest = split sep s in if is sep c then List.◌∷◌ "" rest else onto_first c rest

abbrev pub before_cons : Char → Option (String × String) → Option (String × String)
before_cons c none = none
before_cons c (some (a, b)) = some (String.◌∷◌ c a, b)

-- strings.SplitN(s, sep, 2), and strings.Cut: both sides of the first separator, if there is one.
unfoldable pub cut : ℕ → String → Option (String × String)
cut sep String.[] = none
cut sep (String.◌∷◌ c s) =
    let rest = cut sep s in if is sep c then some ("", s) else before_cons c rest

unfoldable pub contains_char : ℕ → String → Bool
contains_char sep String.[] = false
contains_char sep (String.◌∷◌ c s) = is sep c || contains_char sep s

-- strings.HasPrefix.
unfoldable pub has_prefix : String → String → Bool
has_prefix s String.[] = true
has_prefix String.[] (String.◌∷◌ p ps) = false
has_prefix (String.◌∷◌ c s) (String.◌∷◌ p ps) = code c == code p && has_prefix s ps

-- What follows a prefix of the same length.
unfoldable pub drop_chars : String → String → String
drop_chars s String.[] = s
drop_chars String.[] (String.◌∷◌ p ps) = ""
drop_chars (String.◌∷◌ c s) (String.◌∷◌ p ps) = drop_chars s ps

-- strings.TrimPrefix.
unfoldable pub trim_prefix : String → String → String
unfolding has_prefix drop_chars
trim_prefix s p = if has_prefix s p then drop_chars s p else s

-- strings.TrimSuffix with a suffix of one character.
unfoldable pub trim_suffix_char : ℕ → String → String
trim_suffix_char sep String.[] = ""
trim_suffix_char sep (String.◌∷◌ c String.[]) = if is sep c then "" else String.◌∷◌ c ""
trim_suffix_char sep (String.◌∷◌ c (String.◌∷◌ d s)) =
    String.◌∷◌ c (trim_suffix_char sep (String.◌∷◌ d s))

-- strings.HasSuffix.
unfoldable pub has_suffix : String → String → Bool
has_suffix String.[] suffix = "" =ₛ suffix
has_suffix (String.◌∷◌ c s) suffix = String.◌∷◌ c s =ₛ suffix || has_suffix s suffix

-- strings.Contains.
unfoldable pub contains : String → String → Bool
unfolding has_prefix
contains String.[] t = has_prefix "" t
contains (String.◌∷◌ c s) t = has_prefix (String.◌∷◌ c s) t || contains s t

-- unicode.IsSpace.
unfoldable pub is_space : Char → Bool
is_space c =
    let n = code c in
    (leb 9 n && leb n 13)
    || n == 32
    || n == 0x85
    || n == 0xa0
    || n == 0x1680
    || (leb 0x2000 n && leb n 0x200a)
    || n == 0x2028
    || n == 0x2029
    || n == 0x202f
    || n == 0x205f
    || n == 0x3000

unfoldable pub trim_left : String → String
unfolding is_space
trim_left String.[] = ""
trim_left (String.◌∷◌ c s) = if is_space c then trim_left s else String.◌∷◌ c s

abbrev pub cons_or_drop : Char → String → String
cons_or_drop c String.[] = if is_space c then "" else String.◌∷◌ c ""
cons_or_drop c (String.◌∷◌ d t) = String.◌∷◌ c (String.◌∷◌ d t)

unfoldable pub trim_right : String → String
unfolding is_space
trim_right String.[] = ""
trim_right (String.◌∷◌ c s) = cons_or_drop c (trim_right s)

-- strings.TrimSpace.
unfoldable pub trim_space : String → String
unfolding trim_left trim_right
trim_space s = trim_right (trim_left s)

-- The character or, for an ASCII capital, its small letter. `strings.ToLower` maps no other character
-- to one of the letters of the texts that the program compares with ("proxy", "ro", "rw").
abbrev lowers_to : Char → Char → Bool
lowers_to c p = let n = code c in if leb b'A' n && leb n b'Z' then n + 32 == code p else n == code p

-- strings.ToLower(s) == t.
unfoldable pub equal_lower : String → String → Bool
equal_lower String.[] String.[] = true
equal_lower (String.◌∷◌ c s) (String.◌∷◌ p t) = lowers_to c p && equal_lower s t
equal_lower _ _ = false

unfoldable pub has_prefix_lower : String → String → Bool
has_prefix_lower s String.[] = true
has_prefix_lower String.[] (String.◌∷◌ p t) = false
has_prefix_lower (String.◌∷◌ c s) (String.◌∷◌ p t) = lowers_to c p && has_prefix_lower s t

-- strings.Contains(strings.ToLower(s), t).
unfoldable pub contains_lower : String → String → Bool
unfolding has_prefix_lower
contains_lower String.[] t = has_prefix_lower "" t
contains_lower (String.◌∷◌ c s) t = has_prefix_lower (String.◌∷◌ c s) t || contains_lower s t
