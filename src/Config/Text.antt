-- ===== src/Config/Text.antt =====
-- The methods of `str` that fproxy-rs/src/config.rs calls, on lists of code points.
use Prim.Native.Char.{code}
use Prim.Native.String.{String}
use fproxy.Base.{
  ℕ, ◌+◌, ◌-◌, ◌*◌, Bool, true, false, ◌&&◌, ◌||◌, List, [], ◌∷◌, Option, none, some, ltb, leb,
  ◌==◌, if◌then◌else◌, u64_mod, is_some,
}
use fproxy.Config.{Text}

-- The code points of a literal.
abbrev pub text : String → Text
text String.[] = []
text (String.◌∷◌ c s) = code c ∷ text s

abbrev pub is_empty : Text → Bool
is_empty [] = true
is_empty (c ∷ s) = false

abbrev pub push : ℕ → List Text → List Text
push c [] = (c ∷ []) ∷ []
push c (part ∷ parts) = (c ∷ part) ∷ parts

-- `s.split(c)`: never empty, one more part than there are `c`.
unfoldable pub split : ℕ → Text → List Text
split c [] = [] ∷ []
split c (x ∷ s) = let parts = split c s in if x == c then [] ∷ parts else push x parts

-- The characters of Unicode's property White_Space.
abbrev pub is_whitespace : ℕ → Bool
is_whitespace c =
    (leb 9 c && leb c 13)
    || c == 32
    || c == 133
    || c == 160
    || c == 5760
    || (leb 8192 c && leb c 8202)
    || c == 8232
    || c == 8233
    || c == 8239
    || c == 8287
    || c == 12288

unfoldable pub trim_start : Text → Text
trim_start [] = []
trim_start (c ∷ s) = let rest = trim_start s in if is_whitespace c then rest else c ∷ s

unfoldable pub trim_end : Text → Text
trim_end [] = []
trim_end (c ∷ s) =
    let rest = trim_end s in if is_empty rest && is_whitespace c then [] else c ∷ rest

unfoldable pub trim : Text → Text
trim s = trim_end (trim_start s)

abbrev pub to_lower : ℕ → ℕ
to_lower c = if leb b'A' c && leb c b'Z' then c + 32 else c

-- `to_lowercase` where it is compared with a word of a-z. The other characters whose lower case has
-- such a letter are U+0130, which becomes two characters, and U+212A, which becomes `k`; neither
-- gives one of the words that the code looks for.
unfoldable pub to_lowercase : Text → Text
to_lowercase [] = []
to_lowercase (c ∷ s) = to_lower c ∷ to_lowercase s

unfoldable pub text_eq : Text → Text → Bool
text_eq [] [] = true
text_eq [] (y ∷ t) = false
text_eq (x ∷ s) [] = false
text_eq (x ∷ s) (y ∷ t) = x == y && text_eq s t

-- `s.strip_prefix(prefix)`.
unfoldable pub strip_prefix : Text → Text → Option Text
strip_prefix s [] = some s
strip_prefix [] (p ∷ prefix) = none
strip_prefix (x ∷ s) (p ∷ prefix) = if x == p then strip_prefix s prefix else none

abbrev pub starts_with : Text → Text → Bool
starts_with s prefix = is_some (strip_prefix s prefix)

-- `&s[..i]` for `i` with `s.find(c) == Some(i)`.
unfoldable pub before_first : ℕ → Text → Option Text
before_first c [] = none
before_first c (x ∷ s) =
    let rest = before_first c s in
    if x == c then some [] else elim rest [ none ↦ none | some t ↦ some (x ∷ t) ]

-- `&s[..i]` for `i` with `s.rfind(c) == Some(i)`.
unfoldable pub before_last : ℕ → Text → Option Text
before_last c [] = none
before_last c (x ∷ s) = elim (before_last c s) [
  | some t ↦ some (x ∷ t)
  | none ↦ if x == c then some [] else none
]

-- `s.strip_suffix(suffix)`.
unfoldable pub strip_suffix : Text → Text → Option Text
strip_suffix [] suffix = if is_empty suffix then some [] else none
strip_suffix (x ∷ s) suffix =
    let rest = strip_suffix s suffix in
    if text_eq (x ∷ s) suffix then some [] else elim rest [ none ↦ none | some t ↦ some (x ∷ t) ]

abbrev pub is_digit : ℕ → Bool
is_digit c = leb b'0' c && leb c b'9'

-- Digits after the number `n`, as long as it fits.
unfoldable pub digits_from : ℕ → Text → Option ℕ
digits_from n [] = some n
digits_from n (c ∷ s) =
    let m = n * 10 + (c - b'0') in
    let rest = digits_from m s in if is_digit c && ltb m u64_mod then rest else none

-- `s.parse::<u64>().ok()`.
unfoldable pub parse_u64 : Text → Option ℕ
parse_u64 [] = none
parse_u64 (c ∷ s) =
    let digits = digits_from 0 (c ∷ s) in
    let after_sign = digits_from 0 s in
    if c == b'+' then (if is_empty s then none else after_sign) else digits
