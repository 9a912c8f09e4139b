-- ===== src/Config/IpAddr.antt =====
-- `str::parse::<IpAddr>` of the standard library, which fproxy-rs/src/config.rs uses to tell
-- addresses from names. A parser takes a text and gives a value with what is left of the text.
use fproxy.Base.{
  ℕ, zero, suc, ◌+◌, ◌-◌, ◌*◌, Bool, true, false, ◌&&◌, ◌||◌, not, List, [], ◌∷◌, ◌++◌, Option,
  none, some, ltb, leb, ◌==◌, if◌then◌else◌, length,
}
use fproxy.Config.{Text}

pub data Ip : Type 0 where
  v4 v6 : List ℕ → Ip

abbrev Parser : Type 0 → Type 0
Parser A = Text → Option (A × Text)

abbrev then_parse : {A B : Type 0} → Option (A × Text) → (A → Parser B) → Option (B × Text)
then_parse none f = none
then_parse (some (a, s)) f = f a s

abbrev or_parse : {A : Type 0} → Option A → Option A → Option A
or_parse none p = p
or_parse (some a) p = some a

given_char : ℕ → Parser Unit
given_char c [] = none
given_char c (x ∷ s) = if x == c then some (tt, s) else none

abbrev digit : ℕ → ℕ → Option ℕ
digit radix c =
    if leb b'0' c && leb c b'9'
    then some (c - b'0')
    else if radix == 16 && leb b'a' c && leb c b'f'
    then some (c - b'a' + 10)
    else if radix == 16 && leb b'A' c && leb c b'F'
    then some (c - b'A' + 10)
    else none

-- At most `most` digits after the number `n`; a digit too many, or a number above `top`, fails.
digits : ℕ → ℕ → ℕ → ℕ → Parser ℕ
digits radix top most n [] = some (n, [])
digits radix top zero n (c ∷ s) = elim (digit radix c) [ none ↦ some (n, c ∷ s) | some d ↦ none ]
digits radix top (suc most) n (c ∷ s) = elim (digit radix c) [
  | none ↦ some (n, c ∷ s)
  | some d ↦ if ltb top (n * radix + d) then none else digits radix top most (n * radix + d) s
]

abbrev starts_with_digit : ℕ → Text → Bool
starts_with_digit radix [] = false
starts_with_digit radix (c ∷ s) = elim (digit radix c) [ none ↦ false | some d ↦ true ]

-- A decimal octet without leading zeros.
octet : Parser ℕ
unfolding digits
octet [] = none
octet (c ∷ s) =
    if not (starts_with_digit 10 (c ∷ s)) || c == b'0' && starts_with_digit 10 s
    then none
    else digits 10 255 3 0 (c ∷ s)

hex_group : Parser ℕ
unfolding digits
hex_group s = if starts_with_digit 16 s then digits 16 65535 4 0 s else none

-- What comes after a separator, which the first part does not have.
after_separator : {A : Type 0} → Bool → ℕ → Parser A → Parser A
unfolding given_char
after_separator first c p s = if first then p s else then_parse (given_char c s) (λ u. p)

read_ipv4 : Parser (List ℕ)
unfolding octet after_separator
read_ipv4 s = then_parse (octet s) (λ a s1.
    then_parse (after_separator false b'.' octet s1) (λ b s2.
      then_parse (after_separator false b'.' octet s2) (λ c s3.
        then_parse (after_separator false b'.' octet s3) (λ d s4. some (a ∷ b ∷ c ∷ d ∷ [], s4)))))

abbrev as_groups : List ℕ → List ℕ
as_groups (a ∷ b ∷ c ∷ d ∷ []) = (a * 256 + b) ∷ (c * 256 + d) ∷ []
as_groups other = other

-- At most `limit` groups, the first of them without a colon before it, and whether they end with an
-- address of version 4, which takes the room of two.
read_groups : Bool → ℕ → Text → List ℕ × Bool × Text
unfolding read_ipv4 hex_group after_separator
read_groups first zero s = ([], false, s)
read_groups first (suc limit) s =
    let embedded = if ltb 0 limit then after_separator first b':' read_ipv4 s else none in
    elim embedded [
      | some (parts, rest) ↦ (as_groups parts, true, rest)
      | none ↦ elim (after_separator first b':' hex_group s) [
        | none ↦ ([], false, s)
        | some (group, rest) ↦
            let (groups, with_v4, left) = read_groups false limit rest in
            (group ∷ groups, with_v4, left)
      ]
    ]

zeros : ℕ → List ℕ
zeros zero = []
zeros (suc n) = 0 ∷ zeros n

-- Eight groups, or fewer around a `::`.
read_ipv6 : Parser (List ℕ)
unfolding read_groups given_char zeros
read_ipv6 s =
    let (head, with_v4, rest) = read_groups true 8 s in
    if length head == 8
    then some (head, rest)
    else if with_v4
    then none
    else then_parse (given_char b':' rest) (λ u s1. then_parse (given_char b':' s1) (λ v s2.
      let (tail, tail_with_v4, left) = read_groups true (8 - (length head + 1)) s2 in
      some (head ++ zeros (8 - (length head + length tail)) ++ tail, left)))

abbrev to_ip : (List ℕ → Ip) → Option (List ℕ × Text) → Option (Ip × Text)
to_ip make none = none
to_ip make (some (parts, s)) = some (make parts, s)

abbrev whole : Option (Ip × Text) → Option Ip
whole none = none
whole (some (ip, [])) = some ip
whole (some (ip, c ∷ s)) = none

unfoldable pub parse_ip : Text → Option Ip
unfolding read_ipv4 read_ipv6
parse_ip s = whole (or_parse (to_ip v4 (read_ipv4 s)) (to_ip v6 (read_ipv6 s)))
