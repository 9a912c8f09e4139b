-- ===== src/Config/Duration.antt =====
-- What `parse_duration` of fproxy-rs/src/config.rs makes of digits with a unit.
use fproxy.Base.{
  ℕ, ◌+◌, ◌-◌, ◌*◌, ◌%◌, ◌≤◌, ◌<◌, ◌≡◌, refl, ◌∙◌, ap, true, false, [], ◌∷◌, ◌++◌, arith, ltb, ◌==◌,
  Option, none, some, All, inl, inr, Bool-cases, if◌then◌else◌, u64_mod, suc, length, length-append,
  All-append,
}
use fproxy.Config.{Text}
use fproxy.Config.Text.{
  text, is_whitespace, trim_start, trim_end, trim, text_eq, strip_suffix, is_digit, digits_from,
  parse_u64,
}
use fproxy.Config.Accepts.{text_eq_sound}
use fproxy.Config.Parse.{parse_duration, scaled, milliseconds}

abbrev pub IsDigit : ℕ → Type 0
IsDigit c = is_digit c ≡ true

-- The number that digits stand for, after the number `n`.
abbrev pub value_after : ℕ → Text → ℕ
value_after n [] = n
value_after n (c ∷ s) = value_after (n * 10 + (c - b'0')) s

value_after_le : (n : ℕ) (s : Text) → n ≤ value_after n s
value_after_le n [] = omega arith
value_after_le n (c ∷ s) = omega (arith, value_after_le (n * 10 + (c - b'0')) s)

-- Digits are read as their number, if it fits 64 bits.
digits_from-value_after :
    (n : ℕ) (s : Text)
    → All IsDigit s
    → n < u64_mod
    → digits_from n s ≡ (if ltb (value_after n s) u64_mod then some (value_after n s) else none)
unfolding digits_from
digits_from-value_after n [] h k = ground arith
digits_from-value_after n (c ∷ s) h k =
    let m = n * 10 + (c - b'0') in
    elim (Bool-cases (ltb m u64_mod)) [
      | inl fits ↦ rw (h.0, fits) (digits_from-value_after m s h.1 (ground arith))
      | inr large ↦ rw (h.0, large) (ground (arith, value_after_le m s))
    ]

parse_u64-value_after :
    (c : ℕ) (s : Text)
    → All IsDigit (c ∷ s)
    → parse_u64 (c ∷ s)
      ≡ (if ltb (value_after 0 (c ∷ s)) u64_mod then some (value_after 0 (c ∷ s)) else none)
unfolding parse_u64
parse_u64-value_after c s h =
    let no_sign : (c == b'+') ≡ false = ground (arith, h.0) in
    rw no_sign (digits_from-value_after 0 (c ∷ s) h (omega arith))

abbrev IsBlack : ℕ → Type 0
IsBlack c = is_whitespace c ≡ false

start_black : (s : Text) → All IsBlack s → trim_start s ≡ s
unfolding trim_start
start_black [] h = refl
start_black (c ∷ s) h = rw h.0 refl

end_black : (s : Text) → All IsBlack s → trim_end s ≡ s
unfolding trim_end
end_black [] h = refl
end_black (c ∷ s) h = rw (end_black s h.1, h.0) (ground arith)

trim_black : (s : Text) → All IsBlack s → trim s ≡ s
unfolding trim
trim_black s h = ap trim_end (start_black s h) ∙ end_black s h

digits-IsBlack : (s : Text) → All IsDigit s → All IsBlack s
digits-IsBlack [] h = tt
digits-IsBlack (c ∷ s) h = (ground (arith, h.0), digits-IsBlack s h.1)

text_eq_refl : (s : Text) → text_eq s s ≡ true
unfolding text_eq
text_eq_refl [] = refl
text_eq_refl (x ∷ s) = ground (arith, text_eq_refl s)

text_eq_longer : (s t : Text) (x : ℕ) → text_eq (x ∷ s ++ t) t ≡ false
text_eq_longer s t x = elim (Bool-cases (text_eq (x ∷ s ++ t) t)) [
  | inr different ↦ different
  | inl same ↦
      let e : suc (length (s ++ t)) ≡ length t = ap length (text_eq_sound (x ∷ s ++ t) t same) in
      absurd (omega (arith, e, length-append s t))
]

-- A suffix is taken off.
strip_own : (s suffix : Text) → strip_suffix (s ++ suffix) suffix ≡ some s
unfolding strip_suffix text_eq
strip_own [] [] = refl
strip_own [] (c ∷ suffix) = rw (text_eq_refl (c ∷ suffix)) refl
strip_own (x ∷ s) suffix = rw (text_eq_longer s suffix x, strip_own s suffix) refl

-- A suffix that starts with no digit is not found in digits before what does not end in it.
strip_digits :
    (s r suffix : Text) (y : ℕ)
    → All IsDigit s
    → is_digit y ≡ false
    → strip_suffix r (y ∷ suffix) ≡ none
    → strip_suffix (s ++ r) (y ∷ suffix) ≡ none
unfolding strip_suffix text_eq
strip_digits [] r suffix y h k e = e
strip_digits (x ∷ s) r suffix y h k e =
    let different : (x == y) ≡ false = ground (arith, h.0) in
    rw (different, strip_digits s r suffix y h.1 k e) refl

-- Digits before a unit are kept by `trim`, and are not empty.
trimmed :
    (c : ℕ) (s unit : Text)
    → All IsDigit (c ∷ s)
    → All IsBlack unit
    → trim (c ∷ s ++ unit) ≡ c ∷ s ++ unit
trimmed c s unit h k =
    trim_black (c ∷ s ++ unit) (All-append IsBlack (c ∷ s) unit (digits-IsBlack (c ∷ s) h) k)

module _ (c : ℕ) (s : Text) (h : All IsDigit (c ∷ s)) where
  as_ms : parse_duration (c ∷ s ++ text "ms") ≡ milliseconds (parse_u64 (c ∷ s))
  unfolding parse_duration
  as_ms = rw (trimmed c s (text "ms") h (refl, (refl, tt)), strip_own (c ∷ s) (text "ms")) refl

  as_s : parse_duration (c ∷ s ++ text "s") ≡ scaled 1 (parse_u64 (c ∷ s))
  unfolding parse_duration strip_suffix text_eq
  as_s =
      rw
        (
          trimmed c s (text "s") h (refl, tt),
          strip_digits (c ∷ s) (text "s") (text "s") b'm' h refl refl,
          trimmed c s (text "s") h (refl, tt),
          strip_own (c ∷ s) (text "s"),
        )
        refl

  as_m : parse_duration (c ∷ s ++ text "m") ≡ scaled 60 (parse_u64 (c ∷ s))
  unfolding parse_duration strip_suffix text_eq
  as_m =
      rw
        (
          trimmed c s (text "m") h (refl, tt),
          strip_digits (c ∷ s) (text "m") (text "s") b'm' h refl refl,
          trimmed c s (text "m") h (refl, tt),
          strip_digits (c ∷ s) (text "m") [] b's' h refl refl,
          trimmed c s (text "m") h (refl, tt),
          strip_own (c ∷ s) (text "m"),
        )
        refl

  as_h : parse_duration (c ∷ s ++ text "h") ≡ scaled 3600 (parse_u64 (c ∷ s))
  unfolding parse_duration strip_suffix text_eq
  as_h =
      rw
        (
          trimmed c s (text "h") h (refl, tt),
          strip_digits (c ∷ s) (text "h") (text "s") b'm' h refl refl,
          trimmed c s (text "h") h (refl, tt),
          strip_digits (c ∷ s) (text "h") [] b's' h refl refl,
          trimmed c s (text "h") h (refl, tt),
          strip_digits (c ∷ s) (text "h") [] b'm' h refl refl,
          trimmed c s (text "h") h (refl, tt),
          strip_own (c ∷ s) (text "h"),
        )
        refl

-- Of digits that are not empty, a number that does not fit 64 bits is refused, with any of the units
-- `ms`, `s`, `m` and `h`. One that fits is read with `ms` as that many milliseconds and with `s` as
-- that many seconds, but with `m` and `h` as 60 and 3600 times that many seconds only after the
-- product has been wrapped round at 2^64.
pub parse_duration_lem :
    (c : ℕ) (s : Text)
    → All IsDigit (c ∷ s)
    → let n = value_after 0 (c ∷ s) in
      let read : ℕ → Option ℕ = λ nanoseconds. if ltb n u64_mod then some nanoseconds else none in
      (parse_duration (c ∷ s ++ text "ms") ≡ read (n * 1000000))
      × (parse_duration (c ∷ s ++ text "s") ≡ read (n * 1000000000))
      × (parse_duration (c ∷ s ++ text "m") ≡ read (n * 60 % u64_mod * 1000000000))
      × (parse_duration (c ∷ s ++ text "h") ≡ read (n * 3600 % u64_mod * 1000000000))
parse_duration_lem c s h =
    let n = value_after 0 (c ∷ s) in
    let parsed = parse_u64-value_after c s h in
    let times : (k : ℕ)
        → scaled k (parse_u64 (c ∷ s))
          ≡ (if ltb n u64_mod then some (n * k % u64_mod * 1000000000) else none) =
      λ k. ap (scaled k) parsed ∙ elim (Bool-cases (ltb n u64_mod)) [
        | inl fits ↦ rw fits refl
        | inr large ↦ rw large refl
      ] in
    let whole : (if ltb n u64_mod then some (n * 1 % u64_mod * 1000000000) else none)
        ≡ (if ltb n u64_mod then some (n * 1000000000) else none) =
      elim (Bool-cases (ltb n u64_mod)) [
        | inl fits ↦ let same : n * 1 % u64_mod ≡ n = ground arith in rw (fits, same) refl
        | inr large ↦ rw large refl
      ] in
    (
      as_ms c s h ∙ ap milliseconds parsed ∙ elim (Bool-cases (ltb n u64_mod)) [
        | inl fits ↦ rw fits refl
        | inr large ↦ rw large refl
      ],
      as_s c s h ∙ times 1 ∙ whole,
      as_m c s h ∙ times 60,
      as_h c s h ∙ times 3600,
    )
