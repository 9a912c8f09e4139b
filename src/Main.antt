-- ===== src/Main.antt =====
-- fproxy-rs/src/main.rs: flags in the style of Go, with one dash, are given a second.
pub mod Run
use fproxy.Base.{
  ◌≡◌, refl, ◌∙◌, ap, sym, Bool, true, false, ◌||◌, not, ◌&&◌, List, [], ◌∷◌, ◌++◌, map, ◌==◌, none,
  some, if◌then◌else◌, Bool-cases, inl, inr, contains_key,
}
use fproxy.Config.{Text}
use fproxy.Config.Text.{text, split, text_eq, strip_prefix, starts_with}
use fproxy.Config.Split.{split_whole, split_at}

abbrev pub known_flags : List Text
known_flags =
    text "config"
    ∷ text "mode"
    ∷ text "verbose"
    ∷ text "listen"
    ∷ text "servers"
    ∷ text "listen-addrs"
    ∷ text "target"
    ∷ text "dedup-window"
    ∷ text "session-timeout"
    ∷ text "help"
    ∷ text "version"
    ∷ []

unfoldable pub contains : List Text → Text → Bool
contains [] t = false
contains (s ∷ texts) t = text_eq s t || contains texts t

abbrev pub first_part : List Text → Text → Text
first_part [] rest = rest
first_part (part ∷ parts) rest = part

unfoldable pub convert_arg : Text → Text
convert_arg arg = elim (strip_prefix arg (text "-")) [
  | none ↦ arg
  | some rest ↦
      if not (starts_with rest (text "-"))
        && contains known_flags (first_part (split b'=' rest) rest)
      then text "-" ++ arg
      else arg
]

unfoldable pub convert_go_style_args : List Text → List Text
convert_go_style_args args = map convert_arg args

again :
    (arg out : Text)
    → convert_arg arg ≡ out
    → convert_arg out ≡ out
    → convert_arg (convert_arg arg) ≡ convert_arg arg
again arg out e f = ap convert_arg e ∙ f ∙ sym e

convert_arg_twice : (arg : Text) → convert_arg (convert_arg arg) ≡ convert_arg arg
unfolding convert_arg strip_prefix
convert_arg_twice [] = refl
convert_arg_twice (c ∷ rest) = elim (Bool-cases (c == b'-')) [
  | inr d ↦
      let same : convert_arg (c ∷ rest) ≡ c ∷ rest = rw (convert_arg, d) refl in
      again (c ∷ rest) (c ∷ rest) same same
  | inl d ↦
      let known = contains known_flags (first_part (split b'=' rest) rest) in
      elim (Bool-cases (not (starts_with rest (text "-")) && known)) [
        | inl p ↦
            let two : convert_arg (b'-' ∷ c ∷ rest) ≡ b'-' ∷ c ∷ rest = rw (convert_arg, d) refl in
            again (c ∷ rest) (b'-' ∷ c ∷ rest) (rw (convert_arg, d, p) refl) two
        | inr p ↦
            let same : convert_arg (c ∷ rest) ≡ c ∷ rest = rw (convert_arg, d, p) refl in
            again (c ∷ rest) (c ∷ rest) same same
      ]
]

-- Converting arguments that were converted changes nothing.
pub convert_twice :
    (args : List Text)
    → convert_go_style_args (convert_go_style_args args) ≡ convert_go_style_args args
unfolding convert_go_style_args
convert_twice [] = refl
convert_twice (arg ∷ args) = let rest = convert_twice args in cc (convert_arg_twice arg, rest)

dash_after :
    (flag value : Text)
    → starts_with flag (text "-") ≡ false
    → starts_with (flag ++ b'=' ∷ value) (text "-") ≡ false
unfolding strip_prefix
dash_after [] value h = refl
dash_after (c ∷ flag) value h = elim (Bool-cases (c == b'-')) [
  | inl d ↦ absurd (cc (d, h))
  | inr d ↦ rw d refl
]

-- A known flag, without a dash at its start and without `=`, is given a second dash where it comes
-- after one, alone or with a value behind `=`.
pub convert_flag :
    (flag value : Text)
    → contains known_flags flag ≡ true
    → starts_with flag (text "-") ≡ false
    → contains_key flag b'=' ≡ false
    → convert_go_style_args ((b'-' ∷ flag) ∷ (b'-' ∷ flag ++ b'=' ∷ value) ∷ [])
      ≡ (b'-' ∷ b'-' ∷ flag) ∷ (b'-' ∷ b'-' ∷ flag ++ b'=' ∷ value) ∷ []
unfolding convert_go_style_args convert_arg strip_prefix
convert_flag flag value h d e =
    rw (d, split_whole b'=' flag e, h, dash_after flag value d, split_at b'=' flag value e)
      (rw h refl)
