-- ===== src/Main/Arguments.antt =====
-- The arguments of the command line.
use rebuild.Base.{
  ℕ, ◌≡◌, ◌↔◌, refl, ap, sym, ◌∙◌, arith, List, [], ◌∷◌, Option, none, some, true, false, Bytes,
}
use rebuild.Base.{same_string, same_string_sound, ◌||◌, Bool-cases, inl, inr}
use rebuild.Main.{exits, builds, parse_arguments, short_help, long_help, version_option, is_option}

-- An option is not taken for another string.
not_option :
    (arg option : Bytes)
    → is_option option ≡ true
    → is_option arg ≡ false
    → same_string arg option ≡ false
not_option arg option e f = elim (Bool-cases (same_string arg option)) [
  | inr g ↦ g
  | inl g ↦
      let same : is_option arg ≡ is_option option = ap is_option (same_string_sound arg option g) in
      absurd (cc)
]

-- An argument that is not an option is the target, or one too many.
parse_target :
    (target : Option Bytes) (arg : Bytes) (args : List Bytes)
    → is_option arg ≡ false
    → parse_arguments target (arg ∷ args)
      ≡ elim target [ none ↦ parse_arguments (some arg) args | some t ↦ exits 1 ]
unfolding parse_arguments
parse_target target arg args e =
    rw
      (
        not_option arg short_help (ground arith) e,
        not_option arg long_help (ground arith) e,
        not_option arg version_option (ground arith) e,
        e,
      )
      refl

-- With an option the program exits.
parse_option :
    (target : Option Bytes) (arg : Bytes) (args : List Bytes)
    → is_option arg ≡ true
    → (code : ℕ) × (parse_arguments target (arg ∷ args) ≡ exits code)
unfolding parse_arguments
parse_option target arg args e =
    elim (Bool-cases (same_string arg short_help || same_string arg long_help)) [
      | inl f ↦ (0, rw (parse_arguments, f) refl)
      | inr f ↦ elim (Bool-cases (same_string arg version_option)) [
        | inl g ↦ (0, rw (parse_arguments, f, g) refl)
        | inr g ↦ (1, rw (parse_arguments, f, g, e) refl)
      ]
    ]

-- The program builds a target exactly if this is the only argument and does not begin with a dash.
pub parse_arguments_iff :
    (args : List Bytes) (p : Bytes)
    → (parse_arguments none args ≡ builds p) ↔ ((args ≡ p ∷ []) × (is_option p ≡ false))
unfolding parse_arguments
parse_arguments_iff args p = (there args, back)
  where
    one :
        (t : Bytes) (args : List Bytes)
        → parse_arguments (some t) args ≡ builds p
        → (t ≡ p) × (args ≡ [])
    one t [] e = (cc, refl)
    one t (x ∷ xs) e = elim (Bool-cases (is_option x)) [
      | inl o ↦ let (code, run) = parse_option (some t) x xs o in absurd (cc)
      | inr o ↦ let run : exits 1 ≡ builds p = sym (parse_target (some t) x xs o) ∙ e in absurd (cc)
    ]

    there :
        (args : List Bytes)
        → parse_arguments none args ≡ builds p
        → (args ≡ p ∷ []) × (is_option p ≡ false)
    there [] e = absurd (cc)
    there (x ∷ xs) e = elim (Bool-cases (is_option x)) [
      | inl o ↦ let (code, run) = parse_option none x xs o in absurd (cc)
      | inr o ↦
          let (same, rest) = one x xs (sym (parse_target none x xs o) ∙ e) in
          ((λ i. same i ∷ rest i), ap is_option (sym same) ∙ o)
    ]

    back : (args ≡ p ∷ []) × (is_option p ≡ false) → parse_arguments none args ≡ builds p
    back (e, o) = ap (parse_arguments none) e ∙ parse_target none p [] o
