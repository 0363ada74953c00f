-- ===== src/Base/Strings.antt =====
-- C strings: the bytes before the terminating zero. `strcmp` and its equality test.
use Prim.Native.Nat.{ℕ}
use mathlib.Core.Path.{◌≡◌, refl}
use mathlib.Core.Logic.{◌⊎◌, inl, inr, ◌≢◌}
use mathlib.Core.Bool.{Bool, true, false, ◌&&◌}
use mathlib.Core.List.{List, [], ◌∷◌}
use native.Mathlib.Omega.{arith}
use rebuild.Base.Tests.{◌==◌, Bool-cases}

abbrev pub Bytes : Type 0
Bytes = List ℕ

-- `strcmp(a, b) == 0`
unfoldable pub same_string : Bytes → Bytes → Bool
same_string [] [] = true
same_string [] (y ∷ ys) = false
same_string (x ∷ xs) [] = false
same_string (x ∷ xs) (y ∷ ys) = (x == y) && same_string xs ys

pub same_string_sound : (a b : Bytes) → same_string a b ≡ true → a ≡ b
unfolding same_string
same_string_sound [] [] h = refl
same_string_sound [] (y ∷ ys) h = cc
same_string_sound (x ∷ xs) [] h = cc
same_string_sound (x ∷ xs) (y ∷ ys) h = ground (arith, same_string_sound xs ys)

pub same_string_refl : (a : Bytes) → same_string a a ≡ true
unfolding same_string
same_string_refl [] = refl
same_string_refl (x ∷ xs) = ground (arith, same_string_refl xs)

pub same_string_complete : (a b : Bytes) → a ≡ b → same_string a b ≡ true
same_string_complete a b e = rw e (same_string_refl b)

pub same_string_cases : (a b : Bytes) → (a ≡ b) ⊎ ((a ≢ b) × (same_string a b ≡ false))
same_string_cases a b = elim (Bool-cases (same_string a b)) [
  | inl h ↦ inl (same_string_sound a b h)
  | inr h ↦ inr (λ e. cc (h, same_string_complete a b e), h)
]
