-- ===== src/Base/Memory.antt =====
-- Objects on the heap, a list indexed by addresses, and results that a fault cuts short.
use Prim.Native.Nat.{ℕ, zero, suc, ◌<◌}
use mathlib.Core.Path.{◌≡◌, refl, ap}
use mathlib.Core.Logic.{◌≢◌, ◌⊎◌, inl, inr}
use mathlib.Core.Option.{Option, none, some}
use mathlib.Core.List.{List, [], ◌∷◌, ◌++◌}
use native.Mathlib.Omega.{arith}
use rebuild.Base.Lists.{length, set, length-append, In, here, there}

infixl 5 ◌>>=◌
abbrev pub ◌>>=◌ {ℓ κ} : {A : Type ℓ} {B : Type κ} → Option A → (A → Option B) → Option B
none >>= f = none
some a >>= f = f a

-- A result comes from a result of both steps.
pub bind_some {ℓ κ} :
    {A : Type ℓ} {B : Type κ} (m : Option A) (k : A → Option B) {y : B}
    → (m >>= k) ≡ some y
    → (x : A) × (m ≡ some x) × (k x ≡ some y)
bind_some none k e = cc
bind_some (some x) k e = (x, refl, e)

module _ {ℓ} {A : Type ℓ} where
  abbrev pub get_elem? : List A → ℕ → Option A
  get_elem? [] i = none
  get_elem? (x ∷ xs) zero = some x
  get_elem? (x ∷ xs) (suc i) = get_elem? xs i

module _ {ℓ} {A : Type ℓ} where
  pub get_elem?_below : (xs : List A) (i : ℕ) → i < length xs → (x : A) × (get_elem? xs i ≡ some x)
  get_elem?_below [] i h = absurd (omega arith)
  get_elem?_below (x ∷ xs) zero h = (x, refl)
  get_elem?_below (x ∷ xs) (suc i) h = get_elem?_below xs i (omega arith)

  pub get_elem?_bound : (xs : List A) (i : ℕ) {x : A} → get_elem? xs i ≡ some x → i < length xs
  get_elem?_bound [] i h = cc
  get_elem?_bound (x ∷ xs) zero h = omega arith
  get_elem?_bound (x ∷ xs) (suc i) h = omega (arith, get_elem?_bound xs i h)

  pub get_elem?-set_self :
      (xs : List A) (i : ℕ) (v : A) → i < length xs → get_elem? (set xs i v) i ≡ some v
  get_elem?-set_self [] i v h = absurd (omega arith)
  get_elem?-set_self (x ∷ xs) zero v h = refl
  get_elem?-set_self (x ∷ xs) (suc i) v h = get_elem?-set_self xs i v (omega arith)

  pub get_elem?-set_ne :
      (xs : List A) (i j : ℕ) (v : A) → i ≢ j → get_elem? (set xs i v) j ≡ get_elem? xs j
  get_elem?-set_ne [] i j v h = refl
  get_elem?-set_ne (x ∷ xs) zero zero v h = absurd (h refl)
  get_elem?-set_ne (x ∷ xs) zero (suc j) v h = refl
  get_elem?-set_ne (x ∷ xs) (suc i) zero v h = refl
  get_elem?-set_ne (x ∷ xs) (suc i) (suc j) v h = get_elem?-set_ne xs i j v (λ e. h (ap suc e))

  pub get_elem?-snoc : (xs : List A) (v : A) → get_elem? (xs ++ v ∷ []) (length xs) ≡ some v
  get_elem?-snoc [] v = refl
  get_elem?-snoc (x ∷ xs) v = get_elem?-snoc xs v

  -- What stands after an element is added: what stood there before, or the new one.
  pub get_elem?-snoc_cases :
      (xs : List A) (v : A) (i : ℕ) {x : A}
      → get_elem? (xs ++ v ∷ []) i ≡ some x
      → (get_elem? xs i ≡ some x) ⊎ ((i ≡ length xs) × (v ≡ x))
  get_elem?-snoc_cases [] v zero h = inr (refl, cc)
  get_elem?-snoc_cases [] v (suc i) h = cc
  get_elem?-snoc_cases (y ∷ ys) v zero h = inl h
  get_elem?-snoc_cases (y ∷ ys) v (suc i) h = elim (get_elem?-snoc_cases ys v i h) [
    | inl e ↦ inl e
    | inr (e, f) ↦ inr (ap suc e, f)
  ]

  pub get_elem?-snoc_old :
      (xs : List A) (v : A) (i : ℕ) {x : A}
      → get_elem? xs i ≡ some x
      → get_elem? (xs ++ v ∷ []) i ≡ some x
  get_elem?-snoc_old [] v i h = cc
  get_elem?-snoc_old (y ∷ ys) v zero h = h
  get_elem?-snoc_old (y ∷ ys) v (suc i) h = get_elem?-snoc_old ys v i h

  pub length-snoc : (xs : List A) (v : A) → length (xs ++ v ∷ []) ≡ suc (length xs)
  length-snoc xs v = omega (arith, length-append xs (v ∷ []))

  pub In-snoc : (xs : List A) (v a : A) → In a (xs ++ v ∷ []) → In a xs ⊎ (a ≡ v)
  In-snoc [] v a (here e) = inr e
  In-snoc [] v a (there h) = elim h [ ]
  In-snoc (x ∷ xs) v a (here e) = inl (here e)
  In-snoc (x ∷ xs) v a (there h) = elim (In-snoc xs v a h) [ inl i ↦ inl (there i) | inr e ↦ inr e ]

  pub In-snoc_old : (xs : List A) (v a : A) → In a xs → In a (xs ++ v ∷ [])
  In-snoc_old [] v a h = elim h [ ]
  In-snoc_old (x ∷ xs) v a (here e) = here e
  In-snoc_old (x ∷ xs) v a (there h) = there (In-snoc_old xs v a h)

  pub In-snoc_new : (xs : List A) (v : A) → In v (xs ++ v ∷ [])
  In-snoc_new [] v = here refl
  In-snoc_new (x ∷ xs) v = there (In-snoc_new xs v)

module _ {ℓ} {A : Type ℓ} where
  -- What stands after a write: the new element, or what stood elsewhere before.
  pub get_elem?-set_cases :
      (xs : List A) (i : ℕ) (v : A) (j : ℕ) {x : A}
      → get_elem? (set xs i v) j ≡ some x
      → ((j ≡ i) × (v ≡ x)) ⊎ ((j ≢ i) × (get_elem? xs j ≡ some x))
  get_elem?-set_cases [] i v j h = cc
  get_elem?-set_cases (y ∷ ys) zero v zero h = inl (refl, cc)
  get_elem?-set_cases (y ∷ ys) zero v (suc j) h = inr ((λ e. omega (arith, e)), h)
  get_elem?-set_cases (y ∷ ys) (suc i) v zero h = inr ((λ e. omega (arith, e)), h)
  get_elem?-set_cases (y ∷ ys) (suc i) v (suc j) h = elim (get_elem?-set_cases ys i v j h) [
    | inl (e, f) ↦ inl (ap suc e, f)
    | inr (n, f) ↦ inr ((λ e. n (omega (arith, e))), f)
  ]

pub nat_cases : (a b : ℕ) → (a ≡ b) ⊎ (a ≢ b)
nat_cases zero zero = inl refl
nat_cases zero (suc b) = inr (λ e. omega (arith, e))
nat_cases (suc a) zero = inr (λ e. omega (arith, e))
nat_cases (suc a) (suc b) = elim (nat_cases a b) [
  | inl e ↦ inl (ap suc e)
  | inr n ↦ inr (λ e. n (omega (arith, e)))
]
