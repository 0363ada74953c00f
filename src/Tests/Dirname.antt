-- ===== src/Tests/Dirname.antt =====
-- A `dirname` that leaves its argument as it is, for src/main.c.
use rebuild.Base.{ℕ, ◌<◌, ◌≡◌, refl, ap, arith, [], ◌∷◌, Bool, true, false, Bytes, length}
use rebuild.Base.{◌==◌, ◌||◌, ◌⊎◌, inl, inr, ◌∙◌, same_string, same_string_refl}
use rebuild.Base.{if◌then◌else◌}
use rebuild.Main.Search.{IsDirname}
use rebuild.Storage.{is_absolute}
use mathlib.Core.Path.{subst}

-- Without the bytes at its end that pass the test.
abbrev cons_if : Bool → ℕ → Bytes → Bytes
cons_if drops c (d ∷ ds) = c ∷ d ∷ ds
cons_if true c [] = []
cons_if false c [] = c ∷ []

unfoldable pub drop_end : (ℕ → Bool) → Bytes → Bytes
drop_end test [] = []
drop_end test (c ∷ cs) = cons_if (test c) c (drop_end test cs)

abbrev is_slash : ℕ → Bool
is_slash c = c == b'/'

abbrev is_plain : ℕ → Bool
is_plain c = if c == b'/' then false else true

-- The last component is cut off, with the slashes before and after it.
abbrev cut_last : Bytes → Bytes
cut_last p = drop_end is_slash (drop_end is_plain (drop_end is_slash p))

-- A path of slashes only, or with one component after them, has the root above it; a path with no
-- slash has ".".
abbrev or_root : Bool → Bytes → Bytes
or_root rooted (c ∷ cs) = c ∷ cs
or_root true [] = b'/' ∷ []
or_root false [] = b'.' ∷ []

abbrev pub dirname : Bytes → Bytes × Bytes
dirname p = (or_root (is_absolute p) (cut_last p), p)

-- Nothing is dropped, or the path gets shorter and keeps its first byte if it keeps any.
abbrev IsCut : Bytes → Bytes → Type 0
IsCut p q =
    ((q ≡ p) ⊎ (length q < length p)) × ((q ≡ []) ⊎ (is_absolute p ≡ true → is_absolute q ≡ true))

cons_if-IsCut :
    (drops : Bool) (c : ℕ) (cs q : Bytes) → IsCut cs q → IsCut (c ∷ cs) (cons_if drops c q)
cons_if-IsCut drops c cs (d ∷ ds) (inl e, kept) = (inl (ap (λ t. c ∷ t) e), inr (λ h. h))
cons_if-IsCut drops c cs (d ∷ ds) (inr e, kept) = (inr (omega (arith, e)), inr (λ h. h))
cons_if-IsCut true c cs [] cut = (inr (omega arith), inl refl)
cons_if-IsCut false c cs [] (inl e, kept) = (inl (ap (λ t. c ∷ t) e), inr (λ h. h))
cons_if-IsCut false c cs [] (inr e, kept) = (inr (omega (arith, e)), inr (λ h. h))

drop_end-IsCut : (test : ℕ → Bool) (p : Bytes) → IsCut p (drop_end test p)
unfolding drop_end
drop_end-IsCut test [] = (inl refl, inl refl)
drop_end-IsCut test (c ∷ cs) =
    cons_if-IsCut (test c) c cs (drop_end test cs) (drop_end-IsCut test cs)

IsCut-trans :
    (test : ℕ → Bool) (p q : Bytes)
    → IsCut p q
    → IsCut q (drop_end test q)
    → IsCut p (drop_end test q)
unfolding drop_end
IsCut-trans test p q (size, kept) (size', kept') = (sizes size size', keeps kept kept')
  where
    sizes :
        ((q ≡ p) ⊎ (length q < length p))
        → ((drop_end test q ≡ q) ⊎ (length (drop_end test q) < length q))
        → (drop_end test q ≡ p) ⊎ (length (drop_end test q) < length p)
    sizes (inl e) (inl f) = inl (f ∙ e)
    sizes (inl e) (inr f) = inr (omega (arith, f, ap (λ (l : Bytes). length l) e))
    sizes (inr e) (inl f) = inr (omega (arith, e, ap (λ (l : Bytes). length l) f))
    sizes (inr e) (inr f) = inr (omega (arith, e, f))

    keeps :
        ((q ≡ []) ⊎ (is_absolute p ≡ true → is_absolute q ≡ true))
        → ((drop_end test q ≡ []) ⊎ (is_absolute q ≡ true → is_absolute (drop_end test q) ≡ true))
        → (drop_end test q ≡ []) ⊎ (is_absolute p ≡ true → is_absolute (drop_end test q) ≡ true)
    keeps k (inl f) = inl f
    keeps (inl e) (inr f) = inl (ap (λ l. drop_end test l) e)
    keeps (inr e) (inr f) = inr (λ h. f (e h))

cut_last-IsCut : (p : Bytes) → IsCut p (cut_last p)
cut_last-IsCut p =
    let a = drop_end is_slash p in
    let b = drop_end is_plain a in
    IsCut-trans is_slash p b
      (IsCut-trans is_plain p a (drop_end-IsCut is_slash p) (drop_end-IsCut is_plain a))
      (drop_end-IsCut is_slash b)

-- The laws, with what is left of an absolute path.
or_root-absolute :
    (p q : Bytes) → IsCut p q → is_absolute p ≡ true → is_absolute (or_root true q) ≡ true
or_root-absolute p [] cut h = refl
or_root-absolute p (c ∷ cs) (size, inl e) h = cc
or_root-absolute p (c ∷ cs) (size, inr e) h = e h

or_root-shorter :
    (p q : Bytes)
    → IsCut p q
    → (same_string (or_root true q) p || same_string (or_root true q) (b'/' ∷ [])) ≡ false
    → length (or_root true q) < length p
unfolding same_string
or_root-shorter p [] cut h = let f = same_string_refl p in ground (arith, h)
or_root-shorter p (c ∷ cs) (inl e, kept) h =
    let same : same_string (c ∷ cs) p ≡ true =
      subst (λ l. same_string (c ∷ cs) l ≡ true) e (same_string_refl (c ∷ cs)) in
    ground (arith, h, same)
or_root-shorter p (c ∷ cs) (inr e, kept) h = e

pub dirname-IsDirname : IsDirname dirname
dirname-IsDirname = record {
  absolute = λ p h. rw h (or_root-absolute p (cut_last p) (cut_last-IsCut p) h);
  shorter = λ p h e. rw h (or_root-shorter p (cut_last p) (cut_last-IsCut p) (rw h at e));
}
