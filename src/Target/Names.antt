-- ===== src/Target/Names.antt =====
-- The list of target names.
use mathlib.Core.Option
use mathlib.Core.List.{append_assoc, append-nil}
use rebuild.Base.{
  ℕ, ◌+◌, ◌≡◌, refl, ap, arith, List, [], ◌∷◌, ◌++◌, map, Option, none, some, Bool, true, false,
  Bytes,
}
use rebuild.Base.{
  length, length-append, replicate, ltb, ◌==◌, sym, ◌∙◌, Bool-cases, inl, inr, set as set_elem,
}
use rebuild.Map.Items.{items, items-get, visit, iterate-visit}
use rebuild.Table.Rehash.{IsValid}
use rebuild.Target.{TargetRegistry, collect_name_iterator, target_registry_list}

set-append_length :
    {A : Type 0} (xs : List A) (x y : A) (ys : List A)
    → set_elem (xs ++ x ∷ ys) (length xs) y ≡ xs ++ y ∷ ys
set-append_length [] x y ys = refl
set-append_length (a ∷ xs) x y ys = ap (λ t. a ∷ t) (set-append_length xs x y ys)

module _ {ℓ} {V : Type ℓ} where
  abbrev pub names_of : List (Bytes × V) → List (Option Bytes)
  names_of es = map (λ t. some t.0) es

  collect_next :
      (done : List (Option Bytes)) (n : ℕ) (key : Bytes) (v : V)
      → collect_name_iterator key v
          (some (record { names = done ++ none ∷ replicate n none; index = length done }))
        ≡ (
          true,
          some (record {
            names = (done ++ some key ∷ []) ++ replicate n none;
            index = length (done ++ some key ∷ []);
          }),
        )
  unfolding collect_name_iterator
  collect_next done n key v =
      let in_range : ltb (length done) (length (done ++ none ∷ replicate n none)) ≡ true =
        ground (arith, length-append done (none ∷ replicate n none)) in
      let filled : set_elem (done ++ none ∷ replicate n none) (length done) (some key)
          ≡ (done ++ some key ∷ []) ++ replicate n none =
        set-append_length done none (some key) (replicate n none)
        ∙ sym (append_assoc done (some key ∷ []) (replicate n none)) in
      let next : length done + 1 ≡ length (done ++ some key ∷ []) =
        omega (arith, length-append done (some key ∷ [])) in
      rw in_range (λ i. (true, some (record { names = filled i; index = next i })))

  visit_next {κ} :
      {S : Type κ} (fn : Bytes → V → S → Bool × S) (k : Bytes) (v : V) (es : List (Bytes × V))
      {s s' : S}
      → fn k v s ≡ (true, s')
      → visit fn ((k, v) ∷ es) s ≡ visit fn es s'
  unfolding visit
  visit_next fn k v es e = ap (λ r. elim r.0 [ true ↦ visit fn es r.1 | false ↦ r.1 ]) e

  visit-collect :
      (es : List (Bytes × V)) (done : List (Option Bytes))
      → visit collect_name_iterator es
          (some (record { names = done ++ replicate (length es) none; index = length done }))
        ≡ some (record { names = done ++ names_of es; index = length (done ++ names_of es) })
  unfolding visit
  visit-collect [] done =
      λ i. some (record { names = done ++ []; index = length (sym (append-nil done) i) })
  visit-collect ((key, v) ∷ es) done =
      visit_next collect_name_iterator key v es (collect_next done (length es) key v)
      ∙ visit-collect es (done ++ some key ∷ [])
      ∙ ap (λ ns. some (record { names = ns; index = length ns }))
          (append_assoc done (some key ∷ []) (names_of es))

length_zero : {A : Type 0} (xs : List A) → length xs ≡ 0 → xs ≡ []
length_zero [] e = refl
length_zero (x ∷ xs) e = absurd (omega arith)

module _ {Script : Type 0} where
  -- With a well-formed map of targets `target_registry_list` never writes outside the array that it has allocated and leaves no slot
  -- of it unset: it returns the names of the map's items, one for each target.
  pub target_registry_list-items :
      (r : TargetRegistry Script)
      → IsValid r.targets
      → (target_registry_list r ≡ some (names_of (items r.targets.entries)))
        × (length (items r.targets.entries) ≡ r.targets.size)
  unfolding target_registry_list
  target_registry_list-items r inv =
      let pairs = items r.targets.entries in
      let sized = (items-get r.targets inv).0 in
      let collected =
        iterate-visit collect_name_iterator r.targets
          (some (record { names = replicate r.targets.size none; index = 0 }))
        ∙ ap
            (λ n.
              visit collect_name_iterator pairs
                (some (record { names = replicate n none; index = 0 })))
            (sym sized)
        ∙ visit-collect pairs [] in
      (
        elim (Bool-cases (r.targets.size == 0)) [
          | inr e ↦ rw e (ap (Option.map (λ c. c.names)) collected)
          | inl e ↦ rw (e, length_zero pairs (ground (arith, sized))) refl
        ],
        sized,
      )
