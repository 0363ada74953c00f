-- ===== src/Scheduler/Missing.antt =====
-- How many targets are not completed yet.
use rebuild.Base.{
  ℕ, suc, ◌+◌, ◌<◌, ◌≤◌, ◌≡◌, refl, ap, sym, ◌∙◌, arith, List, [], ◌∷◌, Option, none,
}
use rebuild.Base.{some, inl, inr, Bytes, In, here}
use rebuild.Base.{there, same_string, same_string_cases, if◌then◌else◌}
use rebuild.Base.{same_string_refl}
use rebuild.Map
use rebuild.Map.{Map, is_some}

-- How many of the names are not completed.
unfoldable pub missing : List Bytes → Map Bytes → ℕ
missing [] completed = 0
missing (p ∷ names) completed =
    if is_some (Map.get completed p) then missing names completed else suc (missing names completed)

unfoldable mark : {A : Type 0} → Option A → ℕ
mark none = 1
mark (some x) = 0

missing_step :
    (p : Bytes) (names : List Bytes) (m : Map Bytes)
    → missing (p ∷ names) m ≡ mark (Map.get m p) + missing names m
unfolding missing mark
missing_step p names m = go (Map.get m p)
  where
    go :
        (o : Option Bytes)
        → (if is_some o then missing names m else suc (missing names m)) ≡ mark o + missing names m
    go none = omega arith
    go (some x) = omega arith

module _ (m m' : Map Bytes) (p path : Bytes)
    (reads : (q : Bytes)
      → Map.get m' q ≡ (if same_string q p then some path else Map.get m q)) where
  mark_same : (q : Bytes) → q ≡ p → mark (Map.get m' q) ≡ 0
  unfolding mark
  mark_same q e =
      let read : Map.get m' q ≡ some path = reads q ∙ rw (e, same_string_refl p) refl in
      ap mark read

  mark_less : (q : Bytes) → mark (Map.get m' q) ≤ mark (Map.get m q)
  unfolding mark
  mark_less q = elim (same_string_cases q p) [
    | inl e ↦ omega (arith, mark_same q e)
    | inr (d, e) ↦
        let read : Map.get m' q ≡ Map.get m q = reads q ∙ rw e refl in omega (arith, ap mark read)
  ]

  missing_less : (names : List Bytes) → missing names m' ≤ missing names m
  unfolding missing
  missing_less [] = omega arith
  missing_less (q ∷ names) =
      omega
        (arith, missing_less names, mark_less q, missing_step q names m, missing_step q names m')

  -- One of the names is completed that was not.
  pub missing_lt :
      (names : List Bytes) → In p names → Map.get m p ≡ none → missing names m' < missing names m
  unfolding mark
  missing_lt [] mem e = elim mem [ ]
  missing_lt (q ∷ names) (here i) e =
      let was : mark (Map.get m q) ≡ 1 = ap (λ x. mark (Map.get m x)) (sym i) ∙ ap mark e in
      omega (
        arith,
        missing_less names,
        mark_same q (sym i),
        was,
        missing_step q names m,
        missing_step q names m',
      )
  missing_lt (q ∷ names) (there i) e =
      omega
        (arith, missing_lt names i e, mark_less q, missing_step q names m, missing_step q names m')
