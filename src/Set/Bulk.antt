-- ===== src/Set/Bulk.antt =====
-- `set_copy`, `set_union`, `set_contains_all`, `set_clear`, `set_iterate` and `set_create`.
use rebuild.Base.{ℕ, zero, suc, ◌^◌, ◌≤◌, ◌≡◌, refl, ap, ◌↔◌, inl, inr, arith, List, []}
use rebuild.Base.{◌∷◌, some, Bytes, sym, ◌∙◌, same_string, true, false, Bool}
use rebuild.Base.{Bool-cases, ok, ◌||◌, same_string_cases}
use rebuild.Base.{same_string_refl, Option-cases}
use rebuild.Map
use rebuild.Map.Writes.{to_nat, get-lookup, has-get, IsEmpty}
use rebuild.Map.Items.{create-IsEmpty}
use rebuild.Table.{free, deleted, full, slot_at, requested}
use rebuild.Table.Capacity.{IsRounded}
use rebuild.Table.Write.{count, Has, count_none}
use rebuild.Table.Find.{lookup-Has, Has-lookup}
use rebuild.Table.Rehash.{IsValid, IsOnce, IsOnce-tail}
use rebuild.Set.{Set, SetSlot, create, add_all, union, copied, copy, has, remove, has_all}
use rebuild.Set.{contains_all}
use rebuild.Set.Members.{has-map, add-IsChange, remove-IsChange}

-- The strings of the full slots.
unfoldable pub among : List SetSlot → Bytes → Bool
among [] q = false
among (free ∷ es) q = among es q
among (deleted _ ∷ es) q = among es q
among (full k _ ∷ es) q = same_string q k || among es q

Has-shift : (s : SetSlot) (es : List SetSlot) (q : Bytes) → Has es q tt → Has (s ∷ es) q tt
Has-shift s es q (p, h) = (suc p, h)

pub among-Has : (es : List SetSlot) (q : Bytes) → among es q ≡ true → Has es q tt
unfolding among
among-Has [] q h = cc
among-Has (free ∷ es) q h = Has-shift free es q (among-Has es q h)
among-Has (deleted d ∷ es) q h = Has-shift (deleted d) es q (among-Has es q h)
among-Has (full k tt ∷ es) q h =
    let rest = among-Has es q in
    elim (same_string_cases q k) [
      | inl e ↦ (0, ap (λ j. full j tt) (sym e))
      | inr (n, f) ↦ Has-shift (full k tt) es q (rest (rw f at h))
    ]

Has-among : (es : List SetSlot) (q : Bytes) (p : ℕ) → slot_at es p ≡ full q tt → among es q ≡ true
unfolding among
Has-among [] q p h = cc
Has-among (free ∷ es) q zero h = cc
Has-among (free ∷ es) q (suc p) h = Has-among es q p h
Has-among (deleted d ∷ es) q zero h = cc
Has-among (deleted d ∷ es) q (suc p) h = Has-among es q p h
Has-among (full k tt ∷ es) q zero h = let e : k ≡ q = cc in rw (e, same_string_refl q)
Has-among (full k tt ∷ es) q (suc p) h = ground (arith, Has-among es q p h)

module _ (s : Set) (inv : IsValid s) where
  pub has-Has : (q : Bytes) → has s q ≡ true → Has s.entries q tt
  has-Has q h = elim (Option-cases (Map.get s q)) [
    | inl e ↦ cc (h, has-map s q, has-get s q, ap Map.is_some e)
    | inr (tt, e) ↦ lookup-Has s.entries s.capacity q inv.probed tt (sym (get-lookup s q inv) ∙ e)
  ]

  pub Has-has : (q : Bytes) → Has s.entries q tt → has s q ≡ true
  Has-has q h =
      has-map s q
      ∙ has-get s q
      ∙ ap Map.is_some (get-lookup s q inv ∙ Has-lookup s.entries s.capacity q inv.probed tt h)

  pub among-has : (q : Bytes) → among s.entries q ≡ has s q
  among-has q = elim (Bool-cases (has s q)) [
    | inl h ↦ let at = has-Has q h in Has-among s.entries q at.0 at.1 ∙ sym h
    | inr h ↦ elim (Bool-cases (among s.entries q)) [
      | inl a ↦ cc (Has-has q (among-Has s.entries q a))
      | inr a ↦ a ∙ sym h
    ]
  ]

-- What adding all the strings of some slots does.
record IsAdded (s : Set) (es : List SetSlot) (s' : Set) : Type 0 where
  valid : IsValid s'
  reads : (q : Bytes) → has s' q ≡ (has s q || among es q)

add_all-IsAdded :
    (es : List SetSlot) (s : Set)
    → IsValid s
    → (s' : Set) × (add_all es s ≡ some (ok, s')) × IsAdded s es s'
unfolding add_all among
add_all-IsAdded [] s inv = (s, refl, record { valid = inv; reads = ground arith })
add_all-IsAdded (free ∷ es) s inv =
    let (s', run, a) = add_all-IsAdded es s inv in
    (s', run, record { valid = a.valid; reads = a.reads })
add_all-IsAdded (deleted _ ∷ es) s inv =
    let (s', run, a) = add_all-IsAdded es s inv in
    (s', run, record { valid = a.valid; reads = a.reads })
add_all-IsAdded (full k tt ∷ es) s inv =
    let (s', run, c) = add-IsChange s k inv in
    let (s'', run', a) = add_all-IsAdded es s' c.valid in
    (
      s'',
      rw (add_all, run) run',
      record { valid = a.valid; reads = λ q. ground (arith, a.reads q, c.reads q) },
    )

-- `set_union` of two well-formed sets does not fault and returns REBUILD_OK. The result is well
-- formed, and its members are those of either set.
pub union-has :
    (s other : Set)
    → IsValid s
    → IsValid other
    → (s' : Set) × (union s other ≡ some (ok, s'))
      × IsValid s'
      × ((q : Bytes) → has s' q ≡ (has s q || has other q))
unfolding union
union-has s other inv inw =
    let (s', run, a) = add_all-IsAdded other.entries s inv in
    (s', run, a.valid, λ q. a.reads q ∙ ap (λ b. has s q || b) (among-has other inw q))

-- A set that holds distinct strings has at least as many members.
count-le-size :
    (es : List SetSlot) (s : Set)
    → IsValid s
    → IsOnce es
    → ((q : Bytes) → Has es q tt → has s q ≡ true)
    → count es ≤ s.size
count-le-size [] s inv once holds = omega arith
count-le-size (free ∷ es) s inv once holds = omega (
  arith,
  count-le-size es s inv (IsOnce-tail free es once) (λ q h. holds q (Has-shift free es q h)),
)
count-le-size (deleted d ∷ es) s inv once holds = omega (
  arith,
  count-le-size es s inv (IsOnce-tail (deleted d) es once)
      (λ q h. holds q (Has-shift (deleted d) es q h)),
)
count-le-size (full k tt ∷ es) s inv once holds =
    let (was, c) = remove-IsChange s k inv in
    let still : (q : Bytes) → Has es q tt → has (remove s k).1 q ≡ true = λ q h.
      elim (same_string_cases q k) [
        | inl e ↦
            absurd (omega (arith, once 0 (suc h.0) k tt tt refl (h.1 ∙ ap (λ j. full j tt) e)))
        | inr (n, f) ↦ c.reads q ∙ rw f (holds q (Has-shift (full k tt) es q h))
      ] in
    let less = count-le-size es (remove s k).1 c.valid (IsOnce-tail (full k tt) es once) still in
    omega (arith, less, c.sized, ap to_nat (holds k (0, refl)))

-- The loop of `set_contains_all` tests every string of the slots.
has_all_sound :
    (s : Set) (es : List SetSlot) (q : Bytes) → has_all s es ≡ true → Has es q tt → has s q ≡ true
unfolding has_all
has_all_sound s [] q h (p, e) = cc
has_all_sound s (free ∷ es) q h (zero, e) = cc
has_all_sound s (free ∷ es) q h (suc p, e) = has_all_sound s es q h (p, e)
has_all_sound s (deleted _ ∷ es) q h (zero, e) = cc
has_all_sound s (deleted _ ∷ es) q h (suc p, e) = has_all_sound s es q h (p, e)
has_all_sound s (full k tt ∷ es) q h (zero, e) = let same : k ≡ q = cc in rw same at (first h)
  where
    first : has_all s (full k tt ∷ es) ≡ true → has s k ≡ true
    first h = ground arith
has_all_sound s (full k tt ∷ es) q h (suc p, e) = has_all_sound s es q (ground arith) (p, e)

has_all_complete :
    (s : Set) (es : List SetSlot)
    → ((q : Bytes) → Has es q tt → has s q ≡ true)
    → has_all s es ≡ true
unfolding has_all
has_all_complete s [] h = refl
has_all_complete s (free ∷ es) h = has_all_complete s es (λ q a. h q (Has-shift free es q a))
has_all_complete s (deleted d ∷ es) h =
    has_all_complete s es (λ q a. h q (Has-shift (deleted d) es q a))
has_all_complete s (full k tt ∷ es) h =
    rw (h k (0, refl)) (has_all_complete s es (λ q a. h q (Has-shift (full k tt) es q a)))

-- `set_contains_all` of two well-formed sets decides inclusion: its two shortcuts on the sizes change no answer.
pub contains_all_iff :
    (s other : Set)
    → IsValid s
    → IsValid other
    → (contains_all s other ≡ true) ↔ ((q : Bytes) → has other q ≡ true → has s q ≡ true)
unfolding contains_all
contains_all_iff s other inv inw = (sound, complete)
  where
    tested :
        contains_all s other ≡ true
        → {q : Bytes} → Has other.entries q tt
        → has_all s other.entries ≡ true
    tested h at = ground (arith, inw.sized, count_none other.entries at.0 at.1)

    sound : contains_all s other ≡ true → (q : Bytes) → has other q ≡ true → has s q ≡ true
    sound h q m = let at = has-Has other inw q m in has_all_sound s other.entries q (tested h at) at

    complete : ((q : Bytes) → has other q ≡ true → has s q ≡ true) → contains_all s other ≡ true
    complete h =
        let within : (q : Bytes) → Has other.entries q tt → has s q ≡ true =
          λ q a. h q (Has-has other inw q a) in
        ground (
          arith,
          has_all_complete s other.entries within,
          count-le-size other.entries s inv inw.probed.once within,
          inw.sized,
        )

create-fresh :
    (initial_capacity : ℕ)
    → initial_capacity ≤ 2 ^ 63
    → (s : Set) × (create initial_capacity ≡ some s)
      × IsEmpty s
      × IsRounded (requested initial_capacity) s.capacity
unfolding create Map.create
create-fresh initial_capacity bound = create-IsEmpty initial_capacity bound

-- `set_copy` of a well-formed set of capacity up to 2 ^ 63 succeeds, and the copy is well formed and
-- has the same members.
copy-has :
    (s : Set)
    → IsValid s
    → s.capacity ≤ 2 ^ 63
    → (c : Set) × (copy s ≡ some (some c)) × IsValid c × ((q : Bytes) → has c q ≡ has s q)
unfolding copy copied
copy-has s inv bound =
    let (fresh, made, empty, _) = create-fresh s.capacity bound in
    let (c, run, a) = add_all-IsAdded s.entries fresh empty.valid in
    (
      c,
      rw (made, run),
      a.valid,
      λ q.
          a.reads q
          ∙ ap (λ b. b || among s.entries q)
              (has-map fresh q ∙ has-get fresh q ∙ ap Map.is_some (empty.reads q))
          ∙ among-has s inv q,
    )
