-- ===== src/Table/Find.antt =====
-- A search of a table that keeps the invariant, and what writes do to every later search.
use Prim.Native.Nat.{◌-◌}
use rebuild.Base.{ℕ, ◌+◌, ◌%◌, ◌≤◌, ◌<◌, ◌≡◌, refl, ap, ◌⊎◌, inl, inr, arith}
use rebuild.Base.{List, Option, none, some, Bytes, length, sym, ◌∙◌}
use rebuild.Base.{Option-cases}
use native.Mathlib.Nat.{mod-eq_of_lt, add-mod_right, mod-lt}
use rebuild.Table.{Slot, free, deleted, full, slot_at, find_entry, lookup, occupied_value}
use rebuild.Table.Probe.{probe, home, IsReached, IsVacant, IsHit, IsMiss}
use rebuild.Table.Probe.{find_loop-Outcome}
use rebuild.Table.Write.{weight, count, Has, IsProbed, count_all}

-- Every slot is on every probe sequence.
probe_onto :
    (capacity index p : ℕ)
    → index < capacity
    → p < capacity
    → (i : ℕ) × (i < capacity) × (probe capacity index i ≡ p)
probe_onto capacity index p hi hp = elim (order index p) [
  | inl le ↦ (p - index, omega arith, mod-eq_of_lt' (index + (p - index)) (omega arith))
  | inr gt ↦ (p + capacity - index, omega arith, wrapped (omega arith))
]
  where
    order : (a b : ℕ) → (a ≤ b) ⊎ (b < a)
    order a b = grind arith

    mod-eq_of_lt' : (n : ℕ) → n ≡ p → n % capacity ≡ p
    mod-eq_of_lt' n e = rw e (mod-eq_of_lt hp)

    wrapped :
        index + (p + capacity - index) ≡ p + capacity
        → (index + (p + capacity - index)) % capacity ≡ p
    wrapped e = rw (e, add-mod_right, mod-eq_of_lt hp)

module _ {ℓ} {V : Type ℓ} where
  pub record IsAbsent (es : List (Slot V)) (capacity : ℕ) (key : Bytes) (r : Option ℕ)
      : Type ℓ where
    pub nowhere : (v : V) → ¬ Has es key v
    pub vacant :
        (p : ℕ) → r ≡ some p → IsReached es capacity (home capacity key) p × IsVacant (slot_at es p)
    pub packed : r ≡ none → count es ≡ length es

  -- A search finds the key's entry, or a vacant slot to put it in, or the table is full.
  pub find_entry-cases :
      (es : List (Slot V)) (capacity : ℕ) (key : Bytes)
      → IsProbed es capacity
      → IsHit es capacity (home capacity key) key (find_entry es capacity key)
        ⊎ IsAbsent es capacity key (find_entry es capacity key)
  find_entry-cases es capacity key inv =
      unfold find_entry in elim outcome [ inl hit ↦ inl hit | inr miss ↦ inr (absent miss) ]
    where
      start : ℕ
      start = home capacity key

      outcome :
          IsHit es capacity start key (find_entry es capacity key)
          ⊎ IsMiss es capacity start key 0 capacity (find_entry es capacity key)
      outcome =
          unfold find_entry in
          find_loop-Outcome es capacity start key capacity 0 none (omega arith)
            (λ j h. absurd (omega arith)) (λ p e. cc)

      absent :
          IsMiss es capacity start key 0 capacity (find_entry es capacity key)
          → IsAbsent es capacity key (find_entry es capacity key)
      absent miss = record {
        nowhere = λ v h.
            let r = inv.reach h.0 key v h.1 in
            miss.absent r.steps v (omega arith) (omega (arith, r.in_range)) r.clear
              (rw r.there h.1);
        vacant = miss.vacant;
        packed = λ e. count_all es λ p lt.
            let (i, hi, there) =
              probe_onto capacity start p (mod-lt _ inv.positive) (rw inv.width at lt) in
            let (k, v, h) = miss.packed e i (omega arith) (omega arith) in
            ap weight (rw there at h);
      }

  occupied_value-full :
      (s : Slot V) (v : V) → occupied_value s ≡ some v → (k : Bytes) × (s ≡ full k v)
  occupied_value-full free v h = cc
  occupied_value-full (deleted _) v h = cc
  occupied_value-full (full k w) v h = (k, ap (full k) (cc))

  occupied_value-vacant : (s : Slot V) → IsVacant s → occupied_value s ≡ none
  occupied_value-vacant free h = refl
  occupied_value-vacant (deleted _) h = refl
  occupied_value-vacant (full k w) h = absurd (h k w refl)

  module _ (es : List (Slot V)) (capacity : ℕ) (key : Bytes) where
    pub lookup-found :
        {p : ℕ}
        → find_entry es capacity key ≡ some p
        → lookup es capacity key ≡ occupied_value (slot_at es p)
    unfolding lookup
    lookup-found e = rw (lookup, e)

    pub lookup-missing : find_entry es capacity key ≡ none → lookup es capacity key ≡ none
    unfolding lookup
    lookup-missing e = rw (lookup, e)

    module _ (inv : IsProbed es capacity) where
      -- A search that finds a value finds the one that stands under the key, and the other way
      -- round.
      pub lookup-Has : (v : V) → lookup es capacity key ≡ some v → Has es key v
      lookup-Has v h = elim (find_entry-cases es capacity key inv) [
        | inl hit ↦
            let e : occupied_value (full key hit.value) ≡ some v =
              ap occupied_value (sym hit.holds) ∙ sym (lookup-found hit.found) ∙ h in
            (hit.entry, hit.holds ∙ ap (full key) (cc))
        | inr miss ↦ elim (Option-cases (find_entry es capacity key)) [
          | inl e ↦ cc (h, lookup-missing e)
          | inr (p, e) ↦ cc (h, lookup-found e, occupied_value-vacant _ (miss.vacant p e).1)
        ]
      ]

      pub Has-lookup : (v : V) → Has es key v → lookup es capacity key ≡ some v
      Has-lookup v h = elim (find_entry-cases es capacity key inv) [
        | inl hit ↦
            let same = inv.once hit.entry h.0 key hit.value v hit.holds h.1 in
            lookup-found hit.found ∙ rw (same, h.1)
        | inr miss ↦ absurd (miss.nowhere v h)
      ]

      pub lookup-absent : ((v : V) → ¬ Has es key v) → lookup es capacity key ≡ none
      lookup-absent h = elim (Option-cases (lookup es capacity key)) [
        | inl e ↦ e
        | inr (v, e) ↦ absurd (h v (lookup-Has v e))
      ]

  -- Searches agree if the same values stand under the two keys.
  pub lookup_congr :
      (es fs : List (Slot V)) (c d : ℕ) (k : Bytes)
      → IsProbed es c
      → IsProbed fs d
      → ((v : V) → Has es k v → Has fs k v)
      → ((v : V) → Has fs k v → Has es k v)
      → lookup es c k ≡ lookup fs d k
  lookup_congr es fs c d k inv inw to from = elim (Option-cases (lookup es c k)) [
    | inl e ↦ e ∙ sym (lookup-absent fs d k inw (λ v h. cc (e, Has-lookup es c k inv v (from v h))))
    | inr (v, e) ↦ e ∙ sym (Has-lookup fs d k inw v (to v (lookup-Has es c k inv v e)))
  ]
