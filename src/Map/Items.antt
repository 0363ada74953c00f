-- ===== src/Map/Items.antt =====
-- `map_iterate`, `map_clear` and `map_free`, and the sizes that `map_create` allocates.
use rebuild.Base.{ℕ, zero, suc, ◌^◌, ◌≤◌, ◌<◌, ◌≡◌, refl, ap, ◌↔◌, arith}
use rebuild.Base.{List, [], ◌∷◌, map, some, Bytes, sym, ◌∙◌, true, false, Bool, In, here, there}
use rebuild.Base.{length}
use rebuild.Table.{Slot, free, deleted, full, slot_at, requested}
use rebuild.Table.Capacity.{IsRounded, round_up-IsRounded_start}
use rebuild.Table.Write.{count, Has}
use rebuild.Table.Find.{lookup-Has, Has-lookup}
use rebuild.Table.Rehash.{IsValid, blank}
use rebuild.Map.{Map, get, iterate, iterate_entries, freed_values, map_free, blank_entries, clear}
use rebuild.Map.{create}
use rebuild.Map.Writes.{get-lookup, IsEmpty, blank-IsEmpty}

module _ {ℓ} {V : Type ℓ} where
  -- The pairs of the full slots, in the order of the array.
  unfoldable pub items : List (Slot V) → List (Bytes × V)
  items [] = []
  items (full k v ∷ es) = (k, v) ∷ items es
  items (free ∷ es) = items es
  items (deleted _ ∷ es) = items es

  length-items : (es : List (Slot V)) → length (items es) ≡ count es
  unfolding items
  length-items [] = refl
  length-items (full k v ∷ es) = omega (arith, length-items es)
  length-items (free ∷ es) = omega (arith, length-items es)
  length-items (deleted _ ∷ es) = omega (arith, length-items es)

  Has-items :
      (es : List (Slot V)) (p : ℕ) (k : Bytes) (v : V)
      → slot_at es p ≡ full k v
      → In (k, v) (items es)
  unfolding items
  Has-items [] p k v h = cc
  Has-items (full j w ∷ es) zero k v h = here (cc)
  Has-items (full j w ∷ es) (suc p) k v h = there (Has-items es p k v h)
  Has-items (free ∷ es) zero k v h = cc
  Has-items (free ∷ es) (suc p) k v h = Has-items es p k v h
  Has-items (deleted _ ∷ es) zero k v h = cc
  Has-items (deleted _ ∷ es) (suc p) k v h = Has-items es p k v h

  shift : (s : Slot V) (es : List (Slot V)) (k : Bytes) (v : V) → Has es k v → Has (s ∷ es) k v
  shift s es k v (p, h) = (suc p, h)

  items-Has : (es : List (Slot V)) (k : Bytes) (v : V) → In (k, v) (items es) → Has es k v
  unfolding items
  items-Has [] k v h = elim h [ ]
  items-Has (full j w ∷ es) k v (here e) = (0, ap (λ (t : Bytes × V). full t.0 t.1) (sym e))
  items-Has (full j w ∷ es) k v (there h) = shift (full j w) es k v (items-Has es k v h)
  items-Has (free ∷ es) k v h = shift free es k v (items-Has es k v h)
  items-Has (deleted d ∷ es) k v h = shift (deleted d) es k v (items-Has es k v h)

  -- The pairs of a well-formed map are those that `map_get` finds, as many as the map's size.
  pub items-get :
      (m : Map V)
      → IsValid m
      → (length (items m.entries) ≡ m.size)
        × ((k : Bytes) (v : V) → In (k, v) (items m.entries) ↔ (get m k ≡ some v))
  items-get m inv = (
    length-items m.entries ∙ sym inv.sized,
    λ k v. (
      λ h. get-lookup m k inv ∙ Has-lookup _ _ k inv.probed v (items-Has m.entries k v h),
      λ h.
          let at = lookup-Has _ _ k inv.probed v (sym (get-lookup m k inv) ∙ h) in
          Has-items m.entries at.0 k v at.1,
    ),
  )

  -- The callback's calls, one for each pair, until one returns false.
  unfoldable pub visit {κ} : {S : Type κ} → (Bytes → V → S → Bool × S) → List (Bytes × V) → S → S
  visit fn [] s = s
  visit fn ((k, v) ∷ rest) s =
      let (continue, s') = fn k v s in elim continue [ true ↦ visit fn rest s' | false ↦ s' ]

  iterate_entries-visit {κ} :
      {S : Type κ} (fn : Bytes → V → S → Bool × S) (es : List (Slot V)) (s : S)
      → iterate_entries fn es s ≡ visit fn (items es) s
  unfolding iterate_entries visit items
  iterate_entries-visit fn [] s = refl
  iterate_entries-visit fn (free ∷ es) s = iterate_entries-visit fn es s
  iterate_entries-visit fn (deleted _ ∷ es) s = iterate_entries-visit fn es s
  iterate_entries-visit fn (full k v ∷ es) s =
      ground (arith, iterate_entries-visit fn es (fn k v s).1)

  pub freed_values-items : (es : List (Slot V)) → freed_values es ≡ map (λ t. t.1) (items es)
  unfolding freed_values items
  freed_values-items [] = refl
  freed_values-items (free ∷ es) = freed_values-items es
  freed_values-items (deleted _ ∷ es) = freed_values-items es
  freed_values-items (full k v ∷ es) = ap (λ t. v ∷ t) (freed_values-items es)

  blank_entries-blank : (es : List (Slot V)) → blank_entries es ≡ blank (length es)
  unfolding blank_entries
  blank_entries-blank [] = refl
  blank_entries-blank (_ ∷ es) = ap (λ t. free ∷ t) (blank_entries-blank es)

  -- `map_clear` on a well-formed map hands every stored value to the callback, if there is one, and
  -- either way leaves an empty map of the same capacity.
  clear-IsEmpty :
      (m : Map V)
      → IsValid m
      → ((clear m true).0 ≡ map (λ t. t.1) (items m.entries))
        × ((clear m false).0 ≡ [])
        × IsEmpty (clear m true).1
        × ((clear m true).1.capacity ≡ m.capacity)
        × ((clear m false).1 ≡ (clear m true).1)
  unfolding clear map_free
  clear-IsEmpty m inv = (
    freed_values-items m.entries,
    refl,
    rw (blank_entries-blank, inv.probed.width) (blank-IsEmpty m.capacity inv.probed.positive),
    refl,
    refl,
  )

  -- `map_iterate` calls the callback on the pairs of the map in order, until one call stops it.
  pub iterate-visit {κ} :
      {S : Type κ} (fn : Bytes → V → S → Bool × S) (m : Map V) (s : S)
      → iterate m fn s ≡ visit fn (items m.entries) s
  unfolding iterate
  iterate-visit fn m s = iterate_entries-visit fn m.entries s

  -- For a request of up to 2 ^ 63 `map_create` ends, with an empty well-formed map. Its capacity is
  -- the least power of two that is at least the request, or 16 for the request 0.
  pub create-IsEmpty :
      (initial_capacity : ℕ)
      → initial_capacity ≤ 2 ^ 63
      → (m : Map V) × (create initial_capacity ≡ some m)
        × IsEmpty m
        × IsRounded (requested initial_capacity) m.capacity
  unfolding create
  create-IsEmpty initial_capacity bound =
      let (capacity, run, r) =
        round_up-IsRounded_start (requested initial_capacity) (ground arith) (ground arith) in
      (_, rw run, blank-IsEmpty capacity (omega (arith, r.enough, positive initial_capacity)), r)
    where
      positive : (n : ℕ) → 0 < requested n
      positive n = ground arith
