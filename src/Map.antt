-- ===== src/Map.antt =====
-- The hash map of src/map.c, over the table of `Table`.
--
-- Allocation never returns NULL (`rebuild_malloc` exits instead), and a caller passes no NULL map,
-- key or value, so the guards on these have no counterpart. `none` as a result of an operation is a
-- fault: a write through a NULL entry. Freed values are returned as a list, in order.
pub mod Writes
pub mod Items
use rebuild.Base.{ℕ, zero, suc, ◌+◌, ◌-◌, ◌*◌, ◌^◌, List, [], ◌∷◌, Option, none, some, Bool, true}
use rebuild.Base.{false, Bytes, set as set_elem, replicate, ltb, ◌==◌, if◌then◌else◌, length}
use rebuild.Base.{RebuildError, ok, error_memory}
use mathlib.Core.Option
use rebuild.Table.{Slot, free, deleted, full, Table, slot_at, find_entry, lookup, occupied_value}
use rebuild.Table.{grow, round_up, must_grow, requested}

-- `struct Map` is the table, its values the `void*` of the entries.
abbrev pub Map {ℓ} : Type ℓ → Type ℓ
Map V = Table V

module _ {ℓ} {V : Type ℓ} where
  -- The doubling loop tests at most 64 times for a request of up to 2 ^ 63.
  unfoldable pub create : ℕ → Option (Map V)
  unfolding round_up
  create initial_capacity =
      Option.map
        (λ capacity. record {
          entries = replicate capacity free;
          capacity = capacity;
          size = 0;
          tombstones = 0;
        })
        (round_up 64 1 (requested initial_capacity))

  -- The end of `map_set`, at the entry that the search returned.
  unfoldable pub write_entry : Map V → ℕ → Bytes → V → Slot V → Map V
  write_entry m p key value (full k _) = record m { entries = set_elem m.entries p (full k value) }
  write_entry m p key value _ = record m {
    entries = set_elem m.entries p (full key value);
    size = m.size + 1;
  }

  -- `map_set` after the table has grown where it had to.
  unfoldable pub set_grown : Map V → Bytes → V → Option (RebuildError × Map V)
  unfolding write_entry
  set_grown m key value = elim (find_entry m.entries m.capacity key) [
    | none ↦ some (error_memory, m)
    | some p ↦ some (ok, write_entry m p key value (slot_at m.entries p))
  ]

  unfoldable pub set : Map V → Bytes → V → Option (RebuildError × Map V)
  unfolding set_grown must_grow Option.bind
  set m key value =
      if must_grow m.capacity m.size m.tombstones
      then Option.bind (grow m) (λ m'. set_grown m' key value)
      else set_grown m key value

  unfoldable pub get : Map V → Bytes → Option V
  get m key = if m.size == 0 then none else lookup m.entries m.capacity key

  abbrev pub is_some : Option V → Bool
  is_some none = false
  is_some (some v) = true

  -- `entry && entry->occupied`
  unfoldable pub has : Map V → Bytes → Bool
  has m key = if m.size == 0 then false else is_some (lookup m.entries m.capacity key)

  -- The end of `map_remove`, at the entry that the search returned.
  unfoldable pub erase_entry : Map V → ℕ → Slot V → Option V × Map V
  erase_entry m p (full k old) = (
    some old,
    record m {
      entries = set_elem m.entries p (deleted k);
      size = m.size - 1;
      tombstones = m.tombstones + 1;
    },
  )
  erase_entry m p _ = (none, m)

  unfoldable pub remove : Map V → Bytes → Option V × Map V
  unfolding erase_entry
  remove m key = if m.size == 0 then (none, m) else elim (find_entry m.entries m.capacity key) [
    | none ↦ (none, m)
    | some p ↦ erase_entry m p (slot_at m.entries p)
  ]

  -- The callback works on a state `S` and returns false to stop the iteration.
  unfoldable pub iterate_entries {κ} :
      {S : Type κ} → (Bytes → V → S → Bool × S) → List (Slot V) → S → S
  iterate_entries fn [] s = s
  iterate_entries fn (full k v ∷ es) s =
      let (continue, s') = fn k v s in
      elim continue [ true ↦ iterate_entries fn es s' | false ↦ s' ]
  iterate_entries fn (free ∷ es) s = iterate_entries fn es s
  iterate_entries fn (deleted _ ∷ es) s = iterate_entries fn es s

  unfoldable pub iterate {κ} : {S : Type κ} → Map V → (Bytes → V → S → Bool × S) → S → S
  unfolding iterate_entries
  iterate m fn s = iterate_entries fn m.entries s

  -- The values that the loops of `map_free` and `map_clear` hand to `value_free_fn`.
  unfoldable pub freed_values : List (Slot V) → List V
  freed_values [] = []
  freed_values (full _ v ∷ es) = v ∷ freed_values es
  freed_values (free ∷ es) = freed_values es
  freed_values (deleted _ ∷ es) = freed_values es

  -- `with_free_fn` says whether `value_free_fn` is given.
  unfoldable pub map_free : Map V → Bool → List V
  unfolding freed_values
  map_free m with_free_fn = if with_free_fn then freed_values m.entries else []

  unfoldable pub blank_entries : List (Slot V) → List (Slot V)
  blank_entries [] = []
  blank_entries (_ ∷ es) = free ∷ blank_entries es

  unfoldable pub clear : Map V → Bool → List V × Map V
  unfolding map_free blank_entries
  clear m with_free_fn = (
    map_free m with_free_fn,
    record m { entries = blank_entries m.entries; size = 0; tombstones = 0 },
  )
