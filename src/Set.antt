-- ===== src/Set.antt =====
-- The hash set of src/set.c, over the table of `Table`. As in `Map`, NULL arguments and failed
-- allocations have no counterpart, and `none` is a fault.
pub mod Members
pub mod Bulk
use rebuild.Base.{ℕ, zero, suc, ◌+◌, ◌-◌, List, [], ◌∷◌, Option, none, some, Bool, true, false}
use rebuild.Base.{Bytes, set as set_elem, replicate, ltb, ◌==◌, if◌then◌else◌, RebuildError, ok}
use rebuild.Base.{error_memory}
use mathlib.Core.Option
use rebuild.Table.{Slot, free, deleted, full, Table, slot_at, find_entry, lookup, grow, round_up}
use rebuild.Table.{must_grow, requested}

-- `struct Set` is the table with no values: a `SetEntry` is its key and the flag.
abbrev pub Set : Type 0
Set = Table (Unit {0})

abbrev pub SetSlot : Type 0
SetSlot = Slot (Unit {0})

unfoldable pub create : ℕ → Option Set
unfolding round_up
create initial_capacity =
    Option.map
      (λ capacity. record {
        entries = replicate capacity free;
        capacity = capacity;
        size = 0;
        tombstones = 0;
      })
      (round_up 64 1 (requested initial_capacity))

-- The end of `set_add`, at the entry that the search returned: an occupied one is left alone.
unfoldable pub write_entry : Set → ℕ → Bytes → SetSlot → Set
write_entry s p value (full _ _) = s
write_entry s p value _ = record s {
  entries = set_elem s.entries p (full value tt);
  size = s.size + 1;
}

-- `set_add` after the table has grown where it had to.
unfoldable pub add_grown : Set → Bytes → Option (RebuildError × Set)
unfolding write_entry
add_grown s value = elim (find_entry s.entries s.capacity value) [
  | none ↦ some (error_memory, s)
  | some p ↦ some (ok, write_entry s p value (slot_at s.entries p))
]

unfoldable pub add : Set → Bytes → Option (RebuildError × Set)
unfolding add_grown must_grow Option.bind
add s value =
    if must_grow s.capacity s.size s.tombstones
    then Option.bind (grow s) (λ s'. add_grown s' value)
    else add_grown s value

-- `entry && entry->occupied`
abbrev pub is_occupied : Option (Unit {0}) → Bool
is_occupied none = false
is_occupied (some _) = true

unfoldable pub has : Set → Bytes → Bool
has s value = if s.size == 0 then false else is_occupied (lookup s.entries s.capacity value)

unfoldable pub erase_entry : Set → ℕ → SetSlot → Bool × Set
erase_entry s p (full k _) = (
  true,
  record s {
    entries = set_elem s.entries p (deleted k);
    size = s.size - 1;
    tombstones = s.tombstones + 1;
  },
)
erase_entry s p _ = (false, s)

unfoldable pub remove : Set → Bytes → Bool × Set
unfolding erase_entry
remove s value = if s.size == 0 then (false, s) else elim (find_entry s.entries s.capacity value) [
  | none ↦ (false, s)
  | some p ↦ erase_entry s p (slot_at s.entries p)
]

-- The callback works on a state `S` and returns false to stop the iteration.
unfoldable pub iterate_entries {κ} : {S : Type κ} → (Bytes → S → Bool × S) → List SetSlot → S → S
iterate_entries fn [] s = s
iterate_entries fn (full k _ ∷ es) s =
    let (continue, s') = fn k s in elim continue [ true ↦ iterate_entries fn es s' | false ↦ s' ]
iterate_entries fn (free ∷ es) s = iterate_entries fn es s
iterate_entries fn (deleted _ ∷ es) s = iterate_entries fn es s

unfoldable pub iterate {κ} : {S : Type κ} → Set → (Bytes → S → Bool × S) → S → S
unfolding iterate_entries
iterate set fn s = iterate_entries fn set.entries s

unfoldable pub blank_entries : List SetSlot → List SetSlot
blank_entries [] = []
blank_entries (_ ∷ es) = free ∷ blank_entries es

unfoldable pub clear : Set → Set
unfolding blank_entries
clear s = record s { entries = blank_entries s.entries; size = 0; tombstones = 0 }

-- The loop of `set_union` and `set_copy` over the entries of the other set; it ends at the first
-- error.
unfoldable pub add_all : List SetSlot → Set → Option (RebuildError × Set)
add_all [] s = some (ok, s)
add_all (free ∷ es) s = add_all es s
add_all (deleted _ ∷ es) s = add_all es s
add_all (full k _ ∷ es) s = elim (add s k) [ some (ok, s') ↦ add_all es s' | other ↦ other ]

unfoldable pub union : Set → Set → Option (RebuildError × Set)
unfolding add_all
union s other = add_all other.entries s

-- `none` inside is the NULL that `set_copy` returns when an addition fails.
copied : RebuildError × Set → Option Set
copied (ok, s) = some s
copied (_, s) = none

unfoldable pub copy : Set → Option (Option Set)
unfolding add_all copied Option.bind
copy s = Option.bind (create s.capacity) (λ fresh. Option.map copied (add_all s.entries fresh))

-- The loop of `set_contains_all`.
unfoldable pub has_all : Set → List SetSlot → Bool
has_all s [] = true
has_all s (free ∷ es) = has_all s es
has_all s (deleted _ ∷ es) = has_all s es
has_all s (full k _ ∷ es) = let rest = has_all s es in if has s k then rest else false

unfoldable pub contains_all : Set → Set → Bool
unfolding has_all
contains_all s other =
    if other.size == 0
    then true
    else if ltb s.size other.size
    then false
    else has_all s other.entries
