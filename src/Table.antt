-- ===== src/Table.antt =====
-- The open-addressing table that src/map.c and src/set.c both contain: its slots, the FNV-1a hash,
-- linear probing, and the rehashing loop of `map_grow` and `set_grow`.
--
-- A slot of the C array is a key pointer, a value and the flag `occupied`. Three of its states
-- occur: `free` (no key, not occupied), `deleted` (a tombstone: a key, not occupied) and `full`
-- (a key, occupied). `occupied` is only ever set together with a key that is not NULL.
pub mod Capacity
pub mod Probe
pub mod Write
pub mod Find
pub mod Rehash
pub mod Update
use Prim.Native.Nat.{bit_xor}
use mathlib.Core.Option
use rebuild.Base.{ℕ, zero, suc, ◌+◌, ◌*◌, ◌/◌, ◌%◌, ◌^◌, List, [], ◌∷◌, Option, none, some, Bool}
use rebuild.Base.{true, false, Bytes, length, get_or, set, replicate, ltb, ◌==◌, same_string}
use rebuild.Base.{if◌then◌else◌}

pub data Slot {ℓ} (V : Type ℓ) : Type ℓ where
  free : Slot V
  deleted : Bytes → Slot V
  full : Bytes → V → Slot V

pub record Table {ℓ} (V : Type ℓ) : Type ℓ where
  pub entries : List (Slot V)
  pub capacity : ℕ
  pub size : ℕ
  pub tombstones : ℕ

abbrev pub default_capacity : ℕ
default_capacity = 16

hash_loop : Bytes → ℕ → ℕ
hash_loop [] hash = hash
hash_loop (c ∷ cs) hash = hash_loop cs (bit_xor hash c * 16777619 % 2 ^ 32)

-- FNV-1a over the bytes of the string, in 32 bits.
unfoldable pub hash_string : Bytes → ℕ
unfolding hash_loop
hash_string s = hash_loop s 2166136261

-- `tombstone ? tombstone : entry`
abbrev pub or_slot : Option ℕ → ℕ → ℕ
or_slot none p = p
or_slot (some t) p = t

-- `capacity ? capacity * 2 : 16`
unfoldable pub grown_capacity : ℕ → ℕ
grown_capacity capacity = if capacity == 0 then default_capacity else capacity * 2

module _ {ℓ} {V : Type ℓ} where
  abbrev pub slot_at : List (Slot V) → ℕ → Slot V
  slot_at es p = get_or es p free

  -- The probing loop: `left` rounds are left, `i` is the counter, and the slot is its index.
  unfoldable pub find_loop : List (Slot V) → ℕ → ℕ → Bytes → ℕ → ℕ → Option ℕ → Option ℕ
  find_loop es capacity index key zero i tombstone = tombstone
  find_loop es capacity index key (suc left) i tombstone =
      let p = (index + i) % capacity in
      elim (slot_at es p) [
        | free ↦ some (or_slot tombstone p)
        | deleted _ ↦ find_loop es capacity index key left (i + 1) (some (or_slot tombstone p))
        | full k _ ↦ elim (same_string k key) [
          | true ↦ some p
          | false ↦ find_loop es capacity index key left (i + 1) tombstone
        ]
      ]

  -- The index of the entry for the key: the entry that holds it, else the slot to put it in, else
  -- none (NULL).
  unfoldable pub find_entry : List (Slot V) → ℕ → Bytes → Option ℕ
  unfolding hash_string find_loop
  find_entry es capacity key =
      find_loop es capacity (hash_string key % capacity) key capacity 0 none

  -- `entry->occupied` and `entry->value`
  abbrev pub occupied_value : Slot V → Option V
  occupied_value free = none
  occupied_value (deleted _) = none
  occupied_value (full _ v) = some v

  -- The search of `map_get` and `map_has`: the value of the occupied entry for the key.
  unfoldable pub lookup : List (Slot V) → ℕ → Bytes → Option V
  lookup es capacity key = elim (find_entry es capacity key) [
    | none ↦ none
    | some p ↦ occupied_value (slot_at es p)
  ]

  -- The loop over the old entries. Tombstones are dropped, the full entries are moved by
  -- `dest->key = …; dest->value = …; dest->occupied = true`. `none` is the fault of a search that
  -- returned NULL.
  unfoldable pub rehash : List (Slot V) → List (Slot V) → ℕ → ℕ → Option (List (Slot V) × ℕ)
  rehash [] fresh capacity new_size = some (fresh, new_size)
  rehash (free ∷ es) fresh capacity new_size = rehash es fresh capacity new_size
  rehash (deleted _ ∷ es) fresh capacity new_size = rehash es fresh capacity new_size
  rehash (full k v ∷ es) fresh capacity new_size = elim (find_entry fresh capacity k) [
    | none ↦ none
    | some p ↦ rehash es (set fresh p (full k v)) capacity (new_size + 1)
  ]

  unfoldable pub grow : Table V → Option (Table V)
  unfolding rehash grown_capacity
  grow t =
      let capacity = grown_capacity t.capacity in
      Option.map (λ r. record { entries = r.0; capacity = capacity; size = r.1; tombstones = 0 })
        (rehash t.entries (replicate capacity free) capacity 0)

-- `if (initial_capacity == 0) initial_capacity = DEFAULT_MAP_CAPACITY;`
abbrev pub requested : ℕ → ℕ
requested initial_capacity = if initial_capacity == 0 then default_capacity else initial_capacity

-- `while (capacity < initial_capacity) capacity *= 2` on size_t, with fuel; `none` means that the
-- fuel ran out.
unfoldable pub round_up : ℕ → ℕ → ℕ → Option ℕ
round_up zero capacity wanted = none
round_up (suc fuel) capacity wanted =
    let rest = round_up fuel (capacity * 2 % 2 ^ 64) wanted in
    if ltb capacity wanted then rest else some capacity

-- `(size + tombstones + 1) > (size_t)(capacity * 0.75)`. The product is exact in a double for every
-- capacity below 2 ^ 53, and the cast truncates.
unfoldable pub must_grow : ℕ → ℕ → ℕ → Bool
must_grow capacity size tombstones = ltb (capacity * 3 / 4) (size + tombstones + 1)
