-- ===== src/Buffer.antt =====
-- The growable buffer: src/buffer.c. The bytes in use are the list `bytes`, so `size` is its length.
pub mod Growth
use mathlib.Core.Option
use rebuild.Base.{
  ℕ, zero, suc, ◌+◌, ◌/◌, List, [], ◌∷◌, ◌++◌, Option, none, some, Bool, Bytes, length, ltb, leb,
  ◌==◌,
}
use rebuild.Base.{RebuildError, ok, if◌then◌else◌}

pub record Buffer : Type 0 where
  pub bytes : Bytes
  pub capacity : ℕ

abbrev pub default_buffer_capacity : ℕ
default_buffer_capacity = 64

-- `while (new_capacity < min_capacity) new_capacity += new_capacity >> 1`, with fuel; `none` means
-- that the fuel ran out. The sizes stay far below those at which size_t overflows.
unfoldable pub grow_loop : ℕ → ℕ → ℕ → Option ℕ
grow_loop zero new_capacity min_capacity = none
grow_loop (suc fuel) new_capacity min_capacity =
    let rest = grow_loop fuel (new_capacity + new_capacity / 2) min_capacity in
    if ltb new_capacity min_capacity then rest else some new_capacity

unfoldable pub buffer_ensure_capacity : ℕ → Buffer → ℕ → Option (RebuildError × Buffer)
unfolding grow_loop
buffer_ensure_capacity fuel buf min_capacity =
    if leb min_capacity buf.capacity
    then some (ok, buf)
    else Option.map (λ c. (ok, record buf { capacity = c }))
        (grow_loop fuel (if buf.capacity == 0 then default_buffer_capacity else buf.capacity)
          min_capacity)

unfoldable pub buffer_create : ℕ → Buffer
buffer_create initial_capacity = record {
  bytes = [];
  capacity = if initial_capacity == 0 then default_buffer_capacity else initial_capacity;
}

unfoldable pub buffer_append : ℕ → Buffer → Bytes → Option (RebuildError × Buffer)
unfolding buffer_ensure_capacity
buffer_append fuel buf added =
    if length added == 0
    then some (ok, buf)
    else Option.map (λ r. (ok, record { bytes = buf.bytes ++ added; capacity = r.1.capacity }))
        (buffer_ensure_capacity fuel buf (length buf.bytes + length added))

unfoldable pub buffer_append_str : ℕ → Buffer → Bytes → Option (RebuildError × Buffer)
buffer_append_str fuel buf str = buffer_append fuel buf str

unfoldable pub buffer_append_char : ℕ → Buffer → ℕ → Option (RebuildError × Buffer)
buffer_append_char fuel buf c = buffer_append fuel buf (c ∷ [])

unfoldable pub buffer_clear : Buffer → Buffer
buffer_clear buf = record buf { bytes = [] }

-- A string ends at its first zero; this is what is copied before the added zero.
unfoldable pub buffer_to_string : Buffer → Bytes
buffer_to_string buf = buf.bytes
