-- ===== src/Tests/Buffers.antt =====
-- Buffers of src/buffer.c.
use mathlib.Core.Option
use rebuild.Base.{ℕ, ◌≤◌, ◌≡◌, refl, arith, [], ◌∷◌, none, some, length, replicate}
use rebuild.Base.{ok}
use rebuild.Buffer.{Buffer, buffer_create, buffer_append, grow_loop, buffer_ensure_capacity}
use rebuild.Buffer.Growth.{buffer_append-bytes, buffer_append_stuck}

program : Unit {0}
unfolding buffer_create buffer_append grow_loop buffer_ensure_capacity
program = tt

abbrev small : Buffer
small = record { bytes = b'a' ∷ []; capacity = 2 }

-- 2, 3, 4, 6: the first capacity that five bytes fit in.
grown : Option.map (λ r. r.1.capacity) (buffer_append 10 small (replicate 4 b'b')) ≡ some 6
unfolding program
grown = refl

buffer_append-bytes_example :
    (c : ℕ) × (buffer_append 6 small (replicate 4 b'b')
      ≡ some (ok, record { bytes = b'a' ∷ replicate 4 b'b'; capacity = c }))
    × (length {A = ℕ} (b'a' ∷ replicate 4 b'b') ≤ c)
buffer_append-bytes_example =
    buffer_append-bytes small (replicate 4 b'b') 5 (λ e. absurd (omega (arith, e))) (omega arith)
      (omega arith)

buffer_append_stuck_example :
    buffer_append 100 (record { bytes = []; capacity = 1 }) (replicate 2 b'b') ≡ none
buffer_append_stuck_example =
    buffer_append_stuck (record { bytes = []; capacity = 1 }) (replicate 2 b'b') 100 refl
      (omega arith) (omega arith)
