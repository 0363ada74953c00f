-- ===== src/Buffer/Growth.antt =====
-- The growth of a buffer, and what an append does.
use mathlib.Core.List.{append-nil}
use rebuild.Base.{ℕ, zero, suc, ◌+◌, ◌/◌, ◌≤◌, ◌<◌, ◌≡◌, refl, ap, arith, [], ◌∷◌, ◌++◌, none, some}
use rebuild.Base.{◌≢◌, false, Bytes, length, length-append, ltb, leb, ◌==◌, if◌then◌else◌, ok}
use rebuild.Base.{Bool-cases, inl, inr, sym, ◌∙◌}
use rebuild.Buffer.{
  Buffer, grow_loop, buffer_ensure_capacity, buffer_append, default_buffer_capacity,
}

-- From a capacity of two on, each round adds one at least.
grow_loop_reaches :
    (fuel capacity wanted : ℕ)
    → 2 ≤ capacity
    → wanted ≤ capacity + fuel
    → (c : ℕ) × (grow_loop (suc fuel) capacity wanted ≡ some c) × (wanted ≤ c) × (capacity ≤ c)
unfolding grow_loop
grow_loop_reaches zero capacity wanted two enough =
    (capacity, ground arith, omega arith, omega arith)
grow_loop_reaches (suc fuel) capacity wanted two enough =
    let (c, run, big, more) =
      grow_loop_reaches fuel (capacity + capacity / 2) wanted (omega arith) (omega arith) in
    elim (Bool-cases (ltb capacity wanted)) [
      | inr e ↦ (capacity, rw (grow_loop, e) refl, ground arith, omega arith)
      | inl e ↦ (c, rw (grow_loop, e) run, big, omega (arith, more))
    ]

-- A capacity of one is not left: the loop runs on for whatever fuel.
grow_loop_one : (fuel wanted : ℕ) → 1 < wanted → grow_loop fuel 1 wanted ≡ none
unfolding grow_loop
grow_loop_one zero wanted h = refl
grow_loop_one (suc fuel) wanted h = ground (arith, grow_loop_one fuel wanted h)

buffer_ensure_capacity_lem :
    (buf : Buffer) (wanted fuel : ℕ)
    → buf.capacity ≢ 1
    → wanted ≤ fuel
    → (c : ℕ) × (buffer_ensure_capacity (suc fuel) buf wanted
        ≡ some (ok, record buf { capacity = c }))
      × (wanted ≤ c)
      × (buf.capacity ≤ c)
unfolding buffer_ensure_capacity
buffer_ensure_capacity_lem buf wanted fuel two enough =
    let start = if buf.capacity == 0 then default_buffer_capacity else buf.capacity in
    let (c, run, big, more) = grow_loop_reaches fuel start wanted (ground arith) (omega arith) in
    elim (Bool-cases (leb wanted buf.capacity)) [
      | inl e ↦ (buf.capacity, rw e refl, ground arith, omega arith)
      | inr e ↦ (c, rw (e, run) refl, big, ground (arith, more))
    ]

no_bytes : (xs : Bytes) → length xs ≡ 0 → xs ≡ []
no_bytes [] e = refl
no_bytes (x ∷ xs) e = absurd (omega arith)

-- The capacity does not shrink.
pub buffer_append_lem :
    (buf : Buffer) (added : Bytes) (fuel : ℕ)
    → buf.capacity ≢ 1
    → length buf.bytes ≤ buf.capacity
    → length buf.bytes + length added ≤ fuel
    → (c : ℕ) × (buffer_append (suc fuel) buf added
        ≡ some (ok, record { bytes = buf.bytes ++ added; capacity = c }))
      × (length (buf.bytes ++ added) ≤ c)
      × (buf.capacity ≤ c)
unfolding buffer_append
buffer_append_lem buf added fuel two fits enough =
    let (c, run, big, more) =
      buffer_ensure_capacity_lem buf (length buf.bytes + length added) fuel two enough in
    elim (Bool-cases (length added == 0)) [
      | inl e ↦
          let nothing : added ≡ [] = no_bytes added (ground arith) in
          let same : buf.bytes ≡ buf.bytes ++ added =
            sym (append-nil buf.bytes) ∙ ap (λ t. buf.bytes ++ t) (sym nothing) in
          (
            buf.capacity,
            rw e (λ i. some (ok, record { bytes = same i; capacity = buf.capacity })),
            omega (arith, fits, ap length same),
            omega arith,
          )
      | inr e ↦ (c, rw (e, run) refl, omega (arith, big, length-append buf.bytes added), more)
    ]

-- An append to a buffer that is within its capacity, which is not one, with fuel for as many rounds as there are bytes
-- to hold, returns REBUILD_OK. It adds the bytes at the end, and all of them fit into the capacity.
pub buffer_append-bytes :
    (buf : Buffer) (added : Bytes) (fuel : ℕ)
    → buf.capacity ≢ 1
    → length buf.bytes ≤ buf.capacity
    → length buf.bytes + length added ≤ fuel
    → (c : ℕ) × (buffer_append (suc fuel) buf added
        ≡ some (ok, record { bytes = buf.bytes ++ added; capacity = c }))
      × (length (buf.bytes ++ added) ≤ c)
buffer_append-bytes buf added fuel two fits enough =
    let (c, run, big, more) = buffer_append_lem buf added fuel two fits enough in (c, run, big)

-- A buffer of capacity one, as `buffer_create(1)` makes it, is not grown: with whatever fuel an
-- append of more bytes than fit does not return.
pub buffer_append_stuck :
    (buf : Buffer) (added : Bytes) (fuel : ℕ)
    → buf.capacity ≡ 1
    → 1 < length buf.bytes + length added
    → 0 < length added
    → buffer_append fuel buf added ≡ none
unfolding buffer_append buffer_ensure_capacity
buffer_append_stuck buf added fuel one more some_bytes =
    let wanted = length buf.bytes + length added in
    let some_added : (length added == 0) ≡ false = ground arith in
    let too_many : leb wanted buf.capacity ≡ false = ground arith in
    let start : (if buf.capacity == 0 then default_buffer_capacity else buf.capacity) ≡ 1 =
      ground arith in
    rw (some_added, too_many, start, grow_loop_one fuel wanted more) refl
