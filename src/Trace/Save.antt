-- ===== src/Trace/Save.antt =====
-- What `trace_save` writes, with and without room for it.
use rebuild.Base.{ℕ, ◌%◌, ◌^◌, ◌≤◌, ◌<◌, ◌≡◌, inl, inr, refl, ap, arith, List, [], sym}
use rebuild.Base.{◌∷◌, ◌++◌, some, Bool, true, false, Bytes, length, take, leb, Bool-cases, ◌∙◌}
use rebuild.Base.{take-append_short, length-append}
use mathlib.Core.List.{append_assoc, append-nil}
use rebuild.Hash.{Hash}
use rebuild.Trace.{Trace, le_bytes, trace_magic, trace_version}
use rebuild.Trace.Format.{
  Writer, Write, accepts, on_disk, write_all, ◌then_write◌, write_deps, write_trace, trace_save,
}

-- The bytes of a trace file.
abbrev pub encode_deps : List (Bytes × Hash) → Bytes
encode_deps [] = []
encode_deps ((path, hash) ∷ deps) =
    let path_len = length path % 2 ^ 32 in
    le_bytes 4 path_len ++ (take path_len path ++ (hash ++ encode_deps deps))

abbrev pub encode : Trace → Bytes
encode t =
    trace_magic
    ++ (le_bytes 4 trace_version
        ++ (t.request_key
            ++ (le_bytes 8 (length t.deps)
                ++ (encode_deps t.deps
                    ++ (t.output_tree_hash
                        ++ (le_bytes 8 t.cpu_time_ms ++ le_bytes 8 t.wall_time_ms))))))

-- The file with more bytes in it.
abbrev pub advance : Writer → Bytes → Writer
advance w bytes = record w { written = w.written ++ bytes }

-- No `fwrite` fails up to this number of bytes.
abbrev pub Accepts : Writer → ℕ → Type 0
Accepts w total = (n : ℕ) → n ≤ total → accepts w n ≡ true

-- A writer of `bytes`: it appends them if no `fwrite` fails. Where there is no room for them, as much
-- reaches the disk as there is room for, and it fails if libc holds nothing back.
pub record Writes (m : Write) (bytes : Bytes) : Type 0 where
  pub full : (w : Writer) → Accepts w (length (w.written ++ bytes)) → m w ≡ (true, advance w bytes)
  pub passed : (w : Writer) → (m w).0 ≡ true → (m w).1 ≡ advance w bytes
  pub part :
      (w : Writer)
      → w.room < length (w.written ++ bytes)
      → on_disk (m w).1 ≡ take w.room (w.written ++ bytes)
  pub noticed :
      (w : Writer)
      → ((n : ℕ) → w.holds n ≡ false)
      → length w.written ≤ w.room
      → w.room < length (w.written ++ bytes)
      → (m w).0 ≡ false

-- Room for the bytes is enough.
pub roomy : (w : Writer) (total : ℕ) → total ≤ w.room → Accepts w total
roomy w total h n le = ground arith

write_all-Writes : (bytes : Bytes) → Writes (write_all bytes) bytes
unfolding write_all
write_all-Writes bytes = record {
  full = λ w h. ap (λ v. (v, advance w bytes)) (h (length (w.written ++ bytes)) (omega arith));
  passed = λ w h. refl;
  part = λ w h. refl;
  noticed = λ w held fits h. let e = held (length (w.written ++ bytes)) in ground (arith, h, e);
}

write_nothing-Writes : Writes (λ w. (true, w)) []
write_nothing-Writes = record {
  full = λ w h. let e = sym (append-nil w.written) in λ i. (true, record w { written = e i });
  passed = λ w h. let e = sym (append-nil w.written) in λ i. record w { written = e i };
  part = λ w h. ap (λ l. take w.room l) (sym (append-nil w.written));
  noticed = λ w held fits h. absurd (omega (arith, length-append w.written [], h, fits));
}

module _ {m k : Write} {a b : Bytes} (p : Writes m a) (q : Writes k b) where
  advance-append : (w : Writer) → advance (advance w a) b ≡ advance w (a ++ b)
  advance-append w = λ i. record w { written = append_assoc w.written a b i }

  longer : (w : Writer) → length (w.written ++ (a ++ b)) ≡ length ((w.written ++ a) ++ b)
  longer w = ap (λ (l : Bytes). length l) (sym (append_assoc w.written a b))

  then_write-true : (w : Writer) → (m w).0 ≡ true → (m then_write k) w ≡ k (advance w a)
  then_write-true w e = rw e (ap k (p.passed w e))

  then_write-false : (w : Writer) → (m w).0 ≡ false → (m then_write k) w ≡ m w
  then_write-false w e = rw e refl

  -- The first writer fails only where there is no room.
  failed_short : (w : Writer) → (m w).0 ≡ false → w.room < length (w.written ++ a)
  failed_short w e = elim (Bool-cases (leb (length (w.written ++ a)) w.room)) [
    | inr over ↦ ground (arith, over)
    | inl fits ↦
        let le : length (w.written ++ a) ≤ w.room = ground (arith, fits) in
        let run = p.full w (roomy w (length (w.written ++ a)) le) in
        absurd (clash (sym e ∙ ap (λ r. r.0) run))
  ]
    where
      clash : false ≡ true → ⊥
      clash f = cc

  then_write-full :
      (w : Writer)
      → Accepts w (length (w.written ++ (a ++ b)))
      → (m then_write k) w ≡ (true, advance w (a ++ b))
  then_write-full w h =
      let size = length-append (w.written ++ a) b in
      let total = longer w in
      let first = p.full w (λ n le. h n (omega (arith, le, size, total))) in
      then_write-true w (ap (λ r. r.0) first)
      ∙ q.full (advance w a) (λ n le. h n (omega (arith, le, total)))
      ∙ ap (λ v. (true, v)) (advance-append w)

  then_write-passed :
      (w : Writer) → ((m then_write k) w).0 ≡ true → ((m then_write k) w).1 ≡ advance w (a ++ b)
  then_write-passed w h = elim (Bool-cases (m w).0) [
    | inr e ↦ let f = sym e ∙ (sym (ap (λ r. r.0) (then_write-false w e)) ∙ h) in cc
    | inl e ↦
        let run = then_write-true w e in
        ap (λ r. r.1) run ∙ q.passed (advance w a) (sym (ap (λ r. r.0) run) ∙ h) ∙ advance-append w
  ]

  then_write-part :
      (w : Writer)
      → w.room < length (w.written ++ (a ++ b))
      → on_disk ((m then_write k) w).1 ≡ take w.room (w.written ++ (a ++ b))
  then_write-part w h =
      let total = longer w in
      let whole = ap (λ (l : Bytes). take w.room l) (append_assoc w.written a b) in
      elim (Bool-cases (m w).0) [
        | inl e ↦
            ap (λ r. on_disk r.1) (then_write-true w e)
            ∙ q.part (advance w a) (omega (arith, h, total))
            ∙ whole
        | inr e ↦
            let short = failed_short w e in
            ap (λ r. on_disk r.1) (then_write-false w e)
            ∙ p.part w short
            ∙ sym (take-append_short w.room (w.written ++ a) b (omega (arith, short)))
            ∙ whole
      ]

  then_write-noticed :
      (w : Writer)
      → ((n : ℕ) → w.holds n ≡ false)
      → length w.written ≤ w.room
      → w.room < length (w.written ++ (a ++ b))
      → ((m then_write k) w).0 ≡ false
  then_write-noticed w held fits h = elim (Bool-cases (m w).0) [
    | inr e ↦ ap (λ r. r.0) (then_write-false w e) ∙ e
    | inl e ↦
        let total = longer w in
        elim (Bool-cases (leb (length (w.written ++ a)) w.room)) [
          | inl le ↦
              ap (λ r. r.0) (then_write-true w e)
              ∙ q.noticed (advance w a) held (ground (arith, le)) (omega (arith, h, total))
          | inr over ↦ let f = p.noticed w held fits (ground (arith, over)) in cc
        ]
  ]

  then_write-Writes : Writes (m then_write k) (a ++ b)
  then_write-Writes = record {
    full = then_write-full;
    passed = then_write-passed;
    part = then_write-part;
    noticed = then_write-noticed;
  }

write_deps-Writes : (deps : List (Bytes × Hash)) → Writes (write_deps deps) (encode_deps deps)
unfolding write_deps
write_deps-Writes [] = record {
  full = write_nothing-Writes.full;
  passed = write_nothing-Writes.passed;
  part = write_nothing-Writes.part;
  noticed = write_nothing-Writes.noticed;
}
write_deps-Writes ((path, hash) ∷ deps) =
    let n = length path % 2 ^ 32 in
    let one = then_write-Writes (write_all-Writes (le_bytes 4 n)) (
      then_write-Writes (write_all-Writes (take n path))
        (then_write-Writes (write_all-Writes hash) (write_deps-Writes deps))) in
    record { full = one.full; passed = one.passed; part = one.part; noticed = one.noticed }

write_trace-Writes : (t : Trace) → Writes (write_trace t) (encode t)
unfolding write_trace
write_trace-Writes t = then_write-Writes (write_all-Writes trace_magic) (
    then_write-Writes (write_all-Writes (le_bytes 4 trace_version)) (
      then_write-Writes (write_all-Writes t.request_key) (
        then_write-Writes (write_all-Writes (le_bytes 8 (length t.deps))) (
          then_write-Writes (write_deps-Writes t.deps) (
            then_write-Writes (write_all-Writes t.output_tree_hash) (
              then_write-Writes (write_all-Writes (le_bytes 8 t.cpu_time_ms))
                (write_all-Writes (le_bytes 8 t.wall_time_ms))))))))

-- `trace_save` returns true and hands over the whole encoding if no `fwrite` fails; where there is
-- too little room for it, the file ends up with as much of it as there is room for.
pub trace_save_lem :
    (t : Trace) (w : Writer)
    → (Accepts w (length (w.written ++ encode t))
        → trace_save t (some w) ≡ (true, some (advance w (encode t))))
      × (w.room < length (w.written ++ encode t)
          → (r : Bool) × (w' : Writer) × (trace_save t (some w) ≡ (r, some w'))
            × (on_disk w' ≡ take w.room (w.written ++ encode t)))
unfolding trace_save
trace_save_lem t w = (
  λ h. rw ((write_trace-Writes t).full w h),
  λ h. ((write_trace t w).0, (write_trace t w).1, refl, (write_trace-Writes t).part w h),
)

-- Where libc holds nothing back, the full disk is noticed.
pub trace_save_noticed :
    (t : Trace) (w : Writer)
    → ((n : ℕ) → w.holds n ≡ false)
    → length w.written ≤ w.room
    → w.room < length (w.written ++ encode t)
    → (trace_save t (some w)).0 ≡ false
unfolding trace_save
trace_save_noticed t w = (write_trace-Writes t).noticed w
