-- ===== src/Tests/Traces.antt =====
-- Traces of src/trace.c with one dependency.
use rebuild.Base.{ℕ, ◌≤◌, ◌<◌, ◌≡◌, ◌↔◌, refl, arith, [], ◌∷◌, ◌++◌, none, some, Bytes}
use rebuild.Base.{true, false, Bool, leb, length, replicate, In}
use rebuild.Hash.{Hash, reads, zero_hash}
use rebuild.Hash.Tree.{Node, file}
use rebuild.Trace.{Trace, c_string, le_bytes, trace_validate}
use rebuild.Trace.Format.{Writer, on_disk, trace_save, trace_load}
use rebuild.Trace.Save.{encode}
use rebuild.Trace.Load.{IsStorable, trace_load-trace_save}
use rebuild.Trace.Prefix.{trace_load_cut, trace_save_unnoticed}
use rebuild.Trace.Validate.{IsCurrent, trace_validate_iff}
use rebuild.Tests.Hashes.{plain, unsorted}

abbrev path : Bytes
path = b'a' ∷ b'.' ∷ b'c' ∷ []

abbrev built : Trace
built = record {
  request_key = replicate 32 7;
  deps = (path, zero_hash) ∷ [];
  output_tree_hash = replicate 32 9;
  cpu_time_ms = 0;
  wall_time_ms = 1500;
}

built-IsStorable : IsStorable built
unfolding c_string
built-IsStorable = record {
  key = refl;
  deps = (record { short = omega arith; no_zero = refl }, refl, tt);
  count = omega arith;
  output = refl;
  cpu = omega arith;
  wall = omega arith;
}

encoding_fits : length (encode built) ≤ 200
unfolding le_bytes
encoding_fits = omega arith

encoding_is_long : 100 < length (encode built)
unfolding le_bytes
encoding_is_long = omega arith

-- libc keeps up to 4096 bytes in its buffer.
abbrev empty_disk : ℕ → Writer
empty_disk room = record { written = []; room = room; holds = λ n. leb n 4096 }

abbrev buffers : ℕ → Bool
buffers n = leb n 4096

trace_load-trace_save_example :
    (w : Writer) × (trace_save built (some (empty_disk 200)) ≡ (true, some w))
    × (trace_load built.request_key (some (on_disk w ++ 1 ∷ [])) ≡ some built)
trace_load-trace_save_example =
    trace_load-trace_save built 200 buffers (1 ∷ []) built-IsStorable encoding_fits

trace_load_cut_example :
    (r : Bool) × (w : Writer) × (trace_save built (some (empty_disk 100)) ≡ (r, some w))
    × (trace_load built.request_key (some (on_disk w)) ≡ none)
trace_load_cut_example = trace_load_cut built 100 buffers built-IsStorable encoding_is_long

trace_save_unnoticed_example :
    (trace_save built (some (record { written = []; room = 100; holds = λ n. true }))).0 ≡ true
trace_save_unnoticed_example = trace_save_unnoticed built 100 true encoding_is_long

abbrev empty_files : Bytes → Node
empty_files _ = file (reads [] false)

trace_validate_iff_example :
    (trace_validate plain unsorted empty_files built ≡ true)
    ↔ ((d : Bytes × Hash) → In d built.deps → IsCurrent plain unsorted empty_files d)
trace_validate_iff_example = trace_validate_iff plain unsorted empty_files built
