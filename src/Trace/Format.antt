-- ===== src/Trace/Format.antt =====
-- `trace_save` and `trace_load` of src/trace.c: the readers and writers of the file.
use mathlib.Core.Option
use rebuild.Base.{ℕ, zero, suc, ◌%◌, ◌^◌, List, [], ◌∷◌, ◌++◌, Option, none, some, Bool, true}
use rebuild.Base.{false, Bytes, length, take, drop, leb, ◌==◌, ◌||◌, if◌then◌else◌, same_string}
use rebuild.Hash.{Hash, hash_equal}
use rebuild.Trace.{Trace, trace_create, c_string, trace_add_dependency, le_bytes, of_le_bytes}
use rebuild.Trace.{trace_magic, trace_version}

-- An open file: all that was handed to `fwrite`, how many bytes there is room for on the disk, and
-- whether libc holds so many bytes back in its buffer, so that a full disk is not noticed yet.
pub record Writer : Type 0 where
  pub written : Bytes
  pub room : ℕ
  pub holds : ℕ → Bool

abbrev pub Write : Type 0
Write = Writer → Bool × Writer

-- `fwrite` does not fail with so many bytes in the file.
abbrev pub accepts : Writer → ℕ → Bool
accepts w n = leb n w.room || w.holds n

-- A short count of `fwrite` is an error.
unfoldable pub write_all : Bytes → Write
write_all bytes w =
    let all = w.written ++ bytes in (accepts w (length all), record w { written = all })

-- What the file holds after `fclose`, whose result `trace_save` does not look at.
abbrev pub on_disk : Writer → Bytes
on_disk w = take w.room w.written

-- `if (!write_all(…)) { success = false; goto cleanup; }`
infixr 6 ◌then_write◌
abbrev pub ◌then_write◌ : Write → Write → Write
◌then_write◌ m k w = let r = m w in if r.0 then k r.1 else r

-- The loop over the dependencies. `path_len` is `(uint32_t)strlen(path)`.
unfoldable pub write_deps : List (Bytes × Hash) → Write
write_deps [] w = (true, w)
write_deps ((path, hash) ∷ deps) w =
    let path_len = length path % 2 ^ 32 in
    (write_all (le_bytes 4 path_len)
        then_write write_all (take path_len path)
        then_write write_all hash
        then_write write_deps deps)
      w

unfoldable pub write_trace : Trace → Write
write_trace t =
    write_all trace_magic
    then_write write_all (le_bytes 4 trace_version)
    then_write write_all t.request_key
    then_write write_all (le_bytes 8 (length t.deps))
    then_write write_deps t.deps
    then_write write_all t.output_tree_hash
    then_write write_all (le_bytes 8 t.cpu_time_ms)
    then_write write_all (le_bytes 8 t.wall_time_ms)

-- `none` is a trace path that could not be made, or a file that could not be opened.
unfoldable pub trace_save : Trace → Option Writer → Bool × Option Writer
trace_save t none = (false, none)
trace_save t (some w) = let r = write_trace t w in (r.0, some r.1)

-- The bytes of the file that are not read yet.
abbrev pub Read : Type 0 → Type 0
Read A = Bytes → Option (A × Bytes)

infixl 5 ◌>>=◌ ◌>>◌
abbrev pub ◌>>=◌ : {A B : Type 0} → Read A → (A → Read B) → Read B
◌>>=◌ m f s = elim (m s) [ none ↦ none | some (a, r) ↦ f a r ]

abbrev pub ◌>>◌ : {B : Type 0} → Read (Unit {0}) → Read B → Read B
m >> k = m >>= λ _. k

abbrev pub return : {A : Type 0} → A → Read A
return a s = some (a, s)

abbrev pub guard : Bool → Read (Unit {0})
guard true s = some (tt, s)
guard false s = none

unfoldable pub read_all : ℕ → Read Bytes
read_all n s = if leb n (length s) then some (take n s, drop n s) else none

-- The loop over the dependencies. `trace_add_dependency` copies the path as a string.
unfoldable pub read_deps : ℕ → Trace → Read Trace
read_deps zero t = return t
read_deps (suc n) t = do
  path_len ← read_all 4
  guard (leb (of_le_bytes path_len) 4096)
  path ← read_all (of_le_bytes path_len)
  hash ← read_all 32
  read_deps n (trace_add_dependency t (c_string path) hash)

unfoldable pub read_trace : Hash → Read Trace
read_trace request_key = do
  magic ← read_all 4
  guard (same_string magic trace_magic)
  version ← read_all 4
  guard (of_le_bytes version == trace_version)
  stored_key ← read_all 32
  guard (hash_equal stored_key request_key)
  dep_count ← read_all 8
  t ← read_deps (of_le_bytes dep_count) (trace_create request_key)
  output ← read_all 32
  cpu ← read_all 8
  wall ← read_all 8
  return (record t {
    output_tree_hash = output;
    cpu_time_ms = of_le_bytes cpu;
    wall_time_ms = of_le_bytes wall;
  })

-- `none` is a trace that does not exist or cannot be opened.
unfoldable pub trace_load : Hash → Option Bytes → Option Trace
trace_load request_key none = none
trace_load request_key (some bytes) = Option.map (λ r. r.0) (read_trace request_key bytes)
