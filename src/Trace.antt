-- ===== src/Trace.antt =====
-- Traces: src/trace.c. The arrays `dep_paths` and `dep_hashes` of `dep_count` elements are one list
-- of pairs.
--
-- Integers are written as the machine stores them, here with the lowest byte first. A file that is
-- written has room for some number of bytes; a file that is read is what is left of its bytes.
pub mod Format
pub mod Save
pub mod Load
pub mod Prefix
pub mod Validate
use mathlib.Core.Option
use rebuild.Base.{
  ℕ, zero, suc, ◌+◌, ◌-◌, ◌*◌, ◌/◌, ◌%◌, ◌^◌, List, [], ◌∷◌, ◌++◌, Option, none, some, Bool,
}
use rebuild.Base.{true, false, Bytes, length, take, drop, leb, ◌==◌, if◌then◌else◌, same_string}
use rebuild.Hash.{Hash, Blake2, File, hash_equal, hash_file, zero_hash}
use rebuild.Hash.Tree.{Node, missing, file, dir, closed_dir, special, Qsort, hash_tree}

pub record Trace : Type 0 where
  pub request_key : Hash
  pub deps : List (Bytes × Hash)
  pub output_tree_hash : Hash
  pub cpu_time_ms : ℕ
  pub wall_time_ms : ℕ

unfoldable pub trace_create : Hash → Trace
trace_create request_key = record {
  request_key = request_key;
  deps = [];
  output_tree_hash = zero_hash;
  cpu_time_ms = 0;
  wall_time_ms = 0;
}

-- What a `char*` to these bytes and a zero stands for: the bytes before the first zero.
unfoldable pub c_string : Bytes → Bytes
c_string [] = []
c_string (c ∷ cs) = if c == 0 then [] else c ∷ c_string cs

unfoldable pub trace_add_dependency : Trace → Bytes → Hash → Trace
trace_add_dependency t path hash = record t { deps = t.deps ++ (path, hash) ∷ [] }

-- The hash of a dependency as `trace_validate` computes it: a directory by `hash_tree`, a regular
-- file by `hash_file`.
unfoldable pub current_hash : Blake2 → Qsort → Node → Option Hash
current_hash b q missing = none
current_hash b q (file f) = hash_file b f
current_hash b q (dir es) = hash_tree b q (dir es)
current_hash b q closed_dir = hash_tree b q closed_dir
current_hash b q special = none

-- The loop over the dependencies; `fs` is what stands at each path.
unfoldable pub validate_deps : Blake2 → Qsort → (Bytes → Node) → List (Bytes × Hash) → Bool
validate_deps b q fs [] = true
validate_deps b q fs ((path, expected) ∷ deps) = elim (current_hash b q (fs path)) [
  | none ↦ false
  | some actual ↦ elim (hash_equal actual expected) [
    | true ↦ validate_deps b q fs deps
    | false ↦ false
  ]
]

unfoldable pub trace_validate : Blake2 → Qsort → (Bytes → Node) → Trace → Bool
unfolding validate_deps
trace_validate b q fs t = validate_deps b q fs t.deps

-- An unsigned integer of `k` bytes in memory.
unfoldable pub le_bytes : ℕ → ℕ → Bytes
le_bytes zero n = []
le_bytes (suc k) n = (n % 256) ∷ le_bytes k (n / 256)

unfoldable pub of_le_bytes : Bytes → ℕ
of_le_bytes [] = 0
of_le_bytes (b ∷ bs) = b + 256 * of_le_bytes bs

-- "RBTR"
abbrev pub trace_magic : Bytes
trace_magic = 0x52 ∷ 0x42 ∷ 0x54 ∷ 0x52 ∷ []

abbrev pub trace_version : ℕ
trace_version = 1
