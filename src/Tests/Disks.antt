-- ===== src/Tests/Disks.antt =====
-- Storage of src/storage.c on a disk that holds directories only.
use rebuild.Base.{◌≡◌, refl, arith, [], ◌∷◌, Option, none, some, Bytes, Bool, false}
use rebuild.Base.{replicate, same_string, if◌then◌else◌, ◌||◌}
use rebuild.Hash.{IsHash, zero_hash, hash_to_hex, hex_digit}
use rebuild.Storage.{Kind, directory, made, exists, Os, Storage, Environment}
use rebuild.Storage.{
  build_sharded_path, ensure_directory, ensure_parents, ensure_directory_recursive,
}
use rebuild.Storage.{rebuild_name, traces_name, objects_name, tmp_name}
use rebuild.Base.{◌++◌}
use rebuild.Storage.{cut_slash, init_at, storage_init, get_xdg_data_home, from_home, get_sharded}
use rebuild.Storage.{ensure_shard_directory, storage_get_trace_path}
use rebuild.Storage.Paths.{storage_get_trace_path_injective}

program : Unit {0}
unfolding same_string hash_to_hex hex_digit build_sharded_path ensure_directory ensure_parents
    ensure_directory_recursive cut_slash init_at storage_init get_xdg_data_home from_home
    get_sharded ensure_shard_directory storage_get_trace_path
program = tt

-- The disk is the test for its directories.
abbrev stands : (Bytes → Bool) → Bytes → Option Kind
stands d p = if d p then some directory else none

abbrev pub added : (Bytes → Bool) → Bytes → Bytes → Bool
added d p q = same_string q p || d q

-- Another process makes "/d/rebuild/tmp" just before this one does; every other `mkdir` succeeds.
abbrev raced_path : Bytes
raced_path = b'/' ∷ b'd' ∷ (rebuild_name ++ tmp_name)

abbrev folders : Os
folders = record {
  Disk = Bytes → Bool;
  stat = stands;
  mkdir = λ d p. (if same_string p raced_path then exists else made, added d p);
}

abbrev pub blank_disk : Bytes → Bool
blank_disk p = false

-- XDG_DATA_HOME is "/d".
abbrev pub variables : Environment
variables = record { xdg_data_home = some (b'/' ∷ b'd' ∷ []); home = none }

abbrev pub opened : Storage
opened = record {
  base_dir = b'/' ∷ b'd' ∷ rebuild_name;
  traces_dir = b'/' ∷ b'd' ∷ (rebuild_name ++ traces_name);
  objects_dir = b'/' ∷ b'd' ∷ (rebuild_name ++ objects_name);
  tmp_dir = b'/' ∷ b'd' ∷ (rebuild_name ++ tmp_name);
}

initialised : (storage_init folders blank_disk variables).0 ≡ some opened
unfolding program
initialised = refl

no_home :
    (storage_init folders blank_disk (record { xdg_data_home = some (b'd' ∷ []); home = none })).0
    ≡ none
unfolding program
no_home = refl

abbrev shard : Bytes
shard = opened.traces_dir ++ b'/' ∷ b'0' ∷ b'0' ∷ b'/' ∷ replicate 62 b'0'

zero_hash-IsHash : IsHash zero_hash
zero_hash-IsHash = (refl, ground arith)

trace_path : (storage_get_trace_path folders blank_disk opened zero_hash).0 ≡ some shard
unfolding program
trace_path = refl

storage_get_trace_path_injective_example : zero_hash ≡ zero_hash
storage_get_trace_path_injective_example =
    storage_get_trace_path_injective folders opened blank_disk blank_disk zero_hash zero_hash shard
      zero_hash-IsHash zero_hash-IsHash trace_path trace_path
