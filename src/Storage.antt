-- ===== src/Storage.antt =====
-- Storage: src/storage.c.
--
-- `asprintf` is concatenation and does not fail. The system calls are an interface, `Os`, over the
-- state of the disk, which is passed on from call to call.
pub mod Directories
pub mod Paths
use rebuild.Base.{
  ℕ, List, [], ◌∷◌, ◌++◌, Option, none, some, Bool, true, false, Bytes, ◌==◌, ◌≡◌, ◌≢◌,
}
use rebuild.Hash.{Hash, hash_to_hex}

-- `st_mode` of `stat`.
pub data Kind : Type 0 where
  directory : Kind
  regular : Kind
  other : Kind

-- What `mkdir` returns: success, EEXIST, or another error.
pub data Mkdir : Type 0 where
  made : Mkdir
  exists : Mkdir
  refused : Mkdir

pub record Os : Type 1 where
  pub Disk : Type 0
  pub stat : Disk → Bytes → Option Kind
  pub mkdir : Disk → Bytes → Mkdir × Disk

-- The documented behaviour of `mkdir`: it makes a directory, and removes nothing.
pub record IsOs (os : Os) : Type 0 where
  pub makes :
      (d : os.Disk) (p : Bytes)
      → (os.mkdir d p).0 ≡ made
      → os.stat (os.mkdir d p).1 p ≡ some directory
  pub keeps :
      (d : os.Disk) (p q : Bytes) (k : Kind)
      → os.stat d q ≡ some k
      → os.stat (os.mkdir d p).1 q ≡ some k

-- What the code relies on where `mkdir` sets EEXIST after `stat` has found nothing: another process
-- has made the directory in between. A symbolic link that leads nowhere would break this.
pub record IsShared (os : Os) : Type 0 where
  pub raced :
      (d : os.Disk) (p : Bytes)
      → os.stat d p ≡ none
      → (os.mkdir d p).0 ≡ exists
      → os.stat (os.mkdir d p).1 p ≡ some directory

pub record Storage : Type 0 where
  pub base_dir : Bytes
  pub traces_dir : Bytes
  pub objects_dir : Bytes
  pub tmp_dir : Bytes

-- The variables XDG_DATA_HOME and HOME.
pub record Environment : Type 0 where
  pub xdg_data_home : Option Bytes
  pub home : Option Bytes

abbrev pub rebuild_name : Bytes
rebuild_name = b'/' ∷ b'r' ∷ b'e' ∷ b'b' ∷ b'u' ∷ b'i' ∷ b'l' ∷ b'd' ∷ []

abbrev pub traces_name : Bytes
traces_name = b'/' ∷ b't' ∷ b'r' ∷ b'a' ∷ b'c' ∷ b'e' ∷ b's' ∷ []

abbrev pub objects_name : Bytes
objects_name = b'/' ∷ b'o' ∷ b'b' ∷ b'j' ∷ b'e' ∷ b'c' ∷ b't' ∷ b's' ∷ []

abbrev pub tmp_name : Bytes
tmp_name = b'/' ∷ b't' ∷ b'm' ∷ b'p' ∷ []

abbrev pub local_share : Bytes
local_share =
    b'/' ∷ b'.' ∷ b'l' ∷ b'o' ∷ b'c' ∷ b'a' ∷ b'l' ∷ b'/' ∷ b's' ∷ b'h' ∷ b'a' ∷ b'r' ∷ b'e' ∷ []

-- `xdg_data_home[0] == '/'`
abbrev pub is_absolute : Bytes → Bool
is_absolute [] = false
is_absolute (c ∷ cs) = c == b'/'

unfoldable pub from_home : Option Bytes → Option Bytes
from_home none = none
from_home (some home) = some (home ++ local_share)

unfoldable pub get_xdg_data_home : Environment → Option Bytes
unfolding from_home
get_xdg_data_home env = elim env.xdg_data_home [
  | none ↦ from_home env.home
  | some path ↦ elim (is_absolute path) [ true ↦ some path | false ↦ from_home env.home ]
]

-- A trailing slash is cut off.
unfoldable pub cut_slash : Bytes → Bytes
cut_slash [] = []
cut_slash (c ∷ []) = elim (c == b'/') [ true ↦ [] | false ↦ c ∷ [] ]
cut_slash (c ∷ cs) = c ∷ cut_slash cs

-- `hex_hash[0]`, `hex_hash[1]` and the rest. There are always 64 digits: the C code would read a
-- string of less than two out of bounds, and the second clause is never used.
unfoldable pub build_sharded_path : Bytes → Bytes → Bytes
build_sharded_path base_dir (x ∷ y ∷ filename) = base_dir ++ b'/' ∷ x ∷ y ∷ b'/' ∷ filename
build_sharded_path base_dir hex_hash = base_dir

abbrev pub shard_dir : Bytes → Bytes → Bytes
shard_dir base_dir (x ∷ y ∷ filename) = base_dir ++ b'/' ∷ x ∷ y ∷ []
shard_dir base_dir hex_hash = base_dir

module _ (os : Os) where
  unfoldable pub ensure_directory : os.Disk → Bytes → Bool × os.Disk
  ensure_directory d path = elim (os.stat d path) [
    | some directory ↦ (true, d)
    | some regular ↦ (false, d)
    | some other ↦ (false, d)
    | none ↦ elim (os.mkdir d path).0 [
      | made ↦ (true, (os.mkdir d path).1)
      | exists ↦ (true, (os.mkdir d path).1)
      | refused ↦ (false, (os.mkdir d path).1)
    ]
  ]

  -- The loop over the slashes of the path, with what stands before the pointer `p` and at it.
  unfoldable pub ensure_parents : os.Disk → Bytes → Bytes → Bool × os.Disk
  ensure_parents d before [] = (true, d)
  ensure_parents d before (c ∷ cs) = elim (c == b'/') [
    | false ↦ ensure_parents d (before ++ c ∷ []) cs
    | true ↦ elim (ensure_directory d before).0 [
      | true ↦ ensure_parents (ensure_directory d before).1 (before ++ c ∷ []) cs
      | false ↦ (false, (ensure_directory d before).1)
    ]
  ]

  -- The end of `ensure_directory_recursive`.
  abbrev then_directory : Bytes → Bool × os.Disk → Bool × os.Disk
  then_directory path (true, d) = ensure_directory d path
  then_directory path (false, d) = (false, d)

  -- The empty path is no argument of this function.
  unfoldable pub ensure_directory_recursive : os.Disk → Bytes → Bool × os.Disk
  unfolding cut_slash ensure_parents
  ensure_directory_recursive d path = elim (cut_slash path) [
    | [] ↦ ensure_directory d []
    | c ∷ cs ↦ then_directory (c ∷ cs) (ensure_parents d (c ∷ []) cs)
  ]

  -- `if (!ensure_directory(…)) { storage_free(s); return NULL; }`
  abbrev pub or_null :
      {A : Type 0} → Bool × os.Disk → (os.Disk → Option A × os.Disk) → Option A × os.Disk
  or_null (true, d) k = k d
  or_null (false, d) k = (none, d)

  -- The part of `storage_init` after the base directory is known.
  unfoldable pub init_at : os.Disk → Bytes → Option Storage × os.Disk
  init_at d base_dir = or_null (ensure_directory_recursive d base_dir) λ d₁.
      or_null (ensure_directory d₁ (base_dir ++ traces_name)) λ d₂.
        or_null (ensure_directory d₂ (base_dir ++ objects_name)) λ d₃.
          or_null (ensure_directory d₃ (base_dir ++ tmp_name)) λ d₄. (
            some (record {
              base_dir = base_dir;
              traces_dir = base_dir ++ traces_name;
              objects_dir = base_dir ++ objects_name;
              tmp_dir = base_dir ++ tmp_name;
            }),
            d₄,
          )

  unfoldable pub storage_init : os.Disk → Environment → Option Storage × os.Disk
  unfolding init_at
  storage_init d env = elim (get_xdg_data_home env) [
    | none ↦ (none, d)
    | some xdg_data_home ↦ init_at d (xdg_data_home ++ rebuild_name)
  ]

  unfoldable pub ensure_shard_directory : os.Disk → Bytes → Bytes → Bool × os.Disk
  ensure_shard_directory d base_dir hex_hash = ensure_directory d (shard_dir base_dir hex_hash)

  -- `storage_get_trace_path` and `storage_get_object_path` under their directories.
  unfoldable pub get_sharded : os.Disk → Bytes → Hash → Option Bytes × os.Disk
  unfolding ensure_shard_directory
  get_sharded d base_dir h =
      or_null (ensure_shard_directory d base_dir (hash_to_hex h))
        (λ d'. (some (build_sharded_path base_dir (hash_to_hex h)), d'))

  unfoldable pub storage_get_trace_path : os.Disk → Storage → Hash → Option Bytes × os.Disk
  storage_get_trace_path d s request_key = get_sharded d s.traces_dir request_key

  unfoldable pub storage_get_object_path : os.Disk → Storage → Hash → Option Bytes × os.Disk
  storage_get_object_path d s content_hash = get_sharded d s.objects_dir content_hash

  -- `now` and `pid` are the decimal digits of the time and of the process.
  unfoldable pub storage_get_tmp_dir :
      os.Disk → Storage → Bytes → Bytes → Bytes → Option Bytes × os.Disk
  storage_get_tmp_dir d s target_name now pid =
      let tmp_path = s.tmp_dir ++ b'/' ∷ target_name ++ b'_' ∷ now ++ b'_' ∷ pid in
      or_null (ensure_directory d tmp_path) (λ d'. (some tmp_path, d'))

  abbrev is_regular : Option Kind → Bool
  is_regular (some regular) = true
  is_regular _ = false

  abbrev is_there : Option Kind → Bool
  is_there none = false
  is_there (some k) = true

  abbrev test_path : (Option Kind → Bool) → Option Bytes × os.Disk → Bool × os.Disk
  test_path test (none, d) = (false, d)
  test_path test (some path, d) = (test (os.stat d path), d)

  unfoldable pub storage_trace_exists : os.Disk → Storage → Hash → Bool × os.Disk
  storage_trace_exists d s request_key =
      test_path is_regular (storage_get_trace_path d s request_key)

  unfoldable pub storage_object_exists : os.Disk → Storage → Hash → Bool × os.Disk
  storage_object_exists d s content_hash =
      test_path is_there (storage_get_object_path d s content_hash)
