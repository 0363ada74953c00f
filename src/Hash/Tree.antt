-- ===== src/Hash/Tree.antt =====
-- `hash_tree` of src/hash.c over a file tree.
pub mod Order
use mathlib.Core.List.{Perm}
use rebuild.Base.{List, [], ◌∷◌, Option, none, some, Bytes}
use rebuild.Hash.{Hash, Blake2, File, hash_data, hash_file, hash_combine, zero_hash}

-- What `stat` and `opendir` find at a path: nothing, a regular file, a directory with the entries
-- that `readdir` returns (less `.` and `..`), a directory that cannot be opened, or another kind.
mutual
  pub data Node : Type 0 where
    missing : Node
    file : File → Node
    dir : Entries → Node
    closed_dir : Node
    special : Node

  pub data Entries : Type 0 where
    nil : Entries
    entry : Bytes → Node → Entries → Entries

-- A directory entry's name, with the hash of what stands there if it can be hashed.
abbrev pub Hashed : Type 0
Hashed = Bytes × Option Hash

-- libc's `qsort` with `compare_dirent_names`. Hashing reads and does not write, so the entries are
-- sorted here after they are hashed.
pub record Qsort : Type 0 where
  pub sort : List Hashed → List Hashed

module _ (b : Blake2) (q : Qsort) where
  -- The body of the loop over the sorted entries: the name's hash, then that of the contents.
  unfoldable pub combine_entry : Hash → Hashed → Hash
  combine_entry out (name, contents) =
      let named = hash_combine out (hash_data b name) in
      elim contents [ some h ↦ hash_combine named h | none ↦ named ]

  unfoldable pub combine_entries : Hash → List Hashed → Hash
  unfolding combine_entry
  combine_entries out [] = out
  combine_entries out (e ∷ es) = combine_entries (combine_entry out e) es

  unfoldable mutual
    unfolding combine_entries

    pub hash_tree : Node → Option Hash
    hash_tree missing = none
    hash_tree (file f) = hash_file b f
    hash_tree (dir es) = some (combine_entries zero_hash (q.sort (hash_entries es)))
    hash_tree closed_dir = none
    hash_tree special = none

    pub hash_entries : Entries → List Hashed
    hash_entries nil = []
    hash_entries (entry name n es) = (name, hash_tree n) ∷ hash_entries es

-- The documented behaviour of `qsort`: the result holds the same entries.
pub record IsQsort (q : Qsort) : Type 0 where
  pub permutes : (es : List Hashed) → Perm (q.sort es) es
