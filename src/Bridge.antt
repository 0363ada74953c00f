-- ===== src/Bridge.antt =====
-- The bridge to the interpreter: src/umka_bridge.c.
--
-- A function of a BUILD.um file is a tree of the foreign functions that it calls, with what it does
-- on each answer: it makes finitely many calls, and keeps nothing in global variables for the next
-- function. A `char*` argument may be NULL, `none`.
pub mod Foreign
pub mod Outside
use rebuild.Base.{ℕ, List, [], ◌∷◌, ◌++◌, Option, none, some, Bool, Bytes, ◌>>=◌}
use rebuild.Base.{RebuildError, ok, error_hash}
use rebuild.Hash.{Hash, Blake2, File, hash_file}
use rebuild.Trace.{c_string}

-- What a foreign function leaves in the slot of its result: nothing, NULL or a value.
pub data Answer (A : Type 0) : Type 0 where
  unwritten : Answer A
  null : Answer A
  value : A → Answer A

-- `finish` says whether `umkaCall` returns 0. An exit code of -1 is `none`.
pub data Script : Type 0 where
  finish : Bool → Script
  depend_on : Option Bytes → (Answer Bytes → Script) → Script
  sys : List Bytes → (Option ℕ → Script) → Script
  register_dep : Option Bytes → Script → Script
  glob : Option Bytes → (Answer (List Bytes) → Script) → Script
  hash : Option Bytes → (Answer Bytes → Script) → Script
  depend_on_tree : Option Bytes → (Answer Bytes → Script) → Script
  log : Option Bytes → Script → Script
  register_target : Option Bytes → Option Bytes → Script → Script

-- The interpreter: `umkaInit` with a path and a source, `umkaAddFunc` with a name, `umkaCompile`, and
-- the function that `umkaGetFunc` finds.
pub record Interpreter : Type 1 where
  pub Umka : Type 0
  pub init : Bytes → Bytes → Option Umka
  pub add_func : Umka → Bytes → Option Umka
  pub compile : Umka → Option Umka
  pub get_func : Umka → Bytes → Option Script

module _ (i : Interpreter) where
  unfoldable pub add_funcs : List Bytes → i.Umka → Option i.Umka
  add_funcs [] umka = some umka
  add_funcs (name ∷ names) umka = i.add_func umka name >>= add_funcs names

  -- `ffi_decls` and `names` are the constant text and the constant names of the source. The file is
  -- what `read_file_contents` returns, with a zero after it.
  unfoldable pub umka_load_script : Bytes → List Bytes → Bytes → Option Bytes → Option i.Umka
  unfolding add_funcs
  umka_load_script ffi_decls names path contents = contents >>= λ original_source.
      i.init path (ffi_decls ++ c_string original_source) >>= λ umka.
      add_funcs names umka >>= i.compile

-- `umka_get_script_hash`, with the file at the path.
unfoldable pub umka_get_script_hash : Blake2 → File → RebuildError × Option Hash
umka_get_script_hash b content = elim (hash_file b content) [
  | none ↦ (error_hash, none)
  | some h ↦ (ok, some h)
]
