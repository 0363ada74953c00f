-- ===== src/Bridge/Foreign.antt =====
-- The foreign functions of src/umka_bridge.c. The callback `depend_on` is
-- `scheduler_on_depend_request`, as src/main.c sets it.
use mathlib.Core.Option
use rebuild.Base.{◌≡◌, ap, ℕ, List, [], ◌∷◌, Option, none, some, Bool, Bytes, ◌>>=◌, get_elem?}
use rebuild.Base.{RebuildError, ok}
use rebuild.Bridge.{
  Answer, unwritten, null, value, Script, finish, depend_on, sys, register_dep, glob, hash,
}
use rebuild.Bridge.{depend_on_tree, log, register_target}
use rebuild.Hash.{Blake2, hash_file, hash_to_hex}
use rebuild.Hash.Tree.{Qsort, hash_tree}
use rebuild.Recipe.{recipe_add_dependency}
use rebuild.Scheduler.Host.{Host, scheduler_execute_sys}
use rebuild.Scheduler.State.{Scheduler, scheduler_on_depend_request, write_recipe}
use rebuild.Target.{target_registry_ffi_register}

-- `result_slot->ptrVal = path ? umkaMakeStr(…) : NULL`
abbrev pub str_or_null : {A : Type 0} → Option A → Answer A
str_or_null none = null
str_or_null (some a) = value a

-- The functions that leave the slot alone on an error.
abbrev pub or_unwritten : {A : Type 0} → Option A → Answer A
or_unwritten none = unwritten
or_unwritten (some a) = value a

abbrev pub path_if : RebuildError → Bytes → Answer Bytes
path_if ok path = value path
path_if _ path = null

-- With the recipe of the context, or what is done without a context.
unfoldable pub in_context : {B : Type 0} → Option ℕ → B → (ℕ → B) → B
in_context none without k = without
in_context (some recipe) without k = k recipe

pub in_context-some :
    {B : Type 0} {context : Option ℕ} {recipe : ℕ} (without : B) (k : ℕ → B)
    → context ≡ some recipe
    → in_context context without k ≡ k recipe
unfolding in_context
in_context-some without k e = ap (λ c. in_context c without k) e

module _ {Umka : Type 0} (b : Blake2) (q : Qsort) (h : Host) where
  unfoldable pub umka_ffi_rebuild_depend_on :
      Option Bytes → Scheduler Umka h.os.Disk → Option (Answer Bytes × Scheduler Umka h.os.Disk)
  umka_ffi_rebuild_depend_on none s = some (unwritten, s)
  umka_ffi_rebuild_depend_on (some target_name) s =
      in_context s.context (some (unwritten, s)) λ recipe.
        scheduler_on_depend_request s recipe target_name >>= λ t. some (str_or_null t.0, t.1)

  -- The outputs are only logged.
  unfoldable pub umka_ffi_rebuild_sys :
      List Bytes → Scheduler Umka h.os.Disk → Option (Option ℕ × Scheduler Umka h.os.Disk)
  umka_ffi_rebuild_sys args s = in_context s.context (some (none, s)) λ recipe. elim args [
    | [] ↦ some (none, s)
    | arg ∷ rest ↦ scheduler_execute_sys h s recipe (arg ∷ rest) >>= λ t. some (t.0, t.2)
  ]

  -- The call of `recipe_add_dependency` on the context's recipe.
  unfoldable pub add_dependency :
      ℕ → Bytes → Scheduler Umka h.os.Disk → Option (RebuildError × Scheduler Umka h.os.Disk)
  add_dependency recipe path s = get_elem? s.heap recipe >>= λ r.
      recipe_add_dependency r path >>= λ t. some (t.0, write_recipe s recipe t.1)

  -- An error is only logged.
  unfoldable pub umka_ffi_rebuild_register_dep :
      Option Bytes → Scheduler Umka h.os.Disk → Option (Scheduler Umka h.os.Disk)
  unfolding add_dependency
  umka_ffi_rebuild_register_dep none s = some s
  umka_ffi_rebuild_register_dep (some path) s =
      in_context s.context (some s) λ recipe. add_dependency recipe path s >>= λ t. some t.1

  unfoldable pub umka_ffi_rebuild_glob :
      Option Bytes → Scheduler Umka h.os.Disk → Answer (List Bytes)
  umka_ffi_rebuild_glob none s = null
  umka_ffi_rebuild_glob (some pattern) s =
      in_context s.context null λ recipe. str_or_null (h.glob s.disk pattern)

  unfoldable pub umka_ffi_rebuild_hash_file : Option Bytes → Scheduler Umka h.os.Disk → Answer Bytes
  umka_ffi_rebuild_hash_file none s = unwritten
  umka_ffi_rebuild_hash_file (some path) s =
      in_context s.context unwritten
        λ recipe. or_unwritten (Option.map hash_to_hex (hash_file b (h.content s.disk path)))

  -- With the recipe, after the guards.
  unfoldable pub add_tree :
      ℕ → Bytes → Scheduler Umka h.os.Disk → Option (Answer Bytes × Scheduler Umka h.os.Disk)
  unfolding add_dependency
  add_tree recipe path s = elim (hash_tree b q (h.node s.disk path)) [
    | none ↦ some (null, s)
    | some tree_hash ↦ add_dependency recipe path s >>= λ t. some (path_if t.0 path, t.1)
  ]

  unfoldable pub umka_ffi_rebuild_depend_on_tree :
      Option Bytes → Scheduler Umka h.os.Disk → Option (Answer Bytes × Scheduler Umka h.os.Disk)
  unfolding add_tree
  umka_ffi_rebuild_depend_on_tree none s = some (null, s)
  umka_ffi_rebuild_depend_on_tree (some path) s =
      in_context s.context (some (null, s)) λ recipe. add_tree recipe path s

  -- Where the scheduler has no registry yet, the global pointer is another one's; it is NULL then.
  unfoldable pub umka_ffi_rebuild_register_target :
      Option Bytes → Option Bytes → Scheduler Umka h.os.Disk → Option (Scheduler Umka h.os.Disk)
  umka_ffi_rebuild_register_target none function_name s = some s
  umka_ffi_rebuild_register_target (some name) none s = some s
  umka_ffi_rebuild_register_target (some name) (some function_name) s = elim s.registry [
    | none ↦ some s
    | some registry ↦ target_registry_ffi_register registry name function_name >>= λ r.
        some (record s { registry = some r })
  ]

  -- `umkaCall`: whether it returns 0.
  unfoldable pub umka_call :
      Script → Scheduler Umka h.os.Disk → Option (Bool × Scheduler Umka h.os.Disk)
  umka_call (finish success) s = some (success, s)
  umka_call (depend_on target_name k) s =
      umka_ffi_rebuild_depend_on target_name s >>= λ t. umka_call (k t.0) t.1
  umka_call (sys args k) s = umka_ffi_rebuild_sys args s >>= λ t. umka_call (k t.0) t.1
  umka_call (register_dep path k) s = umka_ffi_rebuild_register_dep path s >>= umka_call k
  umka_call (glob pattern k) s = umka_call (k (umka_ffi_rebuild_glob pattern s)) s
  umka_call (hash path k) s = umka_call (k (umka_ffi_rebuild_hash_file path s)) s
  umka_call (depend_on_tree path k) s =
      umka_ffi_rebuild_depend_on_tree path s >>= λ t. umka_call (k t.0) t.1
  umka_call (log msg k) s = umka_call k s
  umka_call (register_target name function_name k) s =
      umka_ffi_rebuild_register_target name function_name s >>= umka_call k
