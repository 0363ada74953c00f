-- ===== src/Target.antt =====
-- The target registry: src/target.c.
--
-- There is one registry, and `current` says whether `g_current_registry` points to it. `none` as a
-- result is a fault: one of the map, or a write outside the array of names.
pub mod Load
pub mod Names
use mathlib.Core.Option
use rebuild.Base.{ℕ, ◌+◌, List, [], ◌∷◌, Option, none, some, Bool, true, false, Bytes, ltb, ◌==◌}
use rebuild.Base.{
  RebuildError, ok, error_parse, error_exec, length, replicate, if◌then◌else◌, set as set_elem,
}
use rebuild.Map
use rebuild.Map.{Map}

-- `Script` stands for the instances of the interpreter.
pub record Target (Script : Type 0) : Type 0 where
  pub name : Bytes
  pub function_name : Bytes
  pub umka_script : Script

pub record TargetRegistry (Script : Type 0) : Type 0 where
  pub targets : Map (Target Script)
  pub umka : Script
  pub current : Bool

-- The array of names, its slots not set at first, and the index of the next.
pub record NameCollector : Type 0 where
  pub names : List (Option Bytes)
  pub index : ℕ

-- What the bridge does with a BUILD.um file: it cannot load it, finds no function
-- `register_targets`, finds no context of the thread to run it in, or runs it. The run makes some calls
-- of `rebuild_register_target`, and `failed` says whether it ends in an error. The context's pointer to
-- the interpreter, which the loading changes, is no part of the registry.
pub data BuildFile : Type 0 where
  unloadable : BuildFile
  no_function : BuildFile
  no_context : BuildFile
  runs : List (Bytes × Bytes) → Bool → BuildFile

unfoldable pub collect_name_iterator {ℓ} :
    {V : Type ℓ} → Bytes → V → Option NameCollector → Bool × Option NameCollector
collect_name_iterator key value none = (true, none)
collect_name_iterator key value (some c) =
    if ltb c.index (length c.names)
    then (true, some (record { names = set_elem c.names c.index (some key); index = c.index + 1 }))
    else (true, none)

module _ {Script : Type 0} where
  unfoldable pub target_registry_create : Script → Option (TargetRegistry Script)
  target_registry_create umka =
      Option.map (λ m. record { targets = m; umka = umka; current = false }) (Map.create 0)

  unfoldable pub target_registry_has : TargetRegistry Script → Bytes → Bool
  target_registry_has r name = Map.has r.targets name

  unfoldable pub target_registry_get : TargetRegistry Script → Bytes → Option (Target Script)
  target_registry_get r name = Map.get r.targets name

  -- The targets after an old target of that name is removed.
  unfoldable pub without_old : TargetRegistry Script → Bytes → Map (Target Script)
  without_old r name =
      if target_registry_has r name then (Map.remove r.targets name).1 else r.targets

  unfoldable pub target_registry_register :
      TargetRegistry Script → Bytes → Bytes → Script → Option (RebuildError × TargetRegistry Script)
  unfolding without_old
  target_registry_register r name function_name script =
      Option.map (λ t. (t.0, record r { targets = t.1 }))
        (Map.set (without_old r name) name
          (record { name = name; function_name = function_name; umka_script = script }))

  unfoldable pub target_registry_list : TargetRegistry Script → Option (List (Option Bytes))
  target_registry_list r =
      if r.targets.size == 0
      then some []
      else Option.map (λ c. c.names)
          (Map.iterate r.targets collect_name_iterator
            (some (record { names = replicate r.targets.size none; index = 0 })))

  -- The FFI function does nothing if the global is NULL, and only logs an error.
  unfoldable pub target_registry_ffi_register :
      TargetRegistry Script → Bytes → Bytes → Option (TargetRegistry Script)
  target_registry_ffi_register r name function_name = elim r.current [
    | false ↦ some r
    | true ↦ Option.map (λ t. t.1) (target_registry_register r name function_name r.umka)
  ]

  -- The calls that a run of `register_targets` makes.
  unfoldable pub run_calls :
      List (Bytes × Bytes) → TargetRegistry Script → Option (TargetRegistry Script)
  unfolding Option.bind
  run_calls [] r = some r
  run_calls ((name, function_name) ∷ calls) r =
      Option.bind (target_registry_ffi_register r name function_name) (run_calls calls)

  unfoldable pub target_registry_load_build_file :
      TargetRegistry Script → BuildFile → Option (RebuildError × TargetRegistry Script)
  unfolding run_calls
  target_registry_load_build_file r unloadable = some (error_parse, r)
  target_registry_load_build_file r no_function = some (error_parse, r)
  target_registry_load_build_file r no_context = some (error_exec, r)
  target_registry_load_build_file r (runs calls failed) =
      Option.map (λ r'. (if failed then error_exec else ok, record r' { current = r.current }))
        (run_calls calls (record r { current = true }))
