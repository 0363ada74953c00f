-- ===== src/Tests/Targets.antt =====
-- Registries of src/target.c, with numbers for the instances of the interpreter.
use mathlib.Core.Path.{subst}
use rebuild.Base.{
  ℕ, ◌≡◌, refl, ap, arith, List, [], ◌∷◌, Option, none, some, Bytes, true, false, sym, ◌∙◌,
}
use rebuild.Base.{same_string, RebuildError, ok, error_exec, length}
use rebuild.Table.{free, full, hash_string, find_loop, find_entry, must_grow}
use rebuild.Table.Rehash.{IsValid}
use rebuild.Map
use rebuild.Map.{Map}
use rebuild.Map.Writes.{set-IsWrite, blank-IsEmpty, IsWrite}
use rebuild.Map.Items.{items}
use rebuild.Target.{Target, TargetRegistry, runs, target_registry_get}
use rebuild.Target.{target_registry_load_build_file, target_registry_list}
use rebuild.Target.{collect_name_iterator}
use rebuild.Target.Load.{after_calls, target_registry_load_build_file-get}
use rebuild.Target.Names.{names_of, target_registry_list-items}

program : Unit {0}
unfolding same_string hash_string find_loop find_entry must_grow Map.write_entry Map.set_grown
    Map.set Map.iterate_entries Map.iterate target_registry_list collect_name_iterator
program = tt

abbrev pub lib : Bytes
lib = b'l' ∷ []

abbrev pub app : Bytes
app = b'a' ∷ []

abbrev pub built_lib : Target ℕ
built_lib = record { name = lib; function_name = b'f' ∷ []; umka_script = 1 }

abbrev pub no_targets : Map (Target ℕ)
no_targets = record { entries = free ∷ free ∷ []; capacity = 2; size = 0; tombstones = 0 }

abbrev pub one_target : Map (Target ℕ)
one_target = record {
  entries = free ∷ full lib built_lib ∷ [];
  capacity = 2;
  size = 1;
  tombstones = 0;
}

registering : Map.set no_targets lib built_lib ≡ some (ok, one_target)
unfolding program
registering = refl

written : Option (RebuildError × Map (Target ℕ)) → Map (Target ℕ)
written none = no_targets
written (some r) = r.1

pub one_target-IsWrite : IsWrite no_targets lib (some built_lib) one_target
unfolding written
one_target-IsWrite =
    let empty = (blank-IsEmpty {V = Target ℕ} 2 (omega arith)).valid in
    let (m, run, w) = set-IsWrite no_targets lib built_lib empty in
    subst (IsWrite no_targets lib (some built_lib)) (ap written (sym run ∙ registering)) w

pub one_target-IsValid : IsValid one_target
one_target-IsValid = one_target-IsWrite.valid

abbrev registry : TargetRegistry ℕ
registry = record { targets = one_target; umka = 1; current = false }

listing : target_registry_list registry ≡ some (some lib ∷ [])
unfolding program
listing = refl

-- `app` is registered twice and `lib` again.
abbrev calls : List (Bytes × Bytes)
calls = (app, app) ∷ (lib, lib) ∷ (app, lib) ∷ []

last_registration :
    after_calls {Script = ℕ} 1 calls app none
    ≡ some (record { name = app; function_name = lib; umka_script = 1 })
unfolding same_string
last_registration = refl

target_registry_load_build_file-get_example :
    (m : Map (Target ℕ)) × (target_registry_load_build_file registry (runs calls true)
      ≡ some (error_exec, record registry { targets = m }))
    × IsValid m
    × ((q : Bytes) → Map.get m q ≡ after_calls 1 calls q (target_registry_get registry q))
target_registry_load_build_file-get_example =
    target_registry_load_build_file-get registry calls true one_target-IsValid

target_registry_list-items_example :
    (target_registry_list registry ≡ some (names_of (items one_target.entries)))
    × (length (items one_target.entries) ≡ 1)
target_registry_list-items_example = target_registry_list-items registry one_target-IsValid
