-- ===== src/Tests/Cache.antt =====
-- The cache of src/scheduler.c: a recipe without dependencies that has run before.
use rebuild.Base.{
  ℕ, ◌≡◌, refl, arith, [], ◌∷◌, ◌++◌, Option, none, some, Bytes, true, false, same_string,
}
use rebuild.Base.{if◌then◌else◌}
use rebuild.Table.{free}
use rebuild.Table.Rehash.{IsValid}
use rebuild.Map.{Map}
use rebuild.Map.Writes.{blank-IsEmpty}
use rebuild.Set
use rebuild.Set.{Set}
use rebuild.Hash.{Hash, hash_data, hash_combine, zero_hash, reads}
use rebuild.Hash.Tree.{Node, file}
use rebuild.Recipe.{
  Recipe, pending, complete, StringSort, recipe_compute_request_key, combine_strings,
}
use rebuild.Target.{Target}
use rebuild.Trace.{trace_create}
use rebuild.Trace.Load.{IsStorable}
use rebuild.Trace.Save.{encode}
use rebuild.Scheduler.{
  completed_trace, output_hash, output_path, recipe_code_hash, scheduler_check_cache,
}
use rebuild.Scheduler.{scheduler_get_completed}
use rebuild.Scheduler.Cached.{keyed, scheduler_check_cache-hit}
use rebuild.Tests.Hashes.{plain, unsorted}

program : Unit {0}
unfolding Set.iterate_entries Set.iterate hash_data output_hash completed_trace trace_create
    recipe_compute_request_key recipe_code_hash combine_strings hash_combine
program = tt

abbrev pub as_read : StringSort
as_read = record { sort = λ ds. ds }

abbrev empty_files : Bytes → Node
empty_files _ = file (reads [] false)

abbrev pub no_strings : Set
no_strings = record { entries = free ∷ free ∷ []; capacity = 2; size = 0; tombstones = 0 }

pub no_strings-IsValid : IsValid no_strings
no_strings-IsValid = (blank-IsEmpty {V = Unit {0}} 2 (omega arith)).valid

abbrev none_completed : Map Bytes
none_completed = record { entries = free ∷ free ∷ []; capacity = 2; size = 0; tombstones = 0 }

none_completed-IsValid : IsValid none_completed
none_completed-IsValid = (blank-IsEmpty {V = Bytes} 2 (omega arith)).valid

abbrev pub waiting : Recipe
waiting = record {
  target_name = b'a' ∷ [];
  state = pending;
  request_key = zero_hash;
  declared_deps = no_strings;
  pending_deps = no_strings;
  output_dir = none;
  temp_dir = none;
  start_time = 0;
}

abbrev target : Option (Target ℕ)
target = some (record { name = b'a' ∷ []; function_name = b'f' ∷ []; umka_script = 0 })

abbrev ran : Recipe
ran = keyed plain unsorted as_read empty_files target waiting

ran-IsValid : IsValid ran.declared_deps
unfolding program
ran-IsValid = no_strings-IsValid

abbrev trace_files : Hash → Option Bytes
trace_files h = some (encode (completed_trace plain unsorted empty_files ran 12) ++ [])

trace_fits : IsStorable (completed_trace plain unsorted empty_files ran 12)
unfolding program
trace_fits = record {
  key = refl;
  deps = tt;
  count = omega arith;
  output = refl;
  cpu = omega arith;
  wall = omega arith;
}

scheduler_check_cache-hit_example :
    (m : Map Bytes) × (scheduler_check_cache plain unsorted as_read empty_files trace_files target
        waiting none_completed
      ≡ some (true, record ran { state = complete }, m))
    × IsValid m
    × ((p : Bytes)
        → scheduler_get_completed m p ≡ (
            if same_string p ran.target_name
            then some (output_path ran.output_dir)
            else scheduler_get_completed none_completed p))
scheduler_check_cache-hit_example =
    scheduler_check_cache-hit plain unsorted as_read empty_files trace_files target waiting ran 12
      [] none_completed ran-IsValid none_completed-IsValid refl trace_fits refl
