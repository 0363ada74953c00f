-- ===== src/Scheduler.antt =====
-- The scheduler's use of traces: src/scheduler.c.
pub mod Recorded
pub mod Cached
pub mod State
pub mod Host
pub mod Run
pub mod Creation
pub mod Recipes
pub mod Invariant
pub mod Waiters
pub mod Requests
pub mod Found
pub mod Pipes
pub mod Calls
pub mod Registration
pub mod Completion
pub mod Execution
pub mod Missing
pub mod Loop
pub mod Termination
pub mod Builds
pub mod Checks
pub mod Suspension
use mathlib.Core.Option
use rebuild.Base.{RebuildError, ok, false}
use rebuild.Map
use rebuild.Map.{Map}
use rebuild.Target.{Target}
use rebuild.Recipe.{StringSort, recipe_compute_request_key, complete}
use rebuild.Trace.{trace_validate}
use rebuild.Trace.Format.{trace_load}
use rebuild.Base.{ℕ, ◌+◌, List, [], ◌∷◌, Option, none, some, Bool, true, Bytes}
use rebuild.Hash.{Hash, Blake2, hash_data}
use rebuild.Hash.Tree.{Node, Qsort, hash_tree}
use rebuild.Set
use rebuild.Recipe.{Recipe}
use rebuild.Trace.{Trace, trace_create, trace_add_dependency, current_hash}

pub record AddDepsContext : Type 0 where
  pub trace : Trace
  pub added_count : ℕ

-- `fs` is what stands at each path.
module _ (b : Blake2) (q : Qsort) (fs : Bytes → Node) where
  -- The hash is computed as `trace_validate` computes it. A dependency without one is left out.
  unfoldable pub add_dep_to_trace_callback : Bytes → AddDepsContext → Bool × AddDepsContext
  add_dep_to_trace_callback dep_path ctx = elim (current_hash b q (fs dep_path)) [
    | none ↦ (true, ctx)
    | some dep_hash ↦ (
      true,
      record {
        trace = trace_add_dependency ctx.trace dep_path dep_hash;
        added_count = ctx.added_count + 1;
      },
    )
  ]

  -- The hash of the output directory, or that of no bytes.
  unfoldable pub output_hash : Option Bytes → Hash
  output_hash none = hash_data b []
  output_hash (some output_dir) = elim (hash_tree b q (fs output_dir)) [
    | some h ↦ h
    | none ↦ hash_data b []
  ]

  -- The trace of `scheduler_on_recipe_complete`, as it is saved.
  unfoldable pub completed_trace : Recipe → ℕ → Trace
  unfolding add_dep_to_trace_callback output_hash
  completed_trace r elapsed_time =
      let ctx = Set.iterate r.declared_deps add_dep_to_trace_callback (record {
        trace = record (trace_create r.request_key) {
          wall_time_ms = elapsed_time;
          cpu_time_ms = elapsed_time;
        };
        added_count = 0;
      }) in
      record ctx.trace { output_tree_hash = output_hash r.output_dir }

-- The hash of the function name stands for that of the recipe's code; without a target the target's
-- name is hashed.
unfoldable pub recipe_code_hash : {Script : Type 0} → Blake2 → Option (Target Script) → Bytes → Hash
recipe_code_hash b none target_name = hash_data b target_name
recipe_code_hash b (some target) target_name = hash_data b target.function_name

-- `recipe->output_dir ? recipe->output_dir : "outputs"`
abbrev pub output_path : Option Bytes → Bytes
output_path none = b'o' ∷ b'u' ∷ b't' ∷ b'p' ∷ b'u' ∷ b't' ∷ b's' ∷ []
output_path (some output_dir) = output_dir

-- `none` is a fault of the map; its error is not looked at.
unfoldable pub scheduler_mark_completed :
    Map Bytes → Bytes → Bytes → Option (RebuildError × Map Bytes)
scheduler_mark_completed completed target_name path = Map.set completed target_name path

unfoldable pub scheduler_get_completed : Map Bytes → Bytes → Option Bytes
scheduler_get_completed completed target_name = Map.get completed target_name

module _ (b : Blake2) (q : Qsort) (ss : StringSort) (fs : Bytes → Node) where
  -- A trace was loaded for the recipe: its end with the validity of the trace.
  unfoldable pub use_trace : Bool → Recipe → Map Bytes → Option (Bool × Recipe × Map Bytes)
  use_trace false r completed = some (false, r, completed)
  use_trace true r completed =
      Option.map (λ s. (true, record r { state = complete }, s.1))
        (scheduler_mark_completed completed r.target_name (output_path r.output_dir))

  -- `traces` is the trace file of a request key. `target` is what the registry has under the
  -- recipe's name. The last result is the map of completed targets.
  unfoldable pub scheduler_check_cache :
      {Script : Type 0}
      → (Hash → Option Bytes)
      → Option (Target Script)
      → Recipe
      → Map Bytes
      → Option (Bool × Recipe × Map Bytes)
  unfolding use_trace
  scheduler_check_cache traces target recipe completed =
      let r =
        recipe_compute_request_key b ss recipe (recipe_code_hash b target recipe.target_name) in
      elim (trace_load r.request_key (traces r.request_key)) [
        | none ↦ some (false, r, completed)
        | some t ↦ use_trace (trace_validate b q fs t) r completed
      ]
