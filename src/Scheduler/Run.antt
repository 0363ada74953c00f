-- ===== src/Scheduler/Run.antt =====
-- Executing recipes, and the loop over the queue: src/scheduler.c.
use rebuild.Base.{
  ℕ, zero, suc, ◌+◌, ◌-◌, ◌/◌, ◌%◌, ◌^◌, [], ◌∷◌, ◌++◌, Option, none, some, Bool, true, false,
}
use rebuild.Base.{Bytes, ◌==◌, ◌||◌, ◌>>=◌, get_elem?, take, if◌then◌else◌}
use rebuild.Base.{RebuildError, ok, error_exec, error_memory}
use rebuild.Bridge.{Interpreter, Script}
use rebuild.Bridge.Foreign.{umka_call}
use rebuild.Hash.{Hash, Blake2}
use rebuild.Hash.Tree.{Qsort}
use rebuild.Map
use rebuild.Map.{Map}
use rebuild.Recipe.{Recipe, running, complete, failed, StringSort, recipe_set_output_dir}
use rebuild.Recipe.{RecipeState}
use rebuild.Scheduler.{
  completed_trace, output_path, scheduler_mark_completed, scheduler_get_completed,
}
use rebuild.Scheduler.{scheduler_check_cache}
use rebuild.Scheduler.Host.{Host}
use rebuild.Scheduler.State.{Scheduler, scheduler_get_recipe, write_recipe, push}
use rebuild.Scheduler.State.{queue_push, queue_pop, queue_is_empty, waiter_list_notify_all}
use rebuild.Storage.{
  Os, directory, regular, other, Mkdir, made, exists, refused, storage_get_trace_path,
}
use rebuild.Storage.{storage_get_tmp_dir, storage_trace_exists}
use rebuild.Target.{target_registry_get}
use rebuild.Trace.{Trace}
use rebuild.Trace.Format.{trace_save}

-- What a call that runs the loop does: it faults, the fuel runs out, or it returns.
pub data Outcome (S : Type 0) : Type 0 where
  fault : Outcome S
  out_of_fuel : Outcome S
  returned : RebuildError → S → Outcome S

module _ (os : Os) where
  -- The loop over the slashes, with what stands before the pointer `p` and at it. The results of
  -- `mkdir` are not looked at.
  unfoldable pub make_parents : os.Disk → Bytes → Bytes → os.Disk
  make_parents d before [] = d
  make_parents d before (c ∷ cs) = elim (c == b'/') [
    | false ↦ make_parents d (before ++ c ∷ []) cs
    | true ↦ make_parents (os.mkdir d before).1 (before ++ c ∷ []) cs
  ]

  abbrev pub last_made : Mkdir × os.Disk → Bool × os.Disk
  last_made (made, d) = (true, d)
  last_made (exists, d) = (true, d)
  last_made (refused, d) = (false, d)

  -- The empty path is no argument of this function.
  unfoldable pub make_directory : os.Disk → Bytes → Bool × os.Disk
  unfolding make_parents
  make_directory d [] = (false, d)
  make_directory d (c ∷ cs) = last_made (os.mkdir (make_parents d (c ∷ []) cs) (c ∷ cs))

  -- `ensure_directory` of src/scheduler.c.
  unfoldable pub ensure_directory : os.Disk → Bytes → Bool × os.Disk
  unfolding make_directory
  ensure_directory d path = elim (os.stat d path) [
    | some directory ↦ (true, d)
    | some regular ↦ (false, d)
    | some other ↦ (false, d)
    | none ↦ make_directory d path
  ]

-- "outputs/"
abbrev pub outputs_name : Bytes
outputs_name = b'o' ∷ b'u' ∷ b't' ∷ b'p' ∷ b'u' ∷ b't' ∷ b's' ∷ b'/' ∷ []

module _ (b : Blake2) (q : Qsort) (ss : StringSort) (h : Host) (i : Interpreter) where
  abbrev pub State : Type 0
  State = Scheduler i.Umka h.os.Disk

  -- The array `path` has room for 255 bytes and a zero. The last argument is the directory so far.
  unfoldable pub place_output : Recipe → h.os.Disk → Option Bytes → Recipe × h.os.Disk
  unfolding recipe_set_output_dir ensure_directory
  place_output r d (some output_dir) = (r, d)
  place_output r d none =
      let path = take 255 (outputs_name ++ r.target_name) in
      ((recipe_set_output_dir r path).1, (ensure_directory h.os d path).1)

  -- With what `storage_get_tmp_dir` returned.
  unfoldable pub keep_temp : Recipe → Option Bytes × h.os.Disk → Recipe × h.os.Disk
  unfolding ensure_directory
  keep_temp r (none, d) = (record r { temp_dir = none }, d)
  keep_temp r (some path, d) = (record r { temp_dir = some path }, (ensure_directory h.os d path).1)

  -- The last argument is the directory so far.
  unfoldable pub place_temp : State → Recipe → h.os.Disk → Option Bytes → Recipe × h.os.Disk
  unfolding keep_temp
  place_temp s r d (some temp_dir) = (r, d)
  place_temp s r d none =
      keep_temp r
        (storage_get_tmp_dir h.os d s.storage r.target_name (h.time_digits d) (h.pid_digits d))

  -- `trace_save` with its path and its file; the error is only logged.
  unfoldable pub save_trace : State → h.os.Disk → Trace → h.os.Disk
  save_trace s d t =
      let at = storage_get_trace_path h.os d s.storage t.request_key in
      elim at.0 [
        | none ↦ at.1
        | some path ↦ h.close_write at.1 path (trace_save t (h.open_write at.1 path)).1
      ]

  -- The end of `scheduler_on_recipe_complete` for the waiters. Their list is freed.
  unfoldable pub notify_waiters : State → Bytes → Option State
  notify_waiters s target_name = elim (Map.get s.waiting target_name) [
    | none ↦ some s
    | some list ↦ get_elem? s.lists list >>= λ waiters.
        waiter_list_notify_all waiters.nodes s >>= λ s'.
        some (record s' { waiting = (Map.remove s'.waiting target_name).1 })
  ]

  -- The two branches of `scheduler_on_recipe_complete`, without the clearing of the context.
  unfoldable pub on_success : State → ℕ → Recipe → ℕ → Option State
  unfolding write_recipe save_trace
  on_success s recipe r elapsed_time =
      let done = record r { state = complete } in
      let t = completed_trace b q (h.node s.disk) done elapsed_time in
      let s₁ = record (write_recipe s recipe done) { disk = save_trace s s.disk t } in
      scheduler_mark_completed s₁.completed r.target_name (output_path r.output_dir) >>= λ m.
      notify_waiters (record s₁ { completed = m.1 }) r.target_name

  unfoldable pub on_failure : State → ℕ → Recipe → State
  unfolding write_recipe
  on_failure s recipe r = record (write_recipe s recipe (record r { state = failed })) {
    failed = true;
    target_error = some r.target_name;
  }

  -- The times are of 64 bits, in milliseconds. `active_count` is 1 at the least here.
  unfoldable pub scheduler_on_recipe_complete : State → ℕ → Bool → Option State
  scheduler_on_recipe_complete s recipe success = get_elem? s.heap recipe >>= λ r.
      let (now, d) = h.hrtime s.disk in
      let elapsed_time = (now / 1000000 + 2 ^ 64 - r.start_time) % 2 ^ 64 in
      let s₁ = record s { active_count = s.active_count - 1; disk = d } in
      elim success [
        | true ↦ on_success s₁ recipe r elapsed_time >>= λ s₂. some (record s₂ { context = none })
        | false ↦ some (record (on_failure s₁ recipe r) { context = none })
      ]

  -- The guards before the fiber is run: an interpreter, a registry, a target and its function.
  unfoldable pub find_function : State → Bytes → Option Script
  find_function s target_name = s.umka >>= λ umka. s.registry >>= λ registry.
      target_registry_get registry target_name >>= λ target. i.get_func umka target.function_name

  unfoldable pub run_function : State → ℕ → Option Script → Option State
  run_function s recipe none = scheduler_on_recipe_complete s recipe false
  run_function s recipe (some fiber) =
      umka_call b q h fiber s >>= λ t. scheduler_on_recipe_complete t.1 recipe t.0

  -- The part of `scheduler_execute_recipe` before the guards. Nothing reads the recipe between the
  -- writes to it.
  unfoldable pub start_recipe : State → ℕ → Recipe → State
  unfolding write_recipe place_output place_temp
  start_recipe s recipe r =
      let (now, d) = h.hrtime s.disk in
      let started = record r { state = running; start_time = now / 1000000 } in
      let (r₁, d₁) = place_output started d r.output_dir in
      let (r', d') = place_temp s r₁ d₁ r₁.temp_dir in
      record (write_recipe s recipe r') {
        active_count = s.active_count + 1;
        context = some recipe;
        disk = d';
      }

  unfoldable pub scheduler_execute_recipe : State → ℕ → Option State
  unfolding start_recipe
  scheduler_execute_recipe s recipe = get_elem? s.heap recipe >>= λ r.
      let s₁ = start_recipe s recipe r in run_function s₁ recipe (find_function s₁ r.target_name)

  -- The body of the loop for a recipe from the queue.
  unfoldable pub run_next : State → RecipeState → ℕ → Option State
  run_next s complete recipe = some s
  run_next s state recipe = scheduler_execute_recipe s recipe

  unfoldable pub run_step : State → Option State
  unfolding run_next
  run_step s = queue_pop s.ready_queue >>= λ t.
      get_elem? s.heap t.0 >>= λ r. run_next (record s { ready_queue = t.1 }) r.state t.0

  unfoldable pub scheduler_run : ℕ → State → Outcome State
  unfolding run_step
  scheduler_run zero s = out_of_fuel
  scheduler_run (suc fuel) s = elim (queue_is_empty s.ready_queue || s.failed) [
    | true ↦ returned (if s.failed then error_exec else ok) s
    | false ↦ elim (run_step s) [ none ↦ fault | some s' ↦ scheduler_run fuel s' ]
  ]

  -- `trace_load` up to the opening of the file: its path, and the test whether it is there, for which
  -- the path is made once more.
  unfoldable pub open_trace : State → Hash → Option Bytes × h.os.Disk
  open_trace s key =
      let at = storage_get_trace_path h.os s.disk s.storage key in
      let there = storage_trace_exists h.os at.1 s.storage key in
      elim at.0 [
        | none ↦ (none, at.1)
        | some path ↦ (elim there.0 [ true ↦ h.read_file there.1 path | false ↦ none ], there.1)
      ]

  -- The trace file of a request key.
  abbrev pub trace_file : State → Hash → Option Bytes
  trace_file s key = (open_trace s key).0

  -- `scheduler_check_cache` on the recipe at an address.
  unfoldable pub check_cache : State → ℕ → Option (Bool × State)
  unfolding write_recipe
  check_cache s recipe = get_elem? s.heap recipe >>= λ r.
      scheduler_check_cache b q ss (h.node s.disk) (trace_file s)
        (s.registry >>= λ registry. target_registry_get registry r.target_name) r s.completed
      >>= λ t. some (
        t.0,
        record (write_recipe s recipe t.1) {
          completed = t.2;
          disk = (open_trace s t.1.request_key).1;
        },
      )

  -- After the check of the cache.
  unfoldable pub run_unless : ℕ → ℕ → Option (Bool × State) → Outcome State
  unfolding scheduler_run queue_push
  run_unless fuel recipe none = fault
  run_unless fuel recipe (some (true, s)) = returned ok s
  run_unless fuel recipe (some (false, s)) = scheduler_run fuel (push s recipe)

  -- With what `scheduler_get_recipe` returned.
  unfoldable pub build_recipe : ℕ → Bytes → Option (Option ℕ × State) → Outcome State
  unfolding run_unless
  build_recipe fuel target_name none = fault
  build_recipe fuel target_name (some (none, s)) = returned error_memory s
  build_recipe fuel target_name (some (some recipe, s)) =
      elim (scheduler_get_completed s.completed target_name) [
        | some path ↦ returned ok s
        | none ↦ run_unless fuel recipe (check_cache s recipe)
      ]

  unfoldable pub scheduler_build : ℕ → State → Bytes → Outcome State
  unfolding build_recipe
  scheduler_build fuel s target_name =
      build_recipe fuel target_name (scheduler_get_recipe s target_name)
