-- ===== src/Tests/Builds.antt =====
-- Requests, commands and builds on the machine of `Machines`.
use rebuild.Base.{ℕ, ◌<◌, ◌≤◌, ◌≡◌, refl, ap, arith, List, [], ◌∷◌, Option, none, some, Bool, true}
use rebuild.Base.{false, Bytes, same_string, length, In, here, there, get_elem?, ◌⊎◌, inl, inr}
use rebuild.Base.{◌∙◌, sym, ◌↔◌, map, ◌>>=◌, RebuildError, ok, error_exec}
use rebuild.Main.{build_name, parse_arguments, builds, exits, main, stopped}
use rebuild.Main.{find_build_file, search_up}
use rebuild.Storage.{is_absolute}
use rebuild.Main.Course.{main_ends, IsEnd}
use rebuild.Main.Search.{find_build_file-IsNearest, IsNearest}
use rebuild.Tests.Dirname.{dirname, dirname-IsDirname, drop_end}
use rebuild.Recipe.{
  Recipe, RecipeState, pending, complete, recipe_create, recipe_add_dependency, add_pending,
}
use rebuild.Bridge.{Script, depend_on, finish}
use rebuild.Bridge.Foreign.{umka_call, umka_ffi_rebuild_depend_on, in_context}
use rebuild.Hash.{Hash, zero_hash}
use rebuild.Main.Arguments.{parse_arguments_iff}
use rebuild.Main.{is_option}
use rebuild.Map
use rebuild.Set
use rebuild.Table.{hash_string, find_loop, find_entry, must_grow, lookup}
use rebuild.Scheduler.{completed_trace, scheduler_mark_completed}
use rebuild.Scheduler.Run.{scheduler_on_recipe_complete, on_success, notify_waiters, save_trace}
use rebuild.Scheduler.State.{
  scheduler_get_recipe, keep_recipe, await_recipe, await_state, suspend, add_waiter, add_to_list,
}
use rebuild.Scheduler.State.{queue_push, waiter_list_add, write_recipe}
use rebuild.Scheduler.{scheduler_get_completed}
use rebuild.Scheduler.Builds.{scheduler_build_ends, IsAchieved}
use rebuild.Scheduler.Completion.{Nothing, IsBlamed}
use rebuild.Scheduler.Host.{Child, warns, read_child, reaches_end, scheduler_execute_sys}
use rebuild.Scheduler.Invariant.{IsScheduler}
use rebuild.Scheduler.Pipes.{Ran, scheduler_execute_sys-joined}
use rebuild.Scheduler.Requests.{scheduler_on_depend_request-IsNext}
use rebuild.Scheduler.Suspension.{run_function_early}
use rebuild.Scheduler.Run.{run_function, returned, scheduler_run, scheduler_build}
use rebuild.Scheduler.State.{Scheduler, scheduler_on_depend_request}
use rebuild.Scheduler.Termination.{scheduler_run_ends, IsBuilt}
use rebuild.Scheduler.Waiters.{IsNext}
use rebuild.Tests.Cache.{as_read}
use rebuild.Tests.Disks.{variables, blank_disk}
use rebuild.Tests.Hashes.{plain, unsorted}
use rebuild.Tests.Machines.{
  machine, host, host-IsHost, greeting, interpreter, both, functions_register, state,
  state-IsScheduler, recipe,
}
use rebuild.Tests.Targets.{app, lib}

program : Unit {0}
unfolding same_string hash_string find_loop find_entry must_grow Map.write_entry Map.set_grown
    Map.set Map.get Map.create lookup Map.iterate_entries Map.iterate Set.add Set.add_grown
    Set.create Set.write_entry Set.iterate Set.iterate_entries recipe_create recipe_add_dependency
    add_pending umka_call umka_ffi_rebuild_depend_on in_context scheduler_on_depend_request
    scheduler_get_recipe keep_recipe await_recipe await_state suspend add_waiter add_to_list
    queue_push waiter_list_add write_recipe scheduler_on_recipe_complete on_success
    scheduler_mark_completed scheduler_get_completed notify_waiters completed_trace save_trace
    parse_arguments search_up find_build_file drop_end read_child reaches_end
program = tt

-- The recipe of "l" is in the queue.
queued-IsScheduler : IsScheduler Nothing both (state (0 ∷ []) none)
queued-IsScheduler =
    state-IsScheduler Nothing (0 ∷ []) none (λ a mem. first a mem) (inr (here refl))
  where
    first : (a : ℕ) → In a (0 ∷ []) → a < 1
    first a (here e) = omega (arith, e)
    first a (there mem) = elim mem [ ]

scheduler_run_ends_example :
    (fuel : ℕ) × (e : RebuildError) × (s' : Scheduler ℕ (Bytes → Bool)) × (scheduler_run plain
        unsorted as_read host interpreter fuel
        (state (0 ∷ []) none)
      ≡ returned e s')
    × (((e ≡ ok)
          × IsBuilt plain unsorted as_read host interpreter both functions_register
              (state (0 ∷ []) none)
              s'
          × ((a : ℕ) (r : Recipe)
              → get_elem? s'.heap a ≡ some r
              → (r.state ≡ complete)
                × (path : Bytes) × (scheduler_get_completed s'.completed r.target_name
                    ≡ some path)))
        ⊎ ((e ≡ error_exec) × IsBlamed s'))
scheduler_run_ends_example =
    scheduler_run_ends plain unsorted as_read host interpreter both functions_register
      (state (0 ∷ []) none) queued-IsScheduler refl

scheduler_build_ends_example :
    (fuel : ℕ) × (e : RebuildError) × (s' : Scheduler ℕ (Bytes → Bool)) × (scheduler_build plain
        unsorted as_read host interpreter fuel
        (state (0 ∷ []) none)
        lib
      ≡ returned e s')
    × (((e ≡ ok)
          × IsAchieved plain unsorted as_read host interpreter both functions_register lib
              (state (0 ∷ []) none)
              s')
        ⊎ ((e ≡ error_exec) × IsBlamed s'))
scheduler_build_ends_example =
    scheduler_build_ends plain unsorted as_read host interpreter both functions_register
      (state (0 ∷ []) none) lib queued-IsScheduler refl

-- The recipe of "l" runs, and requests "a".
abbrev FirstOnly : ℕ → Type 0
FirstOnly x = x ≡ 0

scheduler_on_depend_request-IsNext_example :
    (s' : Scheduler ℕ (Bytes → Bool)) × (scheduler_on_depend_request (state [] (some 0)) 0 app
      ≡ some (scheduler_get_completed (state [] (some 0)).completed app, s'))
    × IsNext FirstOnly both (state [] (some 0)) s'
    × (dep : ℕ) × (d : Recipe) × (get_elem? s'.heap dep ≡ some d)
    × (d.target_name ≡ app)
unfolding rebuild.Map.get
scheduler_on_depend_request-IsNext_example =
    scheduler_on_depend_request-IsNext FirstOnly both (state [] (some 0)) 0 app
      (state-IsScheduler FirstOnly [] (some 0) (λ a mem. elim mem [ ]) (inl refl))
      (recipe, refl, refl)

scheduler_execute_sys-joined_example :
    Ran host
      (state [] (some 0))
      (some greeting, blank_disk)
      (scheduler_execute_sys host (state [] (some 0)) 0 ((b'c' ∷ []) ∷ []))
scheduler_execute_sys-joined_example =
    scheduler_execute_sys-joined host (state [] (some 0)) 0 recipe (b'c' ∷ []) [] refl

-- A child that fills the pipe for stderr, of four bytes, before it closes stdout blocks for ever.
abbrev noisy : Child
noisy = record greeting { acts = warns (b'a' ∷ b'b' ∷ b'c' ∷ b'd' ∷ b'e' ∷ []) ∷ greeting.acts }

blocked : read_child {Umka = ℕ} host (state [] (some 0)) (some noisy, blank_disk) ≡ none
unfolding program
blocked = refl

-- The current directory is "/w/x", below the one of BUILD.um.
abbrev cwd : Bytes
cwd = b'/' ∷ b'w' ∷ b'/' ∷ b'x' ∷ []

find_build_file-IsNearest_example :
    (found : Option Bytes) × (find_build_file machine dirname 5 blank_disk (some cwd) ≡ some found)
    × IsNearest dirname machine blank_disk cwd found
find_build_file-IsNearest_example =
    find_build_file-IsNearest dirname machine blank_disk cwd 4 dirname-IsDirname refl (omega arith)

-- It is found; a `dirname` that writes into its argument finds nothing.
found_above :
    find_build_file machine dirname 5 blank_disk (some cwd) ≡ some (some (b'/' ∷ b'w' ∷ build_name))
unfolding program
found_above = refl

not_found :
    find_build_file machine (λ p. ((dirname p).0, (dirname p).0)) 5 blank_disk (some cwd)
    ≡ some none
unfolding program
not_found = refl

rooted : (c : Bytes) → is_absolute c ≡ true → (p : Bytes) → some c ≡ some p → is_absolute p ≡ true
rooted c h p e = let same : c ≡ p = cc in sym (ap is_absolute same) ∙ h

within : (c : Bytes) (n : ℕ) → length c ≤ n → (p : Bytes) → some c ≡ some p → length p ≤ n
within c n h p e = let same : c ≡ p = cc in omega (arith, h, ap length same)

main_ends_example :
    (fuel : ℕ) × (((code : ℕ) × (parse_arguments none (app ∷ []) ≡ exits code)
        × (main plain unsorted as_read host interpreter [] [] dirname variables none
              (some cwd)
              blank_disk
              5
              fuel
              (app ∷ [])
            ≡ stopped code))
      ⊎ ((p : Bytes) × (parse_arguments none (app ∷ []) ≡ builds p)
          × IsEnd plain unsorted as_read host interpreter both functions_register p (
              main plain unsorted as_read host interpreter [] [] dirname variables none
                (some cwd)
                blank_disk
                5
                fuel
                (app ∷ []))))
main_ends_example =
    main_ends plain unsorted as_read host interpreter both functions_register [] [] dirname
      variables none (some cwd) blank_disk 4 dirname-IsDirname (rooted cwd refl)
      (within cwd 4 (omega arith)) (app ∷ [])

parse_arguments_iff_example :
    (parse_arguments none (app ∷ []) ≡ builds app)
    ↔ ((app ∷ [] ≡ app ∷ []) × (is_option app ≡ false))
parse_arguments_iff_example = parse_arguments_iff (app ∷ []) app

-- Two targets are refused, and so is an option that comes after a target.
two_targets : parse_arguments none (app ∷ lib ∷ []) ≡ exits 1
unfolding program
two_targets = refl

-- The function of "l" requests "a", gets NULL and returns.
abbrev impatient : Script
impatient = depend_on (some app) λ path. finish true

states : Option (List RecipeState)
unfolding program
states = umka_call plain unsorted host impatient (state [] (some 0)) >>= λ t.
    scheduler_on_recipe_complete plain unsorted as_read host interpreter t.1 0 t.0 >>= λ s.
    some (map (λ (r : Recipe). r.state) s.heap)

run_function_early_example :
    (s' : Scheduler ℕ (Bytes → Bool)) × (run_function plain unsorted as_read host interpreter
        (state [] (some 0))
        0
        (some impatient)
      ≡ some s')
    × ((path : Bytes) × (scheduler_get_completed s'.completed lib ≡ some path))
    × (scheduler_get_completed s'.completed app ≡ none)
unfolding program
run_function_early_example =
    run_function_early plain unsorted as_read host interpreter both (state [] (some 0)) 0 recipe app
      (λ path. finish true)
      (record {
        sched = state-IsScheduler FirstOnly [] (some 0) (λ a mem. elim mem [ ]) (inl refl);
        context_is = refl;
        running = (recipe, refl, refl);
      })
      refl refl refl refl

-- Its recipe is complete before that of its dependency has run.
states_lem : states ≡ some (complete ∷ pending ∷ [])
unfolding program states
states_lem = refl

keys : Option (List Hash)
unfolding program
keys = umka_call plain unsorted host impatient (state [] (some 0)) >>= λ t.
    some (map (λ (r : Recipe). r.request_key) t.1.heap)

-- A recipe that is requested has no request key.
keys_lem : keys ≡ some (zero_hash ∷ zero_hash ∷ [])
unfolding program keys
keys_lem = refl
