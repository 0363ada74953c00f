-- ===== src/Main/Course.antt =====
-- The course of a build from the command line.
use mathlib.Core.Path.{subst}
use rebuild.Base.{
  ℕ, suc, ◌≤◌, ◌≡◌, refl, ap, sym, ◌∙◌, arith, List, [], Option, none, some, true, false,
}
use rebuild.Table.Rehash.{IsValid}
use rebuild.Target.{Target}
use rebuild.Base.{Bool-cases, ◌⊎◌, inl, inr, Bytes, ◌||◌, Option-cases, if◌then◌else◌, ok}
use rebuild.Base.{error_exec, length}
use rebuild.Bridge.{Interpreter, Script, umka_load_script}
use rebuild.Bridge.Outside.{umka_call_outside}
use rebuild.Hash.{Blake2}
use rebuild.Hash.Tree.{Qsort}
use rebuild.Main.{Command, exits, builds, parse_arguments, register_name, Exit, stopped, finished}
use rebuild.Main.{
  faulted, endless, after_build, build_registered, registered, build_loaded, build_found,
  build_target, main,
}
use rebuild.Main.{error_code}
use rebuild.Main.Search.{IsDirname, find_build_file_ends}
use rebuild.Map
use rebuild.Map.Writes.{blank-IsEmpty}
use rebuild.Recipe.{StringSort}
use rebuild.Scheduler.{scheduler_get_completed}
use rebuild.Scheduler.Builds.{scheduler_build_ends, IsAchieved}
use rebuild.Scheduler.Registration.{Registers}
use rebuild.Scheduler.Completion.{Nothing}
use rebuild.Scheduler.Creation.{scheduler_create-IsScheduler}
use rebuild.Scheduler.Host.{Host}
use rebuild.Scheduler.Pipes.{IsHost}
use rebuild.Scheduler.Invariant.{IsScheduler, IsRegistry}
use rebuild.Scheduler.Loop.{run_stops, queue_is_empty-nil}
use rebuild.Scheduler.Run.{fault, out_of_fuel, returned, scheduler_run}
use rebuild.Scheduler.State.{Scheduler, queue_is_empty}
use rebuild.Storage.{Environment, is_absolute, storage_init}
use rebuild.Target.{TargetRegistry, target_registry_create, target_registry_get}

Command-cases : (c : Command) → ((code : ℕ) × (c ≡ exits code)) ⊎ ((p : Bytes) × (c ≡ builds p))
Command-cases (exits code) = inl (code, refl)
Command-cases (builds p) = inr (p, refl)

pub some_injective : {A : Type 0} {x y : A} → some x ≡ some y → x ≡ y
some_injective e = cc

target_registry_create-IsRegistry :
    {Umka : Type 0} (names : List Bytes) (umka : Umka)
    → (g : TargetRegistry Umka) × (target_registry_create umka ≡ some g)
      × IsRegistry names (some (record g { current = true }))
unfolding target_registry_create Map.create target_registry_get
target_registry_create-IsRegistry names umka = (
  _,
  refl,
  record {
    targets_valid = λ g h.
        subst (λ x. IsValid x.targets) (some_injective h)
          (blank-IsEmpty {V = Target _} 16 (omega arith)).valid;
    within = λ g p t h found.
        let same : none ≡ some t =
          sym ((blank-IsEmpty {V = Target _} 16 (omega arith)).reads p)
          ∙ ap (λ x. Map.get x.targets p) (some_injective h)
          ∙ found in
        absurd (cc);
  },
)

module _ (b : Blake2) (q : Qsort) (ss : StringSort) (h : Host) ⦃hosted : IsHost h⦄ (i : Interpreter)
    (names : List Bytes)
    (funcs : (umka : i.Umka) (f : Bytes) (x : Script)
      → i.get_func umka f ≡ some x
      → Registers names x) where
  -- The program ends, and it returns 0 only if the target has an output path.
  pub IsEnd : Bytes → Exit (Scheduler i.Umka h.os.Disk) → Type 0
  IsEnd p x =
      ((code : ℕ) × (x ≡ stopped (suc code)))
      ⊎ ((code : ℕ) × (s' : Scheduler i.Umka h.os.Disk) × (x ≡ finished code s')
          × (((k : ℕ) × (code ≡ suc k))
              ⊎ ((code ≡ 0)
                  × (path : Bytes) × (scheduler_get_completed s'.completed p ≡ some path))))

  -- The state before the targets are built.
  record IsReady (s : Scheduler i.Umka h.os.Disk) : Type 0 where
    sched : IsScheduler Nothing names s
    queue : s.ready_queue ≡ []
    fine : s.failed ≡ false
    outside : s.context ≡ none

  -- The second run finds the queue empty.
  after_build-IsEnd :
      (fuel : ℕ) (s s' : Scheduler i.Umka h.os.Disk) (p : Bytes)
      → s.ready_queue ≡ []
      → IsAchieved b q ss h i names funcs p s s'
      → after_build b q ss h i fuel (returned ok s') ≡ finished 0 s'
  unfolding after_build
  after_build-IsEnd fuel s s' p queue x =
      let nothing_left : s'.ready_queue ≡ [] = elim x.emptied [ inl e ↦ e | inr e ↦ e ∙ queue ] in
      let stop : (queue_is_empty s'.ready_queue || s'.failed) ≡ true =
        ap (λ l. queue_is_empty l || s'.failed) nothing_left
        ∙ ap (λ z. z || s'.failed) queue_is_empty-nil in
      let run : scheduler_run b q ss h i (suc fuel) s' ≡ returned ok s' =
        run_stops b q ss h i fuel s' stop
        ∙ ap (λ z. returned (if z then error_exec else ok) s') x.not_failed in
      ap
        (λ o. elim o [
          | fault ↦ faulted
          | out_of_fuel ↦ endless
          | returned e t ↦ finished (error_code e) t
        ])
        run

  build_registered-IsEnd :
      (p : Bytes) (s : Scheduler i.Umka h.os.Disk) (register_fn : Script)
      → IsReady s
      → Registers names register_fn
      → (fuel : ℕ) × IsEnd p (build_registered b q ss h i fuel p s register_fn)
  unfolding build_registered IsEnd after_build
  build_registered-IsEnd p s register_fn ready w =
      let (success, g, run, inv) =
        umka_call_outside b q h names register_fn s ready.outside ready.sched.registry_ok w in
      let s₁ = record s { registry = g } in
      let sched₁ : IsScheduler Nothing names s₁ = record {
        recipes_ok = ready.sched.recipes_ok;
        waiting_ok = ready.sched.waiting_ok;
        queued = ready.sched.queued;
        settled = ready.sched.settled;
        registry_ok = inv;
      } in
      let (fuel, e, s', ran, outcome) =
        scheduler_build_ends b q ss h i names funcs s₁ p sched₁ ready.fine in
      elim (Bool-cases success) [
        | inr fails ↦ (
          0,
          inr (
            4,
            s₁,
            ap (registered b q ss h i 0 p) run
                ∙ ap (λ v. registered b q ss h i 0 p (some (v, s₁))) fails,
            inl (3, refl),
          ),
        )
        | inl works ↦
            let path =
              ap (registered b q ss h i fuel p) run
              ∙ ap (λ v. registered b q ss h i fuel p (some (v, s₁))) works
              ∙ ap (after_build b q ss h i fuel) ran in
            (
              fuel,
              elim outcome [
                | inl (done, x) ↦ inr (
                  0,
                  s',
                  path
                      ∙ ap (λ c. after_build b q ss h i fuel (returned c s')) done
                      ∙ after_build-IsEnd fuel s₁ s' p ready.queue x,
                  inr (refl, x.found.0, x.found.1),
                )
                | inr (failed_, blamed) ↦ inr (
                  4,
                  s',
                  path ∙ ap (λ c. after_build b q ss h i fuel (returned c s')) failed_,
                  inl (3, refl),
                )
              ],
            )
      ]

  build_loaded-IsEnd :
      (p : Bytes) (s : Scheduler i.Umka h.os.Disk) (umka : i.Umka)
      → IsReady s
      → (fuel : ℕ) × IsEnd p (build_loaded b q ss h i fuel p s umka)
  unfolding build_loaded IsEnd
  build_loaded-IsEnd p s umka ready =
      let (g, made, inv) = target_registry_create-IsRegistry names umka in
      let s₁ = record s { umka = some umka; registry = some (record g { current = true }) } in
      elim (Option-cases (i.get_func umka register_name)) [
        | inl e ↦ (0, inr (3, s, rw (build_loaded, made, e) refl, inl (2, refl)))
        | inr (register_fn, e) ↦
            let ready₁ : IsReady s₁ = record {
              sched = record {
                recipes_ok = ready.sched.recipes_ok;
                waiting_ok = ready.sched.waiting_ok;
                queued = ready.sched.queued;
                settled = ready.sched.settled;
                registry_ok = inv;
              };
              queue = ready.queue;
              fine = ready.fine;
              outside = ready.outside;
            } in
            let (fuel, ends) =
              build_registered-IsEnd p s₁ register_fn ready₁
                (funcs umka register_name register_fn e) in
            (fuel, rw (build_loaded, made, e) ends)
      ]

  module _ (ffi_decls : Bytes) (ffi_names : List Bytes) where
    build_found-IsEnd :
        (p : Bytes) (s : Scheduler i.Umka h.os.Disk) (build_file : Option Bytes)
        → IsReady s
        → (fuel : ℕ) × IsEnd p (build_found b q ss h i ffi_decls ffi_names fuel p s build_file)
    unfolding build_found IsEnd
    build_found-IsEnd p s none ready = (0, inr (1, s, refl, inl (0, refl)))
    build_found-IsEnd p s (some build_file) ready =
        elim (Option-cases
          (umka_load_script i ffi_decls ffi_names build_file (h.read_file s.disk build_file))) [
            | inl e ↦ (0, inr (3, s, rw (build_found, e) refl, inl (2, refl)))
            | inr (umka, e) ↦
                let (fuel, ends) = build_loaded-IsEnd p s umka ready in
                (fuel, rw (build_found, e) ends)
          ]

    module _ (dirname : Bytes → Bytes × Bytes) (env : Environment) (path_env cwd : Option Bytes)
        (d : h.os.Disk) (n : ℕ) (laws : IsDirname dirname)
        (rooted : (p : Bytes) → cwd ≡ some p → is_absolute p ≡ true)
        (enough : (p : Bytes) → cwd ≡ some p → length p ≤ n) where
      build_target-IsEnd :
          (p : Bytes)
          → (fuel : ℕ) × IsEnd p (
              build_target b q ss h i ffi_decls ffi_names dirname env path_env cwd d (suc n) fuel p)
      unfolding build_target IsEnd
      build_target-IsEnd p =
          let init = storage_init h.os d env in
          elim (Option-cases init.0) [
            | inl e ↦ (0, inl (0, rw (build_target, e) refl))
            | inr (st, e) ↦
                let (s, made, sched, queue, fine, outside) =
                  scheduler_create-IsScheduler names path_env init.1 st in
                let (found, searched) =
                  find_build_file_ends dirname h.os init.1 cwd n laws rooted enough in
                let (fuel, ends) =
                  build_found-IsEnd p s found
                    (record { sched = sched; queue = queue; fine = fine; outside = outside }) in
                (fuel, rw (build_target, e, made, searched) ends)
          ]

      -- Where every function of BUILD.um registers only targets among finitely many names, whatever
      -- answers it gets, no child process blocks on its error pipe while its output pipe is read,
      -- `dirname` keeps its laws, the current directory's path is absolute, and there is a round
      -- of the search for each byte of that path and one more, the program ends, with some fuel, and
      -- does not fault. It ends at once with the code that the arguments ask for, or it builds the
      -- target that they name; then it returns a code other than 0, or 0 with an output path of that
      -- target.
      pub main_ends :
          (args : List Bytes)
          → (fuel : ℕ) × (((code : ℕ) × (parse_arguments none args ≡ exits code)
                × (main b q ss h i ffi_decls ffi_names dirname env path_env cwd d (suc n) fuel args
                    ≡ stopped code))
              ⊎ ((p : Bytes) × (parse_arguments none args ≡ builds p)
                  × IsEnd p (
                      main b q ss h i ffi_decls ffi_names dirname env path_env cwd d
                        (suc n)
                        fuel
                        args)))
      unfolding main IsEnd
      main_ends args = elim (Command-cases (parse_arguments none args)) [
        | inl (code, e) ↦ (0, inl (code, e, rw (main, e) refl))
        | inr (p, e) ↦
            let (fuel, ends) = build_target-IsEnd p in (fuel, inr (p, e, rw (main, e) ends))
      ]
