-- ===== src/Scheduler/Termination.antt =====
-- `scheduler_run` ends, and what it has built then.
use mathlib.Core.Path.{subst}
use rebuild.Base.{ℕ, zero, suc, ◌<◌, ◌≡◌, refl, ap, ◌∙◌, arith, List, [], ◌∷◌, Option, none}
use rebuild.Base.{some, true, false, ◌⊎◌, inl, inr, Bytes, get_elem?, In, here}
use rebuild.Base.{Bool-cases, if◌then◌else◌}
use rebuild.Base.{get_elem?_below, ok, error_exec, RebuildError, ◌||◌}
use rebuild.Bridge.{Interpreter, Script}
use rebuild.Hash.{Blake2}
use rebuild.Hash.Tree.{Qsort}
use rebuild.Map.{is_some}
use rebuild.Recipe.{Recipe, RecipeState, pending, running, suspended, complete, failed, StringSort}
use rebuild.Scheduler.{scheduler_get_completed}
use rebuild.Scheduler.Registration.{Registers}
use rebuild.Scheduler.Completion.{Nothing, IsBlamed}
use rebuild.Scheduler.Execution.{scheduler_execute_recipe-IsExecuted, is_some-none}
use rebuild.Scheduler.Host.{Host}
use rebuild.Scheduler.Pipes.{IsHost}
use rebuild.Scheduler.Invariant.{IsScheduler}
use rebuild.Scheduler.Recipes.{is_complete}
use rebuild.Scheduler.Run.{returned, run_step, scheduler_run}
use rebuild.Scheduler.State.{Scheduler, queue_is_empty}
use rebuild.Scheduler.Missing.{missing, missing_lt}
use rebuild.Scheduler.Loop.{
  queue_is_empty-nil, queue_is_empty-cons, run_stops, run_continues, run_next-open,
  run_next_complete,
}
use rebuild.Scheduler.Loop.{run_step-at, pop_complete, pop_open, run_blamed}

pub is_complete_sound : (st : RecipeState) → is_complete st ≡ true → st ≡ complete
is_complete_sound pending e = cc
is_complete_sound running e = cc
is_complete_sound suspended e = cc
is_complete_sound complete e = refl
is_complete_sound failed e = cc

pub is_some_sound : {A : Type 0} (o : Option A) → is_some o ≡ true → (x : A) × (o ≡ some x)
is_some_sound none e = cc
is_some_sound (some x) e = (x, refl)

module _ (b : Blake2) (q : Qsort) (ss : StringSort) (h : Host) ⦃hosted : IsHost h⦄ (i : Interpreter)
    (names : List Bytes)
    (funcs : (umka : i.Umka) (f : Bytes) (x : Script)
      → i.get_func umka f ≡ some x
      → Registers names x) where
  -- What the loop leaves when it returns REBUILD_OK.
  pub record IsBuilt (s s' : Scheduler i.Umka h.os.Disk) : Type 0 where
    pub sched : IsScheduler Nothing names s'
    pub emptied : s'.ready_queue ≡ []
    pub not_failed : s'.failed ≡ false
    pub kept :
        (a : ℕ) (r : Recipe)
        → get_elem? s.heap a ≡ some r
        → (r' : Recipe) × (get_elem? s'.heap a ≡ some r') × (r'.target_name ≡ r.target_name)

  pub Ends : ℕ → Scheduler i.Umka h.os.Disk → Type 0
  Ends fuel s =
      (e : RebuildError) × (s' : Scheduler i.Umka h.os.Disk) × (scheduler_run b q ss h i fuel s
        ≡ returned e s')
      × (((e ≡ ok) × IsBuilt s s') ⊎ ((e ≡ error_exec) × IsBlamed s'))

  -- The end of the loop follows from its end after a step.
  Ends-step :
      (fuel : ℕ) (s s' : Scheduler i.Umka h.os.Disk)
      → (queue_is_empty s.ready_queue || s.failed) ≡ false
      → run_step b q ss h i s ≡ some s'
      → ((a : ℕ) (r : Recipe)
          → get_elem? s.heap a ≡ some r
          → (r' : Recipe) × (get_elem? s'.heap a ≡ some r') × (r'.target_name ≡ r.target_name))
      → Ends fuel s'
      → Ends (suc fuel) s
  unfolding Ends
  Ends-step fuel s s' e run kept (err, t, rest, outcome) = (
    err,
    t,
    run_continues b q ss h i fuel s s' e run ∙ rest,
    elim outcome [
      | inr o ↦ inr o
      | inl (fine, built) ↦ inl (
        fine,
        record {
          sched = built.sched;
          emptied = built.emptied;
          not_failed = built.not_failed;
          kept = λ a r at.
              let (r', at', e') = kept a r at in
              let (r'', at'', e'') = built.kept a r' at' in (r'', at'', e'' ∙ e');
        },
      )
    ],
  )

  Ends-failure :
      (s s' : Scheduler i.Umka h.os.Disk)
      → (queue_is_empty s.ready_queue || s.failed) ≡ false
      → run_step b q ss h i s ≡ some s'
      → IsBlamed s'
      → Ends 2 s
  unfolding Ends
  Ends-failure s s' e run blamed = (
    error_exec,
    s',
    run_continues b q ss h i 1 s s' e run ∙ run_blamed b q ss h i s' blamed,
    inr (refl, blamed),
  )

  -- Induction on the queue, where the loop ends as soon as fewer names are missing.
  Ends-queue :
      (n : ℕ)
      → ((s : Scheduler i.Umka h.os.Disk)
          → IsScheduler Nothing names s
          → s.failed ≡ false
          → missing names s.completed < n
          → (fuel : ℕ) × Ends fuel s)
      → (queue : List ℕ) (s : Scheduler i.Umka h.os.Disk)
      → IsScheduler Nothing names (record s { ready_queue = queue })
      → s.failed ≡ false
      → missing names s.completed < suc n
      → (fuel : ℕ) × Ends fuel (record s { ready_queue = queue })
  unfolding Ends
  Ends-queue n fewer [] s inv fine bound = (
    1,
    (
      if s.failed then error_exec else ok,
      record s { ready_queue = [] },
      run_stops b q ss h i 0 (record s { ready_queue = [] })
          (ap (λ x. x || s.failed) queue_is_empty-nil),
      inl (
        ap (λ x. if x then error_exec else ok) fine,
        record { sched = inv; emptied = refl; not_failed = fine; kept = λ a r at. (r, at, refl) },
      ),
    ),
  )
  Ends-queue n fewer (a ∷ rest) s inv fine bound =
      let (r, at) = get_elem?_below s.heap a (inv.queued a (here refl)) in
      let whole = record s { ready_queue = a ∷ rest } in
      let popped = record s { ready_queue = rest } in
      let go_on : (queue_is_empty (a ∷ rest) || s.failed) ≡ false =
        ap (λ x. x || s.failed) (queue_is_empty-cons a rest) ∙ fine in
      let rest_ends = Ends-queue n fewer rest s in
      elim (Bool-cases (is_complete r.state)) [
        | inl done ↦
            let (fuel, ends) = rest_ends (pop_complete names s a rest r inv at done) fine bound in
            (
              suc fuel,
              Ends-step fuel whole popped go_on
                  (run_step-at b q ss h i s a rest r at
                    ∙ run_next_complete b q ss h i popped r.state a done)
                  (λ c t at'. (t, at', refl)) ends,
            )
        | inr undone ↦
            let (s', run, outcome) =
              scheduler_execute_recipe-IsExecuted b q ss h i names popped a r funcs
                (pop_open names s a rest inv) at undone in
            let step =
              run_step-at b q ss h i s a rest r at
              ∙ run_next-open b q ss h i popped r.state a undone
              ∙ run in
            elim outcome [
              | inl blamed ↦ (2, Ends-failure whole s' go_on step blamed)
              | inr x ↦
                  let unmade = is_some-none _ (inv.recipes_ok.recorded a r at ∙ undone) in
                  let less =
                    missing_lt s.completed s'.completed r.target_name x.path x.completion.reads
                      names x.named unmade in
                  let (fuel, ends) =
                    fewer s' x.sched (x.completion.same_failed ∙ fine)
                      (omega (arith, less, bound)) in
                  (suc fuel, Ends-step fuel whole s' go_on step x.completion.kept ends)
            ]
      ]

  Ends-missing :
      (n : ℕ) (s : Scheduler i.Umka h.os.Disk)
      → IsScheduler Nothing names s
      → s.failed ≡ false
      → missing names s.completed < n
      → (fuel : ℕ) × Ends fuel s
  Ends-missing zero s inv fine bound = absurd (omega (arith, bound))
  Ends-missing (suc n) s inv fine bound =
      Ends-queue n (Ends-missing n) s.ready_queue s inv fine bound

  -- Where every function registers only targets among finitely many names, whatever answers it gets,
  -- and no child process blocks on its error pipe while its output pipe is read, `scheduler_run` ends,
  -- with some fuel, and does not fault, on a state that keeps the invariant and in which no recipe has
  -- failed. If it returns REBUILD_OK then the queue is empty and every recipe, the ones that were there
  -- and the ones that were requested on the way, is complete and has its output path recorded.
  -- Otherwise it returns REBUILD_ERROR_EXEC, and `target_error` is the name of a recipe that has
  -- failed.
  pub scheduler_run_ends :
      (s : Scheduler i.Umka h.os.Disk)
      → IsScheduler Nothing names s
      → s.failed ≡ false
      → (fuel : ℕ) × (e : RebuildError) × (s' : Scheduler i.Umka h.os.Disk) × (scheduler_run b q ss
            h i fuel s
          ≡ returned e s')
        × (((e ≡ ok)
              × IsBuilt s s'
              × ((a : ℕ) (r : Recipe)
                  → get_elem? s'.heap a ≡ some r
                  → (r.state ≡ complete)
                    × (path : Bytes) × (scheduler_get_completed s'.completed r.target_name
                        ≡ some path)))
            ⊎ ((e ≡ error_exec) × IsBlamed s'))
  unfolding Ends scheduler_get_completed
  scheduler_run_ends s inv fine =
      let (fuel, (e, s', run, outcome)) =
        Ends-missing (suc (missing names s.completed)) s inv fine (omega arith) in
      (
        fuel,
        e,
        s',
        run,
        elim outcome [
          | inr o ↦ inr o
          | inl (done, built) ↦ inl (
            done,
            built,
            λ a r at.
                let finished = complete_there s' built a r at in
                let (path, found) =
                  is_some_sound _ (built.sched.recipes_ok.recorded a r at ∙ finished) in
                (is_complete_sound r.state finished, path, found),
          )
        ],
      )
    where
      complete_there :
          (s' : Scheduler i.Umka h.os.Disk)
          → IsBuilt s s'
          → (a : ℕ) (r : Recipe) → get_elem? s'.heap a ≡ some r
          → is_complete r.state ≡ true
      complete_there s' built a r at = elim (built.sched.settled a r at) [
        | inl e ↦ absurd e
        | inr (inl e) ↦ e
        | inr (inr mem) ↦ elim (subst (In a) built.emptied mem) [ ]
      ]
