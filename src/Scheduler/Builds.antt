-- ===== src/Scheduler/Builds.antt =====
-- `scheduler_build`: the cache, the queue and the loop.
use rebuild.Base.{ℕ, ◌≡◌, refl, ap, sym, ◌∙◌, List, [], none, some, false}
use rebuild.Base.{◌⊎◌, inl, inr, Bytes, get_elem?}
use rebuild.Base.{get_elem?_bound, Option-cases, Bool-cases}
use rebuild.Base.{ok, error_exec, RebuildError}
use rebuild.Bridge.{Interpreter, Script}
use rebuild.Hash.{Blake2}
use rebuild.Hash.Tree.{Qsort}
use rebuild.Map
use rebuild.Map.{Map, is_some}
use rebuild.Recipe.{Recipe, StringSort}
use rebuild.Scheduler.{scheduler_get_completed}
use rebuild.Scheduler.Registration.{Registers}
use rebuild.Scheduler.Completion.{Nothing, IsBlamed}
use rebuild.Scheduler.Host.{Host}
use rebuild.Scheduler.Pipes.{IsHost}
use rebuild.Scheduler.Invariant.{IsScheduler, with_exception}
use rebuild.Scheduler.Invariant.{IsScheduler-push}
use rebuild.Scheduler.Recipes.{is_complete}
use rebuild.Scheduler.Found.{scheduler_get_recipe-IsFound}
use rebuild.Scheduler.Run.{returned, scheduler_run, check_cache, run_unless, build_recipe}
use rebuild.Scheduler.Run.{scheduler_build}
use rebuild.Scheduler.State.{Scheduler, push, scheduler_get_recipe}
use rebuild.Scheduler.Termination.{scheduler_run_ends}
use rebuild.Scheduler.Checks.{check_cache-IsChecked}

module _ (b : Blake2) (q : Qsort) (ss : StringSort) (h : Host) ⦃hosted : IsHost h⦄ (i : Interpreter)
    (names : List Bytes)
    (funcs : (umka : i.Umka) (f : Bytes) (x : Script)
      → i.get_func umka f ≡ some x
      → Registers names x) where
  -- The target has a path, and nothing is left to do but what was in the queue before.
  pub record IsAchieved (p : Bytes) (s s' : Scheduler i.Umka h.os.Disk) : Type 0 where
    pub found : (path : Bytes) × (scheduler_get_completed s'.completed p ≡ some path)
    pub emptied : (s'.ready_queue ≡ []) ⊎ (s'.ready_queue ≡ s.ready_queue)
    pub not_failed : s'.failed ≡ false

  -- What a build that has returned has achieved.
  Achieved : Bytes → RebuildError → Scheduler i.Umka h.os.Disk → Scheduler i.Umka h.os.Disk → Type 0
  Achieved p e s s' = ((e ≡ ok) × IsAchieved p s s') ⊎ ((e ≡ error_exec) × IsBlamed s')

  -- The loop after a miss in the cache, for a recipe at this address.
  run-Achieved :
      (s : Scheduler i.Umka h.os.Disk) (a : ℕ) (p : Bytes)
      → IsScheduler Nothing names (push s a)
      → s.failed ≡ false
      → ((r : Recipe) × (get_elem? s.heap a ≡ some r) × (r.target_name ≡ p))
      → (fuel : ℕ) × (e : RebuildError) × (s' : Scheduler i.Umka h.os.Disk) × (scheduler_run b q ss
            h i fuel
            (push s a)
          ≡ returned e s')
        × Achieved p e s s'
  unfolding Achieved
  run-Achieved s a p inv fine (r, at, name) =
      let (fuel, e, s', run, outcome) =
        scheduler_run_ends b q ss h i names funcs (push s a) inv fine in
      (
        fuel,
        e,
        s',
        run,
        elim outcome [
          | inr o ↦ inr o
          | inl (done, built, all_built) ↦
              let (r', at', name') = built.kept a r at in
              let (finished, path, found) = all_built a r' at' in
              inl (
                done,
                record {
                  found = (
                    path,
                    ap (scheduler_get_completed s'.completed) (sym (name' ∙ name)) ∙ found,
                  );
                  emptied = inl built.emptied;
                  not_failed = built.not_failed;
                },
              )
        ],
      )

  -- The target has a recipe at this address, and no output path yet.
  build_misses :
      (fuel : ℕ) (s s₁ : Scheduler i.Umka h.os.Disk) (p : Bytes) (a : ℕ)
      → scheduler_get_recipe s p ≡ some (some a, s₁)
      → scheduler_get_completed s₁.completed p ≡ none
      → scheduler_build b q ss h i fuel s p
        ≡ run_unless b q ss h i fuel a (check_cache b q ss h i s₁ a)
  unfolding scheduler_build build_recipe
  build_misses fuel s s₁ p a run e =
      ap (build_recipe b q ss h i fuel p) run
      ∙ ap
          (λ o. elim o [
            | some path ↦ returned ok s₁
            | none ↦ run_unless b q ss h i fuel a (check_cache b q ss h i s₁ a)
          ])
          e

  build_finds :
      (fuel : ℕ) (s s₁ : Scheduler i.Umka h.os.Disk) (p path : Bytes) (a : ℕ)
      → scheduler_get_recipe s p ≡ some (some a, s₁)
      → scheduler_get_completed s₁.completed p ≡ some path
      → scheduler_build b q ss h i fuel s p ≡ returned ok s₁
  unfolding scheduler_build build_recipe
  build_finds fuel s s₁ p path a run e =
      ap (build_recipe b q ss h i fuel p) run
      ∙ ap
          (λ o. elim o [
            | some path ↦ returned ok s₁
            | none ↦ run_unless b q ss h i fuel a (check_cache b q ss h i s₁ a)
          ])
          e

  -- With no output path, for the recipe that was found.
  build-Achieved :
      (s s₁ : Scheduler i.Umka h.os.Disk) (p : Bytes) (a : ℕ) (r : Recipe)
      → scheduler_get_recipe s p ≡ some (some a, s₁)
      → scheduler_get_completed s₁.completed p ≡ none
      → IsScheduler (λ x. Nothing x ⊎ (x ≡ a)) names s₁
      → s₁.failed ≡ false
      → s₁.ready_queue ≡ s.ready_queue
      → get_elem? s₁.heap a ≡ some r
      → r.target_name ≡ p
      → (fuel : ℕ) × (e : RebuildError) × (s' : Scheduler i.Umka h.os.Disk) × (scheduler_build b q
            ss h i fuel s p
          ≡ returned e s')
        × Achieved p e s s'
  unfolding Achieved run_unless scheduler_get_completed
  build-Achieved s s₁ p a r run e inv fine queue at name =
      let undone : is_complete r.state ≡ false =
        sym (inv.recipes_ok.recorded a r at)
        ∙ ap (λ x. is_some (Map.get s₁.completed x)) name
        ∙ ap is_some e in
      let (hit, s₂, checks, c) = check_cache-IsChecked b q ss h i names s₁ a r inv at undone in
      elim (Bool-cases hit) [
        | inl was_hit ↦
            let (path, found) = c.on_hit was_hit in
            (
              0,
              ok,
              s₂,
              build_misses 0 s s₁ p a run e
                  ∙ ap (run_unless b q ss h i 0 a) checks
                  ∙ ap (λ x. run_unless b q ss h i 0 a (some (x, s₂))) was_hit,
              inl (
                refl,
                record {
                  found = (path, ap (Map.get s₂.completed) (sym name) ∙ found);
                  emptied = inr (c.same_queue ∙ queue);
                  not_failed = c.same_failed ∙ fine;
                },
              ),
            )
        | inr was_miss ↦
            let (t, at₂, name₂) = c.place in
            let next = IsScheduler-push s₂ a (c.on_miss was_miss) (get_elem?_bound s₂.heap a at₂) in
            let (fuel, err, s', ran, outcome) =
              run-Achieved s₂ a p next (c.same_failed ∙ fine) (t, at₂, name₂ ∙ name) in
            (
              fuel,
              err,
              s',
              build_misses fuel s s₁ p a run e
                  ∙ ap (run_unless b q ss h i fuel a) checks
                  ∙ ap (λ x. run_unless b q ss h i fuel a (some (x, s₂))) was_miss
                  ∙ ran,
              elim outcome [
                | inr o ↦ inr o
                | inl (done, x) ↦ inl (
                  done,
                  record {
                    found = x.found;
                    emptied = elim x.emptied [
                      | inl o ↦ inl o
                      | inr o ↦ inr (o ∙ c.same_queue ∙ queue)
                    ];
                    not_failed = x.not_failed;
                  },
                )
              ],
            )
      ]

  -- Where every function registers only targets among finitely many names, whatever answers it gets,
  -- and no child process blocks on its error pipe while its output pipe is read, `scheduler_build`
  -- ends, with some fuel, and does not fault, on a state that keeps the invariant and in which no
  -- recipe has failed. If it returns REBUILD_OK then the target has an output path, no recipe has
  -- failed, and the queue is empty or as it was before; otherwise it returns REBUILD_ERROR_EXEC, and
  -- `target_error` is the name of a recipe that has failed.
  pub scheduler_build_ends :
      (s : Scheduler i.Umka h.os.Disk) (target_name : Bytes)
      → IsScheduler Nothing names s
      → s.failed ≡ false
      → (fuel : ℕ) × (e : RebuildError) × (s' : Scheduler i.Umka h.os.Disk) × (scheduler_build b q
            ss h i fuel s target_name
          ≡ returned e s')
        × (((e ≡ ok) × IsAchieved target_name s s') ⊎ ((e ≡ error_exec) × IsBlamed s'))
  unfolding Achieved
  scheduler_build_ends s p inv fine =
      let (a, r, s₁, run, f) = scheduler_get_recipe-IsFound Nothing names s p inv in
      let inv₁ : IsScheduler (λ x. Nothing x ⊎ (x ≡ a)) names s₁ = elim f.sched [
        | inl x ↦ with_exception s₁ a x
        | inr (x, st) ↦ x
      ] in
      elim (Option-cases (scheduler_get_completed s₁.completed p)) [
        | inr (path, e) ↦ (
          0,
          ok,
          s₁,
          build_finds 0 s s₁ p path a run e,
          inl (
            refl,
            record {
              found = (path, e);
              emptied = inr f.same_queue;
              not_failed = f.later.same_failed ∙ fine;
            },
          ),
        )
        | inl e ↦
            build-Achieved s s₁ p a r run e inv₁ (f.later.same_failed ∙ fine) f.same_queue f.at
              f.name
      ]
