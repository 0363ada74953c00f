-- ===== src/Scheduler/Requests.antt =====
-- Requests for a dependency while a recipe runs.
use rebuild.Base.{ℕ, ◌≡◌, refl, ap, ◌∙◌, List, none, some, true}
use rebuild.Base.{◌⊎◌, inl, inr, Bytes, get_elem?, ok}
use rebuild.Base.{get_elem?_bound}
use rebuild.Base.{same_string_refl, Option-cases}
use rebuild.Map
use rebuild.Map.{Map}
use rebuild.Recipe.{Recipe, RecipeState, pending, running, suspended, complete, failed}
use rebuild.Recipe.{recipe_add_dependency}
use rebuild.Recipe.Deps.{recipe_add_dependency-declares}
use rebuild.Scheduler.{scheduler_get_completed}
use rebuild.Scheduler.Invariant.{IsScheduler, IsLater-trans, IsRunning}
use rebuild.Scheduler.Invariant.{IsScheduler-write_recipe, IsLater-write_recipe}
use rebuild.Scheduler.Invariant.{IsScheduler-push, IsLater-push, with_exception}
use rebuild.Scheduler.Invariant.{IsLater-IsRunning, IsRunning-open}
use rebuild.Scheduler.Recipes.{IsRewrite}
use rebuild.Scheduler.State.{Scheduler, push, write_recipe, suspend, add_waiter}
use rebuild.Scheduler.State.{await_state, await_recipe, scheduler_on_depend_request}
use rebuild.Scheduler.Waiters.{IsNext, IsNext-trans, IsNext-refl, add_waiter-IsNext, suspend-IsNext}
use rebuild.Set
use rebuild.Scheduler.Found.{scheduler_get_recipe-IsFound}

module _ {Umka Disk : Type 0} (Ex : ℕ → Type 0) (names : List Bytes) where
  -- The common part of the branches in which the current recipe waits.
  suspend_wait :
      (s : Scheduler Umka Disk) (a : ℕ) (p : Bytes)
      → IsScheduler Ex names s
      → IsRunning s a
      → (s₁ s₂ : Scheduler Umka Disk) × (suspend s a ≡ some s₁)
        × (add_waiter s₁ a p ≡ some s₂)
        × IsNext Ex names s s₂
  suspend_wait s a p inv (r, at, unmade) =
      let (s₁, run, n) =
        suspend-IsNext Ex names s a r inv at (IsRunning-open s a r inv (r, at, unmade) at) in
      let (r', at', name) = n.later.kept a r at in
      let (s₂, run', n') =
        add_waiter-IsNext Ex names s₁ a p n.sched (get_elem?_bound s₁.heap a at') in
      (s₁, s₂, run, run', IsNext-trans Ex names s s₁ s₂ n n')

module _ {Umka Disk : Type 0} (Ex : ℕ → Type 0) (names : List Bytes) where
  await_pending :
      (s : Scheduler Umka Disk) (a : ℕ) (p : Bytes) (dep : ℕ) (d : Recipe)
      → IsScheduler (λ x. Ex x ⊎ (x ≡ dep)) names s
      → IsRunning s a
      → get_elem? s.heap dep ≡ some d
      → (s' : Scheduler Umka Disk) × (await_state s a p dep pending ≡ some (none, s'))
        × IsNext Ex names s s'
  unfolding await_state
  await_pending s a p dep d inv running_ at =
      let (s₁, s₂, run, run', n) = suspend_wait (λ x. Ex x ⊎ (x ≡ dep)) names s a p inv running_ in
      let (d', at', name) = n.later.kept dep d at in
      (
        push s₂ dep,
        rw (run, run') refl,
        record {
          sched = IsScheduler-push s₂ dep n.sched (get_elem?_bound s₂.heap dep at');
          later = IsLater-trans s s₂ (push s₂ dep) n.later (IsLater-push s₂ dep);
        },
      )

module _ {Umka Disk : Type 0} (Ex : ℕ → Type 0) (names : List Bytes) where
  await_state-IsNext :
      (s : Scheduler Umka Disk) (a : ℕ) (p : Bytes) (dep : ℕ) (d : Recipe) (st : RecipeState)
      → d.state ≡ st
      → IsScheduler Ex names s ⊎ (IsScheduler (λ x. Ex x ⊎ (x ≡ dep)) names s × (d.state ≡ pending))
      → IsRunning s a
      → get_elem? s.heap dep ≡ some d
      → Map.get s.completed p ≡ none
      → (s' : Scheduler Umka Disk) × (await_state s a p dep st ≡ some (none, s'))
        × IsNext Ex names s s'
  unfolding await_state scheduler_get_completed
  await_state-IsNext s a p dep d pending e (inl inv) u at unmade =
      await_pending Ex names s a p dep d (with_exception s dep inv) u at
  await_state-IsNext s a p dep d pending e (inr (inv, f)) u at unmade =
      await_pending Ex names s a p dep d inv u at
  await_state-IsNext s a p dep d complete e (inl inv) u at unmade =
      (s, (λ i. some (unmade i, s)), IsNext-refl Ex names s inv)
  await_state-IsNext s a p dep d complete e (inr (inv, f)) u at unmade = absurd (cc)
  await_state-IsNext s a p dep d running e (inl inv) u at unmade =
      let (s₁, s₂, run, run', n) = suspend_wait Ex names s a p inv u in (s₂, rw (run, run') refl, n)
  await_state-IsNext s a p dep d running e (inr (inv, f)) u at unmade = absurd (cc)
  await_state-IsNext s a p dep d suspended e (inl inv) u at unmade =
      let (s₁, s₂, run, run', n) = suspend_wait Ex names s a p inv u in (s₂, rw (run, run') refl, n)
  await_state-IsNext s a p dep d suspended e (inr (inv, f)) u at unmade = absurd (cc)
  await_state-IsNext s a p dep d failed e (inl inv) u at unmade =
      let (s₁, s₂, run, run', n) = suspend_wait Ex names s a p inv u in (s₂, rw (run, run') refl, n)
  await_state-IsNext s a p dep d failed e (inr (inv, f)) u at unmade = absurd (cc)

  -- The dependency is added to the recipe.
  pub declare-IsNext :
      (s : Scheduler Umka Disk) (a : ℕ) (r : Recipe) (p : Bytes)
      → IsScheduler Ex names s
      → get_elem? s.heap a ≡ some r
      → (r' : Recipe) × (recipe_add_dependency r p ≡ some (ok, r'))
        × (Set.has r'.declared_deps p ≡ true)
        × IsNext Ex names s (write_recipe s a r')
  declare-IsNext s a r p inv at =
      let (declared, waiting_set, run, well, has, has') =
        recipe_add_dependency-declares r p (inv.recipes_ok.sets a r at) in
      let r' = record r { declared_deps = declared; pending_deps = waiting_set } in
      let w : IsRewrite r r' = record { same_name = refl; well_formed = well } in
      (
        r',
        run,
        has p ∙ rw (same_string_refl p) refl,
        record {
          sched = IsScheduler-write_recipe s a r r' inv at w refl;
          later = IsLater-write_recipe s a r r' at refl;
        },
      )

  -- For a recipe that runs `scheduler_on_depend_request` returns the path of the target where this is
  -- completed and NULL where it is not. The invariant stays, nothing is completed meanwhile, and the
  -- target has a recipe then.
  pub scheduler_on_depend_request-IsNext :
      (s : Scheduler Umka Disk) (a : ℕ) (p : Bytes)
      → IsScheduler Ex names s
      → IsRunning s a
      → (s' : Scheduler Umka Disk) × (scheduler_on_depend_request s a p
          ≡ some (scheduler_get_completed s.completed p, s'))
        × IsNext Ex names s s'
        × (dep : ℕ) × (d : Recipe) × (get_elem? s'.heap dep ≡ some d)
        × (d.target_name ≡ p)
  unfolding scheduler_on_depend_request scheduler_get_completed await_recipe write_recipe
  scheduler_on_depend_request-IsNext s a p inv (r, at, unmade) =
      let (r', add, has, n) = declare-IsNext s a r p inv at in
      let s₁ = write_recipe s a r' in
      elim (Option-cases (Map.get s.completed p)) [
        | inr (path, e) ↦
            let (dep, known) = n.sched.recipes_ok.known p path e in
            let (d, at', name) = n.sched.recipes_ok.listed p dep known in
            (s₁, rw (at, add, e) refl, n, dep, d, at', name)
        | inl e ↦
            let (dep, d, s₂, run, f) = scheduler_get_recipe-IsFound Ex names s₁ p n.sched in
            let later = IsLater-trans s s₁ s₂ n.later f.later in
            let (s₃, run', n') =
              await_state-IsNext s₂ a p dep d d.state refl f.sched
                (IsLater-IsRunning s s₂ a later (r, at, unmade)) f.at
                (ap (λ m. Map.get m p) later.same_completed ∙ e) in
            let (d', at', name) = n'.later.kept dep d f.at in
            (
              s₃,
              rw (at, add, e, run, f.at) run',
              record { sched = n'.sched; later = IsLater-trans s s₂ s₃ later n'.later },
              dep,
              d',
              at',
              name ∙ f.name,
            )
      ]
