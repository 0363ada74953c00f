-- ===== src/Scheduler/Execution.antt =====
-- The execution of a recipe: `scheduler_execute_recipe`.
use mathlib.Core.Path.{subst}
use rebuild.Base.{ℕ, ◌/◌, ◌≡◌, refl, ap, sym, ◌∙◌, List, Option}
use rebuild.Base.{none, some, false, ◌⊎◌, inl, inr, Bytes, get_elem?, In}
use rebuild.Base.{bind_some, get_elem?-set_self, get_elem?_bound, same_string, if◌then◌else◌}
use rebuild.Bridge.{Interpreter, Script}
use rebuild.Hash.{Blake2}
use rebuild.Hash.Tree.{Qsort}
use rebuild.Map
use rebuild.Map.{is_some}
use rebuild.Recipe.{Recipe, running, StringSort, recipe_set_output_dir}
use rebuild.Recipe.Deps.{IsRecipe}
use rebuild.Scheduler.{output_path}
use rebuild.Scheduler.Calls.{IsCalling, umka_call-IsNext}
use rebuild.Scheduler.Registration.{Registers}
use rebuild.Scheduler.Completion.{
  Nothing, IsCompletion, IsBlamed, scheduler_on_recipe_complete-IsCompletion,
}
use rebuild.Scheduler.Completion.{scheduler_on_recipe_complete-IsBlamed}
use rebuild.Scheduler.Host.{Host}
use rebuild.Scheduler.Pipes.{IsHost}
use rebuild.Scheduler.Invariant.{IsScheduler, IsLater, IsLater-write_recipe}
use rebuild.Scheduler.Invariant.{IsRegistry, IsScheduler-write_recipe}
use rebuild.Scheduler.Recipes.{is_complete, IsRewrite, IsRewrite-other}
use rebuild.Scheduler.Run.{
  place_output, place_temp, keep_temp, find_function, run_function, start_recipe,
  scheduler_execute_recipe,
}
use rebuild.Scheduler.State.{Scheduler, write_recipe}
use rebuild.Storage.{storage_get_tmp_dir}
use rebuild.Target.{target_registry_get}

pub is_some-none : {A : Type 0} (o : Option A) → is_some o ≡ false → o ≡ none
is_some-none none e = refl
is_some-none (some x) e = cc

module _ (b : Blake2) (q : Qsort) (ss : StringSort) (h : Host) ⦃hosted : IsHost h⦄ (i : Interpreter)
    (names : List Bytes) where
  -- Only the directories of the recipe are written.
  record IsPlaced (r r' : Recipe) : Type 0 where
    rewrite : IsRewrite r r'
    same_state : r'.state ≡ r.state

  place_output-IsPlaced :
      (r : Recipe) (d : h.os.Disk) (o : Option Bytes)
      → IsRecipe r
      → IsPlaced r (place_output b q ss h i r d o).0
  unfolding place_output recipe_set_output_dir
  place_output-IsPlaced r d (some o) inv = record {
    rewrite = IsRewrite-other r r.state r.output_dir r.temp_dir r.start_time inv;
    same_state = refl;
  }
  place_output-IsPlaced r d none inv = record {
    rewrite =
        IsRewrite-other r r.state (place_output b q ss h i r d none).0.output_dir r.temp_dir
          r.start_time inv;
    same_state = refl;
  }

  keep_temp-IsPlaced :
      (r : Recipe) (o : Option Bytes) (d : h.os.Disk)
      → IsRecipe r
      → IsPlaced r (keep_temp b q ss h i r (o, d)).0
  unfolding keep_temp
  keep_temp-IsPlaced r none d inv = record {
    rewrite = IsRewrite-other r r.state r.output_dir none r.start_time inv;
    same_state = refl;
  }
  keep_temp-IsPlaced r (some p) d inv = record {
    rewrite = IsRewrite-other r r.state r.output_dir (some p) r.start_time inv;
    same_state = refl;
  }

  place_temp-IsPlaced :
      (s : Scheduler i.Umka h.os.Disk) (r : Recipe) (d : h.os.Disk) (o : Option Bytes)
      → IsRecipe r
      → IsPlaced r (place_temp b q ss h i s r d o).0
  unfolding place_temp
  place_temp-IsPlaced s r d (some o) inv = record {
    rewrite = IsRewrite-other r r.state r.output_dir r.temp_dir r.start_time inv;
    same_state = refl;
  }
  place_temp-IsPlaced s r d none inv =
      let t =
        storage_get_tmp_dir h.os d s.storage r.target_name (h.time_digits d) (h.pid_digits d) in
      keep_temp-IsPlaced r t.0 t.1 inv

  -- The function that is found is that of a registered target.
  find_function-Registers :
      (s : Scheduler i.Umka h.os.Disk) (p : Bytes) (script : Script)
      → ((umka : i.Umka) (f : Bytes) (x : Script) → i.get_func umka f ≡ some x → Registers names x)
      → IsRegistry names s.registry
      → find_function b q ss h i s p ≡ some script
      → In p names × Registers names script
  unfolding find_function
  find_function-Registers s p script funcs inv e =
      let (umka, has_umka, e₁) = bind_some s.umka _ e in
      let (g, has_registry, e₂) = bind_some s.registry _ e₁ in
      let (t, found, e₃) = bind_some (target_registry_get g p) _ e₂ in
      (inv.within g p t has_registry found, funcs umka t.function_name script e₃)

  -- The state in which the function of the recipe is called.
  record IsStarted (s : Scheduler i.Umka h.os.Disk) (a : ℕ) (r : Recipe) : Type 0 where
    calling : IsCalling b q h (λ x. x ≡ a) names s a
    place : get_elem? s.heap a ≡ some r

  -- What `start_recipe` writes to the recipe.
  start_recipe-IsStarted :
      (s : Scheduler i.Umka h.os.Disk) (a : ℕ) (r : Recipe)
      → IsScheduler (λ x. x ≡ a) names s
      → get_elem? s.heap a ≡ some r
      → is_complete r.state ≡ false
      → (r' : Recipe) × IsStarted (start_recipe b q ss h i s a r) a r'
        × IsLater (record s { context = some a }) (start_recipe b q ss h i s a r)
        × (r'.target_name ≡ r.target_name)
  unfolding start_recipe write_recipe
  start_recipe-IsStarted s a r inv at undone =
      let t = h.hrtime s.disk in
      let started = record r { state = running; start_time = t.0 / 1000000 } in
      let p₁ = place_output b q ss h i started t.1 r.output_dir in
      let p₂ = place_temp b q ss h i s p₁.0 p₁.1 p₁.0.temp_dir in
      let first =
        IsRewrite-other r running r.output_dir r.temp_dir (t.0 / 1000000)
          (inv.recipes_ok.sets a r at) in
      let placed₁ = place_output-IsPlaced started t.1 r.output_dir first.well_formed in
      let placed₂ = place_temp-IsPlaced s p₁.0 p₁.1 p₁.0.temp_dir placed₁.rewrite.well_formed in
      let name : p₂.0.target_name ≡ r.target_name =
        placed₂.rewrite.same_name ∙ placed₁.rewrite.same_name in
      let w : IsRewrite r p₂.0 = record {
        same_name = name;
        well_formed = placed₂.rewrite.well_formed;
      } in
      let state_is : is_complete p₂.0.state ≡ is_complete r.state =
        ap is_complete (placed₂.same_state ∙ placed₁.same_state) ∙ sym undone in
      let sched = IsScheduler-write_recipe s a r p₂.0 inv at w state_is in
      let place = get_elem?-set_self s.heap a p₂.0 (get_elem?_bound s.heap a at) in
      let later = IsLater-write_recipe s a r p₂.0 at name in
      (
        p₂.0,
        record {
          calling = record {
            sched = record {
              recipes_ok = sched.recipes_ok;
              waiting_ok = sched.waiting_ok;
              queued = sched.queued;
              settled = sched.settled;
              registry_ok = sched.registry_ok;
            };
            context_is = refl;
            running = (
              p₂.0,
              place,
              ap (Map.get s.completed) name
                  ∙ is_some-none _ (inv.recipes_ok.recorded a r at ∙ undone),
            );
          };
          place = place;
        },
        record {
          kept = later.kept;
          same_completed = refl;
          same_failed = refl;
          same_context = refl;
        },
        name,
      )

  -- What one execution leads to: a failure, or a completed target among `names`.
  pub record IsExecuted (s : Scheduler i.Umka h.os.Disk) (p : Bytes)
      (s' : Scheduler i.Umka h.os.Disk) : Type 0 where
    pub sched : IsScheduler Nothing names s'
    pub path : Bytes
    pub completion : IsCompletion s p path s'
    pub named : In p names

  run_function-IsExecuted :
      (s : Scheduler i.Umka h.os.Disk) (a : ℕ) (r : Recipe) (found : Option Script)
      → IsStarted s a r
      → ((script : Script) → found ≡ some script → In r.target_name names × Registers names script)
      → (s' : Scheduler i.Umka h.os.Disk) × (run_function b q ss h i s a found ≡ some s')
        × (IsBlamed s' ⊎ IsExecuted s r.target_name s')
  unfolding run_function
  run_function-IsExecuted s a r none start funcs =
      let (s', run, blamed) =
        scheduler_on_recipe_complete-IsBlamed b q ss h i names s a r start.place in
      (s', run, inl blamed)
  run_function-IsExecuted s a r (some script) start funcs =
      let (listed, w) = funcs script refl in
      let (success, s₁, run, n) =
        umka_call-IsNext b q h (λ x. x ≡ a) names script s a start.calling w in
      let (r₁, at₁, name) = n.later.kept a r start.place in
      let (s₂, run', outcome) =
        scheduler_on_recipe_complete-IsCompletion b q ss h i names s₁ a r₁ success n.sched at₁ in
      (
        s₂,
        rw run run',
        elim outcome [
          | inl blamed ↦ inl blamed
          | inr (inv, c) ↦ inr (record {
            sched = inv;
            path = output_path r₁.output_dir;
            completion = record {
              kept = λ o t at.
                  let (t', at', e) = n.later.kept o t at in
                  let (t'', at'', e') = c.kept o t' at' in (t'', at'', e' ∙ e);
              reads = λ p.
                  c.reads p
                  ∙ ap
                      (λ x.
                        if same_string p x
                        then some (output_path r₁.output_dir)
                        else Map.get s₁.completed p)
                      name
                  ∙ ap
                      (λ m.
                        if same_string p r.target_name
                        then some (output_path r₁.output_dir)
                        else Map.get m p)
                      n.later.same_completed;
              same_failed = c.same_failed ∙ n.later.same_failed;
            };
            named = listed;
          })
        ],
      )

  -- A recipe that is not complete, executed where all recipes are complete or in the queue.
  -- `scheduler_execute_recipe` never faults; it fails, and names the culprit, or its target
  -- is completed, which is among `names`, and all recipes are complete or in the queue again.
  pub scheduler_execute_recipe-IsExecuted :
      (s : Scheduler i.Umka h.os.Disk) (a : ℕ) (r : Recipe)
      → ((umka : i.Umka) (f : Bytes) (x : Script) → i.get_func umka f ≡ some x → Registers names x)
      → IsScheduler (λ x. x ≡ a) names s
      → get_elem? s.heap a ≡ some r
      → is_complete r.state ≡ false
      → (s' : Scheduler i.Umka h.os.Disk) × (scheduler_execute_recipe b q ss h i s a ≡ some s')
        × (IsBlamed s' ⊎ IsExecuted s r.target_name s')
  unfolding scheduler_execute_recipe
  scheduler_execute_recipe-IsExecuted s a r funcs inv at undone =
      let (r', start, later, name) = start_recipe-IsStarted s a r inv at undone in
      let s₁ = start_recipe b q ss h i s a r in
      let (s', run, outcome) =
        run_function-IsExecuted s₁ a r' (find_function b q ss h i s₁ r.target_name) start
          (λ script found.
            let (listed, w) =
              find_function-Registers s₁ r.target_name script funcs start.calling.sched.registry_ok
                found in
            (subst (λ p. In p names) (sym name) listed, w)) in
      (
        s',
        rw at run,
        elim outcome [
          | inl blamed ↦ inl blamed
          | inr e ↦ inr (record {
            sched = e.sched;
            path = e.path;
            completion = record {
              kept = λ o t at'.
                  let (t', at₁, e₁) = later.kept o t at' in
                  let (t'', at₂, e₂) = e.completion.kept o t' at₁ in (t'', at₂, e₂ ∙ e₁);
              reads = λ p.
                  e.completion.reads p
                  ∙ ap (λ x. if same_string p x then some e.path else Map.get s₁.completed p) name
                  ∙ ap (λ m. if same_string p r.target_name then some e.path else Map.get m p)
                      later.same_completed;
              same_failed = e.completion.same_failed ∙ later.same_failed;
            };
            named = subst (λ p. In p names) name e.named;
          })
        ],
      )
