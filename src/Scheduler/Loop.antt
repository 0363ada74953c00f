-- ===== src/Scheduler/Loop.antt =====
-- One round of `scheduler_run`.
use rebuild.Base.{ℕ, suc, ◌≡◌, refl, ap, sym, ◌∙◌, arith, List, [], ◌∷◌, none}
use rebuild.Base.{some, Bool, true, false, inl, inr, Bytes, get_elem?, here}
use rebuild.Base.{there, if◌then◌else◌}
use rebuild.Base.{ok, error_exec, ◌||◌}
use rebuild.Bridge.{Interpreter}
use rebuild.Hash.{Blake2}
use rebuild.Hash.Tree.{Qsort}
use rebuild.Recipe.{Recipe, RecipeState, pending, running, suspended, complete, failed, StringSort}
use rebuild.Scheduler.Completion.{Nothing, IsBlamed}
use rebuild.Scheduler.Host.{Host}
use rebuild.Scheduler.Invariant.{IsScheduler}
use rebuild.Scheduler.Recipes.{is_complete}
use rebuild.Scheduler.Run.{fault, returned, run_next, run_step, scheduler_run}
use rebuild.Scheduler.Run.{scheduler_execute_recipe}
use rebuild.Scheduler.State.{Scheduler, queue_pop, queue_is_empty}

pub queue_is_empty-nil : queue_is_empty [] ≡ true
unfolding queue_is_empty
queue_is_empty-nil = refl

pub queue_is_empty-cons : (a : ℕ) (q : List ℕ) → queue_is_empty (a ∷ q) ≡ false
unfolding queue_is_empty
queue_is_empty-cons a q = ground arith

module _ (b : Blake2) (q : Qsort) (ss : StringSort) (h : Host) (i : Interpreter) where
  pub run_stops :
      (fuel : ℕ) (s : Scheduler i.Umka h.os.Disk)
      → (queue_is_empty s.ready_queue || s.failed) ≡ true
      → scheduler_run b q ss h i (suc fuel) s ≡ returned (if s.failed then error_exec else ok) s
  unfolding scheduler_run
  run_stops fuel s e =
      ap
        (λ c. elim c [
          | true ↦ returned (if s.failed then error_exec else ok) s
          | false ↦ elim (run_step b q ss h i s) [
            | none ↦ fault
            | some s' ↦ scheduler_run b q ss h i fuel s'
          ]
        ])
        e

  pub run_continues :
      (fuel : ℕ) (s s' : Scheduler i.Umka h.os.Disk)
      → (queue_is_empty s.ready_queue || s.failed) ≡ false
      → run_step b q ss h i s ≡ some s'
      → scheduler_run b q ss h i (suc fuel) s ≡ scheduler_run b q ss h i fuel s'
  unfolding scheduler_run
  run_continues fuel s s' e run =
      ap
        (λ c. elim c [
          | true ↦ returned (if s.failed then error_exec else ok) s
          | false ↦ elim (run_step b q ss h i s) [
            | none ↦ fault
            | some s' ↦ scheduler_run b q ss h i fuel s'
          ]
        ])
        e
      ∙ ap (λ o. elim o [ none ↦ fault | some s' ↦ scheduler_run b q ss h i fuel s' ]) run

  pub run_next-open :
      (s : Scheduler i.Umka h.os.Disk) (st : RecipeState) (a : ℕ)
      → is_complete st ≡ false
      → run_next b q ss h i s st a ≡ scheduler_execute_recipe b q ss h i s a
  unfolding run_next
  run_next-open s pending a e = refl
  run_next-open s running a e = refl
  run_next-open s suspended a e = refl
  run_next-open s complete a e = cc
  run_next-open s failed a e = refl

  pub run_next_complete :
      (s : Scheduler i.Umka h.os.Disk) (st : RecipeState) (a : ℕ)
      → is_complete st ≡ true
      → run_next b q ss h i s st a ≡ some s
  unfolding run_next
  run_next_complete s pending a e = cc
  run_next_complete s running a e = cc
  run_next_complete s suspended a e = cc
  run_next_complete s complete a e = refl
  run_next_complete s failed a e = cc

  pub run_step-at :
      (s : Scheduler i.Umka h.os.Disk) (a : ℕ) (rest : List ℕ) (r : Recipe)
      → get_elem? s.heap a ≡ some r
      → run_step b q ss h i (record s { ready_queue = a ∷ rest })
        ≡ run_next b q ss h i (record s { ready_queue = rest }) r.state a
  unfolding run_step queue_pop
  run_step-at s a rest r at = rw at refl

  pub run_blamed :
      (s : Scheduler i.Umka h.os.Disk)
      → IsBlamed s
      → scheduler_run b q ss h i 1 s ≡ returned error_exec s
  run_blamed s blamed =
      let stop : (queue_is_empty s.ready_queue || s.failed) ≡ true =
        ap (λ x. queue_is_empty s.ready_queue || x) blamed.has_failed
        ∙ or_true (queue_is_empty s.ready_queue) in
      run_stops 0 s stop ∙ ap (λ x. returned (if x then error_exec else ok) s) blamed.has_failed
    where
      or_true : (x : Bool) → (x || true) ≡ true
      or_true true = refl
      or_true false = refl

module _ {Umka Disk : Type 0} (names : List Bytes) where
  -- The recipe taken from the queue is complete.
  pub pop_complete :
      (s : Scheduler Umka Disk) (a : ℕ) (rest : List ℕ) (r : Recipe)
      → IsScheduler Nothing names (record s { ready_queue = a ∷ rest })
      → get_elem? s.heap a ≡ some r
      → is_complete r.state ≡ true
      → IsScheduler Nothing names (record s { ready_queue = rest })
  pop_complete s a rest r inv at done = record {
    recipes_ok = inv.recipes_ok;
    waiting_ok = inv.waiting_ok;
    queued = λ c mem. inv.queued c (there mem);
    settled = λ c t at'. elim (inv.settled c t at') [
      | inl e ↦ inl e
      | inr (inl e) ↦ inr (inl e)
      | inr (inr (there e)) ↦ inr (inr e)
      | inr (inr (here e)) ↦
          let same : some t ≡ some r = sym at' ∙ ap (get_elem? s.heap) e ∙ at in
          let same' : t ≡ r = cc in inr (inl (ap (λ x. is_complete x.state) same' ∙ done))
    ];
    registry_ok = inv.registry_ok;
  }

  pub pop_open :
      (s : Scheduler Umka Disk) (a : ℕ) (rest : List ℕ)
      → IsScheduler Nothing names (record s { ready_queue = a ∷ rest })
      → IsScheduler (λ x. x ≡ a) names (record s { ready_queue = rest })
  pop_open s a rest inv = record {
    recipes_ok = inv.recipes_ok;
    waiting_ok = inv.waiting_ok;
    queued = λ c mem. inv.queued c (there mem);
    settled = λ c t at'. elim (inv.settled c t at') [
      | inl e ↦ absurd e
      | inr (inl e) ↦ inr (inl e)
      | inr (inr (there e)) ↦ inr (inr e)
      | inr (inr (here e)) ↦ inl e
    ];
    registry_ok = inv.registry_ok;
  }
