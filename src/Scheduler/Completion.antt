-- ===== src/Scheduler/Completion.antt =====
-- The completion of a recipe: `scheduler_on_recipe_complete`.
use mathlib.Core.Path.{subst}
use rebuild.Base.{ℕ, ◌+◌, ◌-◌, ◌/◌, ◌%◌, ◌^◌, ◌≡◌, refl, ap, sym, ◌∙◌, arith, List}
use rebuild.Base.{none, some, Bool, true, false, ◌⊎◌, inl, inr, Bytes, length-set, get_elem?}
use rebuild.Base.{get_elem?-set_cases, get_elem?_bound, get_elem?_below}
use rebuild.Base.{
  get_elem?-set_self, same_string, same_string_cases, same_string_refl, Option-cases,
}
use rebuild.Base.{if◌then◌else◌}
use rebuild.Hash.{Blake2}
use rebuild.Hash.Tree.{Qsort}
use rebuild.Map
use rebuild.Map.{Map}
use rebuild.Map.Writes.{set-IsWrite, remove-IsWrite, IsWrite}
use rebuild.Recipe.{Recipe, complete, failed, StringSort}
use rebuild.Scheduler.{completed_trace, scheduler_mark_completed, output_path}
use rebuild.Scheduler.Host.{Host}
use rebuild.Bridge.{Interpreter}
use rebuild.Scheduler.Invariant.{IsWaiting, IsScheduler}
use rebuild.Scheduler.Invariant.{IsLater-write_recipe}
use rebuild.Scheduler.Recipes.{is_complete, IsRewrite-state, IsRecipes-complete}
use rebuild.Scheduler.Run.{
  save_trace, notify_waiters, on_success, on_failure, scheduler_on_recipe_complete,
}
use rebuild.Scheduler.State.{Scheduler, write_recipe}
use rebuild.Scheduler.Waiters.{IsNext, IsNext-refl, waiter_list_notify_all-IsNext}

-- No recipe is excepted.
abbrev pub Nothing : ℕ → Type 0
Nothing a = ⊥

module _ {Umka Disk : Type 0} where
  -- The target is recorded as completed with this path, and the others are left as they are.
  pub record IsCompletion (s : Scheduler Umka Disk) (p path : Bytes) (s' : Scheduler Umka Disk)
      : Type 0 where
    pub kept :
        (a : ℕ) (r : Recipe)
        → get_elem? s.heap a ≡ some r
        → (r' : Recipe) × (get_elem? s'.heap a ≡ some r') × (r'.target_name ≡ r.target_name)
    pub reads :
        (q : Bytes)
        → Map.get s'.completed q ≡ (if same_string q p then some path else Map.get s.completed q)
    pub same_failed : s'.failed ≡ s.failed

  -- A recipe has failed, and `target_error` is its name.
  pub record IsBlamed (s : Scheduler Umka Disk) : Type 0 where
    pub has_failed : s.failed ≡ true
    pub culprit :
        (a : ℕ) × (r : Recipe) × (get_elem? s.heap a ≡ some r)
        × (r.state ≡ failed)
        × (s.target_error ≡ some r.target_name)

IsWaiting-remove :
    {n : ℕ} {waiting : Map ℕ} {lists : List _} (p : Bytes)
    → IsWaiting n waiting lists
    → IsWaiting n (Map.remove waiting p).1 lists
IsWaiting-remove {n} {waiting} {lists} p inv =
    let (old, w) = remove-IsWrite waiting p inv.valid in
    record {
      valid = w.valid;
      found = λ c i h. elim (same_string_cases c p) [
        | inl e ↦
            let gone : none ≡ some i = sym (w.reads c ∙ rw (e, same_string_refl p) refl) ∙ h in
            absurd (cc)
        | inr (d, e) ↦ inv.found c i (sym (w.reads c ∙ rw e refl) ∙ h)
      ];
      live = inv.live;
    }

module _ (b : Blake2) (q : Qsort) (ss : StringSort) (h : Host) (i : Interpreter)
    (names : List Bytes) where
  notify_waiters-IsNext :
      (s : Scheduler i.Umka h.os.Disk) (p : Bytes)
      → IsScheduler Nothing names s
      → (s' : Scheduler i.Umka h.os.Disk) × (notify_waiters b q ss h i s p ≡ some s')
        × IsNext Nothing names s s'
  unfolding notify_waiters
  notify_waiters-IsNext s p inv = elim (Option-cases (Map.get s.waiting p)) [
    | inl e ↦ (s, rw (notify_waiters, e) refl, IsNext-refl Nothing names s inv)
    | inr (w, e) ↦
        let (l, at) = get_elem?_below s.lists w (inv.waiting_ok.found p w e) in
        let (s₁, run, n) =
          waiter_list_notify_all-IsNext Nothing names l.nodes s inv
            (λ a mem. inv.waiting_ok.live w l at a mem) in
        (
          record s₁ { waiting = (Map.remove s₁.waiting p).1 },
          rw (notify_waiters, e, at, run) refl,
          record {
            sched = record {
              recipes_ok = n.sched.recipes_ok;
              waiting_ok = IsWaiting-remove p n.sched.waiting_ok;
              queued = n.sched.queued;
              settled = n.sched.settled;
              registry_ok = n.sched.registry_ok;
            };
            later = record {
              kept = n.later.kept;
              same_completed = n.later.same_completed;
              same_failed = n.later.same_failed;
              same_context = n.later.same_context;
            };
          },
        )
  ]

  -- The state in which the recipe is complete and recorded, before the waiters are notified.
  recorded_state :
      (s : Scheduler i.Umka h.os.Disk) (a : ℕ) (r : Recipe) (path : Bytes) (m : Map Bytes)
      (d : h.os.Disk)
      → IsScheduler (λ x. x ≡ a) names s
      → get_elem? s.heap a ≡ some r
      → IsWrite s.completed r.target_name (some path) m
      → IsScheduler Nothing names
          (record (write_recipe s a (record r { state = complete })) { disk = d; completed = m })
  unfolding write_recipe
  recorded_state s a r path m d inv at u =
      let done = record r { state = complete } in
      record {
        recipes_ok =
            IsRecipes-complete inv.recipes_ok a r done path m at
              (IsRewrite-state r complete (inv.recipes_ok.sets a r at)) refl u;
        waiting_ok =
            subst (λ n. IsWaiting n s.waiting s.lists) (sym (length-set s.heap a done))
              inv.waiting_ok;
        queued = λ c mem. omega (arith, inv.queued c mem, length-set s.heap a done);
        settled = λ c t g. elim (get_elem?-set_cases s.heap a done c g) [
          | inl (e, f) ↦ inr (inl (ap (λ x. is_complete x.state) (sym f)))
          | inr (n, f) ↦ elim (inv.settled c t f) [ inl e ↦ absurd (n e) | inr x ↦ inr x ]
        ];
        registry_ok = inv.registry_ok;
      }

  on_success-IsCompletion :
      (s : Scheduler i.Umka h.os.Disk) (a : ℕ) (r : Recipe) (elapsed_time : ℕ)
      → IsScheduler (λ x. x ≡ a) names s
      → get_elem? s.heap a ≡ some r
      → (s' : Scheduler i.Umka h.os.Disk) × (on_success b q ss h i s a r elapsed_time ≡ some s')
        × IsScheduler Nothing names s'
        × IsCompletion s r.target_name (output_path r.output_dir) s'
  unfolding on_success scheduler_mark_completed write_recipe
  on_success-IsCompletion s a r elapsed_time inv at =
      let (m, run, u) =
        set-IsWrite s.completed r.target_name (output_path r.output_dir)
          inv.recipes_ok.completed_valid in
      let done = record r { state = complete } in
      let d =
        save_trace b q ss h i s s.disk (completed_trace b q (h.node s.disk) done elapsed_time) in
      let first = recorded_state s a r (output_path r.output_dir) m d inv at u in
      let s₁ = record (write_recipe s a done) { disk = d; completed = m } in
      let (s', run', n) = notify_waiters-IsNext s₁ r.target_name first in
      let moved = IsLater-write_recipe s a r (record r { state = complete }) at refl in
      (
        s',
        rw run run',
        n.sched,
        record {
          kept = λ c t g.
              let (t', at', e) = moved.kept c t g in
              let (t'', at'', e') = n.later.kept c t' at' in (t'', at'', e' ∙ e);
          reads = λ p. ap (λ x. Map.get x p) n.later.same_completed ∙ u.reads p;
          same_failed = n.later.same_failed;
        },
      )

  pub scheduler_on_recipe_complete-IsBlamed :
      (s : Scheduler i.Umka h.os.Disk) (a : ℕ) (r : Recipe)
      → get_elem? s.heap a ≡ some r
      → (s' : Scheduler i.Umka h.os.Disk) × (scheduler_on_recipe_complete b q ss h i s a false
          ≡ some s')
        × IsBlamed s'
  unfolding scheduler_on_recipe_complete on_failure write_recipe
  scheduler_on_recipe_complete-IsBlamed s a r at = (
    record (on_failure b q ss h i
        (record s { active_count = s.active_count - 1; disk = (h.hrtime s.disk).1 }) a r) {
          context = none;
        },
    rw at refl,
    record {
      has_failed = refl;
      culprit = (
        a,
        record r { state = failed },
        get_elem?-set_self s.heap a (record r { state = failed }) (get_elem?_bound s.heap a at),
        refl,
        refl,
      );
    },
  )

  -- For a recipe on the heap that runs `scheduler_on_recipe_complete` does not fault after a success:
  -- the invariant then holds with no exception and the target is recorded.
  pub scheduler_on_recipe_complete-true :
      (s : Scheduler i.Umka h.os.Disk) (a : ℕ) (r : Recipe)
      → IsScheduler (λ x. x ≡ a) names s
      → get_elem? s.heap a ≡ some r
      → (s' : Scheduler i.Umka h.os.Disk) × (scheduler_on_recipe_complete b q ss h i s a true
          ≡ some s')
        × IsScheduler Nothing names s'
        × IsCompletion s r.target_name (output_path r.output_dir) s'
  unfolding scheduler_on_recipe_complete
  scheduler_on_recipe_complete-true s a r inv at =
      let t = h.hrtime s.disk in
      let s₁ = record s { active_count = s.active_count - 1; disk = t.1 } in
      let elapsed_time = (t.0 / 1000000 + 2 ^ 64 - r.start_time) % 2 ^ 64 in
      let inv₁ : IsScheduler (λ x. x ≡ a) names s₁ = record {
        recipes_ok = inv.recipes_ok;
        waiting_ok = inv.waiting_ok;
        queued = inv.queued;
        settled = inv.settled;
        registry_ok = inv.registry_ok;
      } in
      let (s₂, run, inv₂, c) = on_success-IsCompletion s₁ a r elapsed_time inv₁ at in
      (
        record s₂ { context = none },
        rw (at, run) refl,
        record {
          recipes_ok = inv₂.recipes_ok;
          waiting_ok = inv₂.waiting_ok;
          queued = inv₂.queued;
          settled = inv₂.settled;
          registry_ok = inv₂.registry_ok;
        },
        record { kept = c.kept; reads = c.reads; same_failed = c.same_failed },
      )

  -- Either end of a recipe.
  pub scheduler_on_recipe_complete-IsCompletion :
      (s : Scheduler i.Umka h.os.Disk) (a : ℕ) (r : Recipe) (success : Bool)
      → IsScheduler (λ x. x ≡ a) names s
      → get_elem? s.heap a ≡ some r
      → (s' : Scheduler i.Umka h.os.Disk) × (scheduler_on_recipe_complete b q ss h i s a success
          ≡ some s')
        × (IsBlamed s'
            ⊎ (IsScheduler Nothing names s'
                × IsCompletion s r.target_name (output_path r.output_dir) s'))
  scheduler_on_recipe_complete-IsCompletion s a r false inv at =
      let (s', run, blamed) = scheduler_on_recipe_complete-IsBlamed s a r at in
      (s', run, inl blamed)
  scheduler_on_recipe_complete-IsCompletion s a r true inv at =
      let (s', run, inv', c) = scheduler_on_recipe_complete-true s a r inv at in
      (s', run, inr (inv', c))
