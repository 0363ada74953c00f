-- ===== src/Scheduler/Waiters.antt =====
-- Waiter lists, suspension and resumption.
use mathlib.Core.Path.{subst}
use rebuild.Base.{ℕ, ◌<◌, ◌≡◌, refl, sym, ◌∙◌, arith, List, [], ◌∷◌, ◌++◌, some}
use rebuild.Base.{false, inl, inr, Bytes, length, length-set, length-snoc, get_elem?}
use rebuild.Base.{set as set_elem, get_elem?-set_cases, get_elem?_below, In, here}
use rebuild.Base.{there, get_elem?-snoc_cases, same_string_cases, if◌then◌else◌, Option-cases}
use rebuild.Base.{same_string_refl, same_string}
use rebuild.Table.Rehash.{IsValid}
use rebuild.Map
use rebuild.Map.{Map}
use rebuild.Map.Writes.{set-IsWrite}
use rebuild.Recipe.{Recipe, RecipeState, pending, running, suspended, complete, failed}
use rebuild.Scheduler.Invariant.{IsWaiting, IsScheduler, IsLater, IsLater-refl, IsLater-trans}
use rebuild.Scheduler.Invariant.{IsScheduler-write_recipe, IsLater-write_recipe}
use rebuild.Scheduler.Invariant.{IsScheduler-push, IsLater-push, with_exception}
use rebuild.Scheduler.Recipes.{is_complete, IsRewrite-state}
use rebuild.Scheduler.State.{
  WaiterList, Scheduler, push, write_recipe, suspend, add_to_list, add_waiter, waiter_list_add,
}
use rebuild.Scheduler.State.{waiter_list_create, resumed, scheduler_resume_recipe}
use rebuild.Scheduler.State.{waiter_list_notify_all}

is_complete-resumed : (st : RecipeState) → is_complete (resumed st) ≡ is_complete st
is_complete-resumed pending = refl
is_complete-resumed running = refl
is_complete-resumed suspended = refl
is_complete-resumed complete = refl
is_complete-resumed failed = refl

IsWaiting-add :
    {n : ℕ} {waiting : Map ℕ} {lists : List WaiterList} (w a : ℕ) (l : WaiterList)
    → IsWaiting n waiting lists
    → get_elem? lists w ≡ some l
    → a < n
    → IsWaiting n waiting (set_elem lists w (waiter_list_add l a))
unfolding waiter_list_add
IsWaiting-add {n} {waiting} {lists} w a l inv at live = record {
  valid = inv.valid;
  found = λ p c h. omega (arith, inv.found p c h, length-set lists w (waiter_list_add l a));
  live = λ c m h x mem. elim (get_elem?-set_cases lists w (waiter_list_add l a) c h) [
    | inr (d, f) ↦ inv.live c m f x mem
    | inl (e, f) ↦ elim (subst (λ y. In x y.nodes) (sym f) mem) [
      | here i ↦ omega (arith, i, live)
      | there i ↦ inv.live w l at x i
    ]
  ];
}

IsWaiting-new :
    {n : ℕ} {waiting m : Map ℕ} {lists : List WaiterList} (p : Bytes)
    → IsWaiting n waiting lists
    → IsValid m
    → ((c : Bytes)
        → Map.get m c ≡ (if same_string c p then some (length lists) else Map.get waiting c))
    → IsWaiting n m (lists ++ waiter_list_create ∷ [])
IsWaiting-new {n} {waiting} {m} {lists} p inv valid reads = record {
  valid = valid;
  found = λ c w h. elim (same_string_cases c p) [
    | inl e ↦
        let read : some (length lists) ≡ some w =
          sym (reads c ∙ rw (e, same_string_refl p) refl) ∙ h in
        let read' : length lists ≡ w = cc in
        omega (arith, read', length-snoc lists waiter_list_create)
    | inr (d, e) ↦
        omega (
          arith,
          inv.found c w (sym (reads c ∙ rw e refl) ∙ h),
          length-snoc lists waiter_list_create,
        )
  ];
  live = λ c l h x mem. elim (get_elem?-snoc_cases lists waiter_list_create c h) [
    | inl f ↦ inv.live c l f x mem
    | inr (e, f) ↦ elim (subst (λ y. In x y.nodes) (sym f) mem) [ ]
  ];
}

module _ {Umka Disk : Type 0} (Ex : ℕ → Type 0) (names : List Bytes) where
  -- The state after an operation: the invariant holds, and what a recipe's run keeps is kept.
  pub record IsNext (s s' : Scheduler Umka Disk) : Type 0 where
    pub sched : IsScheduler Ex names s'
    pub later : IsLater s s'

  pub IsNext-trans : (s t u : Scheduler Umka Disk) → IsNext s t → IsNext t u → IsNext s u
  IsNext-trans s t u f g = record { sched = g.sched; later = IsLater-trans s t u f.later g.later }

  pub IsNext-refl : (s : Scheduler Umka Disk) → IsScheduler Ex names s → IsNext s s
  IsNext-refl s inv = record { sched = inv; later = IsLater-refl s }

  -- Other waiter lists.
  with_lists :
      (s : Scheduler Umka Disk) (m : Map ℕ) (ls : List WaiterList)
      → IsScheduler Ex names s
      → IsWaiting (length s.heap) m ls
      → IsNext s (record s { waiting = m; lists = ls })
  with_lists s m ls inv w = record {
    sched = record {
      recipes_ok = inv.recipes_ok;
      waiting_ok = w;
      queued = inv.queued;
      settled = inv.settled;
      registry_ok = inv.registry_ok;
    };
    later = record {
      kept = λ c r at. (r, at, refl);
      same_completed = refl;
      same_failed = refl;
      same_context = refl;
    };
  }

  add_to_list-IsNext :
      (s : Scheduler Umka Disk) (a w : ℕ)
      → IsScheduler Ex names s
      → a < length s.heap
      → w < length s.lists
      → (s' : Scheduler Umka Disk) × (add_to_list s a w ≡ some s') × IsNext s s'
  unfolding add_to_list
  add_to_list-IsNext s a w inv live in_range =
      let (l, at) = get_elem?_below s.lists w in_range in
      (_, rw at refl, with_lists s s.waiting _ inv (IsWaiting-add w a l inv.waiting_ok at live))

  pub add_waiter-IsNext :
      (s : Scheduler Umka Disk) (a : ℕ) (p : Bytes)
      → IsScheduler Ex names s
      → a < length s.heap
      → (s' : Scheduler Umka Disk) × (add_waiter s a p ≡ some s') × IsNext s s'
  unfolding add_waiter
  add_waiter-IsNext s a p inv live = elim (Option-cases (Map.get s.waiting p)) [
    | inr (w, e) ↦
        let (s', run, n) = add_to_list-IsNext s a w inv live (inv.waiting_ok.found p w e) in
        (s', rw (add_waiter, e) run, n)
    | inl e ↦
        let (m, run, u) = set-IsWrite s.waiting p (length s.lists) inv.waiting_ok.valid in
        let s₁ = record s { waiting = m; lists = s.lists ++ waiter_list_create ∷ [] } in
        let step =
          with_lists s m (s.lists ++ waiter_list_create ∷ []) inv
            (IsWaiting-new p inv.waiting_ok u.valid u.reads) in
        let (s', run', n) =
          add_to_list-IsNext s₁ a (length s.lists) step.sched live
            (omega (arith, length-snoc s.lists waiter_list_create)) in
        (s', rw (add_waiter, e, run) run', IsNext-trans s s₁ s' step n)
  ]

  pub suspend-IsNext :
      (s : Scheduler Umka Disk) (a : ℕ) (r : Recipe)
      → IsScheduler Ex names s
      → get_elem? s.heap a ≡ some r
      → is_complete r.state ≡ false
      → (s' : Scheduler Umka Disk) × (suspend s a ≡ some s') × IsNext s s'
  unfolding suspend
  suspend-IsNext s a r inv at undone =
      let w = IsRewrite-state r suspended (inv.recipes_ok.sets a r at) in
      (
        _,
        rw at refl,
        record {
          sched =
              IsScheduler-write_recipe s a r (record r { state = suspended }) inv at w (sym undone);
          later = IsLater-write_recipe s a r (record r { state = suspended }) at refl;
        },
      )

  pub scheduler_resume_recipe-IsNext :
      (s : Scheduler Umka Disk) (a : ℕ)
      → IsScheduler Ex names s
      → a < length s.heap
      → (s' : Scheduler Umka Disk) × (scheduler_resume_recipe s a ≡ some s')
        × IsNext s s'
        × (length s'.heap ≡ length s.heap)
  unfolding scheduler_resume_recipe write_recipe
  scheduler_resume_recipe-IsNext s a inv live =
      let (r, at) = get_elem?_below s.heap a live in
      let r' = record r { state = resumed r.state } in
      let w = IsRewrite-state r (resumed r.state) (inv.recipes_ok.sets a r at) in
      let s₁ = write_recipe s a r' in
      let first = IsScheduler-write_recipe s a r r' inv at w (is_complete-resumed r.state) in
      (
        _,
        rw at refl,
        record {
          sched =
              IsScheduler-push s₁ a (with_exception s₁ a first)
                (omega (arith, live, length-set s.heap a r'));
          later =
              IsLater-trans s s₁ (push s₁ a) (IsLater-write_recipe s a r r' at refl)
                (IsLater-push s₁ a);
        },
        length-set s.heap a r',
      )

  pub waiter_list_notify_all-IsNext :
      (nodes : List ℕ) (s : Scheduler Umka Disk)
      → IsScheduler Ex names s
      → ((a : ℕ) → In a nodes → a < length s.heap)
      → (s' : Scheduler Umka Disk) × (waiter_list_notify_all nodes s ≡ some s') × IsNext s s'
  unfolding waiter_list_notify_all
  waiter_list_notify_all-IsNext [] s inv live = (s, refl, IsNext-refl s inv)
  waiter_list_notify_all-IsNext (a ∷ nodes) s inv live =
      let (s₁, run, n, size) = scheduler_resume_recipe-IsNext s a inv (live a (here refl)) in
      let (s', run', n') =
        waiter_list_notify_all-IsNext nodes s₁ n.sched
          (λ c mem. omega (arith, live c (there mem), size)) in
      (s', rw (waiter_list_notify_all, run) run', IsNext-trans s s₁ s' n n')
