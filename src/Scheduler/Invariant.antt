-- ===== src/Scheduler/Invariant.antt =====
-- The invariant of the scheduler's state, and what the operations inside a recipe's run keep.
use mathlib.Core.Path.{subst}
use rebuild.Base.{
  ℕ, ◌<◌, ◌≤◌, ◌≡◌, refl, ap, sym, ◌∙◌, arith, List, [], ◌∷◌, ◌++◌, Option, none, some, true,
}
use rebuild.Base.{false, ◌⊎◌, inl, inr, Bytes, length, length-set, get_elem?}
use rebuild.Base.{set as set_elem, get_elem?-set_cases, get_elem?_bound, In, In-snoc}
use rebuild.Base.{In-snoc_old, In-snoc_new, get_elem?-set_self, get_elem?-set_ne, nat_cases}
use rebuild.Map
use rebuild.Map.{Map, is_some}
use rebuild.Recipe.{Recipe}
use rebuild.Scheduler.Recipes.{IsRecipes, IsRewrite, is_complete, IsRecipes-write}
use rebuild.Scheduler.State.{WaiterList, Scheduler, queue_push, push, write_recipe}
use rebuild.Table.Rehash.{IsValid}
use rebuild.Target.{TargetRegistry, Target, target_registry_get}

-- The waiter lists that the map knows exist, and the waiters in them are recipes, of which there are
-- `n`.
pub record IsWaiting (n : ℕ) (waiting : Map ℕ) (lists : List WaiterList) : Type 0 where
  pub valid : IsValid waiting
  pub found : (p : Bytes) (w : ℕ) → Map.get waiting p ≡ some w → w < length lists
  pub live : (w : ℕ) (l : WaiterList) → get_elem? lists w ≡ some l → (a : ℕ) → In a l.nodes → a < n

-- The targets are well formed and have these names only.
pub record IsRegistry {Umka : Type 0} (names : List Bytes) (registry : Option (TargetRegistry Umka))
    : Type 0 where
  pub targets_valid : (g : TargetRegistry Umka) → registry ≡ some g → IsValid g.targets
  pub within :
      (g : TargetRegistry Umka) (p : Bytes) (t : Target Umka)
      → registry ≡ some g
      → target_registry_get g p ≡ some t
      → In p names

-- Every recipe is complete or in the queue, with the exceptions `Ex`.
pub record IsScheduler {Umka Disk : Type 0} (Ex : ℕ → Type 0) (names : List Bytes)
    (s : Scheduler Umka Disk) : Type 0 where
  pub recipes_ok : IsRecipes s.heap s.recipes s.completed
  pub waiting_ok : IsWaiting (length s.heap) s.waiting s.lists
  pub queued : (a : ℕ) → In a s.ready_queue → a < length s.heap
  pub settled :
      (a : ℕ) (r : Recipe)
      → get_elem? s.heap a ≡ some r
      → Ex a ⊎ ((is_complete r.state ≡ true) ⊎ In a s.ready_queue)
  pub registry_ok : IsRegistry names s.registry

-- What stays while a recipe's function runs.
pub record IsLater {Umka Disk : Type 0} (s s' : Scheduler Umka Disk) : Type 0 where
  pub kept :
      (a : ℕ) (r : Recipe)
      → get_elem? s.heap a ≡ some r
      → (r' : Recipe) × (get_elem? s'.heap a ≡ some r') × (r'.target_name ≡ r.target_name)
  pub same_completed : s'.completed ≡ s.completed
  pub same_failed : s'.failed ≡ s.failed
  pub same_context : s'.context ≡ s.context

-- More recipes.
pub IsWaiting-more :
    {n : ℕ} (m : ℕ) {waiting : Map ℕ} {lists : List WaiterList}
    → IsWaiting n waiting lists
    → n ≤ m
    → IsWaiting m waiting lists
IsWaiting-more m w h = record {
  valid = w.valid;
  found = w.found;
  live = λ i l at a mem. omega (arith, w.live i l at a mem, h);
}

module _ {Umka Disk : Type 0} where
  -- The recipe exists, and its target is not completed.
  abbrev pub IsRunning : Scheduler Umka Disk → ℕ → Type 0
  IsRunning s a =
      (r : Recipe) × (get_elem? s.heap a ≡ some r) × (Map.get s.completed r.target_name ≡ none)

  pub IsLater-refl : (s : Scheduler Umka Disk) → IsLater s s
  IsLater-refl s = record {
    kept = λ a r at. (r, at, refl);
    same_completed = refl;
    same_failed = refl;
    same_context = refl;
  }

  pub IsLater-trans : (s t u : Scheduler Umka Disk) → IsLater s t → IsLater t u → IsLater s u
  IsLater-trans s t u f g = record {
    kept = λ a r at.
        let (r', at', e) = f.kept a r at in
        let (r'', at'', e') = g.kept a r' at' in (r'', at'', e' ∙ e);
    same_completed = g.same_completed ∙ f.same_completed;
    same_failed = g.same_failed ∙ f.same_failed;
    same_context = g.same_context ∙ f.same_context;
  }

  pub IsLater-IsRunning :
      (s s' : Scheduler Umka Disk) (a : ℕ) → IsLater s s' → IsRunning s a → IsRunning s' a
  IsLater-IsRunning s s' a f (r, at, e) =
      let (r', at', name) = f.kept a r at in
      (
        r',
        at',
        ap (Map.get s'.completed) name ∙ ap (λ m. Map.get m r.target_name) f.same_completed ∙ e,
      )

  pub IsRunning-open :
      {Ex : ℕ → Type 0} {names : List Bytes} (s : Scheduler Umka Disk) (a : ℕ) (r : Recipe)
      → IsScheduler Ex names s
      → IsRunning s a
      → get_elem? s.heap a ≡ some r
      → is_complete r.state ≡ false
  IsRunning-open s a r inv (r', at', e) at =
      let same : some r' ≡ some r = sym at' ∙ at in
      let same' : r' ≡ r = cc in
      sym (inv.recipes_ok.recorded a r at)
      ∙ ap (λ x. is_some (Map.get s.completed x.target_name)) (sym same')
      ∙ ap is_some e

  pub IsLater-write_recipe :
      (s : Scheduler Umka Disk) (a : ℕ) (r r' : Recipe)
      → get_elem? s.heap a ≡ some r
      → r'.target_name ≡ r.target_name
      → IsLater s (write_recipe s a r')
  unfolding write_recipe
  IsLater-write_recipe s a r r' at name = record {
    kept = λ c t at'. elim (nat_cases a c) [
      | inl e ↦
          let same : some r ≡ some t = sym at ∙ ap (get_elem? s.heap) e ∙ at' in
          let same' : r ≡ t = cc in
          (
            r',
            ap (get_elem? (set_elem s.heap a r')) (sym e)
                ∙ get_elem?-set_self s.heap a r' (get_elem?_bound s.heap a at),
            name ∙ ap (λ x. x.target_name) same',
          )
      | inr n ↦ (t, get_elem?-set_ne s.heap a c r' n ∙ at', refl)
    ];
    same_completed = refl;
    same_failed = refl;
    same_context = refl;
  }

  pub IsLater-push : (s : Scheduler Umka Disk) (a : ℕ) → IsLater s (push s a)
  IsLater-push s a = record {
    kept = λ c r at. (r, at, refl);
    same_completed = refl;
    same_failed = refl;
    same_context = refl;
  }

  pub with_exception :
      {Ex : ℕ → Type 0} {names : List Bytes} (s : Scheduler Umka Disk) (dep : ℕ)
      → IsScheduler Ex names s
      → IsScheduler (λ x. Ex x ⊎ (x ≡ dep)) names s
  with_exception s dep inv = record {
    recipes_ok = inv.recipes_ok;
    waiting_ok = inv.waiting_ok;
    queued = inv.queued;
    settled = λ a r at. elim (inv.settled a r at) [ inl e ↦ inl (inl e) | inr e ↦ inr e ];
    registry_ok = inv.registry_ok;
  }

module _ {Umka Disk : Type 0} {Ex : ℕ → Type 0} {names : List Bytes} (s : Scheduler Umka Disk) where
  pub IsScheduler-write_recipe :
      (a : ℕ) (r r' : Recipe)
      → IsScheduler Ex names s
      → get_elem? s.heap a ≡ some r
      → IsRewrite r r'
      → is_complete r'.state ≡ is_complete r.state
      → IsScheduler Ex names (write_recipe s a r')
  unfolding write_recipe
  IsScheduler-write_recipe a r r' inv at w same = record {
    recipes_ok = IsRecipes-write inv.recipes_ok a r r' at w same;
    waiting_ok =
        subst (λ n. IsWaiting n s.waiting s.lists) (sym (length-set s.heap a r')) inv.waiting_ok;
    queued = λ c mem. omega (arith, inv.queued c mem, length-set s.heap a r');
    settled = λ c t h. elim (get_elem?-set_cases s.heap a r' c h) [
      | inr (n, f) ↦ inv.settled c t f
      | inl (e, f) ↦ elim (inv.settled a r at) [
        | inl x ↦ inl (subst Ex (sym e) x)
        | inr (inl x) ↦ inr (inl (ap (λ y. is_complete y.state) (sym f) ∙ same ∙ x))
        | inr (inr x) ↦ inr (inr (subst (λ y. In y s.ready_queue) (sym e) x))
      ]
    ];
    registry_ok = inv.registry_ok;
  }

  pub IsScheduler-push :
      (a : ℕ)
      → IsScheduler (λ x. Ex x ⊎ (x ≡ a)) names s
      → a < length s.heap
      → IsScheduler Ex names (push s a)
  unfolding queue_push
  IsScheduler-push a inv live = record {
    recipes_ok = inv.recipes_ok;
    waiting_ok = inv.waiting_ok;
    queued = λ c mem. elim (In-snoc s.ready_queue a c mem) [
      | inl i ↦ inv.queued c i
      | inr e ↦ omega (arith, e, live)
    ];
    settled = λ c r at. elim (inv.settled c r at) [
      | inl (inl x) ↦ inl x
      | inl (inr e) ↦
          inr (
            inr (subst (λ y. In y (s.ready_queue ++ a ∷ [])) (sym e) (In-snoc_new s.ready_queue a)))
      | inr (inl x) ↦ inr (inl x)
      | inr (inr x) ↦ inr (inr (In-snoc_old s.ready_queue a c x))
    ];
    registry_ok = inv.registry_ok;
  }
