-- ===== src/Scheduler/Found.antt =====
-- `scheduler_get_recipe`: the old recipe of a name, or a new one.
use mathlib.Core.Path.{subst}
use rebuild.Base.{ℕ, ◌≡◌, refl, ap, sym, ◌∙◌, arith, List, [], ◌∷◌, ◌++◌, none, some}
use rebuild.Base.{◌⊎◌, inl, inr, Bytes, length, length-snoc, get_elem?}
use rebuild.Base.{get_elem?-snoc, get_elem?-snoc_old, get_elem?-snoc_cases}
use rebuild.Base.{Option-cases}
use rebuild.Hash.{zero_hash}
use rebuild.Map
use rebuild.Map.{Map}
use rebuild.Map.Writes.{set-IsWrite, IsWrite, blank-IsEmpty}
use rebuild.Recipe.{Recipe, pending, recipe_create}
use rebuild.Recipe.Deps.{IsRecipe}
use rebuild.Scheduler.Invariant.{IsScheduler, IsLater, IsLater-refl}
use rebuild.Scheduler.Invariant.{IsWaiting-more}
use rebuild.Scheduler.Recipes.{is_complete, IsRecipes-new}
use rebuild.Scheduler.State.{Scheduler, scheduler_get_recipe, keep_recipe}
use rebuild.Set

-- A new recipe: pending, without dependencies and with the zero key.
pub recipe_create-IsRecipe :
    (p : Bytes)
    → (r : Recipe) × (recipe_create p ≡ some r)
      × IsRecipe r
      × (r.target_name ≡ p)
      × (r.state ≡ pending)
      × (r.request_key ≡ zero_hash)
unfolding recipe_create Set.create
recipe_create-IsRecipe p = (
  _,
  refl,
  record {
    declared = (blank-IsEmpty {V = Unit {0}} 16 (omega arith)).valid;
    pending_ok = (blank-IsEmpty {V = Unit {0}} 16 (omega arith)).valid;
  },
  refl,
  refl,
  refl,
)

module _ {Umka Disk : Type 0} (Ex : ℕ → Type 0) (names : List Bytes) where
  -- The recipe of this name stands at the address. It is an old one, or it is new and pending, and
  -- not in the queue yet.
  pub record IsFound (s : Scheduler Umka Disk) (p : Bytes) (s' : Scheduler Umka Disk) (a : ℕ)
      (r : Recipe) : Type 0 where
    pub at : get_elem? s'.heap a ≡ some r
    pub name : r.target_name ≡ p
    pub later : IsLater s s'
    pub same_queue : s'.ready_queue ≡ s.ready_queue
    pub sched :
        IsScheduler Ex names s' ⊎ (IsScheduler (λ x. Ex x ⊎ (x ≡ a)) names s' × (r.state ≡ pending))

  new_recipe :
      (s : Scheduler Umka Disk) (r : Recipe) (m : Map ℕ)
      → IsScheduler Ex names s
      → Map.get s.recipes r.target_name ≡ none
      → IsRecipe r
      → r.state ≡ pending
      → IsWrite s.recipes r.target_name (some (length s.heap)) m
      → IsFound s r.target_name
          (record s { heap = s.heap ++ r ∷ []; recipes = m })
          (length s.heap)
          r
  new_recipe s r m inv fresh well st u = record {
    at = get_elem?-snoc s.heap r;
    name = refl;
    later = record {
      kept = λ c t at. (t, get_elem?-snoc_old s.heap r c at, refl);
      same_completed = refl;
      same_failed = refl;
      same_context = refl;
    };
    same_queue = refl;
    sched = inr (
      record {
        recipes_ok = IsRecipes-new inv.recipes_ok r m fresh well (ap is_complete st) u;
        waiting_ok =
            IsWaiting-more (length (s.heap ++ r ∷ [])) inv.waiting_ok
              (omega (arith, length-snoc s.heap r));
        queued = λ c mem. omega (arith, inv.queued c mem, length-snoc s.heap r);
        settled = λ c t h. elim (get_elem?-snoc_cases s.heap r c h) [
          | inr (e, f) ↦ inl (inr e)
          | inl f ↦ elim (inv.settled c t f) [ inl x ↦ inl (inl x) | inr x ↦ inr x ]
        ];
        registry_ok = inv.registry_ok;
      },
      st,
    );
  }

  pub scheduler_get_recipe-IsFound :
      (s : Scheduler Umka Disk) (p : Bytes)
      → IsScheduler Ex names s
      → (a : ℕ) × (r : Recipe) × (s' : Scheduler Umka Disk) × (scheduler_get_recipe s p
          ≡ some (some a, s'))
        × IsFound s p s' a r
  unfolding scheduler_get_recipe keep_recipe
  scheduler_get_recipe-IsFound s p inv = elim (Option-cases (Map.get s.recipes p)) [
    | inr (a, e) ↦
        let (r, at, name) = inv.recipes_ok.listed p a e in
        (
          a,
          r,
          s,
          rw (scheduler_get_recipe, e) refl,
          record {
            at = at;
            name = name;
            later = IsLater-refl s;
            same_queue = refl;
            sched = inl inv;
          },
        )
    | inl e ↦
        let (r, made, well, name, st, key) = recipe_create-IsRecipe p in
        let (m, run, u) = set-IsWrite s.recipes p (length s.heap) inv.recipes_ok.recipes_valid in
        let fresh : Map.get s.recipes r.target_name ≡ none = ap (Map.get s.recipes) name ∙ e in
        let u' : IsWrite s.recipes r.target_name (some (length s.heap)) m =
          subst (λ x. IsWrite s.recipes x (some (length s.heap)) m) (sym name) u in
        let f = new_recipe s r m inv fresh well st u' in
        (
          length s.heap,
          r,
          _,
          rw (scheduler_get_recipe, e, made, run) refl,
          record {
            at = f.at;
            name = name;
            later = f.later;
            same_queue = f.same_queue;
            sched = f.sched;
          },
        )
  ]
