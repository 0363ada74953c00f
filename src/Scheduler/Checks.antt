-- ===== src/Scheduler/Checks.antt =====
-- The check of the cache on the scheduler's state.
use rebuild.Base.{ℕ, ◌≡◌, refl, ap, ◌∙◌, List, Option, some, Bool, true, false}
use rebuild.Base.{◌⊎◌, inl, inr, Bytes, get_elem?, ◌>>=◌}
use rebuild.Base.{get_elem?-set_self, get_elem?_bound, Option-cases, Bool-cases}
use rebuild.Base.{same_string_refl}
use rebuild.Bridge.{Interpreter}
use rebuild.Hash.{Hash, Blake2}
use rebuild.Hash.Tree.{Qsort, Node}
use rebuild.Map.{Map}
use rebuild.Map.Writes.{IsWrite, set-IsWrite}
use rebuild.Recipe.{Recipe, StringSort, complete, recipe_compute_request_key}
use rebuild.Recipe.Deps.{IsRecipe}
use rebuild.Scheduler.{scheduler_get_completed, scheduler_check_cache, use_trace, output_path}
use rebuild.Scheduler.Cached.{keyed, use_trace_valid}
use rebuild.Scheduler.Completion.{Nothing}
use rebuild.Scheduler.Host.{Host}
use rebuild.Scheduler.Invariant.{IsScheduler}
use rebuild.Scheduler.Invariant.{IsScheduler-write_recipe}
use rebuild.Scheduler.Recipes.{is_complete, IsRewrite}
use rebuild.Scheduler.Run.{check_cache, open_trace, trace_file}
use rebuild.Scheduler.State.{Scheduler, write_recipe}
use rebuild.Table.Rehash.{IsValid}
use rebuild.Target.{Target, target_registry_get}
use rebuild.Trace.{trace_validate}
use rebuild.Trace.Format.{trace_load}

module _ (b : Blake2) (q : Qsort) (ss : StringSort) where
  keyed-IsRewrite :
      {Script : Type 0} (fs : Bytes → Node) (target : Option (Target Script)) (r : Recipe)
      → IsRecipe r
      → IsRewrite r (keyed b q ss fs target r)
  unfolding recipe_compute_request_key
  keyed-IsRewrite fs target r inv = record {
    same_name = refl;
    well_formed = record { declared = inv.declared; pending_ok = inv.pending_ok };
  }

  -- The two ends of `scheduler_check_cache`: no valid trace, or the target recorded as completed.
  scheduler_check_cache_cases :
      {Script : Type 0} (fs : Bytes → Node) (traces : Hash → Option Bytes)
      (target : Option (Target Script)) (r : Recipe) (completed : Map Bytes)
      → IsValid completed
      → (scheduler_check_cache b q ss fs traces target r completed
          ≡ some (false, keyed b q ss fs target r, completed))
        ⊎ ((m : Map Bytes) × (scheduler_check_cache b q ss fs traces target r completed
              ≡ some (true, record (keyed b q ss fs target r) { state = complete }, m))
            × IsWrite completed
                (keyed b q ss fs target r).target_name
                (some (output_path (keyed b q ss fs target r).output_dir))
                m)
  unfolding scheduler_check_cache use_trace
  scheduler_check_cache_cases fs traces target r completed inv =
      let k = keyed b q ss fs target r in
      elim (Option-cases (trace_load k.request_key (traces k.request_key))) [
        | inl e ↦ inl (rw (scheduler_check_cache, e) refl)
        | inr (t, e) ↦ elim (Bool-cases (trace_validate b q fs t)) [
          | inr v ↦
              inl (rw (scheduler_check_cache, e) (ap (λ x. use_trace b q ss fs x k completed) v))
          | inl v ↦
              let (m, run, w) =
                set-IsWrite completed k.target_name (output_path k.output_dir) inv in
              inr (
                m,
                rw (scheduler_check_cache, e)
                    (ap (λ x. use_trace b q ss fs x k completed) v
                      ∙ use_trace_valid b q ss fs k completed run),
                w,
              )
        ]
      ]

module _ (b : Blake2) (q : Qsort) (ss : StringSort) (h : Host) (i : Interpreter)
    (names : List Bytes) where
  -- After the check: all is settled again and the target recorded, or only the recipe has a key.
  pub record IsChecked (s : Scheduler i.Umka h.os.Disk) (a : ℕ) (p : Bytes)
      (s' : Scheduler i.Umka h.os.Disk) (hit : Bool) : Type 0 where
    pub same_failed : s'.failed ≡ s.failed
    pub same_queue : s'.ready_queue ≡ s.ready_queue
    pub place : (r : Recipe) × (get_elem? s'.heap a ≡ some r) × (r.target_name ≡ p)
    pub on_hit : hit ≡ true → (path : Bytes) × (scheduler_get_completed s'.completed p ≡ some path)
    pub on_miss : hit ≡ false → IsScheduler (λ x. Nothing x ⊎ (x ≡ a)) names s'

  checked : Scheduler i.Umka h.os.Disk → ℕ → Recipe → Map Bytes → Scheduler i.Umka h.os.Disk
  checked s a k completed = record (write_recipe s a k) {
    completed = completed;
    disk = (open_trace b q ss h i s k.request_key).1;
  }

  pub check_cache-IsChecked :
      (s : Scheduler i.Umka h.os.Disk) (a : ℕ) (r : Recipe)
      → IsScheduler (λ x. Nothing x ⊎ (x ≡ a)) names s
      → get_elem? s.heap a ≡ some r
      → is_complete r.state ≡ false
      → (hit : Bool) × (s' : Scheduler i.Umka h.os.Disk) × (check_cache b q ss h i s a
          ≡ some (hit, s'))
        × IsChecked s a r.target_name s' hit
  unfolding check_cache checked write_recipe scheduler_get_completed recipe_compute_request_key
  check_cache-IsChecked s a r inv at undone =
      let target = s.registry >>= λ registry. target_registry_get registry r.target_name in
      let fs = h.node s.disk in
      let k = keyed b q ss fs target r in
      let w = keyed-IsRewrite b q ss fs target r (inv.recipes_ok.sets a r at) in
      elim (scheduler_check_cache_cases b q ss fs (trace_file b q ss h i s) target r s.completed
        inv.recipes_ok.completed_valid) [
          | inl e ↦
              let s' = checked s a k s.completed in
              let next = IsScheduler-write_recipe s a r k inv at w refl in
              (
                false,
                s',
                rw (at, e) refl,
                record {
                  same_failed = refl;
                  same_queue = refl;
                  place =
                      (k, get_elem?-set_self s.heap a k (get_elem?_bound s.heap a at), w.same_name);
                  on_hit = λ f. absurd (cc);
                  on_miss = λ f. record {
                    recipes_ok = next.recipes_ok;
                    waiting_ok = next.waiting_ok;
                    queued = next.queued;
                    settled = next.settled;
                    registry_ok = next.registry_ok;
                  };
                },
              )
          | inr (m, e, u) ↦
              let done = record k { state = complete } in
              let s' = checked s a done m in
              (
                true,
                s',
                rw (at, e) refl,
                record {
                  same_failed = refl;
                  same_queue = refl;
                  place = (
                    done,
                    get_elem?-set_self s.heap a done (get_elem?_bound s.heap a at),
                    w.same_name,
                  );
                  on_hit = λ f. (
                    output_path k.output_dir,
                    u.reads r.target_name ∙ rw (w.same_name, same_string_refl r.target_name) refl,
                  );
                  on_miss = λ f. absurd (cc);
                },
              )
        ]
