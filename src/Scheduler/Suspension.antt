-- ===== src/Scheduler/Suspension.antt =====
-- A recipe that asks for a dependency is not suspended.
use rebuild.Base.{ℕ, ◌≡◌, refl, ap, sym, ◌∙◌, List, none, some, true, false, Bytes}
use rebuild.Base.{get_elem?, same_string, same_string_refl, if◌then◌else◌}
use rebuild.Bridge.{Interpreter, Script, Answer, null, depend_on, finish}
use rebuild.Bridge.Foreign.{umka_call, umka_ffi_rebuild_depend_on, str_or_null}
use rebuild.Hash.{Blake2}
use rebuild.Hash.Tree.{Qsort}
use rebuild.Map
use rebuild.Recipe.{Recipe, StringSort}
use rebuild.Scheduler.{scheduler_get_completed, output_path}
use rebuild.Scheduler.Calls.{IsCalling, depend_on_answer}
use rebuild.Scheduler.Completion.{scheduler_on_recipe_complete-true}
use rebuild.Scheduler.Host.{Host}
use rebuild.Scheduler.Run.{run_function}
use rebuild.Scheduler.State.{Scheduler}

module _ (b : Blake2) (q : Qsort) (ss : StringSort) (h : Host) (i : Interpreter)
    (names : List Bytes) where
  -- Take a function that requests a target that is not completed, and another than its own, and that
  -- returns successfully if the answer is NULL, whatever it does on another answer. It gets NULL and is
  -- not suspended: when it is run, it does not fault, its own target is recorded as completed, and
  -- the one it depends on is still not completed.
  pub run_function_early :
      (s : Scheduler i.Umka h.os.Disk) (a : ℕ) (r : Recipe) (p : Bytes) (k : Answer Bytes → Script)
      → IsCalling b q h (λ x. x ≡ a) names s a
      → get_elem? s.heap a ≡ some r
      → same_string p r.target_name ≡ false
      → scheduler_get_completed s.completed p ≡ none
      → k null ≡ finish true
      → (s' : Scheduler i.Umka h.os.Disk) × (run_function b q ss h i s a
            (some (depend_on (some p) k))
          ≡ some s')
        × ((path : Bytes) × (scheduler_get_completed s'.completed r.target_name ≡ some path))
        × (scheduler_get_completed s'.completed p ≡ none)
  unfolding run_function umka_call scheduler_get_completed
  run_function_early s a r p k calling at other missing gives_up =
      let (s₁, run, n) = depend_on_answer b q h (λ x. x ≡ a) names s a p calling in
      let null_answer : umka_ffi_rebuild_depend_on b q h (some p) s ≡ some (null, s₁) =
        run ∙ ap (λ o. some (str_or_null o, s₁)) missing in
      let (r₁, at₁, name) = n.later.kept a r at in
      let (s₂, run', inv, c) =
        scheduler_on_recipe_complete-true b q ss h i names s₁ a r₁ n.sched at₁ in
      (
        s₂,
        rw (umka_call, null_answer, gives_up) run',
        (
          output_path r₁.output_dir,
          ap (Map.get s₂.completed) (sym name)
              ∙ c.reads r₁.target_name
              ∙ rw (same_string_refl r₁.target_name) refl,
        ),
        c.reads p
            ∙ ap
                (λ y.
                  if same_string p y
                  then some (output_path r₁.output_dir)
                  else Map.get s₁.completed p)
                name
            ∙ rw other (ap (λ m. Map.get m p) n.later.same_completed ∙ missing),
      )
