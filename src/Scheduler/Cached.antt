-- ===== src/Scheduler/Cached.antt =====
-- The cache: what is found of a recipe that has run.
use rebuild.Base.{ℕ, ◌≡◌, refl, ap, ◌++◌, Option, some, true, Bytes, sym, ◌∙◌}
use rebuild.Base.{ok, same_string, if◌then◌else◌}
use rebuild.Map
use rebuild.Map.{Map}
use rebuild.Map.Writes.{set-IsWrite}
use rebuild.Table.Rehash.{IsValid}
use rebuild.Hash.{Hash, Blake2}
use rebuild.Hash.Tree.{Node, Qsort}
use rebuild.Recipe.{Recipe, StringSort, recipe_compute_request_key, complete}
use rebuild.Target.{Target}
use rebuild.Trace.{Trace}
use rebuild.Trace.Format.{trace_load}
use rebuild.Trace.Save.{encode}
use rebuild.Trace.Load.{IsStorable, read_trace-Parses}
use rebuild.Scheduler.{
  completed_trace, recipe_code_hash, output_path, scheduler_check_cache, use_trace,
}
use rebuild.Scheduler.{scheduler_mark_completed, scheduler_get_completed}
use rebuild.Scheduler.Recorded.{completed_trace-valid, completed_trace_key}

trace_load-encode :
    (t : Trace) (rest : Bytes)
    → IsStorable t
    → trace_load t.request_key (some (encode t ++ rest)) ≡ some t
unfolding trace_load
trace_load-encode t rest s = rw ((read_trace-Parses t s).run rest) refl

module _ (b : Blake2) (q : Qsort) (ss : StringSort) (fs : Bytes → Node) where
  -- The recipe with its request key.
  abbrev pub keyed : {Script : Type 0} → Option (Target Script) → Recipe → Recipe
  keyed target r = recipe_compute_request_key b ss r (recipe_code_hash b target r.target_name)

  pub use_trace_valid :
      (r : Recipe) (completed : Map Bytes) {m : Map Bytes}
      → Map.set completed r.target_name (output_path r.output_dir) ≡ some (ok, m)
      → use_trace b q ss fs true r completed ≡ some (true, record r { state = complete }, m)
  unfolding use_trace scheduler_mark_completed
  use_trace_valid r completed run = rw run refl

  -- A recipe whose request key has a trace file, written when a recipe with that key and a
  -- well-formed set of dependencies had run, is taken from the cache as long as the disk is unchanged
  -- and if the trace fits the file format. `scheduler_check_cache` returns true, the recipe is
  -- complete, its output path is recorded in the well-formed map of completed targets, which stays
  -- well formed, and the others there are unchanged.
  pub scheduler_check_cache-hit :
      {Script : Type 0} (traces : Hash → Option Bytes) (target : Option (Target Script))
      (r ran : Recipe) (elapsed_time : ℕ) (rest : Bytes) (completed : Map Bytes)
      → IsValid ran.declared_deps
      → IsValid completed
      → ran.request_key ≡ (keyed target r).request_key
      → IsStorable (completed_trace b q fs ran elapsed_time)
      → traces (keyed target r).request_key
        ≡ some (encode (completed_trace b q fs ran elapsed_time) ++ rest)
      → (m : Map Bytes) × (scheduler_check_cache b q ss fs traces target r completed
          ≡ some (true, record (keyed target r) { state = complete }, m))
        × IsValid m
        × ((p : Bytes)
            → scheduler_get_completed m p ≡ (
                if same_string p (keyed target r).target_name
                then some (output_path (keyed target r).output_dir)
                else scheduler_get_completed completed p))
  unfolding scheduler_check_cache scheduler_get_completed
  scheduler_check_cache-hit traces target r ran elapsed_time rest completed inv inw key fits
        written =
      let t = completed_trace b q fs ran elapsed_time in
      let k = keyed target r in
      let loaded : trace_load k.request_key (traces k.request_key) ≡ some t =
        ap (trace_load k.request_key) written
        ∙ ap (λ h. trace_load h (some (encode t ++ rest)))
            (sym (completed_trace_key b q fs ran elapsed_time ∙ key))
        ∙ trace_load-encode t rest fits in
      let valid = (completed_trace-valid b q fs ran elapsed_time inv).0 in
      let (m, run, w) = set-IsWrite completed k.target_name (output_path k.output_dir) inw in
      (
        m,
        rw (scheduler_check_cache, loaded)
            (ap (λ v. use_trace b q ss fs v k completed) valid ∙ use_trace_valid k completed run),
        w.valid,
        w.reads,
      )
