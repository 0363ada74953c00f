-- ===== src/Scheduler/Recorded.antt =====
-- The dependencies in the trace of a recipe that has run.
use mathlib.Core.Path.{subst}
use mathlib.Core.List.{append_assoc, append-nil}
use rebuild.Base.{◌+◌}
use rebuild.Base.{
  ℕ, ◌≡◌, ◌↔◌, refl, ap, arith, List, [], ◌∷◌, ◌++◌, none, some, Bool, true, false, Bytes,
}
use rebuild.Base.{
  In, here, there, sym, ◌∙◌, same_string_cases, same_string_refl, inl, inr, Option-cases,
}
use rebuild.Table.{free, deleted, full}
use rebuild.Table.Rehash.{IsValid}
use rebuild.Set
use rebuild.Set.{Set, SetSlot}
use rebuild.Set.Bulk.{among, among-has}
use rebuild.Hash.{Hash, Blake2}
use rebuild.Hash.Tree.{Node, Qsort}
use rebuild.Recipe.{Recipe}
use rebuild.Trace.{trace_create, trace_add_dependency, trace_validate, current_hash}
use rebuild.Trace.Validate.{current_hash_iff, trace_validate_iff}
use rebuild.Scheduler.{AddDepsContext, add_dep_to_trace_callback, completed_trace}

module _ (b : Blake2) (q : Qsort) (fs : Bytes → Node) where
  -- What the iteration over these slots adds.
  recorded : List SetSlot → List (Bytes × Hash)
  recorded [] = []
  recorded (free ∷ es) = recorded es
  recorded (deleted _ ∷ es) = recorded es
  recorded (full k _ ∷ es) = elim (current_hash b q (fs k)) [
    | none ↦ recorded es
    | some h ↦ (k, h) ∷ recorded es
  ]

  recorded-none :
      (k : Bytes) (es : List SetSlot)
      → current_hash b q (fs k) ≡ none
      → recorded (full k tt ∷ es) ≡ recorded es
  unfolding recorded
  recorded-none k es e = rw (recorded, e) refl

  recorded-some :
      (k : Bytes) (h : Hash) (es : List SetSlot)
      → current_hash b q (fs k) ≡ some h
      → recorded (full k tt ∷ es) ≡ (k, h) ∷ recorded es
  unfolding recorded
  recorded-some k h es e = rw (recorded, e) refl

  iterate_next :
      (k : Bytes) (es : List SetSlot) (ctx : AddDepsContext) {ctx' : AddDepsContext}
      → add_dep_to_trace_callback b q fs k ctx ≡ (true, ctx')
      → Set.iterate_entries (add_dep_to_trace_callback b q fs) (full k tt ∷ es) ctx
        ≡ Set.iterate_entries (add_dep_to_trace_callback b q fs) es ctx'
  unfolding Set.iterate_entries
  iterate_next k es ctx e =
      ap
        (λ (r : Bool × AddDepsContext). elim r.0 [
          | true ↦ Set.iterate_entries (add_dep_to_trace_callback b q fs) es r.1
          | false ↦ r.1
        ])
        e

  iterated :
      (es : List SetSlot) (ctx : AddDepsContext)
      → (Set.iterate_entries (add_dep_to_trace_callback b q fs) es ctx).trace
        ≡ record ctx.trace { deps = ctx.trace.deps ++ recorded es }
  unfolding recorded Set.iterate_entries add_dep_to_trace_callback trace_add_dependency
  iterated [] ctx = λ i. record ctx.trace { deps = sym (append-nil ctx.trace.deps) i }
  iterated (free ∷ es) ctx = iterated es ctx
  iterated (deleted _ ∷ es) ctx = iterated es ctx
  iterated (full k _ ∷ es) ctx = elim (Option-cases (current_hash b q (fs k))) [
    | inl e ↦
        ap (λ c. c.trace) (iterate_next k es ctx (rw (add_dep_to_trace_callback, e) refl))
        ∙ iterated es ctx
        ∙ (λ i. record ctx.trace { deps = ctx.trace.deps ++ sym (recorded-none k es e) i })
    | inr (h, e) ↦
        let next : AddDepsContext = record {
          trace = trace_add_dependency ctx.trace k h;
          added_count = ctx.added_count + 1;
        } in
        ap (λ c. c.trace)
          (iterate_next k es ctx {ctx' = next} (rw (add_dep_to_trace_callback, e) refl))
        ∙ iterated es next
        ∙ (λ i. record ctx.trace {
          deps = append_assoc ctx.trace.deps ((k, h) ∷ []) (recorded es) i;
        })
        ∙ (λ i. record ctx.trace { deps = ctx.trace.deps ++ sym (recorded-some k h es e) i })
  ]

  -- A string of the slots whose hash this is.
  record IsRecorded (es : List SetSlot) (d : Bytes × Hash) : Type 0 where
    listed : among es d.0 ≡ true
    hashed : current_hash b q (fs d.0) ≡ some d.1

  recorded-IsRecorded :
      (es : List SetSlot) (d : Bytes × Hash) → In d (recorded es) → IsRecorded es d
  unfolding recorded among
  recorded-IsRecorded [] d h = elim h [ ]
  recorded-IsRecorded (free ∷ es) d h =
      let i = recorded-IsRecorded es d h in record { listed = i.listed; hashed = i.hashed }
  recorded-IsRecorded (deleted _ ∷ es) d h =
      let i = recorded-IsRecorded es d h in record { listed = i.listed; hashed = i.hashed }
  recorded-IsRecorded (full k _ ∷ es) d h = elim (Option-cases (current_hash b q (fs k))) [
    | inl e ↦ later (recorded-IsRecorded es d (subst (In d) (recorded-none k es e) h))
    | inr (v, e) ↦ elim (subst (In d) (recorded-some k v es e) h) [
      | here i ↦ record {
        listed = rw (ap (λ t. t.0) i, same_string_refl k) refl;
        hashed = ap (λ t. current_hash b q (fs t.0)) i ∙ e ∙ sym (ap (λ t. some t.1) i);
      }
      | there i ↦ later (recorded-IsRecorded es d i)
    ]
  ]
    where
      later : IsRecorded es d → IsRecorded (full k tt ∷ es) d
      later i = record { listed = ground (arith, i.listed); hashed = i.hashed }

  IsRecorded-recorded :
      (es : List SetSlot) (d : Bytes × Hash)
      → among es d.0 ≡ true
      → current_hash b q (fs d.0) ≡ some d.1
      → In d (recorded es)
  unfolding recorded among
  IsRecorded-recorded [] d h e = cc
  IsRecorded-recorded (free ∷ es) d h e = IsRecorded-recorded es d h e
  IsRecorded-recorded (deleted _ ∷ es) d h e = IsRecorded-recorded es d h e
  IsRecorded-recorded (full k _ ∷ es) d h e =
      let rest = IsRecorded-recorded es d in
      elim (Option-cases (current_hash b q (fs k))) [
        | inl f ↦ subst (In d) (sym (recorded-none k es f)) (elim (same_string_cases d.0 k) [
          | inl i ↦ cc (ap (λ t. current_hash b q (fs t)) i, e, f)
          | inr (n, i) ↦ rest (rw i at h) e
        ])
        | inr (v, f) ↦ subst (In d) (sym (recorded-some k v es f)) (elim (same_string_cases d.0 k) [
          | inl i ↦
              let same : v ≡ d.1 = cc (ap (λ t. current_hash b q (fs t)) i, e, f) in
              here (λ j. (i j, sym same j))
          | inr (n, i) ↦ there (rest (rw i at h) e)
        ])
      ]

  pub completed_trace_key :
      (r : Recipe) (elapsed_time : ℕ)
      → (completed_trace b q fs r elapsed_time).request_key ≡ r.request_key
  unfolding completed_trace Set.iterate trace_create
  completed_trace_key r elapsed_time = ap (λ t. t.request_key) (iterated r.declared_deps.entries _)

  -- The trace of a recipe that has run, with a well-formed set of dependencies, holds exactly the declared dependencies that can be hashed,
  -- with their hashes, and it is valid as long as nothing on the disk has changed.
  pub completed_trace-valid :
      (r : Recipe) (elapsed_time : ℕ)
      → IsValid r.declared_deps
      → (trace_validate b q fs (completed_trace b q fs r elapsed_time) ≡ true)
        × ((path : Bytes) (hash : Hash)
            → In (path, hash) (completed_trace b q fs r elapsed_time).deps
              ↔ ((Set.has r.declared_deps path ≡ true) × (current_hash b q (fs path) ≡ some hash)))
  unfolding completed_trace Set.iterate trace_create
  completed_trace-valid r elapsed_time inv =
      let es = r.declared_deps.entries in
      let found : (completed_trace b q fs r elapsed_time).deps ≡ recorded es =
        ap (λ t. t.deps) (iterated es _) in
      (
        (trace_validate_iff b q fs _).1 (λ d i.
            (current_hash_iff b q fs (fs d.0) d.1).0
              (recorded-IsRecorded es d (subst (In d) found i)).hashed),
        λ path hash. (
          (λ i.
              let h = recorded-IsRecorded es (path, hash) (subst (In (path, hash)) found i) in
              (sym (among-has r.declared_deps inv path) ∙ h.listed, h.hashed)),
          (λ h.
              subst (In (path, hash)) (sym found) (
                IsRecorded-recorded es (path, hash) (among-has r.declared_deps inv path ∙ h.0)
                  h.1)),
        ),
      )
