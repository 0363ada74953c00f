-- ===== src/Scheduler/Calls.antt =====
-- What a call of a recipe's function keeps of the scheduler's state.
use mathlib.Core.Path.{subst}
use rebuild.Base.{ℕ, ◌≡◌, refl, ◌∙◌, List, [], ◌∷◌, Option, none, some, Bool}
use rebuild.Base.{inl, inr, Bytes, Option-cases}
use rebuild.Base.{ok}
use rebuild.Bridge.{
  Answer, null, value, Script, finish, depend_on, sys, register_dep, glob, hash, depend_on_tree,
  log, register_target,
}
use rebuild.Bridge.Foreign.{
  umka_ffi_rebuild_depend_on, umka_ffi_rebuild_sys, add_dependency, umka_ffi_rebuild_register_dep,
}
use rebuild.Scheduler.{scheduler_get_completed}
use rebuild.Bridge.Foreign.{
  str_or_null, in_context-some, add_tree, umka_ffi_rebuild_depend_on_tree, umka_call,
}
use rebuild.Bridge.Foreign.{
  umka_ffi_rebuild_register_target, umka_ffi_rebuild_glob, umka_ffi_rebuild_hash_file,
}
use rebuild.Hash.{Blake2}
use rebuild.Hash.Tree.{Qsort, hash_tree}
use rebuild.Scheduler.Host.{Host}
use rebuild.Scheduler.Invariant.{IsRegistry, IsScheduler, IsRunning, IsLater-IsRunning}
use rebuild.Scheduler.Pipes.{answered, IsHost, scheduler_execute_sys-answered}
use rebuild.Scheduler.Requests.{declare-IsNext, scheduler_on_depend_request-IsNext}
use rebuild.Scheduler.State.{Scheduler, write_recipe}
use rebuild.Scheduler.Waiters.{IsNext, IsNext-trans, IsNext-refl}
use rebuild.Scheduler.Registration.{Registers, ffi_register-IsRegistry}

module _ {Umka : Type 0} (b : Blake2) (q : Qsort) (h : Host) (Ex : ℕ → Type 0)
    (names : List Bytes) where
  -- The invariant, for the recipe of the context.
  pub record IsCalling (s : Scheduler Umka h.os.Disk) (a : ℕ) : Type 0 where
    pub sched : IsScheduler Ex names s
    pub context_is : s.context ≡ some a
    pub running : IsRunning s a

  IsNext-IsCalling :
      (s s' : Scheduler Umka h.os.Disk) (a : ℕ)
      → IsNext Ex names s s'
      → IsCalling s a
      → IsCalling s' a
  IsNext-IsCalling s s' a n c = record {
    sched = n.sched;
    context_is = n.later.same_context ∙ c.context_is;
    running = IsLater-IsRunning s s' a n.later c.running;
  }

  -- A request is answered by the path of a completed target, and by NULL otherwise.
  pub depend_on_answer :
      (s : Scheduler Umka h.os.Disk) (a : ℕ) (p : Bytes)
      → IsCalling s a
      → (s' : Scheduler Umka h.os.Disk) × (umka_ffi_rebuild_depend_on b q h (some p) s
          ≡ some (str_or_null (scheduler_get_completed s.completed p), s'))
        × IsNext Ex names s s'
  unfolding umka_ffi_rebuild_depend_on
  depend_on_answer s a p c =
      let (s', run, n, dep, d, at, name) =
        scheduler_on_depend_request-IsNext Ex names s a p c.sched c.running in
      (s', in_context-some _ _ c.context_is ∙ rw run refl, n)

  depend_on_lem :
      (s : Scheduler Umka h.os.Disk) (a : ℕ) (p : Option Bytes)
      → IsCalling s a
      → (x : Answer Bytes) × (s' : Scheduler Umka h.os.Disk) × (umka_ffi_rebuild_depend_on b q h p s
          ≡ some (x, s'))
        × IsNext Ex names s s'
  unfolding umka_ffi_rebuild_depend_on
  depend_on_lem s a none c = (_, s, refl, IsNext-refl Ex names s c.sched)
  depend_on_lem s a (some p) c =
      let (s', run, n) = depend_on_answer s a p c in
      (str_or_null (scheduler_get_completed s.completed p), s', run, n)

  with_disk :
      (s : Scheduler Umka h.os.Disk) (d : h.os.Disk)
      → IsScheduler Ex names s
      → IsNext Ex names s (record s { disk = d })
  with_disk s d inv = record {
    sched = record {
      recipes_ok = inv.recipes_ok;
      waiting_ok = inv.waiting_ok;
      queued = inv.queued;
      settled = inv.settled;
      registry_ok = inv.registry_ok;
    };
    later = record {
      kept = λ c r at. (r, at, refl);
      same_completed = refl;
      same_failed = refl;
      same_context = refl;
    };
  }

  add_dependency_lem :
      (s : Scheduler Umka h.os.Disk) (a : ℕ) (p : Bytes)
      → IsCalling s a
      → (s' : Scheduler Umka h.os.Disk) × (add_dependency b q h a p s ≡ some (ok, s'))
        × IsNext Ex names s s'
  unfolding add_dependency
  add_dependency_lem s a p c =
      let (r, at, unmade) = c.running in
      let (r', run, has, n) = declare-IsNext Ex names s a r p c.sched at in
      (write_recipe s a r', rw (at, run) refl, n)

  register_dep_lem :
      (s : Scheduler Umka h.os.Disk) (a : ℕ) (p : Option Bytes)
      → IsCalling s a
      → (s' : Scheduler Umka h.os.Disk) × (umka_ffi_rebuild_register_dep b q h p s ≡ some s')
        × IsNext Ex names s s'
  unfolding umka_ffi_rebuild_register_dep
  register_dep_lem s a none c = (s, refl, IsNext-refl Ex names s c.sched)
  register_dep_lem s a (some p) c =
      let (s', run, n) = add_dependency_lem s a p c in
      (s', in_context-some _ _ c.context_is ∙ rw run refl, n)

  depend_on_tree_lem :
      (s : Scheduler Umka h.os.Disk) (a : ℕ) (p : Option Bytes)
      → IsCalling s a
      → (x : Answer Bytes) × (s' : Scheduler Umka h.os.Disk) × (umka_ffi_rebuild_depend_on_tree b q
            h p s
          ≡ some (x, s'))
        × IsNext Ex names s s'
  unfolding umka_ffi_rebuild_depend_on_tree add_tree
  depend_on_tree_lem s a none c = (_, s, refl, IsNext-refl Ex names s c.sched)
  depend_on_tree_lem s a (some p) c = elim (Option-cases (hash_tree b q (h.node s.disk p))) [
    | inl e ↦ (
      null,
      s,
      in_context-some _ _ c.context_is ∙ rw (add_tree, e) refl,
      IsNext-refl Ex names s c.sched,
    )
    | inr (v, e) ↦
        let (s', run, n) = add_dependency_lem s a p c in
        (value p, s', in_context-some _ _ c.context_is ∙ rw (add_tree, e, run) refl, n)
  ]

  register_target_lem :
      (s : Scheduler Umka h.os.Disk) (a : ℕ) (p f : Option Bytes) (k : Script)
      → IsCalling s a
      → Registers names (register_target p f k)
      → (s' : Scheduler Umka h.os.Disk) × (umka_ffi_rebuild_register_target b q h p f s ≡ some s')
        × IsNext Ex names s s'
        × Registers names k
  unfolding umka_ffi_rebuild_register_target Registers
  register_target_lem s a none f k c w = (s, refl, IsNext-refl Ex names s c.sched, w)
  register_target_lem s a (some p) none k c w = (s, refl, IsNext-refl Ex names s c.sched, w.1)
  register_target_lem s a (some p) (some f) k c w = elim (Option-cases s.registry) [
    | inl e ↦ (s, rw e refl, IsNext-refl Ex names s c.sched, w.1)
    | inr (g, e) ↦
        let (g', run, ok') =
          ffi_register-IsRegistry names g p f (subst (IsRegistry names) e c.sched.registry_ok)
            w.0 in
        (
          record s { registry = some g' },
          rw (e, run) refl,
          record {
            sched = record {
              recipes_ok = c.sched.recipes_ok;
              waiting_ok = c.sched.waiting_ok;
              queued = c.sched.queued;
              settled = c.sched.settled;
              registry_ok = ok';
            };
            later = record {
              kept = λ o r at. (r, at, refl);
              same_completed = refl;
              same_failed = refl;
              same_context = refl;
            };
          },
          w.1,
        )
  ]

  -- The step of one foreign function, and the rest of the call.
  then_rest :
      (s s₁ s' : Scheduler Umka h.os.Disk)
      → IsNext Ex names s s₁
      → IsNext Ex names s₁ s'
      → IsNext Ex names s s'
  then_rest s s₁ s' = IsNext-trans Ex names s s₁ s'

  module _ ⦃hosted : IsHost h⦄ where
    sys_lem :
        (s : Scheduler Umka h.os.Disk) (a : ℕ) (args : List Bytes)
        → IsCalling s a
        → (x : Option ℕ) × (s' : Scheduler Umka h.os.Disk) × (umka_ffi_rebuild_sys b q h args s
            ≡ some (x, s'))
          × IsNext Ex names s s'
    unfolding umka_ffi_rebuild_sys
    sys_lem s a [] c = (none, s, in_context-some _ _ c.context_is, IsNext-refl Ex names s c.sched)
    sys_lem s a (arg ∷ args) c =
        let (r, at, unmade) = c.running in
        let child = h.spawn s.disk r.temp_dir (arg ∷ args) in
        let fine = hosted.unblocked s.disk r.temp_dir (arg ∷ args) in
        (
          (answered child.0).0,
          record s { disk = child.1 },
          in_context-some _ _ c.context_is
              ∙ rw (scheduler_execute_sys-answered h s a r arg args at fine) refl,
          with_disk s child.1 c.sched,
        )

    -- A call of the function of the recipe that runs never faults or blocks, whatever its foreign functions
    -- answer, and it keeps the invariant.
    pub umka_call-IsNext :
        (script : Script) (s : Scheduler Umka h.os.Disk) (a : ℕ)
        → IsCalling s a
        → Registers names script
        → (success : Bool) × (s' : Scheduler Umka h.os.Disk) × (umka_call b q h script s
            ≡ some (success, s'))
          × IsNext Ex names s s'
    unfolding umka_call Registers
    umka_call-IsNext (finish success) s a c w = (success, s, refl, IsNext-refl Ex names s c.sched)
    umka_call-IsNext (depend_on p k) s a c w =
        let (x, s₁, run, n) = depend_on_lem s a p c in
        let (v, s', run', n') = umka_call-IsNext (k x) s₁ a (IsNext-IsCalling s s₁ a n c) (w x) in
        (v, s', rw (umka_call, run) run', then_rest s s₁ s' n n')
    umka_call-IsNext (sys args k) s a c w =
        let (x, s₁, run, n) = sys_lem s a args c in
        let (v, s', run', n') = umka_call-IsNext (k x) s₁ a (IsNext-IsCalling s s₁ a n c) (w x) in
        (v, s', rw (umka_call, run) run', then_rest s s₁ s' n n')
    umka_call-IsNext (register_dep p k) s a c w =
        let (s₁, run, n) = register_dep_lem s a p c in
        let (v, s', run', n') = umka_call-IsNext k s₁ a (IsNext-IsCalling s s₁ a n c) w in
        (v, s', rw (umka_call, run) run', then_rest s s₁ s' n n')
    umka_call-IsNext (glob p k) s a c w =
        umka_call-IsNext (k (umka_ffi_rebuild_glob b q h p s)) s a c
          (w (umka_ffi_rebuild_glob b q h p s))
    umka_call-IsNext (hash p k) s a c w =
        umka_call-IsNext (k (umka_ffi_rebuild_hash_file b q h p s)) s a c
          (w (umka_ffi_rebuild_hash_file b q h p s))
    umka_call-IsNext (depend_on_tree p k) s a c w =
        let (x, s₁, run, n) = depend_on_tree_lem s a p c in
        let (v, s', run', n') = umka_call-IsNext (k x) s₁ a (IsNext-IsCalling s s₁ a n c) (w x) in
        (v, s', rw (umka_call, run) run', then_rest s s₁ s' n n')
    umka_call-IsNext (log p k) s a c w = umka_call-IsNext k s a c w
    umka_call-IsNext (register_target p f k) s a c w =
        let (s₁, run, n, w') = register_target_lem s a p f k c w in
        let (v, s', run', n') = umka_call-IsNext k s₁ a (IsNext-IsCalling s s₁ a n c) w' in
        (v, s', rw (umka_call, run) run', then_rest s s₁ s' n n')
