-- ===== src/Bridge/Outside.antt =====
-- A function that runs without a context, as `register_targets` does.
use mathlib.Core.Path.{subst}
use rebuild.Base.{ℕ, ◌≡◌, refl, ap, List, Option, none, some, Bool}
use rebuild.Base.{inl, inr, Bytes, ◌>>=◌, Option-cases}
use rebuild.Bridge.{Script, finish, depend_on, sys, register_dep, glob, hash, depend_on_tree}
use rebuild.Bridge.{log, register_target, unwritten, null}
use rebuild.Bridge.Foreign.{
  in_context, umka_ffi_rebuild_depend_on, umka_ffi_rebuild_sys, umka_ffi_rebuild_register_dep,
}
use rebuild.Bridge.Foreign.{
  umka_ffi_rebuild_depend_on_tree, umka_ffi_rebuild_register_target, umka_call,
}
use rebuild.Bridge.Foreign.{umka_ffi_rebuild_glob, umka_ffi_rebuild_hash_file}
use rebuild.Hash.{Blake2}
use rebuild.Hash.Tree.{Qsort}
use rebuild.Scheduler.Registration.{Registers, ffi_register-IsRegistry}
use rebuild.Scheduler.Host.{Host}
use rebuild.Scheduler.Invariant.{IsRegistry}
use rebuild.Scheduler.State.{Scheduler}
use rebuild.Target.{TargetRegistry}
use rebuild.Target.{target_registry_ffi_register}

outside :
    {B : Type 0} {context : Option ℕ} (without : B) (k : ℕ → B)
    → context ≡ none
    → in_context context without k ≡ without
unfolding in_context
outside without k e = ap (λ c. in_context c without k) e

module _ {Umka : Type 0} (b : Blake2) (q : Qsort) (h : Host) where
  depend_on_outside :
      (p : Option Bytes) (s : Scheduler Umka h.os.Disk)
      → s.context ≡ none
      → umka_ffi_rebuild_depend_on b q h p s ≡ some (unwritten, s)
  unfolding umka_ffi_rebuild_depend_on
  depend_on_outside none s c = refl
  depend_on_outside (some p) s c = outside _ _ c

  sys_outside :
      (args : List Bytes) (s : Scheduler Umka h.os.Disk)
      → s.context ≡ none
      → umka_ffi_rebuild_sys b q h args s ≡ some (none, s)
  unfolding umka_ffi_rebuild_sys
  sys_outside args s c = outside _ _ c

  register_dep_outside :
      (p : Option Bytes) (s : Scheduler Umka h.os.Disk)
      → s.context ≡ none
      → umka_ffi_rebuild_register_dep b q h p s ≡ some s
  unfolding umka_ffi_rebuild_register_dep
  register_dep_outside none s c = refl
  register_dep_outside (some p) s c = outside _ _ c

  depend_on_tree_outside :
      (p : Option Bytes) (s : Scheduler Umka h.os.Disk)
      → s.context ≡ none
      → umka_ffi_rebuild_depend_on_tree b q h p s ≡ some (null, s)
  unfolding umka_ffi_rebuild_depend_on_tree
  depend_on_tree_outside none s c = refl
  depend_on_tree_outside (some p) s c = outside _ _ c

  without_registry :
      (p f : Bytes) (s : Scheduler Umka h.os.Disk)
      → s.registry ≡ none
      → umka_ffi_rebuild_register_target b q h (some p) (some f) s ≡ some s
  unfolding umka_ffi_rebuild_register_target
  without_registry p f s e =
      ap
        (λ o. elim o [
          | none ↦ some s
          | some registry ↦ target_registry_ffi_register registry p f >>= λ r.
              some (record s { registry = some r })
        ])
        e

  register_target_outside :
      (names : List Bytes) (p f : Option Bytes) (k : Script) (s : Scheduler Umka h.os.Disk)
      → IsRegistry names s.registry
      → Registers names (register_target p f k)
      → (g : Option (TargetRegistry Umka)) × (umka_ffi_rebuild_register_target b q h p f s
          ≡ some (record s { registry = g }))
        × IsRegistry names g
        × Registers names k
  unfolding umka_ffi_rebuild_register_target Registers
  register_target_outside names none f k s inv w = (s.registry, refl, inv, w)
  register_target_outside names (some p) none k s inv w = (s.registry, refl, inv, w.1)
  register_target_outside names (some p) (some f) k s inv w = elim (Option-cases s.registry) [
    | inl e ↦ (s.registry, without_registry p f s e, inv, w.1)
    | inr (g, e) ↦
        let (g', run, inv') =
          ffi_register-IsRegistry names g p f (subst (IsRegistry names) e inv) w.0 in
        (some g', rw (e, run) refl, inv', w.1)
  ]

  -- Without a context a function that registers targets of these names only changes the registry,
  -- and it does not fault.
  pub umka_call_outside :
      (names : List Bytes) (script : Script) (s : Scheduler Umka h.os.Disk)
      → s.context ≡ none
      → IsRegistry names s.registry
      → Registers names script
      → (success : Bool) × (g : Option (TargetRegistry Umka)) × (umka_call b q h script s
          ≡ some (success, record s { registry = g }))
        × IsRegistry names g
  unfolding umka_call Registers
  umka_call_outside names (finish success) s c inv w = (success, s.registry, refl, inv)
  umka_call_outside names (depend_on p k) s c inv w =
      let (v, g, run, inv') = umka_call_outside names (k unwritten) s c inv (w unwritten) in
      (v, g, rw (umka_call, depend_on_outside p s c) run, inv')
  umka_call_outside names (sys args k) s c inv w =
      let (v, g, run, inv') = umka_call_outside names (k none) s c inv (w none) in
      (v, g, rw (umka_call, sys_outside args s c) run, inv')
  umka_call_outside names (register_dep p k) s c inv w =
      let (v, g, run, inv') = umka_call_outside names k s c inv w in
      (v, g, rw (umka_call, register_dep_outside p s c) run, inv')
  umka_call_outside names (glob p k) s c inv w =
      umka_call_outside names (k (umka_ffi_rebuild_glob b q h p s)) s c inv
        (w (umka_ffi_rebuild_glob b q h p s))
  umka_call_outside names (hash p k) s c inv w =
      umka_call_outside names (k (umka_ffi_rebuild_hash_file b q h p s)) s c inv
        (w (umka_ffi_rebuild_hash_file b q h p s))
  umka_call_outside names (depend_on_tree p k) s c inv w =
      let (v, g, run, inv') = umka_call_outside names (k null) s c inv (w null) in
      (v, g, rw (umka_call, depend_on_tree_outside p s c) run, inv')
  umka_call_outside names (log p k) s c inv w = umka_call_outside names k s c inv w
  umka_call_outside names (register_target p f k) s c inv w =
      let (g₁, run₁, inv₁, w₁) = register_target_outside names p f k s inv w in
      let (v, g, run, inv') = umka_call_outside names k (record s { registry = g₁ }) c inv₁ w₁ in
      (v, g, rw (umka_call, run₁) run, inv')
