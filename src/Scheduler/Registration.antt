-- ===== src/Scheduler/Registration.antt =====
-- The targets that a function registers.
use mathlib.Core.Path.{subst}
use mathlib.Core.Option
use rebuild.Base.{ℕ, ◌≡◌, refl, ap, sym, ◌∙◌, List, Option, none, some, true}
use rebuild.Base.{false, inl, inr, Bytes, In, Bool-cases}
use rebuild.Base.{same_string_cases}
use rebuild.Bridge.{
  Answer, Script, finish, depend_on, sys, register_dep, glob, hash, depend_on_tree, log,
  register_target,
}
use rebuild.Map
use rebuild.Scheduler.Invariant.{IsRegistry}
use rebuild.Table.Rehash.{IsValid}
use rebuild.Target.{
  TargetRegistry, target_registry_get, target_registry_ffi_register, target_registry_register,
}
use rebuild.Target.Load.{target_registry_register-get, ffi_register_current}

-- Whatever answers it gets, the function registers only targets of these names.
unfoldable pub Registers : List Bytes → Script → Type 0
Registers names (finish success) = Unit {0}
Registers names (depend_on p k) = (x : Answer Bytes) → Registers names (k x)
Registers names (sys args k) = (x : Option ℕ) → Registers names (k x)
Registers names (register_dep p k) = Registers names k
Registers names (glob p k) = (x : Answer (List Bytes)) → Registers names (k x)
Registers names (hash p k) = (x : Answer Bytes) → Registers names (k x)
Registers names (depend_on_tree p k) = (x : Answer Bytes) → Registers names (k x)
Registers names (log p k) = Registers names k
Registers names (register_target none f k) = Registers names k
Registers names (register_target (some name) f k) = In name names × Registers names k

module _ {Umka : Type 0} where
  pub ffi_register-IsRegistry :
      (names : List Bytes) (g : TargetRegistry Umka) (name f : Bytes)
      → IsRegistry names (some g)
      → In name names
      → (g' : TargetRegistry Umka) × (target_registry_ffi_register g name f ≡ some g')
        × IsRegistry names (some g')
  unfolding target_registry_ffi_register target_registry_get
  ffi_register-IsRegistry names g name f inv mem = elim (Bool-cases g.current) [
    | inr e ↦ (
      g,
      ap
          (λ c. elim c [
            | false ↦ some g
            | true ↦ Option.map (λ t. t.1) (target_registry_register g name f g.umka)
          ])
          e,
      inv,
    )
    | inl e ↦
        let (m, run, valid, reads) =
          target_registry_register-get g name f g.umka (inv.targets_valid g refl) in
        let g' = record g { targets = m } in
        (
          g',
          ffi_register_current g name f e run,
          record {
            targets_valid =
                λ o h. let same : g' ≡ o = cc in subst (λ x. IsValid x.targets) same valid;
            within = λ o p t h found.
                let same : g' ≡ o = cc in
                let found' : Map.get m p ≡ some t = ap (λ x. Map.get x.targets p) same ∙ found in
                elim (same_string_cases p name) [
                  | inl i ↦ subst (λ x. In x names) (sym i) mem
                  | inr (n, i) ↦ inv.within g p t refl (sym (reads p ∙ rw i refl) ∙ found')
                ];
          },
        )
  ]
