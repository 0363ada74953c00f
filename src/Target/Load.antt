-- ===== src/Target/Load.antt =====
-- Registering targets, one at a time and by loading a BUILD.um file.
use mathlib.Core.Option
use rebuild.Base.{
  ◌≡◌, refl, ap, List, [], ◌∷◌, Option, none, some, Bool, true, false, Bytes, same_string,
}
use rebuild.Base.{
  same_string_refl, same_string_cases, if◌then◌else◌, Bool-cases, inl, inr, sym, ◌∙◌,
}
use rebuild.Base.{ok, error_exec, Option-cases}
use rebuild.Map
use rebuild.Map.{Map}
use rebuild.Map.Writes.{set-IsWrite, remove-IsWrite}
use rebuild.Table.Rehash.{IsValid}
use rebuild.Target.{Target, TargetRegistry, runs, target_registry_has, target_registry_get}
use rebuild.Target.{without_old, target_registry_register, target_registry_ffi_register, run_calls}
use rebuild.Target.{target_registry_load_build_file}

-- The function name in the last call for this target.
abbrev pub last_call : List (Bytes × Bytes) → Bytes → Option Bytes
last_call [] q = none
last_call ((name, function_name) ∷ calls) q = elim (last_call calls q) [
  | some later ↦ some later
  | none ↦ if same_string q name then some function_name else none
]

module _ {Script : Type 0} where
  IsOthers : TargetRegistry Script → Bytes → Map (Target Script) → Type 0
  IsOthers r name m =
      IsValid m × ((q : Bytes) → same_string q name ≡ false → Map.get m q ≡ Map.get r.targets q)

  without_old-IsOthers :
      (r : TargetRegistry Script) (name : Bytes)
      → IsValid r.targets
      → IsOthers r name (without_old r name)
  unfolding without_old IsOthers
  without_old-IsOthers r name inv = elim (Bool-cases (target_registry_has r name)) [
    | inr e ↦ rw (without_old, e) (inv, λ q h. refl)
    | inl e ↦
        let (old, w) = remove-IsWrite r.targets name inv in
        rw (without_old, e) (w.valid, λ q h. w.reads q ∙ rw h refl)
  ]

  -- `target_registry_register` with a well-formed map of targets returns REBUILD_OK. Afterwards the target of that name is the new
  -- one, whether or not there was an old one, every other lookup is unchanged, and the map of
  -- targets is well formed again.
  pub target_registry_register-get :
      (r : TargetRegistry Script) (name function_name : Bytes) (script : Script)
      → IsValid r.targets
      → (m : Map (Target Script)) × (target_registry_register r name function_name script
          ≡ some (ok, record r { targets = m }))
        × IsValid m
        × ((q : Bytes)
            → Map.get m q ≡ (
                if same_string q name
                then some
                    (record { name = name; function_name = function_name; umka_script = script })
                else target_registry_get r q))
  unfolding target_registry_register target_registry_get IsOthers
  target_registry_register-get r name function_name script inv =
      let (valid, same) = without_old-IsOthers r name inv in
      let new : Target Script = record {
        name = name;
        function_name = function_name;
        umka_script = script;
      } in
      let (m, run, w) = set-IsWrite (without_old r name) name new valid in
      (
        m,
        rw run refl,
        w.valid,
        λ q. elim (Bool-cases (same_string q name)) [
          | inl e ↦ w.reads q ∙ rw e refl
          | inr e ↦ w.reads q ∙ rw e (same q e)
        ],
      )

  -- The target that the calls leave under a name.
  abbrev pub after_calls :
      Script → List (Bytes × Bytes) → Bytes → Option (Target Script) → Option (Target Script)
  after_calls script calls q old = elim (last_call calls q) [
    | some f ↦ some (record { name = q; function_name = f; umka_script = script })
    | none ↦ old
  ]

  after_calls_step :
      (script : Script) (name f : Bytes) (calls : List (Bytes × Bytes)) (q : Bytes)
      (old : Option (Target Script))
      → after_calls script calls q (
          if same_string q name
          then some (record { name = name; function_name = f; umka_script = script })
          else old)
        ≡ after_calls script ((name, f) ∷ calls) q old
  after_calls_step script name f calls q old = elim (Option-cases (last_call calls q)) [
    | inr (later, e) ↦ rw (after_calls, last_call, e) refl
    | inl e ↦ elim (same_string_cases q name) [
      | inl h ↦
          let same : same_string q name ≡ true = rw h (same_string_refl name) in
          rw (after_calls, last_call, e, same)
            (λ i. some (record { name = sym h i; function_name = f; umka_script = script }))
      | inr (n, h) ↦ rw (after_calls, last_call, e, h) refl
    ]
  ]

  -- With the global set, the FFI function registers.
  pub ffi_register_current :
      (r : TargetRegistry Script) (name f : Bytes) {r' : TargetRegistry Script}
      → r.current ≡ true
      → target_registry_register r name f r.umka ≡ some (ok, r')
      → target_registry_ffi_register r name f ≡ some r'
  unfolding target_registry_ffi_register
  ffi_register_current r name f on run = rw (target_registry_ffi_register, on, run) refl

  run_calls_lem :
      (calls : List (Bytes × Bytes)) (r : TargetRegistry Script)
      → IsValid r.targets
      → r.current ≡ true
      → (m : Map (Target Script)) × (run_calls calls r ≡ some (record r { targets = m }))
        × IsValid m
        × ((q : Bytes) → Map.get m q ≡ after_calls r.umka calls q (target_registry_get r q))
  unfolding run_calls Option.bind target_registry_get
  run_calls_lem [] r inv on = (r.targets, refl, inv, λ q. refl)
  run_calls_lem ((name, f) ∷ calls) r inv on =
      let (m, run, valid, reads) = target_registry_register-get r name f r.umka inv in
      let (m', run', valid', reads') = run_calls_lem calls (record r { targets = m }) valid on in
      (
        m',
        rw (run_calls, ffi_register_current r name f on run) run',
        valid',
        λ q.
            reads' q
            ∙ ap (after_calls r.umka calls q) (reads q)
            ∙ after_calls_step r.umka name f calls q (Map.get r.targets q),
      )

  -- Loading a BUILD.um file, with a well-formed map of targets, whose run makes some calls registers them all with the registry's own
  -- instance of the interpreter: under each name stands the target of the last call for it, and a
  -- name without a call keeps its target. The error says whether the run failed, and the global
  -- pointer is restored.
  pub target_registry_load_build_file-get :
      (r : TargetRegistry Script) (calls : List (Bytes × Bytes)) (failed : Bool)
      → IsValid r.targets
      → (m : Map (Target Script)) × (target_registry_load_build_file r (runs calls failed)
          ≡ some ((if failed then error_exec else ok), record r { targets = m }))
        × IsValid m
        × ((q : Bytes) → Map.get m q ≡ after_calls r.umka calls q (target_registry_get r q))
  unfolding target_registry_load_build_file target_registry_get
  target_registry_load_build_file-get r calls failed inv =
      let (m, run, valid, reads) = run_calls_lem calls (record r { current = true }) inv refl in
      (m, rw run refl, valid, reads)
