-- ===== src/Trace/Validate.antt =====
-- `trace_validate`: a trace is valid exactly if every dependency still hashes to what was recorded.
use mathlib.Core.Path.{subst}
use rebuild.Base.{◌≡◌, ◌↔◌, refl, ap, List, [], ◌∷◌, some, true, false, Bytes}
use rebuild.Base.{
  In, here, there, sym, ◌∙◌, same_string_sound, same_string_refl, inl, inr, Bool-cases,
}
use rebuild.Base.{Option-cases}
use rebuild.Hash.{Hash, Blake2, hash_equal, hash_file}
use rebuild.Hash.Tree.{Node, missing, file, dir, closed_dir, special, Qsort, hash_tree}
use rebuild.Trace.{Trace, current_hash, validate_deps, trace_validate}

hash_equal_iff : (a b : Hash) → (hash_equal a b ≡ true) ↔ (a ≡ b)
unfolding hash_equal
hash_equal_iff a b = (same_string_sound a b, λ e. rw e (same_string_refl b))

module _ (b : Blake2) (q : Qsort) (fs : Bytes → Node) where
  -- What hashes to this: a file that is read without an error, or a directory that is. Nothing else
  -- does.
  abbrev pub HashesTo : Node → Hash → Type 0
  HashesTo missing hash = ⊥
  HashesTo (file f) hash = hash_file b f ≡ some hash
  HashesTo (dir es) hash = hash_tree b q (dir es) ≡ some hash
  HashesTo closed_dir hash = ⊥
  HashesTo special hash = ⊥

  -- The dependency stands at its path with the recorded hash.
  abbrev pub IsCurrent : Bytes × Hash → Type 0
  IsCurrent (path, hash) = HashesTo (fs path) hash

  pub current_hash_iff :
      (n : Node) (hash : Hash) → (current_hash b q n ≡ some hash) ↔ HashesTo n hash
  unfolding current_hash hash_tree
  current_hash_iff missing hash = (λ h. cc, λ h. absurd h)
  current_hash_iff (file f) hash = (λ h. h, λ h. h)
  current_hash_iff (dir es) hash = (λ h. h, λ h. h)
  current_hash_iff closed_dir hash = (λ h. cc, λ h. absurd h)
  current_hash_iff special hash = (λ h. cc, λ h. absurd h)

  validate_deps-split :
      (path : Bytes) (hash : Hash) (deps : List (Bytes × Hash))
      → validate_deps b q fs ((path, hash) ∷ deps) ≡ true
      → (current_hash b q (fs path) ≡ some hash) × (validate_deps b q fs deps ≡ true)
  unfolding validate_deps
  validate_deps-split path hash deps h = elim (Option-cases (current_hash b q (fs path))) [
    | inl e ↦
        let stop : validate_deps b q fs ((path, hash) ∷ deps) ≡ false = rw (validate_deps, e) in
        cc (stop, h)
    | inr (actual, e) ↦ elim (Bool-cases (hash_equal actual hash)) [
      | inl same ↦
          let go : validate_deps b q fs ((path, hash) ∷ deps) ≡ validate_deps b q fs deps =
            rw (validate_deps, e, same) in
          (e ∙ ap some ((hash_equal_iff actual hash).0 same), sym go ∙ h)
      | inr other ↦
          let stop : validate_deps b q fs ((path, hash) ∷ deps) ≡ false =
            rw (validate_deps, e, other) in
          cc (stop, h)
    ]
  ]

  validate_deps_sound :
      (deps : List (Bytes × Hash))
      → validate_deps b q fs deps ≡ true
      → (d : Bytes × Hash) → In d deps
      → IsCurrent d
  unfolding validate_deps
  validate_deps_sound [] h d i = elim i [ ]
  validate_deps_sound ((path, hash) ∷ deps) h d (here e) =
      subst IsCurrent (sym e)
        ((current_hash_iff (fs path) hash).0 (validate_deps-split path hash deps h).0)
  validate_deps_sound ((path, hash) ∷ deps) h d (there i) =
      validate_deps_sound deps (validate_deps-split path hash deps h).1 d i

  validate_deps_complete :
      (deps : List (Bytes × Hash))
      → ((d : Bytes × Hash) → In d deps → IsCurrent d)
      → validate_deps b q fs deps ≡ true
  unfolding validate_deps
  validate_deps_complete [] h = refl
  validate_deps_complete ((path, hash) ∷ deps) h =
      let same = (current_hash_iff (fs path) hash).1 (h (path, hash) (here refl)) in
      rw (validate_deps, same, (hash_equal_iff hash hash).1 refl)
        (validate_deps_complete deps (λ d i. h d (there i)))

  -- `trace_validate` returns true exactly if at each recorded path stands a regular file that
  -- `hash_file` hashes to the recorded hash, or a directory that `hash_tree` hashes to it. A path where
  -- nothing stands, a directory that cannot be opened and what is neither make it false.
  pub trace_validate_iff :
      (t : Trace)
      → (trace_validate b q fs t ≡ true) ↔ ((d : Bytes × Hash) → In d t.deps → IsCurrent d)
  unfolding trace_validate
  trace_validate_iff t = (validate_deps_sound t.deps, validate_deps_complete t.deps)
