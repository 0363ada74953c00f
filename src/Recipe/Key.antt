-- ===== src/Recipe/Key.antt =====
-- What the request key of a recipe depends on.
use mathlib.Core.List.{
  Perm, Permᴰ, Mem, Nodup, Nodup-cons, not-mem-nil, mem-cons_self, mem-cons_of_mem,
  eq-or-mem_of_mem-cons, perm_ext_iff_of_Nodup,
}
use mathlib.Core.List.Pairwise
use mathlib.Core.Logic.{∥∥₁_elim}
use rebuild.Base.{suc, ◌≡◌, refl, ap, arith, List, [], ◌∷◌, ◌++◌, Bool, true, false, Bytes}
use rebuild.Base.{sym, ◌∙◌, same_string_cases, same_string_refl, inl, inr}
use mathlib.Core.List.{append_assoc, append-nil}
use rebuild.Table.{free, deleted, full}
use rebuild.Table.Rehash.{IsValid, IsOnce, IsOnce-tail}
use rebuild.Set
use rebuild.Set.{Set, SetSlot}
use rebuild.Set.Bulk.{among, among-Has, among-has}
use rebuild.Hash.{Hash, Blake2, hash_data, hash_combine, zero_hash}
use rebuild.Base.{length, replicate}
use rebuild.Hash.Combine.{hash_combine_swap, hash_combine_self}
use rebuild.Recipe.{
  Recipe, DepsArray, collect_dep_callback, StringSort, IsStringSort, combine_strings,
}
use rebuild.Recipe.{recipe_compute_request_key}

-- The strings of the full slots, in the order of the array.
keys : List SetSlot → List Bytes
keys [] = []
keys (free ∷ es) = keys es
keys (deleted _ ∷ es) = keys es
keys (full k _ ∷ es) = k ∷ keys es

Bool-set : IsSet Bool
Bool-set = hlevel

Mem-among : (es : List SetSlot) (q : Bytes) → Mem q (keys es) → among es q ≡ true
unfolding keys among
Mem-among [] q m = absurd (not-mem-nil m)
Mem-among (free ∷ es) q m = Mem-among es q m
Mem-among (deleted _ ∷ es) q m = Mem-among es q m
Mem-among (full k _ ∷ es) q m = ∥∥₁_elim (eq-or-mem_of_mem-cons m) (Bool-set _ _) (λ c. elim c [
  | inl e ↦ rw (e, same_string_refl k) refl
  | inr t ↦ let rest = Mem-among es q t in ground arith
])

among-Mem : (es : List SetSlot) (q : Bytes) → among es q ≡ true → Mem q (keys es)
unfolding keys among
among-Mem [] q h = cc
among-Mem (free ∷ es) q h = among-Mem es q h
among-Mem (deleted _ ∷ es) q h = among-Mem es q h
among-Mem (full k _ ∷ es) q h =
    let rest = among-Mem es q in
    elim (same_string_cases q k) [
      | inl e ↦ rw e mem-cons_self
      | inr (n, f) ↦ mem-cons_of_mem k (rest (rw f at h))
    ]

keys-Nodup : (es : List SetSlot) → IsOnce es → Nodup (keys es)
unfolding keys
keys-Nodup [] once = Pairwise.nil
keys-Nodup (free ∷ es) once = keys-Nodup es (IsOnce-tail free es once)
keys-Nodup (deleted d ∷ es) once = keys-Nodup es (IsOnce-tail (deleted d) es once)
keys-Nodup (full k _ ∷ es) once = Nodup-cons.1 (
  (λ m.
      let at = among-Has es k (Mem-among es k m) in
      absurd (omega (arith, once 0 (suc at.0) k tt tt refl at.1))),
  keys-Nodup es (IsOnce-tail (full k tt) es once),
)

collected :
    (es : List SetSlot) (arr : DepsArray)
    → (Set.iterate_entries collect_dep_callback es arr).deps ≡ arr.deps ++ keys es
unfolding keys Set.iterate_entries collect_dep_callback
collected [] arr = sym (append-nil arr.deps)
collected (free ∷ es) arr = collected es arr
collected (deleted _ ∷ es) arr = collected es arr
collected (full k _ ∷ es) arr = collected es _ ∙ append_assoc arr.deps (k ∷ []) (keys es)

keys_none : (es : List SetSlot) → ((q : Bytes) → among es q ≡ false) → keys es ≡ []
unfolding keys among
keys_none [] h = refl
keys_none (free ∷ es) h = keys_none es h
keys_none (deleted _ ∷ es) h = keys_none es h
keys_none (full k _ ∷ es) h = absurd (ground (arith, h k, same_string_refl k))

Hash-set : IsSet Hash
Hash-set = hlevel

module _ (b : Blake2) (q : StringSort) where
  combine_strings-Permᴰ :
      {ds es : List Bytes}
      → Permᴰ ds es
      → (key : Hash) → combine_strings b q key ds ≡ combine_strings b q key es
  unfolding combine_strings
  combine_strings-Permᴰ Permᴰ.nil key = refl
  combine_strings-Permᴰ (Permᴰ.cons {l₁ = ds} e p) key =
      ap (λ a. combine_strings b q (hash_combine key (hash_data b a)) ds) e
      ∙ combine_strings-Permᴰ p _
  combine_strings-Permᴰ (Permᴰ.swap {a} {b = c} {l} e f) key =
      ap (λ acc. combine_strings b q acc l) (hash_combine_swap key (hash_data b a) (hash_data b c))
      ∙ ap
          (λ (t : Bytes × Bytes).
            combine_strings b q
              (hash_combine (hash_combine key (hash_data b t.0)) (hash_data b t.1)) l)
          (λ i. (f i, e i))
  combine_strings-Permᴰ (Permᴰ.trans p r) key =
      combine_strings-Permᴰ p key ∙ combine_strings-Permᴰ r key

  combine_strings-Perm :
      {ds es : List Bytes}
      → Perm ds es
      → (key : Hash) → combine_strings b q key ds ≡ combine_strings b q key es
  combine_strings-Perm p key = ∥∥₁_elim p (Hash-set _ _) (λ d. combine_strings-Permᴰ d key)

  -- The hash of the code and of the name.
  named : Recipe → Hash → Hash
  named r code = hash_combine code (hash_data b r.target_name)

  module _ (sorts : IsStringSort q) where
    sorted_or_not :
        (key : Hash) (ds : List Bytes)
        → elim ds [ [] ↦ key | d ∷ rest ↦ combine_strings b q key (q.sort (d ∷ rest)) ]
          ≡ combine_strings b q key ds
    unfolding combine_strings
    sorted_or_not key [] = refl
    sorted_or_not key (d ∷ ds) = combine_strings-Perm (sorts.permutes (d ∷ ds)) key

    request_key-keys :
        (r : Recipe) (code : Hash)
        → (recipe_compute_request_key b q r code).request_key
          ≡ combine_strings b q (named r code) (keys r.declared_deps.entries)
    unfolding recipe_compute_request_key named Set.iterate
    request_key-keys r code =
        sorted_or_not (named r code) _
        ∙ ap (combine_strings b q (named r code))
            (collected r.declared_deps.entries (record { deps = []; capacity = 0 }))

    -- If `qsort` permutes and the sets are well formed, the request key depends only on the code
    -- hash, the target's name and which dependencies are declared: not on the order in which they were declared, nor on how the set's table grew.
    pub recipe_compute_request_key-same :
        (r s : Recipe) (code : Hash)
        → IsValid r.declared_deps
        → IsValid s.declared_deps
        → r.target_name ≡ s.target_name
        → ((dep : Bytes) → Set.has r.declared_deps dep ≡ Set.has s.declared_deps dep)
        → (recipe_compute_request_key b q r code).request_key
          ≡ (recipe_compute_request_key b q s code).request_key
    unfolding named
    recipe_compute_request_key-same r s code inv inw name members =
        let moved : (dep : Bytes)
            → among r.declared_deps.entries dep ≡ among s.declared_deps.entries dep =
          λ dep.
            among-has r.declared_deps inv dep
            ∙ members dep
            ∙ sym (among-has s.declared_deps inw dep) in
        let same : Perm (keys r.declared_deps.entries) (keys s.declared_deps.entries) =
          (perm_ext_iff_of_Nodup (keys-Nodup _ inv.probed.once) (keys-Nodup _ inw.probed.once)).1
            (λ dep. (
              (λ m. among-Mem _ dep (sym (moved dep) ∙ Mem-among _ dep m)),
              (λ m. among-Mem _ dep (moved dep ∙ Mem-among _ dep m)),
            )) in
        request_key-keys r code
        ∙ combine_strings-Perm same (named r code)
        ∙ ap
            (λ n.
              combine_strings b q (hash_combine code (hash_data b n))
                (keys s.declared_deps.entries))
            name
        ∙ sym (request_key-keys s code)

    -- The request key of a recipe whose well-formed set of dependencies is empty is zero if the
    -- code hash is the hash of the target's name, which has 32 bytes, as in the scheduler's fallback: the name is combined twice, and cancels.
    pub recipe_compute_request_key-zero :
        (r : Recipe)
        → IsValid r.declared_deps
        → ((dep : Bytes) → Set.has r.declared_deps dep ≡ false)
        → length (hash_data b r.target_name) ≡ 32
        → (recipe_compute_request_key b q r (hash_data b r.target_name)).request_key ≡ zero_hash
    unfolding named combine_strings
    recipe_compute_request_key-zero r inv empty size =
        let h = hash_data b r.target_name in
        let no_keys = keys_none _ (λ dep. among-has r.declared_deps inv dep ∙ empty dep) in
        request_key-keys r h
        ∙ ap (combine_strings b q (hash_combine h h)) no_keys
        ∙ hash_combine_self h
        ∙ ap (λ n. replicate n 0) size
