-- ===== src/Hash/Tree/Order.antt =====
-- What the hash of a directory depends on.
use mathlib.Core.List.{Perm, Permᴰ}
use mathlib.Core.Logic.{∥∥₁_elim}
use rebuild.Base.{◌≡◌, refl, ap, List, Option, none, some, Bytes, sym, ◌∙◌}
use rebuild.Hash.{Hash, Blake2, hash_data, hash_combine, zero_hash}
use rebuild.Hash.Combine.{hash_combine_swap}
use rebuild.Hash.Tree.{Node, Entries, dir, entry, Hashed, Qsort, IsQsort, combine_entry}
use rebuild.Hash.Tree.{combine_entries, hash_tree, hash_entries}

Hash-set : IsSet Hash
Hash-set = hlevel

module _ (b : Blake2) (q : Qsort) where
  -- Two entries may be combined in either order.
  combine_entry_swap :
      (out : Hash) (e f : Hashed)
      → combine_entry b q (combine_entry b q out e) f
        ≡ combine_entry b q (combine_entry b q out f) e
  unfolding combine_entry
  combine_entry_swap out (n, some h) (m, some k) =
      let x = hash_data b n in
      let y = hash_data b m in
      cc (
        hash_combine_swap (hash_combine out x) h y,
        hash_combine_swap out x y,
        hash_combine_swap (hash_combine (hash_combine out y) x) h k,
        hash_combine_swap (hash_combine out y) x k,
      )
  combine_entry_swap out (n, some h) (m, none) =
      let x = hash_data b n in
      let y = hash_data b m in
      cc (hash_combine_swap (hash_combine out x) h y, hash_combine_swap out x y)
  combine_entry_swap out (n, none) (m, some k) =
      let x = hash_data b n in
      let y = hash_data b m in
      cc (hash_combine_swap (hash_combine out y) x k, hash_combine_swap out x y)
  combine_entry_swap out (n, none) (m, none) = hash_combine_swap out (hash_data b n) (hash_data b m)

  -- Two names may exchange what is combined with them.
  exchange :
      (out : Hash) (n m : Bytes) (x y : Option Hash)
      → combine_entry b q (combine_entry b q out (n, x)) (m, y)
        ≡ combine_entry b q (combine_entry b q out (n, y)) (m, x)
  unfolding combine_entry
  exchange out n m (some h) (some k) =
      let named = hash_combine out (hash_data b n) in
      cc (
        hash_combine_swap named h (hash_data b m),
        hash_combine_swap (hash_combine named (hash_data b m)) h k,
        hash_combine_swap named (hash_data b m) k,
      )
  exchange out n m (some h) none =
      hash_combine_swap (hash_combine out (hash_data b n)) h (hash_data b m)
  exchange out n m none (some k) =
      hash_combine_swap (hash_combine out (hash_data b n)) (hash_data b m) k
  exchange out n m none none = refl

  combine_entries-Permᴰ :
      {es fs : List Hashed}
      → Permᴰ es fs
      → (out : Hash) → combine_entries b q out es ≡ combine_entries b q out fs
  unfolding combine_entries
  combine_entries-Permᴰ Permᴰ.nil out = refl
  combine_entries-Permᴰ (Permᴰ.cons {l₁ = es} e p) out =
      ap (λ a. combine_entries b q (combine_entry b q out a) es) e ∙ combine_entries-Permᴰ p _
  combine_entries-Permᴰ (Permᴰ.swap {a} {b = c} {l} e f) out =
      ap (λ acc. combine_entries b q acc l) (combine_entry_swap out a c)
      ∙ ap
          (λ (t : Hashed × Hashed).
            combine_entries b q (combine_entry b q (combine_entry b q out t.0) t.1) l)
          (λ i. (f i, e i))
  combine_entries-Permᴰ (Permᴰ.trans p r) out =
      combine_entries-Permᴰ p out ∙ combine_entries-Permᴰ r out

  combine_entries-Perm :
      {es fs : List Hashed}
      → Perm es fs
      → (out : Hash) → combine_entries b q out es ≡ combine_entries b q out fs
  combine_entries-Perm p out = ∥∥₁_elim p (Hash-set _ _) (λ d. combine_entries-Permᴰ d out)

  module _ (sorts : IsQsort q) where
    -- Sorting the entries by name makes no difference to the hash.
    pub hash_tree_dir :
        (es : Entries)
        → hash_tree b q (dir es) ≡ some (combine_entries b q zero_hash (hash_entries b q es))
    unfolding hash_tree
    hash_tree_dir es =
        ap some (combine_entries-Perm (sorts.permutes (hash_entries b q es)) zero_hash)

    -- If `qsort` permutes, the hash of a directory does not depend on the order in which `readdir` returns its entries.
    pub hash_tree_order :
        (es fs : Entries)
        → Perm (hash_entries b q es) (hash_entries b q fs)
        → hash_tree b q (dir es) ≡ hash_tree b q (dir fs)
    hash_tree_order es fs p =
        hash_tree_dir es ∙ ap some (combine_entries-Perm p zero_hash) ∙ sym (hash_tree_dir fs)

    -- If `qsort` permutes, two entries of a directory may exchange their contents without a change of its hash: the names
    -- and the contents are hashed, but not which contents stand under which name.
    pub hash_tree_exchange :
        (n m : Bytes) (x y : Node) (es : Entries)
        → hash_tree b q (dir (entry n x (entry m y es)))
          ≡ hash_tree b q (dir (entry n y (entry m x es)))
    unfolding hash_tree combine_entries
    hash_tree_exchange n m x y es =
        hash_tree_dir (entry n x (entry m y es))
        ∙ ap (λ acc. some (combine_entries b q acc (hash_entries b q es)))
            (exchange zero_hash n m (hash_tree b q x) (hash_tree b q y))
        ∙ sym (hash_tree_dir (entry n y (entry m x es)))
