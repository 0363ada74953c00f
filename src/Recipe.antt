-- ===== src/Recipe.antt =====
-- Recipes: src/recipe.c. `fiber` and `user_data` are never read, and have no field here.
pub mod Deps
pub mod Key
use mathlib.Core.List.{Perm}
use mathlib.Core.Option
use rebuild.Base.{
  ℕ, zero, suc, ◌+◌, ◌*◌, ◌≡◌, List, [], ◌∷◌, ◌++◌, Option, none, some, Bool, true, false, Bytes,
}
use rebuild.Base.{length, leb, ◌==◌, if◌then◌else◌, RebuildError, ok}
use rebuild.Hash.{Hash, Blake2, hash_data, hash_combine, zero_hash}
use rebuild.Set
use rebuild.Set.{Set}

pub data RecipeState : Type 0 where
  pending : RecipeState
  running : RecipeState
  suspended : RecipeState
  complete : RecipeState
  failed : RecipeState

pub record Recipe : Type 0 where
  pub target_name : Bytes
  pub state : RecipeState
  pub request_key : Hash
  pub declared_deps : Set
  pub pending_deps : Set
  pub output_dir : Option Bytes
  pub temp_dir : Option Bytes
  pub start_time : ℕ

-- A recipe in its first state, with two empty sets.
unfoldable pub recipe_create : Bytes → Option Recipe
unfolding Option.bind
recipe_create target_name = Option.bind (Set.create 0) λ declared.
    Option.map
      (λ pending_set. record {
        target_name = target_name;
        state = pending;
        request_key = zero_hash;
        declared_deps = declared;
        pending_deps = pending_set;
        output_dir = none;
        temp_dir = none;
        start_time = 0;
      })
      (Set.create 0)

-- After the declared set: the second `set_add` of `recipe_add_dependency`.
unfoldable pub add_pending : Recipe → Bytes → RebuildError × Set → Option (RebuildError × Recipe)
add_pending r dep_path (ok, declared) =
    Option.map (λ t. (t.0, record r { declared_deps = declared; pending_deps = t.1 }))
      (Set.add r.pending_deps dep_path)
add_pending r dep_path (error, declared) = some (error, record r { declared_deps = declared })

-- `none` is a fault in `set_add`.
unfoldable pub recipe_add_dependency : Recipe → Bytes → Option (RebuildError × Recipe)
unfolding add_pending Option.bind
recipe_add_dependency r dep_path =
    Option.bind (Set.add r.declared_deps dep_path) (add_pending r dep_path)

unfoldable pub recipe_set_output_dir : Recipe → Bytes → RebuildError × Recipe
recipe_set_output_dir r path = (ok, record r { output_dir = some path })

unfoldable pub recipe_set_temp_dir : Recipe → Bytes → RebuildError × Recipe
recipe_set_temp_dir r path = (ok, record r { temp_dir = some path })

unfoldable pub recipe_has_dependency : Recipe → Bytes → Bool
recipe_has_dependency r dep_path = Set.has r.declared_deps dep_path

-- The growing array that the iteration over the set fills.
pub record DepsArray : Type 0 where
  pub deps : List Bytes
  pub capacity : ℕ

unfoldable pub collect_dep_callback : Bytes → DepsArray → Bool × DepsArray
collect_dep_callback value arr =
    let new_capacity =
      if leb arr.capacity (length arr.deps)
      then (if arr.capacity == 0 then 16 else arr.capacity * 2)
      else arr.capacity in
    (true, record { deps = arr.deps ++ value ∷ []; capacity = new_capacity })

-- libc's `qsort` of strings with `compare_strings`.
pub record StringSort : Type 0 where
  pub sort : List Bytes → List Bytes

-- The documented behaviour of `qsort`: the result holds the same strings.
pub record IsStringSort (q : StringSort) : Type 0 where
  pub permutes : (xs : List Bytes) → Perm (q.sort xs) xs

module _ (b : Blake2) (q : StringSort) where
  -- The loop that hashes each dependency.
  unfoldable pub combine_strings : Hash → List Bytes → Hash
  combine_strings key [] = key
  combine_strings key (d ∷ ds) = combine_strings (hash_combine key (hash_data b d)) ds

  unfoldable pub recipe_compute_request_key : Recipe → Hash → Recipe
  unfolding combine_strings collect_dep_callback
  recipe_compute_request_key r recipe_code_hash =
      let named = hash_combine recipe_code_hash (hash_data b r.target_name) in
      let arr =
        Set.iterate r.declared_deps collect_dep_callback (record { deps = []; capacity = 0 }) in
      record r {
        request_key = elim arr.deps [
          | [] ↦ named
          | d ∷ ds ↦ combine_strings named (q.sort (d ∷ ds))
        ];
      }
