-- ===== src/Recipe/Deps.antt =====
-- The dependencies of a recipe.
use rebuild.Base.{◌≡◌, some, true, Bytes, ok}
use rebuild.Base.{same_string, if◌then◌else◌}
use rebuild.Table.Rehash.{IsValid}
use rebuild.Set
use rebuild.Set.{Set}
use rebuild.Set.Members.{add-IsChange}
use rebuild.Recipe.{Recipe, recipe_add_dependency}

-- Both sets are well formed.
pub record IsRecipe (r : Recipe) : Type 0 where
  pub declared : IsValid r.declared_deps
  pub pending_ok : IsValid r.pending_deps

-- `recipe_add_dependency` on a recipe with well-formed sets returns REBUILD_OK. These stay well
-- formed. The dependency is then declared and pending, every
-- other string keeps its place in both sets, and nothing else of the recipe changes.
pub recipe_add_dependency-declares :
    (r : Recipe) (dep : Bytes)
    → IsRecipe r
    → (declared pending_set : Set) × (recipe_add_dependency r dep
        ≡ some (ok, record r { declared_deps = declared; pending_deps = pending_set }))
      × IsRecipe (record r { declared_deps = declared; pending_deps = pending_set })
      × ((q : Bytes)
          → Set.has declared q ≡ (if same_string q dep then true else Set.has r.declared_deps q))
      × ((q : Bytes)
          → Set.has pending_set q ≡ (if same_string q dep then true else Set.has r.pending_deps q))
unfolding recipe_add_dependency
recipe_add_dependency-declares r dep inv =
    let (declared, run, c) = add-IsChange r.declared_deps dep inv.declared in
    let (waiting, run', c') = add-IsChange r.pending_deps dep inv.pending_ok in
    (
      declared,
      waiting,
      rw (run, run'),
      record { declared = c.valid; pending_ok = c'.valid },
      c.reads,
      c'.reads,
    )
