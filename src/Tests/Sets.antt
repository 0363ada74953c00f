-- ===== src/Tests/Sets.antt =====
-- Sets of src/set.c, and a recipe of src/recipe.c over them.
use mathlib.Core.Path.{subst}
use rebuild.Base.{◌≡◌, ◌↔◌, refl, ap, arith, [], ◌∷◌, Option, none, some, Bytes}
use rebuild.Base.{true, false, same_string, if◌then◌else◌, sym, ◌∙◌, RebuildError, ok, ◌||◌}
use rebuild.Table.{free, full, hash_string, find_loop, find_entry, lookup, rehash, grow}
use rebuild.Table.{grown_capacity, must_grow}
use rebuild.Table.Rehash.{IsValid}
use rebuild.Set
use rebuild.Set.{Set}
use rebuild.Map.Writes.{blank-IsEmpty}
use rebuild.Set.Members.{IsChange, add-IsChange, remove-IsChange}
use rebuild.Set.Bulk.{union-has, contains_all_iff}
use rebuild.Hash.{zero_hash}
use rebuild.Recipe.{Recipe, pending, recipe_add_dependency}
use mathlib.Core.List.Perm
use rebuild.Base.{length, same_string_cases, same_string_refl, inl, inr}
use rebuild.Hash.{hash_data}
use rebuild.Tests.Hashes.{plain}
use rebuild.Recipe.{StringSort, IsStringSort, recipe_compute_request_key}
use rebuild.Recipe.Key.{recipe_compute_request_key-same, recipe_compute_request_key-zero}
use rebuild.Base.{In}
use rebuild.Hash.{reads}
use rebuild.Hash.Tree.{Node, file}
use rebuild.Trace.{trace_validate, current_hash}
use rebuild.Tests.Hashes.{unsorted}
use rebuild.Scheduler.{completed_trace}
use rebuild.Scheduler.Recorded.{completed_trace-valid}
use rebuild.Recipe.Deps.{IsRecipe, recipe_add_dependency-declares}

program : Unit {0}
unfolding hash_string find_loop find_entry lookup rehash grow grown_capacity must_grow same_string
    Set.write_entry Set.add_grown Set.add Set.has Set.erase_entry Set.remove
program = tt

abbrev a : Bytes
a = b'a' ∷ []

abbrev b : Bytes
b = b'b' ∷ []

abbrev no_strings : Set
no_strings = record { entries = free ∷ free ∷ []; capacity = 2; size = 0; tombstones = 0 }

abbrev only_a : Set
only_a = record { entries = full a tt ∷ free ∷ []; capacity = 2; size = 1; tombstones = 0 }

no_strings-IsValid : IsValid no_strings
no_strings-IsValid = (blank-IsEmpty {V = Unit {0}} 2 (omega arith)).valid

added : Option (RebuildError × Set) → Set
added none = no_strings
added (some r) = r.1

adding : Set.add no_strings a ≡ some (ok, only_a)
unfolding program
adding = refl

only_a-IsValid : IsValid only_a
unfolding added
only_a-IsValid =
    let (t, run, w) = add-IsChange no_strings a no_strings-IsValid in
    subst IsValid (ap added (sym run ∙ adding)) w.valid

removing : (Set.remove only_a a).0 ≡ true
unfolding program
removing = refl

absent : Set.has only_a b ≡ false
unfolding program
absent = refl

add-IsChange_example : (s : Set) × (Set.add only_a b ≡ some (ok, s)) × IsChange only_a b true s
add-IsChange_example = add-IsChange only_a b only_a-IsValid

set_remove-IsChange_example :
    ((Set.remove only_a a).0 ≡ Set.has only_a a) × IsChange only_a a false (Set.remove only_a a).1
set_remove-IsChange_example = remove-IsChange only_a a only_a-IsValid

union-has_example :
    (s : Set) × (Set.union only_a no_strings ≡ some (ok, s))
    × IsValid s
    × ((q : Bytes) → Set.has s q ≡ (Set.has only_a q || Set.has no_strings q))
union-has_example = union-has only_a no_strings only_a-IsValid no_strings-IsValid

contains_all_iff_example :
    (Set.contains_all no_strings only_a ≡ true)
    ↔ ((q : Bytes) → Set.has only_a q ≡ true → Set.has no_strings q ≡ true)
contains_all_iff_example = contains_all_iff no_strings only_a no_strings-IsValid only_a-IsValid

abbrev app : Recipe
app = record {
  target_name = b;
  state = pending;
  request_key = zero_hash;
  declared_deps = only_a;
  pending_deps = no_strings;
  output_dir = none;
  temp_dir = none;
  start_time = 0;
}

app-IsRecipe : IsRecipe app
app-IsRecipe = record { declared = only_a-IsValid; pending_ok = no_strings-IsValid }

recipe_add_dependency-declares_example :
    (declared pending_set : Set) × (recipe_add_dependency app b
      ≡ some (ok, record app { declared_deps = declared; pending_deps = pending_set }))
    × IsRecipe (record app { declared_deps = declared; pending_deps = pending_set })
    × ((q : Bytes)
        → Set.has declared q ≡ (if same_string q b then true else Set.has app.declared_deps q))
    × ((q : Bytes)
        → Set.has pending_set q ≡ (if same_string q b then true else Set.has app.pending_deps q))
recipe_add_dependency-declares_example = recipe_add_dependency-declares app b app-IsRecipe

abbrev as_read : StringSort
as_read = record { sort = λ ds. ds }

as_read-IsStringSort : IsStringSort as_read
as_read-IsStringSort = record { permutes = Perm.refl }

-- `b` is added, which grows the table, and removed, which leaves a tombstone.
abbrev both : Set
both = record {
  entries = full a tt ∷ full b tt ∷ free ∷ free ∷ [];
  capacity = 4;
  size = 2;
  tombstones = 0;
}

adding_more : Set.add only_a b ≡ some (ok, both)
unfolding program
adding_more = refl

both-IsValid : IsValid both
unfolding added
both-IsValid =
    let (t, run, w) = add-IsChange only_a b only_a-IsValid in
    subst IsValid (ap added (sym run ∙ adding_more)) w.valid

abbrev app_again : Recipe
app_again = record app { declared_deps = (Set.remove both b).1 }

same_members : (dep : Bytes) → Set.has only_a dep ≡ Set.has (Set.remove both b).1 dep
same_members dep =
    let (s, run, c) = add-IsChange only_a b only_a-IsValid in
    let grown : Set.has both dep ≡ (if same_string dep b then true else Set.has only_a dep) =
      unfold added in
      subst (λ t. Set.has t dep ≡ (if same_string dep b then true else Set.has only_a dep))
        (ap added (sym run ∙ adding_more)) (c.reads dep) in
    let gone = (remove-IsChange both b both-IsValid).1.reads dep in
    elim (same_string_cases dep b) [
      | inl e ↦
          let hit : same_string dep b ≡ true = rw e (same_string_refl b) in
          let missing : Set.has only_a dep ≡ false = rw e absent in
          ground (arith, gone, hit, missing)
      | inr (n, f) ↦ ground (arith, gone, grown, f)
    ]

recipe_compute_request_key-same_example :
    (recipe_compute_request_key plain as_read app zero_hash).request_key
    ≡ (recipe_compute_request_key plain as_read app_again zero_hash).request_key
recipe_compute_request_key-same_example =
    recipe_compute_request_key-same plain as_read as_read-IsStringSort app app_again zero_hash
      only_a-IsValid (remove-IsChange both b both-IsValid).1.valid refl same_members

abbrev alone : Recipe
alone = record app { declared_deps = no_strings }

nothing_declared : (dep : Bytes) → Set.has no_strings dep ≡ false
unfolding program
nothing_declared dep = refl

name_hash : length (hash_data plain b) ≡ 32
unfolding hash_data
name_hash = refl

recipe_compute_request_key-zero_example :
    (recipe_compute_request_key plain as_read alone (hash_data plain b)).request_key ≡ zero_hash
recipe_compute_request_key-zero_example =
    recipe_compute_request_key-zero plain as_read as_read-IsStringSort alone no_strings-IsValid
      nothing_declared name_hash

-- Every path is an empty file.
abbrev empty_files : Bytes → Node
empty_files _ = file (reads [] false)

completed_trace-valid_example :
    (trace_validate plain unsorted empty_files (completed_trace plain unsorted empty_files app 12)
      ≡ true)
    × ((path hash : Bytes)
        → In (path, hash) (completed_trace plain unsorted empty_files app 12).deps ↔ (
            (Set.has only_a path ≡ true)
            × (current_hash plain unsorted (empty_files path) ≡ some hash)))
completed_trace-valid_example =
    completed_trace-valid plain unsorted empty_files app 12 only_a-IsValid
