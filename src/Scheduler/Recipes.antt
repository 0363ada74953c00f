-- ===== src/Scheduler/Recipes.antt =====
-- The recipes on the heap, the map of their names and the map of completed targets.
use mathlib.Core.Path.{subst}
use rebuild.Base.{
  ℕ, ◌≡◌, refl, ap, sym, ◌∙◌, List, [], ◌∷◌, ◌++◌, Option, none, some, Bool, true, false,
}
use rebuild.Base.{Bytes, length, set as set_elem, get_elem?, get_elem?-set_cases, get_elem?_bound}
use rebuild.Base.{get_elem?-set_self, get_elem?-set_ne, get_elem?-snoc, get_elem?-snoc_old}
use rebuild.Base.{get_elem?-snoc_cases, nat_cases, same_string_cases, inl, inr}
use rebuild.Base.{Option-cases, same_string_refl}
use rebuild.Map
use rebuild.Map.{Map, is_some}
use rebuild.Map.Writes.{IsWrite}
use rebuild.Recipe.{Recipe, RecipeState, pending, running, suspended, complete, failed}
use rebuild.Recipe.Deps.{IsRecipe}
use rebuild.Table.Rehash.{IsValid}

abbrev pub is_complete : RecipeState → Bool
is_complete complete = true
is_complete pending = false
is_complete running = false
is_complete suspended = false
is_complete failed = false

-- The maps are well formed. `recipes` leads from each name to the one recipe of that name, and every
-- recipe can be found so. A name has an output path exactly if its recipe is complete.
pub record IsRecipes (heap : List Recipe) (recipes : Map ℕ) (completed : Map Bytes) : Type 0 where
  pub recipes_valid : IsValid recipes
  pub completed_valid : IsValid completed
  pub listed :
      (p : Bytes) (a : ℕ)
      → Map.get recipes p ≡ some a
      → (r : Recipe) × (get_elem? heap a ≡ some r) × (r.target_name ≡ p)
  pub named :
      (a : ℕ) (r : Recipe) → get_elem? heap a ≡ some r → Map.get recipes r.target_name ≡ some a
  pub sets : (a : ℕ) (r : Recipe) → get_elem? heap a ≡ some r → IsRecipe r
  pub recorded :
      (a : ℕ) (r : Recipe)
      → get_elem? heap a ≡ some r
      → is_some (Map.get completed r.target_name) ≡ is_complete r.state
  pub known :
      (p path : Bytes) → Map.get completed p ≡ some path → (a : ℕ) × (Map.get recipes p ≡ some a)

is_some-none : {A : Type 0} {o : Option A} → o ≡ none → is_some o ≡ false
is_some-none e = ap is_some e

is_some-some : {A : Type 0} {o : Option A} {x : A} → o ≡ some x → is_some o ≡ true
is_some-some e = ap is_some e

-- A recipe keeps its name and its well-formed sets.
pub record IsRewrite (r r' : Recipe) : Type 0 where
  pub same_name : r'.target_name ≡ r.target_name
  pub well_formed : IsRecipe r'

-- Neither the name nor the dependencies are written.
pub IsRewrite-other :
    (r : Recipe) (st : RecipeState) (output_dir temp_dir : Option Bytes) (start_time : ℕ)
    → IsRecipe r
    → IsRewrite r (record r {
      state = st;
      output_dir = output_dir;
      temp_dir = temp_dir;
      start_time = start_time;
    })
IsRewrite-other r st o t n inv = record {
  same_name = refl;
  well_formed = record { declared = inv.declared; pending_ok = inv.pending_ok };
}

pub IsRewrite-state :
    (r : Recipe) (st : RecipeState) → IsRecipe r → IsRewrite r (record r { state = st })
IsRewrite-state r st inv = IsRewrite-other r st r.output_dir r.temp_dir r.start_time inv

module _ {heap : List Recipe} {recipes : Map ℕ} {completed : Map Bytes} where
  one_name :
      IsRecipes heap recipes completed
      → (a c : ℕ) (r t : Recipe) → get_elem? heap a ≡ some r
      → get_elem? heap c ≡ some t
      → r.target_name ≡ t.target_name
      → a ≡ c
  one_name inv a c r t at at' same =
      let e : some a ≡ some c =
        sym (inv.named a r at) ∙ ap (Map.get recipes) same ∙ inv.named c t at' in
      cc

  listed_after :
      IsRecipes heap recipes completed
      → (a : ℕ) (r r' : Recipe) → get_elem? heap a ≡ some r
      → IsRewrite r r'
      → (p : Bytes) (c : ℕ) → Map.get recipes p ≡ some c
      → (t : Recipe) × (get_elem? (set_elem heap a r') c ≡ some t) × (t.target_name ≡ p)
  listed_after inv a r r' at w p c found = elim (nat_cases a c) [
    | inl e ↦
        let (t, at', name) = inv.listed p c found in
        let same : some r ≡ some t = sym at ∙ ap (get_elem? heap) e ∙ at' in
        let same' : r ≡ t = cc in
        (
          r',
          ap (get_elem? (set_elem heap a r')) (sym e)
              ∙ get_elem?-set_self heap a r' (get_elem?_bound heap a at),
          w.same_name ∙ ap (λ x. x.target_name) same' ∙ name,
        )
    | inr n ↦
        let (t, at', name) = inv.listed p c found in (t, get_elem?-set_ne heap a c r' n ∙ at', name)
  ]

  named_after :
      IsRecipes heap recipes completed
      → (a : ℕ) (r r' : Recipe) → get_elem? heap a ≡ some r
      → IsRewrite r r'
      → (c : ℕ) (t : Recipe) → get_elem? (set_elem heap a r') c ≡ some t
      → Map.get recipes t.target_name ≡ some c
  named_after inv a r r' at w c t h = elim (get_elem?-set_cases heap a r' c h) [
    | inl (e, f) ↦
        ap (λ x. Map.get recipes x.target_name) (sym f)
        ∙ ap (Map.get recipes) w.same_name
        ∙ inv.named a r at
        ∙ ap some (sym e)
    | inr (n, f) ↦ inv.named c t f
  ]

  sets_after :
      IsRecipes heap recipes completed
      → (a : ℕ) (r r' : Recipe) → IsRewrite r r'
      → (c : ℕ) (t : Recipe) → get_elem? (set_elem heap a r') c ≡ some t
      → IsRecipe t
  sets_after inv a r r' w c t h = elim (get_elem?-set_cases heap a r' c h) [
    | inl (e, f) ↦ subst IsRecipe f w.well_formed
    | inr (n, f) ↦ inv.sets c t f
  ]

  -- A write that neither completes a recipe nor undoes that.
  pub IsRecipes-write :
      IsRecipes heap recipes completed
      → (a : ℕ) (r r' : Recipe) → get_elem? heap a ≡ some r
      → IsRewrite r r'
      → is_complete r'.state ≡ is_complete r.state
      → IsRecipes (set_elem heap a r') recipes completed
  IsRecipes-write inv a r r' at w same = record {
    recipes_valid = inv.recipes_valid;
    completed_valid = inv.completed_valid;
    listed = listed_after inv a r r' at w;
    named = named_after inv a r r' at w;
    sets = sets_after inv a r r' w;
    recorded = λ c t h. elim (get_elem?-set_cases heap a r' c h) [
      | inl (e, f) ↦
          ap (λ x. is_some (Map.get completed x.target_name)) (sym f)
          ∙ ap (λ x. is_some (Map.get completed x)) w.same_name
          ∙ inv.recorded a r at
          ∙ sym same
          ∙ ap (λ x. is_complete x.state) f
      | inr (n, f) ↦ inv.recorded c t f
    ];
    known = inv.known;
  }

  -- The recipe is completed, and its output path is recorded.
  pub IsRecipes-complete :
      IsRecipes heap recipes completed
      → (a : ℕ) (r r' : Recipe) (path : Bytes) (m : Map Bytes) → get_elem? heap a ≡ some r
      → IsRewrite r r'
      → is_complete r'.state ≡ true
      → IsWrite completed r.target_name (some path) m
      → IsRecipes (set_elem heap a r') recipes m
  IsRecipes-complete inv a r r' path m at w done u = record {
    recipes_valid = inv.recipes_valid;
    completed_valid = u.valid;
    listed = listed_after inv a r r' at w;
    named = named_after inv a r r' at w;
    sets = sets_after inv a r r' w;
    recorded = λ c t h. elim (get_elem?-set_cases heap a r' c h) [
      | inl (e, f) ↦
          let read : Map.get m r.target_name ≡ some path =
            u.reads r.target_name ∙ rw (same_string_refl r.target_name) refl in
          ap (λ x. is_some (Map.get m x.target_name)) (sym f)
          ∙ ap (λ x. is_some (Map.get m x)) w.same_name
          ∙ is_some-some read
          ∙ sym done
          ∙ ap (λ x. is_complete x.state) f
      | inr (n, f) ↦ elim (same_string_cases t.target_name r.target_name) [
        | inl e ↦ absurd (n (one_name inv c a t r f at e))
        | inr (d, e) ↦ ap is_some (u.reads t.target_name ∙ rw e refl) ∙ inv.recorded c t f
      ]
    ];
    known = λ p found h. elim (same_string_cases p r.target_name) [
      | inl e ↦ (a, ap (Map.get recipes) e ∙ inv.named a r at)
      | inr (d, e) ↦ inv.known p found (sym (u.reads p ∙ rw e refl) ∙ h)
    ];
  }

  -- A new recipe under a name that has none.
  pub IsRecipes-new :
      IsRecipes heap recipes completed
      → (r : Recipe) (m : Map ℕ) → Map.get recipes r.target_name ≡ none
      → IsRecipe r
      → is_complete r.state ≡ false
      → IsWrite recipes r.target_name (some (length heap)) m
      → IsRecipes (heap ++ r ∷ []) m completed
  IsRecipes-new inv r m fresh well undone u = record {
    recipes_valid = u.valid;
    completed_valid = inv.completed_valid;
    listed = λ p c h. elim (same_string_cases p r.target_name) [
      | inl e ↦
          let read : Map.get m p ≡ some (length heap) =
            u.reads p ∙ rw (e, same_string_refl r.target_name) refl in
          let same : some c ≡ some (length heap) = sym h ∙ read in
          let same' : c ≡ length heap = cc in
          (r, ap (get_elem? (heap ++ r ∷ [])) same' ∙ get_elem?-snoc heap r, sym e)
      | inr (d, e) ↦
          let (t, at, name) = inv.listed p c (sym (u.reads p ∙ rw e refl) ∙ h) in
          (t, get_elem?-snoc_old heap r c at, name)
    ];
    named = λ c t h. elim (get_elem?-snoc_cases heap r c h) [
      | inr (e, f) ↦
          ap (λ x. Map.get m x.target_name) (sym f)
          ∙ u.reads r.target_name
          ∙ rw (same_string_refl r.target_name) (ap some (sym e))
      | inl f ↦ elim (same_string_cases t.target_name r.target_name) [
        | inl e ↦
            let clash : none ≡ some c =
              sym fresh ∙ ap (Map.get recipes) (sym e) ∙ inv.named c t f in
            absurd (cc)
        | inr (d, e) ↦ u.reads t.target_name ∙ rw e (inv.named c t f)
      ]
    ];
    sets = λ c t h. elim (get_elem?-snoc_cases heap r c h) [
      | inr (e, f) ↦ subst IsRecipe f well
      | inl f ↦ inv.sets c t f
    ];
    recorded = λ c t h. elim (get_elem?-snoc_cases heap r c h) [
      | inr (e, f) ↦
          let unknown : Map.get completed r.target_name ≡ none =
            elim (Option-cases (Map.get completed r.target_name)) [
              | inl g ↦ g
              | inr (path, g) ↦
                  let (o, found) = inv.known r.target_name path g in
                  let clash : none ≡ some o = sym fresh ∙ found in absurd (cc)
            ] in
          ap (λ x. is_some (Map.get completed x.target_name)) (sym f)
          ∙ is_some-none unknown
          ∙ sym undone
          ∙ ap (λ x. is_complete x.state) f
      | inl f ↦ inv.recorded c t f
    ];
    known = λ p path h. elim (same_string_cases p r.target_name) [
      | inl e ↦ (length heap, u.reads p ∙ rw (e, same_string_refl r.target_name) refl)
      | inr (d, e) ↦ let (o, found) = inv.known p path h in (o, u.reads p ∙ rw e found)
    ];
  }
