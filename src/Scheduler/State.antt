-- ===== src/Scheduler/State.antt =====
-- The scheduler's state, its queue and its waiter lists: src/scheduler.c and src/scheduler.h.
--
-- A `Recipe*` and a `WaiterList*` are addresses, places in the lists `heap` and `lists`. `context` is
-- the recipe of the context of src/umka_bridge.c, and `disk` is what the system calls see. `none` as
-- a result is a fault: a pointer that leads nowhere, or a fault of a map.
use mathlib.Core.Option
use rebuild.Base.{
  ℕ, ◌+◌, List, [], ◌∷◌, ◌++◌, Option, none, some, Bool, false, Bytes, length, ◌==◌, ◌>>=◌,
}
use rebuild.Base.{RebuildError, ok, get_elem?, set as set_elem}
use rebuild.Map
use rebuild.Map.{Map}
use rebuild.Recipe.{
  Recipe, RecipeState, pending, running, suspended, complete, failed, recipe_create,
}
use rebuild.Recipe.{recipe_add_dependency}
use rebuild.Scheduler.{scheduler_get_completed}
use rebuild.Storage.{Storage}
use rebuild.Target.{TargetRegistry}
use rebuild.Tool.{ToolManager, tool_manager_create}

pub record WaiterList : Type 0 where
  pub nodes : List ℕ
  pub count : ℕ

pub record Scheduler (Umka Disk : Type 0) : Type 0 where
  pub storage : Storage
  pub tools : ToolManager
  pub recipes : Map ℕ
  pub completed : Map Bytes
  pub ready_queue : List ℕ
  pub waiting : Map ℕ
  pub umka : Option Umka
  pub registry : Option (TargetRegistry Umka)
  pub active_count : ℕ
  pub failed : Bool
  pub target_error : Option Bytes
  pub heap : List Recipe
  pub lists : List WaiterList
  pub context : Option ℕ
  pub disk : Disk

-- The linked nodes are a list, from the head to the tail; `size` is its length.
unfoldable pub queue_push : List ℕ → ℕ → List ℕ
queue_push q recipe = q ++ recipe ∷ []

unfoldable pub queue_pop : List ℕ → Option (ℕ × List ℕ)
queue_pop [] = none
queue_pop (recipe ∷ q) = some (recipe, q)

unfoldable pub queue_is_empty : List ℕ → Bool
queue_is_empty q = length q == 0

abbrev pub waiter_list_create : WaiterList
waiter_list_create = record { nodes = []; count = 0 }

unfoldable pub waiter_list_add : WaiterList → ℕ → WaiterList
waiter_list_add list recipe = record { nodes = recipe ∷ list.nodes; count = list.count + 1 }

-- `if (recipe->state == RECIPE_SUSPENDED) recipe->state = RECIPE_PENDING`
abbrev pub resumed : RecipeState → RecipeState
resumed suspended = pending
resumed pending = pending
resumed running = running
resumed complete = complete
resumed failed = failed

module _ {Umka Disk : Type 0} where
  -- The first argument is `getenv("PATH")` for the tool manager.
  unfoldable pub scheduler_create : Option Bytes → Disk → Storage → Option (Scheduler Umka Disk)
  scheduler_create path_env disk storage = tool_manager_create path_env >>= λ tools.
      Map.create {V = ℕ} 64 >>= λ recipes. Map.create {V = Bytes} 64 >>= λ completed.
      Map.create {V = ℕ} 64 >>= λ waiting. some (record {
        storage = storage;
        tools = tools;
        recipes = recipes;
        completed = completed;
        ready_queue = [];
        waiting = waiting;
        umka = none;
        registry = none;
        active_count = 0;
        failed = false;
        target_error = none;
        heap = [];
        lists = [];
        context = none;
        disk = disk;
      })

  -- A new recipe after `map_set`; on an error it is freed.
  unfoldable pub keep_recipe :
      Scheduler Umka Disk → Recipe → RebuildError × Map ℕ → Option ℕ × Scheduler Umka Disk
  keep_recipe s recipe (ok, recipes) =
      (some (length s.heap), record s { heap = s.heap ++ recipe ∷ []; recipes = recipes })
  keep_recipe s recipe (error, recipes) = (none, record s { recipes = recipes })

  unfoldable pub scheduler_get_recipe :
      Scheduler Umka Disk → Bytes → Option (Option ℕ × Scheduler Umka Disk)
  unfolding keep_recipe
  scheduler_get_recipe s target_name = elim (Map.get s.recipes target_name) [
    | some recipe ↦ some (some recipe, s)
    | none ↦ recipe_create target_name >>= λ recipe.
        Option.map (keep_recipe s recipe) (Map.set s.recipes target_name (length s.heap))
  ]

  -- A write to a recipe through its pointer.
  unfoldable pub write_recipe : Scheduler Umka Disk → ℕ → Recipe → Scheduler Umka Disk
  write_recipe s recipe r = record s { heap = set_elem s.heap recipe r }

  abbrev pub push : Scheduler Umka Disk → ℕ → Scheduler Umka Disk
  push s recipe = record s { ready_queue = queue_push s.ready_queue recipe }

  unfoldable pub scheduler_resume_recipe : Scheduler Umka Disk → ℕ → Option (Scheduler Umka Disk)
  unfolding write_recipe queue_push
  scheduler_resume_recipe s recipe = get_elem? s.heap recipe >>= λ r.
      some (push (write_recipe s recipe (record r { state = resumed r.state })) recipe)

  unfoldable pub waiter_list_notify_all :
      List ℕ → Scheduler Umka Disk → Option (Scheduler Umka Disk)
  waiter_list_notify_all [] s = some s
  waiter_list_notify_all (waiter ∷ nodes) s =
      scheduler_resume_recipe s waiter >>= waiter_list_notify_all nodes

  unfoldable pub suspend : Scheduler Umka Disk → ℕ → Option (Scheduler Umka Disk)
  unfolding write_recipe
  suspend s recipe =
      get_elem? s.heap recipe >>= λ r. some (write_recipe s recipe (record r { state = suspended }))

  -- `waiter_list_add` through the pointer from the map.
  unfoldable pub add_to_list : Scheduler Umka Disk → ℕ → ℕ → Option (Scheduler Umka Disk)
  add_to_list s recipe list = get_elem? s.lists list >>= λ l.
      some (record s { lists = set_elem s.lists list (waiter_list_add l recipe) })

  -- The recipe is added to the waiters for the target, whose list is made where it is missing. The
  -- error of `map_set` is not looked at.
  unfoldable pub add_waiter : Scheduler Umka Disk → ℕ → Bytes → Option (Scheduler Umka Disk)
  unfolding add_to_list
  add_waiter s recipe target_name = elim (Map.get s.waiting target_name) [
    | some list ↦ add_to_list s recipe list
    | none ↦ Map.set s.waiting target_name (length s.lists) >>= λ t.
        add_to_list (record s { waiting = t.1; lists = s.lists ++ waiter_list_create ∷ [] }) recipe
          (length s.lists)
  ]

  -- The branches on the state of the dependency. NULL as a path, `none`, means suspension.
  unfoldable pub await_state :
      Scheduler Umka Disk
      → ℕ
      → Bytes
      → ℕ
      → RecipeState
      → Option (Option Bytes × Scheduler Umka Disk)
  unfolding suspend add_waiter
  await_state s recipe target_name dep complete =
      some (scheduler_get_completed s.completed target_name, s)
  await_state s recipe target_name dep pending =
      suspend s recipe >>= λ s₁. add_waiter s₁ recipe target_name >>= λ s₂. some (none, push s₂ dep)
  await_state s recipe target_name dep in_progress =
      suspend s recipe >>= λ s₁. add_waiter s₁ recipe target_name >>= λ s₂. some (none, s₂)

  -- After `scheduler_get_recipe` for the dependency.
  unfoldable pub await_recipe :
      ℕ → Bytes → Option ℕ × Scheduler Umka Disk → Option (Option Bytes × Scheduler Umka Disk)
  await_recipe recipe target_name (none, s) = some (none, s)
  await_recipe recipe target_name (some dep, s) =
      get_elem? s.heap dep >>= λ d. await_state s recipe target_name dep d.state

  unfoldable pub scheduler_on_depend_request :
      Scheduler Umka Disk → ℕ → Bytes → Option (Option Bytes × Scheduler Umka Disk)
  unfolding write_recipe
  scheduler_on_depend_request s recipe target_name = get_elem? s.heap recipe >>= λ r.
      recipe_add_dependency r target_name >>= λ t.
      let s₁ = write_recipe s recipe t.1 in
      elim (scheduler_get_completed s₁.completed target_name) [
        | some completed_path ↦ some (some completed_path, s₁)
        | none ↦ scheduler_get_recipe s₁ target_name >>= await_recipe recipe target_name
      ]
