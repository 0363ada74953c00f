-- ===== src/Tests/Machines.antt =====
-- A machine, an interpreter and states of the scheduler.
use rebuild.Base.{
  ℕ, ◌<◌, ◌≡◌, refl, ap, arith, List, [], ◌∷◌, Option, none, some, Bool, true, false, Bytes,
}
use rebuild.Base.{
  replicate, same_string_cases, get_elem?_bound, same_string, In, here, there, ◌⊎◌, if◌then◌else◌,
}
use rebuild.Base.{RebuildError, Bool-cases, inl, inr, ◌∙◌, sym, In}
use rebuild.Bridge.{Script, finish, depend_on, sys}
use rebuild.Bridge.{register_target, Interpreter}
use mathlib.Core.Path.{subst}
use rebuild.Main.Course.{some_injective}
use rebuild.Map
use rebuild.Map.{Map}
use rebuild.Map.Writes.{IsWrite, set-IsWrite, blank-IsEmpty}
use rebuild.Recipe.{Recipe}
use rebuild.Scheduler.Creation.{no_value}
use rebuild.Scheduler.Invariant.{IsScheduler}
use rebuild.Scheduler.Recipes.{IsRecipes, IsRecipes-new}
use rebuild.Table.{free}
use rebuild.Table.Rehash.{IsValid}
use rebuild.Target.{Target, TargetRegistry, target_registry_get}
use rebuild.Tests.Cache.{waiting, no_strings-IsValid}
use rebuild.Tests.Targets.{app, lib, one_target, one_target-IsValid, one_target-IsWrite}
use rebuild.Tool.{tool_manager_create}
use rebuild.Hash.{reads}
use rebuild.Hash.Tree.{missing}
use rebuild.Main.{build_name, register_name, is_build_file}
use rebuild.Scheduler.Registration.{Registers}
use rebuild.Scheduler.Host.{Host, Child, prints, warns, reaches_end}
use rebuild.Scheduler.Pipes.{IsHost}
use rebuild.Scheduler.State.{Scheduler, scheduler_create}
use rebuild.Storage.{Os, Kind, regular, directory, made}
use rebuild.Tests.Disks.{added, opened, blank_disk}

program : Unit {0}
unfolding same_string Registers target_registry_get scheduler_create tool_manager_create Map.create
program = tt

-- BUILD.um is in "/w".
abbrev pub work : Bytes
work = b'/' ∷ b'w' ∷ []

abbrev pub found : (Bytes → Bool) → Bytes → Option Kind
found d p =
    if same_string p (b'/' ∷ b'w' ∷ build_name)
    then some regular
    else if d p
    then some directory
    else none

abbrev pub machine : Os
machine = record { Disk = Bytes → Bool; stat = found; mkdir = λ d p. (made, added d p) }

-- Every command writes "hi", which comes in two reads, warns of something and exits with 0; files
-- are empty.
abbrev pub greeting : Child
greeting = record {
  acts = prints (b'h' ∷ b'i' ∷ []) ∷ warns (b'!' ∷ []) ∷ [];
  out_cuts = 0 ∷ [];
  err_cuts = [];
  exit_code = some 0;
}

abbrev pub host : Host
host = record {
  os = machine;
  node = λ d p. missing;
  content = λ d p. reads [] false;
  open_write = λ d p. none;
  close_write = λ d p w. d;
  read_file = λ d p. if is_build_file (found d p) then some [] else none;
  hrtime = λ d. (5, d);
  time_digits = λ d. b'7' ∷ [];
  pid_digits = λ d. b'9' ∷ [];
  spawn = λ d dir args. (some greeting, d);
  glob = λ d pattern. some [];
  pipe_capacity = 4;
}

instance pub host-IsHost : IsHost host
unfolding reaches_end
host-IsHost = record { unblocked = λ d dir args. refl }

-- `register_targets` registers both targets.
abbrev pub app_function : Bytes
app_function = b'g' ∷ []

abbrev pub register_both : Script
register_both =
    register_target (some app) (some app_function)
      (register_target (some lib) (some (b'f' ∷ [])) (finish true))

abbrev pub build_app : Script
build_app = depend_on (some lib) λ path. finish true

abbrev pub build_lib : Script
build_lib = sys ((b'c' ∷ b'c' ∷ []) ∷ []) λ code. finish true

abbrev pub function_of : ℕ → Bytes → Option Script
function_of umka f =
    if same_string f register_name
    then some register_both
    else if same_string f app_function
    then some build_app
    else if same_string f (b'f' ∷ [])
    then some build_lib
    else none

abbrev pub interpreter : Interpreter
interpreter = record {
  Umka = ℕ;
  init = λ path source. some 0;
  add_func = λ umka name. some umka;
  compile = λ umka. some umka;
  get_func = function_of;
}

abbrev pub both : List Bytes
both = app ∷ lib ∷ []

pub functions_register :
    (umka : ℕ) (f : Bytes) (x : Script) → function_of umka f ≡ some x → Registers both x
unfolding program
functions_register umka f x e = elim (Bool-cases (same_string f register_name)) [
  | inl c ↦
      let g : some register_both ≡ some x = rw c at e in
      subst (Registers both) (some_injective g) (here refl, (there (here refl), tt))
  | inr c ↦ elim (Bool-cases (same_string f app_function)) [
    | inl c' ↦
        let g : some build_app ≡ some x = rw (c, c') at e in
        subst (Registers both) (some_injective g) (λ y. tt)
    | inr c' ↦ elim (Bool-cases (same_string f (b'f' ∷ []))) [
      | inl c'' ↦
          let g : some build_lib ≡ some x = rw (c, c', c'') at e in
          subst (Registers both) (some_injective g) (λ y. tt)
      | inr c'' ↦ let g : none ≡ some x = rw (c, c', c'') at e in absurd (cc)
    ]
  ]
]

abbrev pub blank_map : {V : Type 0} → Map V
blank_map = record { entries = replicate 64 free; capacity = 64; size = 0; tombstones = 0 }

-- The scheduler with one target, "l".
abbrev pub registry : TargetRegistry ℕ
registry = record { targets = one_target; umka = 1; current = true }

abbrev pub written : Option (RebuildError × Map ℕ) → Map ℕ
written none = blank_map
written (some r) = r.1

-- The recipe of "l" has the address 0.
abbrev pub one_name : Map ℕ
one_name = written (Map.set blank_map lib 0)

abbrev pub recipe : Recipe
recipe = record waiting { target_name = lib }

abbrev pub state : List ℕ → Option ℕ → Scheduler ℕ (Bytes → Bool)
state queue context = record {
  storage = opened;
  tools = record { tools = blank_map; search_paths = [] };
  recipes = one_name;
  completed = blank_map;
  ready_queue = queue;
  waiting = blank_map;
  umka = some 1;
  registry = some registry;
  active_count = 0;
  failed = false;
  target_error = none;
  heap = recipe ∷ [];
  lists = [];
  context = context;
  disk = blank_disk;
}

one_name-IsWrite : IsWrite blank_map lib (some 0) one_name
one_name-IsWrite =
    let (m, run, w) = set-IsWrite blank_map lib 0 (blank-IsEmpty {V = ℕ} 64 (omega arith)).valid in
    subst (IsWrite blank_map lib (some 0)) (sym (ap written run)) w

no-IsRecipes : IsRecipes [] blank_map blank_map
no-IsRecipes = record {
  recipes_valid = (blank-IsEmpty {V = ℕ} 64 (omega arith)).valid;
  completed_valid = (blank-IsEmpty {V = Bytes} 64 (omega arith)).valid;
  listed = λ p a h. absurd (no_value ((blank-IsEmpty {V = ℕ} 64 (omega arith)).reads p) h);
  named = λ a r h. cc;
  sets = λ a r h. absurd (cc);
  recorded = λ a r h. cc;
  known = λ p path h. absurd (no_value ((blank-IsEmpty {V = Bytes} 64 (omega arith)).reads p) h);
}

one_recipe : IsRecipes (recipe ∷ []) one_name blank_map
one_recipe =
    IsRecipes-new no-IsRecipes recipe one_name ((blank-IsEmpty {V = ℕ} 64 (omega arith)).reads lib)
      (record { declared = no_strings-IsValid; pending_ok = no_strings-IsValid }) refl
      one_name-IsWrite

-- The invariant for the recipe that runs, and for the one in the queue.
pub state-IsScheduler :
    (Ex : ℕ → Type 0) (queue : List ℕ) (context : Option ℕ)
    → ((a : ℕ) → In a queue → a < 1)
    → (Ex 0 ⊎ In 0 queue)
    → IsScheduler Ex both (state queue context)
unfolding program
state-IsScheduler Ex queue context live kept = record {
  recipes_ok = one_recipe;
  waiting_ok = record {
    valid = (blank-IsEmpty {V = ℕ} 64 (omega arith)).valid;
    found = λ p w h. absurd (no_value ((blank-IsEmpty {V = ℕ} 64 (omega arith)).reads p) h);
    live = λ w l h. absurd (cc);
  };
  queued = λ a mem. omega (arith, live a mem);
  settled = λ a r at.
      let first : a ≡ 0 = omega (arith, get_elem?_bound (recipe ∷ []) a at) in
      elim kept [
        | inl x ↦ inl (subst Ex (sym first) x)
        | inr x ↦ inr (inr (subst (λ y. In y queue) (sym first) x))
      ];
  registry_ok = record {
    targets_valid = λ g h. subst (λ x. IsValid x.targets) (some_injective h) one_target-IsValid;
    within = λ g p t h found. elim (same_string_cases p lib) [
      | inl e ↦ subst (λ x. In x both) (sym e) (there (here refl))
      | inr (n, e) ↦
          let gone : none ≡ some t =
            sym (
              one_target-IsWrite.reads p
              ∙ rw e ((blank-IsEmpty {V = Target ℕ} 2 (omega arith)).reads p))
            ∙ ap (λ x. Map.get x.targets p) (some_injective h)
            ∙ found in
          absurd (cc)
    ];
  };
}
