-- ===== src/Main.antt =====
-- The command line: src/main.c.
--
-- Output to the terminal is not modelled, nor is the cleanup, which only releases memory.
pub mod Arguments
pub mod Search
pub mod Course
use rebuild.Base.{ℕ, zero, suc, List, [], ◌∷◌, ◌++◌, Option, none, some, Bool, true, false, Bytes}
use rebuild.Base.{◌==◌, ◌||◌, ◌>>=◌, same_string, if◌then◌else◌}
use rebuild.Base.{
  RebuildError, ok, error_io, error_memory, error_parse, error_exec, error_hash, error_trace,
}
use rebuild.Bridge.{Interpreter, Script, umka_load_script}
use rebuild.Bridge.Foreign.{umka_call}
use rebuild.Hash.{Blake2}
use rebuild.Hash.Tree.{Qsort}
use rebuild.Recipe.{StringSort}
use rebuild.Scheduler.Host.{Host}
use rebuild.Scheduler.Run.{Outcome, fault, out_of_fuel, returned, scheduler_run, scheduler_build}
use rebuild.Scheduler.State.{Scheduler, scheduler_create}
use rebuild.Storage.{Os, Kind, regular, directory, other, Environment, Storage, storage_init}
use rebuild.Target.{TargetRegistry, target_registry_create}

-- What the arguments ask for: an exit at once, or the build of a target.
pub data Command : Type 0 where
  exits : ℕ → Command
  builds : Bytes → Command

-- "-h", "--help", "--version" and "/BUILD.um"
abbrev pub short_help : Bytes
short_help = b'-' ∷ b'h' ∷ []

abbrev pub long_help : Bytes
long_help = b'-' ∷ b'-' ∷ b'h' ∷ b'e' ∷ b'l' ∷ b'p' ∷ []

abbrev pub version_option : Bytes
version_option = b'-' ∷ b'-' ∷ b'v' ∷ b'e' ∷ b'r' ∷ b's' ∷ b'i' ∷ b'o' ∷ b'n' ∷ []

abbrev pub build_name : Bytes
build_name = b'/' ∷ b'B' ∷ b'U' ∷ b'I' ∷ b'L' ∷ b'D' ∷ b'.' ∷ b'u' ∷ b'm' ∷ []

-- "register_targets"
abbrev pub register_name : Bytes
register_name =
    b'r' ∷ b'e' ∷ b'g' ∷ b'i' ∷ b's' ∷ b't' ∷ b'e' ∷ b'r' ∷ b'_' ∷ b't' ∷ b'a' ∷ b'r' ∷ b'g' ∷ b'e'
    ∷ b't' ∷ b's' ∷ []

-- `argv[i][0] == '-'`
abbrev pub is_option : Bytes → Bool
is_option [] = false
is_option (c ∷ cs) = c == b'-'

-- The loop over the arguments, with the target so far.
unfoldable pub parse_arguments : Option Bytes → List Bytes → Command
parse_arguments none [] = exits 1
parse_arguments (some target_name) [] = builds target_name
parse_arguments target (arg ∷ args) =
    if same_string arg short_help || same_string arg long_help
    then exits 0
    else if same_string arg version_option
    then exits 0
    else if is_option arg
    then exits 1
    else elim target [ none ↦ parse_arguments (some arg) args | some target_name ↦ exits 1 ]

abbrev pub is_build_file : Option Kind → Bool
is_build_file none = false
is_build_file (some regular) = true
is_build_file (some directory) = false
is_build_file (some other) = false

-- libc's `dirname`: what it returns, and what its argument, which it may change, holds then. What is
-- documented of it stands in `IsDirname` of Main/Search.
module _ (os : Os) (dirname : Bytes → Bytes × Bytes) where
  -- The loop of `find_build_file`, with fuel; the outer `none` means that the fuel ran out.
  unfoldable pub search_up : ℕ → os.Disk → Bytes → Option (Option Bytes)
  search_up zero d search_dir = none
  search_up (suc fuel) d search_dir =
      let (parent, search_dir') = dirname search_dir in
      elim (is_build_file (os.stat d (search_dir ++ build_name))) [
        | true ↦ some (some (search_dir ++ build_name))
        | false ↦ elim (same_string parent search_dir' || same_string parent (b'/' ∷ [])) [
          | true ↦ some none
          | false ↦ search_up fuel d parent
        ]
      ]

  -- The argument is what `getcwd` returns.
  unfoldable pub find_build_file : ℕ → os.Disk → Option Bytes → Option (Option Bytes)
  unfolding search_up
  find_build_file fuel d none = some none
  find_build_file fuel d (some cwd) = search_up fuel d cwd

abbrev pub error_code : RebuildError → ℕ
error_code ok = 0
error_code error_io = 1
error_code error_memory = 2
error_code error_parse = 3
error_code error_exec = 4
error_code error_hash = 5
error_code error_trace = 6

-- How the program ends: with an exit code and the scheduler's state if there is one, with a fault, or
-- not within the fuel.
pub data Exit (S : Type 0) : Type 0 where
  stopped : ℕ → Exit S
  finished : ℕ → S → Exit S
  faulted : Exit S
  endless : Exit S

module _ (b : Blake2) (q : Qsort) (ss : StringSort) (h : Host) (i : Interpreter) where
  abbrev pub State : Type 0
  State = Scheduler i.Umka h.os.Disk

  -- Step 8: the loop is run once more, with fuel for one test more.
  unfoldable pub after_build : ℕ → Outcome State → Exit State
  after_build fuel fault = faulted
  after_build fuel out_of_fuel = endless
  after_build fuel (returned ok s) = elim (scheduler_run b q ss h i (suc fuel) s) [
    | fault ↦ faulted
    | out_of_fuel ↦ endless
    | returned e s' ↦ finished (error_code e) s'
  ]
  after_build fuel (returned e s) = finished (error_code e) s

  -- After the call of `register_targets`.
  unfoldable pub registered : ℕ → Bytes → Option (Bool × State) → Exit State
  unfolding after_build
  registered fuel target_name none = faulted
  registered fuel target_name (some (false, s)) = finished (error_code error_exec) s
  registered fuel target_name (some (true, s)) =
      after_build fuel (scheduler_build b q ss h i fuel s target_name)

  -- The call of `register_targets`. The global points to the registry, which is stored in the
  -- scheduler here already: without a context no foreign function asks the scheduler for it.
  unfoldable pub build_registered : ℕ → Bytes → State → Script → Exit State
  unfolding registered
  build_registered fuel target_name s register_fn =
      registered fuel target_name (umka_call b q h register_fn s)

  -- With the interpreter: its registry, which the global points to, and `register_targets`.
  unfoldable pub build_loaded : ℕ → Bytes → State → i.Umka → Exit State
  unfolding build_registered
  build_loaded fuel target_name s umka = elim (target_registry_create umka) [
    | none ↦ faulted
    | some registry ↦ elim (i.get_func umka register_name) [
      | none ↦ finished (error_code error_parse) s
      | some register_fn ↦
          build_registered fuel target_name
            (record s { umka = some umka; registry = some (record registry { current = true }) })
            register_fn
    ]
  ]

  -- Step 5, with the result of `find_build_file`. `ffi_decls` and `names` are those of the bridge.
  unfoldable pub build_found : Bytes → List Bytes → ℕ → Bytes → State → Option Bytes → Exit State
  unfolding build_loaded
  build_found ffi_decls names fuel target_name s none = finished (error_code error_io) s
  build_found ffi_decls names fuel target_name s (some build_file) =
      elim (umka_load_script i ffi_decls names build_file (h.read_file s.disk build_file)) [
        | none ↦ finished (error_code error_parse) s
        | some umka ↦ build_loaded fuel target_name s umka
      ]

  -- Steps 1 to 5, with the environment, `getenv("PATH")`, `dirname` and what `getcwd` returns. The
  -- scheduler's tool manager is replaced by one made in the same way.
  unfoldable pub build_target :
      Bytes
      → List Bytes
      → (Bytes → Bytes × Bytes)
      → Environment
      → Option Bytes
      → Option Bytes
      → h.os.Disk
      → ℕ
      → ℕ
      → Bytes
      → Exit State
  unfolding build_found find_build_file
  build_target ffi_decls names dirname env path_env cwd d search_fuel fuel target_name =
      let (storage, d') = storage_init h.os d env in
      elim storage [
        | none ↦ stopped (error_code error_io)
        | some st ↦ elim (scheduler_create path_env d' st) [
          | none ↦ faulted
          | some s ↦ elim (find_build_file h.os dirname search_fuel d' cwd) [
            | none ↦ endless
            | some build_file ↦ build_found ffi_decls names fuel target_name s build_file
          ]
        ]
      ]

  unfoldable pub main :
      Bytes
      → List Bytes
      → (Bytes → Bytes × Bytes)
      → Environment
      → Option Bytes
      → Option Bytes
      → h.os.Disk
      → ℕ
      → ℕ
      → List Bytes
      → Exit State
  unfolding parse_arguments build_target
  main ffi_decls names dirname env path_env cwd d search_fuel fuel args =
      elim (parse_arguments none args) [
        | exits code ↦ stopped code
        | builds target_name ↦
            build_target ffi_decls names dirname env path_env cwd d search_fuel fuel target_name
      ]
