-- ===== src/Lib.antt =====
-- rebuild: a build system whose recipes are run by a scheduler and cached by traces (src/).
--
-- The parts and how they interact. A map (src/map.c) and a set (src/set.c) are open-addressing hash
-- tables with string keys. A hash (src/hash.c) is a BLAKE2b digest of a file, a string or a directory.
-- A recipe (src/recipe.c) keeps the set of dependencies it has declared and derives its request key
-- from the code hash, its name and these. A trace (src/trace.c) records, under a request key, the
-- hashes of the dependencies and of the output; it is saved to and loaded from a binary file, and it
-- is valid as long as the dependencies still have these hashes. The scheduler (src/scheduler.c) runs
-- recipes from a queue and consults traces; src/storage.c says where traces lie, src/target.c keeps
-- the targets that BUILD.um files define, src/tool.c finds the tools that recipes run, and
-- src/buffer.c collects their output. A recipe's function is a function of the BUILD.um file: the
-- interpreter calls back into the bridge (src/umka_bridge.c), which calls the scheduler. The command
-- line (src/main.c) puts these together.
--
-- The files:
--   Base      booleans, lists, C strings, exclusive or, and `RebuildError` of src/common.h
--   Table     what src/map.c and src/set.c share: slots, `hash_string`, `map_find_entry`,
--             `set_find_entry`, `map_grow`, `set_grow`. Table/Probe and Table/Find are about the
--             search, Table/Write and Table/Update about a write to one slot, Table/Rehash about
--             growth and the invariant `IsValid`, Table/Capacity about the capacity of a new table
--   Map       src/map.c: `map_create` to `map_clear`, with the names less the prefix. Map/Writes has
--             the operations on one key, Map/Items those on all of them
--   Set       src/set.c in the same way. Set/Members has the operations on one string, from the map's
--             theorems; Set/Bulk has `set_union`, `set_copy` and `set_contains_all`
--   Hash      src/hash.c over an interface to BLAKE2b, `Blake2`; Hash/Tree has `hash_tree` over a tree
--             of nodes, Hash/Hex the hexadecimal form, Hash/Chunks the reading of a file
--   Trace     src/trace.c; Trace/Format has `trace_save` and `trace_load`, as a writer into a buffered
--             file of limited room and a reader of the bytes that are left
--   Recipe    src/recipe.c: Recipe/Deps has the declared dependencies, Recipe/Key the request key
--   Scheduler src/scheduler.c. The parent has its use of traces (Scheduler/Recorded the trace of a
--             recipe that has run, Scheduler/Cached the check of the cache). Scheduler/State has the
--             state, the queue, the waiters and the requests, Scheduler/Host the system and commands,
--             Scheduler/Run the execution of recipes and the loop. The proofs: Scheduler/Recipes and
--             Scheduler/Invariant have the invariant, Scheduler/Waiters, Scheduler/Found,
--             Scheduler/Requests, Scheduler/Registration and Scheduler/Calls what keeps it while a
--             function runs, Scheduler/Completion and Scheduler/Execution the run of a recipe,
--             Scheduler/Missing, Scheduler/Loop and Scheduler/Termination the loop, Scheduler/Checks
--             and Scheduler/Builds the build of a target, Scheduler/Creation the first state,
--             Scheduler/Suspension the lack of suspension and Scheduler/Pipes the output of a command
--   Bridge    src/umka_bridge.c over an interface to the interpreter: Bridge has the loading of a
--             script, Bridge/Foreign the foreign functions and the call of a function, Bridge/Outside
--             a call without a context
--   Main      src/main.c: the arguments, the search for BUILD.um and the steps of a build. Main/Arguments
--             is about the arguments, Main/Search about the search, Main/Course about the course from
--             the arguments to the exit
--   Storage   src/storage.c over an interface to `stat` and `mkdir`, `Os`. Storage/Paths has the paths
--             of traces, Storage/Directories what `storage_init` makes
--   Target    src/target.c: Target/Load has the registration of targets and the loading of a BUILD.um
--             file, Target/Names the list of names
--   Tool      src/tool.c over an interface to the files, `Files`: Tool/Search has PATH and the search in
--             it, Tool/Load the loading of a tool
--   Buffer    src/buffer.c, with Buffer/Growth
--   Tests     runs at concrete inputs, and instances of the theorems
--
-- What corresponds to what. A C struct is a record with the same field names, an array with its count
-- a list, a `char*` a list of bytes without the terminating zero, an `out` parameter or a changed
-- object a result. A NULL result is `none`. Memory is not modelled: `rebuild_malloc` and its relatives
-- in src/common.c end the program when memory runs out, so the branches on a NULL from them are dead,
-- and NULL arguments do not occur, but for those of the foreign functions. Where recipes and waiter
-- lists are shared and changed, the model has a heap: a pointer is a place in a list of records, and
-- a write through it is a write at that place. The queue is the list of its nodes. A function of a
-- BUILD.um file is the tree of the foreign functions that it calls, with what it does on each answer,
-- so the call of a function is a recursion on that tree. Counters of size_t are natural numbers, except where a loop
-- multiplies one without a bound (`round_up`); a hash value has its 32 bits.
--
-- Bounds and fuel. `map_find_entry` is a recursion on the number of rounds, `capacity`. The loop that
-- rounds a capacity up to a power of two has fuel for 64 tests, enough for every request of up to
-- 2 ^ 63, which is the greatest power of two in size_t. The loop that grows a buffer by half has as
-- much fuel as the caller of the model gives; as many rounds as bytes are wanted are enough, except at
-- the capacity one, where no fuel is. The loop of `scheduler_run` has fuel for its tests, and that of
-- `find_build_file` for its rounds.
--
-- Interfaces to code outside the repository are records: `Blake2` with the laws `IsStreaming`,
-- `Qsort` and `StringSort` with the law that sorting permutes, `Os` with the laws `IsOs` and with
-- `IsShared` for other processes that make the same directory, `Files`, `Host` for the files, clocks and
-- processes of the scheduler, with `IsHost` where no child process blocks, and `Interpreter` for Umka.
-- `dirname` is a function with two results, what it returns and what its argument holds afterwards, with
-- the laws `IsDirname`.
--
-- Not modelled: logging and the texts of src/main.c; the release of memory; Umka's stack slots, type
-- records and thread-local storage, whose context is a field of the scheduler's state; libuv, whose
-- event loop is made and never run. A child process is the order of its writes and its exit code; where
-- it blocks on a full pipe for ever, `scheduler_execute_sys` has no result, `none`. The functions of a
-- BUILD.um file are finite trees: one that loops for ever is not covered, nor one that keeps something in
-- a global variable for the next. The file of a trace is opened by `open_trace` of Scheduler/Run, and
-- `trace_load` has what is in it.
pub mod Base
pub mod Table
pub mod Main
pub mod Map
pub mod Set
pub mod Hash
pub mod Trace
pub mod Storage
pub mod Bridge
pub mod Buffer
pub mod Target
pub mod Tool
pub mod Recipe
pub mod Scheduler
pub mod Tests
