-- ===== src/Scheduler/Host.antt =====
-- What the scheduler uses of the system, and `scheduler_execute_sys` of src/scheduler.c.
use rebuild.Base.{Bool, true, false, ◌-◌, leb, ◌&&◌, ◌++◌, take, drop}
use rebuild.Base.{ℕ, suc, ◌+◌, List, [], ◌∷◌, Option, none, some, Bytes, length, ◌>>=◌, get_elem?}
use rebuild.Buffer.{Buffer, buffer_create, buffer_append, buffer_to_string}
use rebuild.Hash.{File}
use rebuild.Hash.Tree.{Node}
use rebuild.Scheduler.State.{Scheduler}
use rebuild.Storage.{Os}
use rebuild.Trace.Format.{Writer}

-- What a child process does to its pipes, in order: a write to stdout or to stderr, or closing
-- stdout.
pub data Act : Type 0 where
  prints : Bytes → Act
  warns : Bytes → Act
  closes : Act

-- A child process: what it does, and its exit code, `none` if it does not exit by itself. `out_cuts`
-- and `err_cuts` say how the reads of the two pipes cut what is written.
pub record Child : Type 0 where
  pub acts : List Act
  pub out_cuts : List ℕ
  pub err_cuts : List ℕ
  pub exit_code : Option ℕ

-- What stdout gets until it is closed, and what stderr gets.
abbrev pub out_bytes : List Act → Bytes
out_bytes [] = []
out_bytes (prints bytes ∷ acts) = bytes ++ out_bytes acts
out_bytes (warns bytes ∷ acts) = out_bytes acts
out_bytes (closes ∷ acts) = []

abbrev pub err_bytes : List Act → Bytes
err_bytes [] = []
err_bytes (prints bytes ∷ acts) = err_bytes acts
err_bytes (warns bytes ∷ acts) = bytes ++ err_bytes acts
err_bytes (closes ∷ acts) = err_bytes acts

-- Whether stdout comes to its end while nobody reads stderr: a write to a pipe that is full, with
-- so much room left, blocks for ever.
unfoldable pub reaches_end : ℕ → List Act → Bool
reaches_end room [] = true
reaches_end room (prints bytes ∷ acts) = reaches_end room acts
reaches_end room (warns bytes ∷ acts) =
    let rest = reaches_end (room - length bytes) acts in leb (length bytes) room && rest
reaches_end room (closes ∷ acts) = true

-- The reads of a pipe: each takes a byte and so many more, the last what is left.
unfoldable pub cut : List ℕ → Bytes → List Bytes
cut ns [] = []
cut [] bytes = bytes ∷ []
cut (n ∷ ns) bytes = take (suc n) bytes ∷ cut ns (drop (suc n) bytes)

-- `node` is what stands at a path, `content` what reading the file there gives. `open_write` and
-- `close_write` are `fopen` with "wb" and `fclose`, `read_file` is a whole file. `hrtime` is
-- `uv_hrtime`; `time_digits` and `pid_digits` are the decimal digits of `time` and `getpid`. `spawn`
-- starts a command in a directory, and fails where `pipe` or `fork` does; `glob` gives the matches,
-- or none at an error. `pipe_capacity` is what a pipe takes that
-- nobody reads.
pub record Host : Type 1 where
  pub os : Os
  pub node : os.Disk → Bytes → Node
  pub content : os.Disk → Bytes → File
  pub open_write : os.Disk → Bytes → Option Writer
  pub close_write : os.Disk → Bytes → Option Writer → os.Disk
  pub read_file : os.Disk → Bytes → Option Bytes
  pub hrtime : os.Disk → ℕ × os.Disk
  pub time_digits : os.Disk → Bytes
  pub pid_digits : os.Disk → Bytes
  pub spawn : os.Disk → Option Bytes → List Bytes → Option Child × os.Disk
  pub glob : os.Disk → Bytes → Option (List Bytes)
  pub pipe_capacity : ℕ

-- The loop of `read` and `buffer_append`. Each append has fuel for as many rounds as there are bytes.
unfoldable pub read_pipe : Buffer → List Bytes → Option Buffer
read_pipe buf [] = some buf
read_pipe buf (chunk ∷ chunks) =
    buffer_append (suc (length buf.bytes + length chunk)) buf chunk >>= λ r. read_pipe r.1 chunks

module _ {Umka : Type 0} (h : Host) where
  -- The parent's part, with what `spawn` returned: the exit code, stdout and stderr. The first loop
  -- waits for the end of stdout, and the result is `none` if that never comes.
  unfoldable pub read_child :
      Scheduler Umka h.os.Disk
      → Option Child × h.os.Disk
      → Option (Option ℕ × Option (Bytes × Bytes) × Scheduler Umka h.os.Disk)
  unfolding read_pipe cut reaches_end
  read_child s (none, disk) = some (none, none, record s { disk = disk })
  read_child s (some child, disk) = elim (reaches_end h.pipe_capacity child.acts) [
    | false ↦ none
    | true ↦
        read_pipe (buffer_create 1024) (cut child.out_cuts (out_bytes child.acts)) >>= λ stdout_buf.
        read_pipe (buffer_create 1024) (cut child.err_cuts (err_bytes child.acts)) >>= λ stderr_buf.
        some (
          child.exit_code,
          some (buffer_to_string stdout_buf, buffer_to_string stderr_buf),
          record s { disk = disk },
        )
  ]

  -- The exit code is `none` for -1. Without arguments, and where no child is started, the outputs
  -- are not set.
  unfoldable pub scheduler_execute_sys :
      Scheduler Umka h.os.Disk
      → ℕ
      → List Bytes
      → Option (Option ℕ × Option (Bytes × Bytes) × Scheduler Umka h.os.Disk)
  unfolding read_child
  scheduler_execute_sys s recipe [] = some (none, none, s)
  scheduler_execute_sys s recipe (arg ∷ args) =
      get_elem? s.heap recipe >>= λ r. read_child s (h.spawn s.disk r.temp_dir (arg ∷ args))
