-- ===== src/Scheduler/Pipes.antt =====
-- `scheduler_execute_sys`: the output of a child process.
use mathlib.Core.List.{append_assoc, append-nil}
use rebuild.Base.{ℕ, ◌+◌, ◌≤◌, ◌≡◌, refl, sym, ◌∙◌, arith, List, [], ◌∷◌, ◌++◌, Option, none, some}
use rebuild.Base.{
  Bytes, length, get_elem?, zero, suc, ◌-◌, ◌<◌, ◌↔◌, ◌⊎◌, inl, inr, ap, take, drop, leb,
  Bool-cases, true, length-append,
}
use rebuild.Buffer.{Buffer, buffer_create, buffer_to_string}
use rebuild.Buffer.Growth.{buffer_append_lem}
use rebuild.Recipe.{Recipe}
use rebuild.Scheduler.Host.{
  Act, prints, warns, closes, Child, out_bytes, err_bytes, reaches_end, cut, Host,
}
use rebuild.Scheduler.Host.{read_pipe, read_child, scheduler_execute_sys}
use rebuild.Scheduler.State.{Scheduler}

-- All that the reads return, one after the other.
abbrev pub joined : List Bytes → Bytes
joined [] = []
joined (chunk ∷ chunks) = chunk ++ joined chunks

read_pipe-joined :
    (chunks : List Bytes) (buf : Buffer)
    → 2 ≤ buf.capacity
    → length buf.bytes ≤ buf.capacity
    → (c : ℕ) × (read_pipe buf chunks
        ≡ some (record { bytes = buf.bytes ++ joined chunks; capacity = c }))
unfolding read_pipe
read_pipe-joined [] buf two fits = (
  buf.capacity,
  λ i. some (record { bytes = sym (append-nil buf.bytes) i; capacity = buf.capacity }),
)
read_pipe-joined (chunk ∷ chunks) buf two fits =
    let (c, run, big, more) =
      buffer_append_lem buf chunk (length buf.bytes + length chunk) (omega arith) fits
        (omega arith) in
    let (c', run') =
      read_pipe-joined chunks (record { bytes = buf.bytes ++ chunk; capacity = c })
        (omega (arith, more)) big in
    (
      c',
      rw (read_pipe, run)
          (run' ∙ λ i.
            some
              (record { bytes = append_assoc buf.bytes chunk (joined chunks) i; capacity = c' })),
    )

take-drop : (n : ℕ) (bytes : Bytes) → take n bytes ++ drop n bytes ≡ bytes
take-drop zero bytes = refl
take-drop (suc n) [] = refl
take-drop (suc n) (c ∷ cs) = ap (λ l. c ∷ l) (take-drop n cs)

joined-cut : (ns : List ℕ) (bytes : Bytes) → joined (cut ns bytes) ≡ bytes
unfolding cut
joined-cut [] [] = refl
joined-cut (n ∷ ns) [] = refl
joined-cut [] (c ∷ cs) = append-nil (c ∷ cs)
joined-cut (n ∷ ns) (c ∷ cs) =
    ap (λ l. (c ∷ take n cs) ++ l) (joined-cut ns (drop n cs)) ∙ ap (λ l. c ∷ l) (take-drop n cs)

-- The exit code and the outputs of a child process, or of none.
abbrev pub answered : Option Child → Option ℕ × Option (Bytes × Bytes)
answered none = (none, none)
answered (some child) = (child.exit_code, some (out_bytes child.acts, err_bytes child.acts))

-- A child that writes so little to stderr before stdout ends that it does not block, or none.
abbrev pub IsUnblocked : ℕ → Option Child → Type 0
IsUnblocked capacity none = Unit {0}
IsUnblocked capacity (some child) = reaches_end capacity child.acts ≡ true

-- No child of this machine blocks on stderr while stdout is read.
pub record IsHost (h : Host) : Type 0 where
  pub unblocked :
      (d : h.os.Disk) (dir : Option Bytes) (args : List Bytes)
      → IsUnblocked h.pipe_capacity (h.spawn d dir args).0

-- All that is written to stderr while stdout is open.
abbrev pub early_err : List Act → Bytes
early_err [] = []
early_err (prints bytes ∷ acts) = early_err acts
early_err (warns bytes ∷ acts) = bytes ++ early_err acts
early_err (closes ∷ acts) = []

reaches_end_iff :
    (acts : List Act) (room : ℕ) → (reaches_end room acts ≡ true) ↔ (length (early_err acts) ≤ room)
unfolding reaches_end
reaches_end_iff [] room = (λ h. omega arith, λ h. refl)
reaches_end_iff (prints bytes ∷ acts) room = reaches_end_iff acts room
reaches_end_iff (closes ∷ acts) room = (λ h. omega arith, λ h. refl)
reaches_end_iff (warns bytes ∷ acts) room =
    let rest = reaches_end_iff acts (room - length bytes) in
    let sum = length-append bytes (early_err acts) in
    elim (Bool-cases (leb (length bytes) room)) [
      | inr e ↦ (λ h. absurd (ground (arith, h, e)), λ h. absurd (ground (arith, h, e, sum)))
      | inl e ↦
          let fits : length bytes ≤ room = ground arith in
          (
            λ h. let more = rest.0 (ground (arith, h, e)) in omega (arith, more, sum, fits),
            λ h. let more = rest.1 (omega (arith, h, sum)) in rw (e, more) refl,
          )
    ]

module _ {Umka : Type 0} (h : Host) where
  -- Where the child does not block.
  read_child-answered :
      (s : Scheduler Umka h.os.Disk) (child : Option Child) (d : h.os.Disk)
      → IsUnblocked h.pipe_capacity child
      → read_child h s (child, d)
        ≡ some ((answered child).0, (answered child).1, record s { disk = d })
  unfolding read_child buffer_create buffer_to_string
  read_child-answered s none d e = refl
  read_child-answered s (some child) d e =
      let out = cut child.out_cuts (out_bytes child.acts) in
      let err = cut child.err_cuts (err_bytes child.acts) in
      let (c, run) = read_pipe-joined out (buffer_create 1024) (omega arith) (omega arith) in
      let (c', run') = read_pipe-joined err (buffer_create 1024) (omega arith) (omega arith) in
      let whole = joined-cut child.out_cuts (out_bytes child.acts) in
      let whole' = joined-cut child.err_cuts (err_bytes child.acts) in
      rw (read_child, e, run, run', whole, whole') refl

  -- What a run with a child shows: it returns what the child wrote exactly if it does not block.
  abbrev pub Ran :
      Scheduler Umka h.os.Disk
      → Option Child × h.os.Disk
      → Option (Option ℕ × Option (Bytes × Bytes) × Scheduler Umka h.os.Disk)
      → Type 0
  Ran s (none, d) r = r ≡ some (none, none, record s { disk = d })
  Ran s (some child, d) r =
      ((length (early_err child.acts) ≤ h.pipe_capacity)
        × (r
            ≡ some (
              child.exit_code,
              some (out_bytes child.acts, err_bytes child.acts),
              record s { disk = d },
            )))
      ⊎ ((h.pipe_capacity < length (early_err child.acts)) × (r ≡ none))

  read_child-Ran :
      (s : Scheduler Umka h.os.Disk) (child : Option Child) (d : h.os.Disk)
      → Ran s (child, d) (read_child h s (child, d))
  unfolding read_child
  read_child-Ran s none d = refl
  read_child-Ran s (some child) d =
      let iff = reaches_end_iff child.acts h.pipe_capacity in
      elim (Bool-cases (reaches_end h.pipe_capacity child.acts)) [
        | inl e ↦ inl (iff.0 e, read_child-answered s (some child) d e)
        | inr e ↦
            let long : ¬ (length (early_err child.acts) ≤ h.pipe_capacity) =
              λ le. let t = iff.1 le in cc in
            inr (omega (arith, long), rw (read_child, e) refl)
      ]

  -- `scheduler_execute_sys` with arguments, for a recipe on the heap, starts the command in the
  -- recipe's temporary directory. It returns the exit code of the child and all that the child wrote
  -- to its two outputs, whatever the sizes of the reads, if what the child writes to stderr before
  -- it closes stdout fits into a pipe that nobody reads. If it does not fit, the call never returns.
  -- Where no child can be started, it returns -1 and leaves the outputs unset.
  pub scheduler_execute_sys-joined :
      (s : Scheduler Umka h.os.Disk) (a : ℕ) (r : Recipe) (arg : Bytes) (args : List Bytes)
      → get_elem? s.heap a ≡ some r
      → Ran s (h.spawn s.disk r.temp_dir (arg ∷ args)) (scheduler_execute_sys h s a (arg ∷ args))
  unfolding scheduler_execute_sys
  scheduler_execute_sys-joined s a r arg args at =
      let child = h.spawn s.disk r.temp_dir (arg ∷ args) in rw at (read_child-Ran s child.0 child.1)

  pub scheduler_execute_sys-answered :
      (s : Scheduler Umka h.os.Disk) (a : ℕ) (r : Recipe) (arg : Bytes) (args : List Bytes)
      → get_elem? s.heap a ≡ some r
      → IsUnblocked h.pipe_capacity (h.spawn s.disk r.temp_dir (arg ∷ args)).0
      → scheduler_execute_sys h s a (arg ∷ args)
        ≡ some (
          (answered (h.spawn s.disk r.temp_dir (arg ∷ args)).0).0,
          (answered (h.spawn s.disk r.temp_dir (arg ∷ args)).0).1,
          record s { disk = (h.spawn s.disk r.temp_dir (arg ∷ args)).1 },
        )
  unfolding scheduler_execute_sys
  scheduler_execute_sys-answered s a r arg args at e =
      let child = h.spawn s.disk r.temp_dir (arg ∷ args) in
      rw at (read_child-answered s child.0 child.1 e)
