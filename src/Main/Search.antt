-- ===== src/Main/Search.antt =====
-- `find_build_file`: what it finds, and that it ends.
use rebuild.Base.{ℕ, zero, suc, ◌<◌, ◌≤◌, ◌≡◌, ◌≢◌, refl, arith, [], ◌∷◌, ◌++◌, Option, none, some}
use rebuild.Base.{Bool, true, false, Bytes, length, ◌||◌, ◌⊎◌, inl, inr, Bool-cases, same_string}
use rebuild.Base.{same_string_complete, same_string_sound}
use rebuild.Main.{is_build_file, build_name, search_up, find_build_file}
use rebuild.Storage.{Os, Kind, regular, directory, other, is_absolute}

is_build_file_sound : (k : Option Kind) → is_build_file k ≡ true → k ≡ some regular
is_build_file_sound none h = cc
is_build_file_sound (some regular) h = refl
is_build_file_sound (some directory) h = cc
is_build_file_sound (some other) h = cc

is_build_file_refused : (k : Option Kind) → is_build_file k ≡ false → k ≢ some regular
is_build_file_refused none h e = cc
is_build_file_refused (some regular) h e = cc
is_build_file_refused (some directory) h e = let f : directory ≡ regular = cc in cc
is_build_file_refused (some other) h e = let f : other ≡ regular = cc in cc

module _ (dirname : Bytes → Bytes × Bytes) where
  -- The loop stops at this directory.
  abbrev pub is_last : Bytes → Bool
  is_last p = same_string (dirname p).0 (dirname p).1 || same_string (dirname p).0 (b'/' ∷ [])

  -- `dirname` returns what it leaves in its argument, or the root.
  abbrev pub IsLast : Bytes → Type 0
  IsLast p = ((dirname p).0 ≡ (dirname p).1) ⊎ ((dirname p).0 ≡ b'/' ∷ [])

  is_last-IsLast : (p : Bytes) → is_last p ≡ true → IsLast p
  is_last-IsLast p h = elim (Bool-cases (same_string (dirname p).0 (dirname p).1)) [
    | inl e ↦ inl (same_string_sound _ _ e)
    | inr e ↦ inr (same_string_sound _ _ (ground (arith, h, e)))
  ]

  is_last_not : (p : Bytes) → is_last p ≡ false → ¬ IsLast p
  is_last_not p h (inl e) =
      let f = same_string_complete (dirname p).0 (dirname p).1 e in ground (arith, h, f)
  is_last_not p h (inr e) =
      let f = same_string_complete (dirname p).0 (b'/' ∷ []) e in ground (arith, h, f)

  -- The documented behaviour of `dirname` on absolute paths: the result is absolute, and a shorter
  -- path, unless it is what the argument holds or the root.
  pub record IsDirname : Type 0 where
    pub absolute : (p : Bytes) → is_absolute p ≡ true → is_absolute (dirname p).0 ≡ true
    pub shorter :
        (p : Bytes) → is_absolute p ≡ true → is_last p ≡ false → length (dirname p).0 < length p

  -- The directory that stands this many levels up.
  abbrev pub climb : ℕ → Bytes → Bytes
  climb zero p = p
  climb (suc k) p = climb k (dirname p).0

  module _ (os : Os) (d : os.Disk) where
    abbrev pub HasNone : Bytes → Type 0
    HasNone dir = os.stat d (dir ++ build_name) ≢ some regular

    -- A directory that the search goes on from.
    abbrev pub IsPassed : Bytes → Type 0
    IsPassed dir = HasNone dir × (¬ IsLast dir)

    -- The file stands in the first directory on the way up that has one; or none has, and the
    -- last directory of the way ends the search.
    abbrev pub IsNearest : Bytes → Option Bytes → Type 0
    IsNearest cwd (some path) =
        (k : ℕ) × (path ≡ climb k cwd ++ build_name)
        × (os.stat d path ≡ some regular)
        × ((j : ℕ) → j < k → IsPassed (climb j cwd))
    IsNearest cwd none =
        (k : ℕ) × HasNone (climb k cwd)
        × IsLast (climb k cwd)
        × ((j : ℕ) → j < k → IsPassed (climb j cwd))

    IsPassed-up :
        (p : Bytes) (k : ℕ)
        → IsPassed p
        → ((j : ℕ) → j < k → IsPassed (climb j (dirname p).0))
        → (j : ℕ) → j < suc k
        → IsPassed (climb j p)
    IsPassed-up p k here rest zero lt = here
    IsPassed-up p k here rest (suc j) lt = rest j (omega arith)

    IsNearest-up :
        (p : Bytes) (found : Option Bytes)
        → IsPassed p
        → IsNearest (dirname p).0 found
        → IsNearest p found
    IsNearest-up p (some path) here (k, at, is, rest) = (suc k, at, is, IsPassed-up p k here rest)
    IsNearest-up p none here (k, is, last, rest) = (suc k, is, last, IsPassed-up p k here rest)

    -- A round of the loop, with what the next one would do.
    search_up-round :
        (fuel : ℕ) (p : Bytes)
        → (is_last p ≡ false
            → (found : Option Bytes) × (search_up os dirname fuel d (dirname p).0 ≡ some found)
              × IsNearest (dirname p).0 found)
        → (found : Option Bytes) × (search_up os dirname (suc fuel) d p ≡ some found)
          × IsNearest p found
    unfolding search_up
    search_up-round fuel p rest = elim (Bool-cases (is_build_file (os.stat d (p ++ build_name)))) [
      | inl e ↦ (
        some (p ++ build_name),
        rw (search_up, e) refl,
        (0, refl, is_build_file_sound _ e, λ j lt. absurd (omega arith)),
      )
      | inr e ↦ elim (Bool-cases (is_last p)) [
        | inl f ↦ (
          none,
          rw (search_up, e, f) refl,
          (0, is_build_file_refused _ e, is_last-IsLast p f, λ j lt. absurd (omega arith)),
        )
        | inr f ↦
            let (found, run, near) = rest f in
            (
              found,
              rw (search_up, e, f) run,
              IsNearest-up p found (is_build_file_refused _ e, is_last_not p f) near,
            )
      ]
    ]

    search_up-IsNearest :
        (fuel : ℕ) (p : Bytes)
        → IsDirname
        → is_absolute p ≡ true
        → length p ≤ fuel
        → (found : Option Bytes) × (search_up os dirname (suc fuel) d p ≡ some found)
          × IsNearest p found
    search_up-IsNearest zero p laws rooted enough =
        search_up-round zero p (λ f. absurd (omega (arith, laws.shorter p rooted f, enough)))
    search_up-IsNearest (suc fuel) p laws rooted enough =
        let rest = search_up-IsNearest fuel (dirname p).0 laws (laws.absolute p rooted) in
        search_up-round (suc fuel) p (λ f. rest (omega (arith, laws.shorter p rooted f, enough)))

    -- If `dirname` keeps its laws and the current directory's path is absolute, `find_build_file` ends
    -- within one round for each byte of that path and one more. It returns the regular file BUILD.um
    -- of the first directory that has one on the way up from the current directory. It returns
    -- NULL only where no directory has one up to the first for which `dirname` returns the root,
    -- or what its argument holds then.
    pub find_build_file-IsNearest :
        (cwd : Bytes) (fuel : ℕ)
        → IsDirname
        → is_absolute cwd ≡ true
        → length cwd ≤ fuel
        → (found : Option Bytes) × (find_build_file os dirname (suc fuel) d (some cwd) ≡ some found)
          × IsNearest cwd found
    unfolding find_build_file
    find_build_file-IsNearest cwd fuel laws rooted enough =
        search_up-IsNearest fuel cwd laws rooted enough

    -- It ends as well where `getcwd` fails.
    pub find_build_file_ends :
        (cwd : Option Bytes) (fuel : ℕ)
        → IsDirname
        → ((p : Bytes) → cwd ≡ some p → is_absolute p ≡ true)
        → ((p : Bytes) → cwd ≡ some p → length p ≤ fuel)
        → (found : Option Bytes) × (find_build_file os dirname (suc fuel) d cwd ≡ some found)
    unfolding find_build_file
    find_build_file_ends none fuel laws rooted enough = (none, refl)
    find_build_file_ends (some cwd) fuel laws rooted enough =
        let (found, run, near) =
          find_build_file-IsNearest cwd fuel laws (rooted cwd refl) (enough cwd refl) in
        (found, run)
