-- ===== src/Map/Writes.antt =====
-- `map_create`, `map_set`, `map_get`, `map_has` and `map_remove` against a function from keys to
-- values.
use rebuild.Base.{ℕ, ◌+◌, ◌*◌, ◌/◌, ◌≤◌, ◌<◌, ◌≡◌, refl, ap, inl, inr}
use rebuild.Base.{arith, List, Option, none, some, Bytes, sym, ◌∙◌, same_string, true, false, Bool}
use rebuild.Base.{
  same_string_cases, same_string_refl, if◌then◌else◌, Option-cases, Bool-cases, ok, ◌==◌,
}
use rebuild.Table.{Slot, free, deleted, full, Table, slot_at, find_entry, lookup, occupied_value}
use rebuild.Table.{must_grow}
use rebuild.Table.Write.{weight, count_none}
use rebuild.Table.Find.{lookup-absent, lookup-found, lookup-missing}
use rebuild.Table.Update.{find_entry-IsPlace, IsUpdate, store-IsUpdate, erase-IsUpdate}
use rebuild.Table.Rehash.{
  IsValid, grow-IsGrown, find_entry-some, replicate-IsProbed, count-blank, blank,
}
use rebuild.Map.{Map, set, set_grown, write_entry, get, has, remove, erase_entry, is_some}

abbrev pub to_nat : Bool → ℕ
to_nat true = 1
to_nat false = 0

module _ {ℓ} {V : Type ℓ} where
  -- `size == 0` is a shortcut only.
  pub get-lookup :
      (m : Map V) (key : Bytes) → IsValid m → get m key ≡ lookup m.entries m.capacity key
  unfolding get
  get-lookup m key inv = elim (Bool-cases (m.size == 0)) [
    | inr e ↦ rw e
    | inl e ↦ rw e (
        sym (
          lookup-absent m.entries m.capacity key inv.probed
            λ v h. absurd (ground (arith, count_none m.entries h.0 h.1, inv.sized))))
  ]

  pub has-get : (m : Map V) (key : Bytes) → has m key ≡ is_some (get m key)
  unfolding has get
  has-get m key = ground arith

  -- `m'` is `m` with `v` under the key: every lookup, the size and the invariant.
  pub record IsWrite (m : Map V) (key : Bytes) (v : Option V) (m' : Map V) : Type ℓ where
    pub valid : IsValid m'
    pub reads : (q : Bytes) → get m' q ≡ (if same_string q key then v else get m q)
    pub sized : m'.size + to_nat (is_some (get m key)) ≡ m.size + to_nat (is_some v)

  weight-occupied : (s : Slot V) → to_nat (is_some (occupied_value s)) ≡ weight s
  weight-occupied free = refl
  weight-occupied (deleted _) = refl
  weight-occupied (full _ _) = refl

  module _ (m : Map V) (inv : IsValid m) (key : Bytes) where
    get-weight :
        (p : ℕ)
        → find_entry m.entries m.capacity key ≡ some p
        → to_nat (is_some (get m key)) ≡ weight (slot_at m.entries p)
    get-weight p e =
        rw (get-lookup m key inv, lookup-found m.entries m.capacity key e)
          (weight-occupied (slot_at m.entries p))

    -- The counters after a write of the slot that the search returned.
    IsUpdate-IsWrite :
        {fs : List (Slot V)} {p size tombstones : ℕ} (v : Option V) {s : Slot V}
        → find_entry m.entries m.capacity key ≡ some p
        → IsUpdate m.entries m.capacity inv.probed key fs p v s
        → weight s ≡ to_nat (is_some v)
        → size + weight (slot_at m.entries p) ≡ m.size + weight s
        → size + tombstones ≤ m.capacity * 3 / 4
        → IsWrite m key v
            (record { entries = fs; capacity = m.capacity; size = size; tombstones = tombstones })
    IsUpdate-IsWrite {fs} {p} {size} {tombstones} v e u one sum load =
        let t : Table V = record {
          entries = fs;
          capacity = m.capacity;
          size = size;
          tombstones = tombstones;
        } in
        let valid : IsValid t = record {
          probed = u.probed;
          sized = omega (arith, u.counted, inv.sized);
          load = load;
        } in
        record {
          valid = valid;
          reads = λ q. rw (get-lookup t q valid, get-lookup m q inv) (u.reads q);
          sized = omega (arith, get-weight p e);
        }

    write_entry-IsWrite :
        (v : V) (p : ℕ) (s : Slot V)
        → slot_at m.entries p ≡ s
        → find_entry m.entries m.capacity key ≡ some p
        → m.size + m.tombstones + 1 ≤ m.capacity * 3 / 4
        → IsWrite m key (some v) (write_entry m p key v s)
    unfolding write_entry
    write_entry-IsWrite v p free h e room =
        let place = find_entry-IsPlace m.entries m.capacity inv.probed key p e in
        IsUpdate-IsWrite (some v) e (store-IsUpdate m.entries m.capacity inv.probed key p place v)
          refl (rw h (omega arith)) (omega arith)
    write_entry-IsWrite v p (deleted d) h e room =
        let place = find_entry-IsPlace m.entries m.capacity inv.probed key p e in
        IsUpdate-IsWrite (some v) e (store-IsUpdate m.entries m.capacity inv.probed key p place v)
          refl (rw h (omega arith)) (omega arith)
    write_entry-IsWrite v p (full k old) h e room =
        let place = find_entry-IsPlace m.entries m.capacity inv.probed key p e in
        rw (place.own k old h) (
          IsUpdate-IsWrite (some v) e (store-IsUpdate m.entries m.capacity inv.probed key p place v)
            refl (rw h (omega arith)) (omega arith))

    set_grown-IsWrite :
        (v : V)
        → m.size + m.tombstones + 1 ≤ m.capacity * 3 / 4
        → (m' : Map V) × (set_grown m key v ≡ some (ok, m')) × IsWrite m key (some v) m'
    unfolding set_grown
    set_grown-IsWrite v room =
        let (p, e) =
          find_entry-some m.entries m.capacity key inv.probed
            (omega (arith, inv.sized, inv.probed.positive)) in
        (
          write_entry m p key v (slot_at m.entries p),
          rw (set_grown, e),
          write_entry-IsWrite v p (slot_at m.entries p) refl e room,
        )

  -- `map_set` on a well-formed map does not fault and returns REBUILD_OK. The new map is well
  -- formed, every lookup reads the new value at the key and the old one elsewhere, and the size
  -- grows by one exactly for a new key.
  pub set-IsWrite :
      (m : Map V) (key : Bytes) (v : V)
      → IsValid m
      → (m' : Map V) × (set m key v ≡ some (ok, m')) × IsWrite m key (some v) m'
  unfolding set must_grow
  set-IsWrite m key v inv = elim (Bool-cases (must_grow m.capacity m.size m.tombstones)) [
    | inr fits ↦ rw fits (set_grown-IsWrite m inv key v (ground arith))
    | inl over ↦
        let (t, run, g) = grow-IsGrown m inv in
        let (m', run', w) =
          set_grown-IsWrite t g.valid key v (
            omega
              (arith, g.doubled, g.size_kept, g.no_tombstones, inv.load, inv.probed.positive)) in
        let same : (q : Bytes) → get t q ≡ get m q =
          λ q. rw (get-lookup t q g.valid, get-lookup m q inv) (g.reads q) in
        rw over (
          m',
          rw run run',
          record {
            valid = w.valid;
            reads = λ q. rw (w.reads q, same q);
            sized = omega (arith, w.sized, g.size_kept, ap (λ o. to_nat (is_some o)) (same key));
          },
        )
  ]

  absent-IsWrite : (m : Map V) → IsValid m → (key : Bytes) → get m key ≡ none → IsWrite m key none m
  absent-IsWrite m inv key gone = record {
    valid = inv;
    reads = λ q. elim (same_string_cases q key) [
      | inl e ↦ rw (e, same_string_refl key, gone)
      | inr (n, f) ↦ rw f
    ];
    sized = rw gone;
  }

  -- What `map_remove` does at the entry that the search returned.
  erase_entry-IsWrite :
      (m : Map V) (inv : IsValid m) (key : Bytes) (p : ℕ) (s : Slot V)
      → slot_at m.entries p ≡ s
      → find_entry m.entries m.capacity key ≡ some p
      → ((erase_entry m p s).0 ≡ get m key) × IsWrite m key none (erase_entry m p s).1
  unfolding erase_entry
  erase_entry-IsWrite m inv key p (full k old) h e =
      let place = find_entry-IsPlace m.entries m.capacity inv.probed key p e in
      let here : get m key ≡ some old =
        get-lookup m key inv ∙ lookup-found m.entries m.capacity key e ∙ ap occupied_value h in
      let filled = count_none m.entries p h in
      (
        sym here,
        IsUpdate-IsWrite m inv key none e
            (erase-IsUpdate m.entries m.capacity inv.probed key p place k) refl
            (rw h (omega (arith, inv.sized))) (omega (arith, inv.sized, inv.load)),
      )
  erase_entry-IsWrite m inv key p free h e =
      let gone : get m key ≡ none =
        get-lookup m key inv ∙ lookup-found m.entries m.capacity key e ∙ ap occupied_value h in
      (sym gone, absent-IsWrite m inv key gone)
  erase_entry-IsWrite m inv key p (deleted d) h e =
      let gone : get m key ≡ none =
        get-lookup m key inv ∙ lookup-found m.entries m.capacity key e ∙ ap occupied_value h in
      (sym gone, absent-IsWrite m inv key gone)

  -- `map_remove` on a well-formed map returns the value that was stored, or NULL. Afterwards the key is absent and every
  -- other lookup is unchanged, the map is well formed, and the size falls by one exactly if the key
  -- was there.
  pub remove-IsWrite :
      (m : Map V) (key : Bytes)
      → IsValid m
      → ((remove m key).0 ≡ get m key) × IsWrite m key none (remove m key).1
  unfolding remove
  remove-IsWrite m key inv = elim (Bool-cases (m.size == 0)) [
    | inl e ↦
        let gone : get m key ≡ none = unfold get in rw e in
        rw e (sym gone, absent-IsWrite m inv key gone)
    | inr e ↦ elim (Option-cases (find_entry m.entries m.capacity key)) [
      | inl f ↦
          let gone : get m key ≡ none =
            get-lookup m key inv ∙ lookup-missing m.entries m.capacity key f in
          rw (e, f) (sym gone, absent-IsWrite m inv key gone)
      | inr (p, f) ↦ rw (e, f) (erase_entry-IsWrite m inv key p (slot_at m.entries p) refl f)
    ]
  ]

  -- A fresh map of the given capacity holds nothing.
  pub record IsEmpty (m : Map V) : Type ℓ where
    pub valid : IsValid m
    pub size : m.size ≡ 0
    pub reads : (q : Bytes) → get m q ≡ none

  pub blank-IsEmpty :
      (capacity : ℕ)
      → 0 < capacity
      → IsEmpty (record {
        entries = blank {V = V} capacity;
        capacity = capacity;
        size = 0;
        tombstones = 0;
      })
  unfolding get
  blank-IsEmpty capacity pos = record {
    valid = record {
      probed = replicate-IsProbed capacity pos;
      sized = sym (count-blank (blank capacity) capacity refl);
      load = omega arith;
    };
    size = refl;
    reads = λ q. refl;
  }
