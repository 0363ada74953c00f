-- ===== src/Table/Rehash.antt =====
-- Growing the table: the rehashing loop never fails, and keeps every key and value.
use rebuild.Base.{ℕ, zero, suc, ◌+◌, ◌*◌, ◌/◌, ◌≤◌, ◌<◌, ◌≡◌, refl, ap, ap₂, ◌⊎◌, inl, inr, arith}
use rebuild.Base.{List, [], ◌∷◌, some, Bytes, set, sym, ◌∙◌, replicate}
use rebuild.Base.{Option-cases, length-replicate, get_or-replicate, get_or-set_self}
use rebuild.Table.{Slot, free, deleted, full, slot_at, find_entry, lookup, rehash, Table, grow}
use rebuild.Table.{grown_capacity}
use rebuild.Table.Probe.{IsVacant}
use rebuild.Table.Write.{count, Has, IsProbed, weight-vacant, slot-set}
use rebuild.Table.Find.{find_entry-cases, lookup_congr}
use rebuild.Table.Update.{IsPlace, find_entry-IsPlace, store-IsUpdate}

module _ {ℓ} {V : Type ℓ} where
  -- No key stands in two slots.
  abbrev pub IsOnce : List (Slot V) → Type ℓ
  IsOnce es =
      (p q : ℕ) (k : Bytes) (v w : V) → slot_at es p ≡ full k v → slot_at es q ≡ full k w → p ≡ q

  -- In a table that is not full, a search returns an entry.
  pub find_entry-some :
      (es : List (Slot V)) (capacity : ℕ) (key : Bytes)
      → IsProbed es capacity
      → count es < capacity
      → (p : ℕ) × (find_entry es capacity key ≡ some p)
  find_entry-some es capacity key inv room = elim (Option-cases (find_entry es capacity key)) [
    | inr found ↦ found
    | inl e ↦ elim (find_entry-cases es capacity key inv) [
      | inl hit ↦ cc (hit.found, e)
      | inr miss ↦ absurd (omega (arith, miss.packed e, inv.width))
    ]
  ]

  -- The zeroed array that `calloc` returns.
  abbrev pub blank : ℕ → List (Slot V)
  blank n = replicate n free

  pub count-blank : (es : List (Slot V)) (n : ℕ) → es ≡ blank n → count es ≡ 0
  count-blank es zero e = rw e
  count-blank es (suc n) e = rw e (omega (arith, count-blank (blank n) n refl))

  pub replicate-IsProbed : (n : ℕ) → 0 < n → IsProbed (blank n) n
  replicate-IsProbed n pos = record {
    width = length-replicate n free;
    positive = pos;
    reach = λ p k v h. cc (h, get_or-replicate {A = Slot V} n free p);
    once = λ p q k v w h i. cc (h, get_or-replicate {A = Slot V} n free p);
  }

  -- What the rehashing loop returns, for the entries `es` that are still to move.
  pub record IsMoved (es fresh : List (Slot V)) (capacity new_size : ℕ) (fs : List (Slot V))
      (size : ℕ) : Type ℓ where
    pub probed : IsProbed fs capacity
    pub sized : size ≡ count fs
    pub counted : count fs ≡ count fresh + count es
    pub moved : (k : Bytes) (v : V) → Has es k v → Has fs k v
    pub kept : (k : Bytes) (v : V) → Has fresh k v → Has fs k v
    pub only : (k : Bytes) (v : V) → Has fs k v → Has fresh k v ⊎ Has es k v

  abbrev Moves : List (Slot V) → List (Slot V) → ℕ → ℕ → Type ℓ
  Moves es fresh capacity n =
      (fs : List (Slot V)) × (size : ℕ) × (rehash es fresh capacity n ≡ some (fs, size))
      × IsMoved es fresh capacity n fs size

  pub IsOnce-tail : (s : Slot V) (es : List (Slot V)) → IsOnce (s ∷ es) → IsOnce es
  IsOnce-tail s es h p q k v w a b = omega (arith, h (suc p) (suc q) k v w a b)

  -- A slot that is not full is skipped.
  Moves-skip :
      (s : Slot V) (es fresh : List (Slot V)) (capacity n : ℕ)
      → IsVacant s
      → rehash (s ∷ es) fresh capacity n ≡ rehash es fresh capacity n
      → Moves es fresh capacity n
      → Moves (s ∷ es) fresh capacity n
  Moves-skip s es fresh capacity n vacant e (fs, size, run, m) = (
    fs,
    size,
    e ∙ run,
    record {
      probed = m.probed;
      sized = m.sized;
      counted = omega (arith, m.counted, weight-vacant s vacant);
      moved = λ k v h. m.moved k v (later k v h);
      kept = m.kept;
      only = λ k v h. elim (m.only k v h) [ inl a ↦ inl a | inr (p, a) ↦ inr (suc p, a) ];
    },
  )
    where
      later : (k : Bytes) (v : V) → Has (s ∷ es) k v → Has es k v
      later k v (zero, h) = absurd (vacant k v h)
      later k v (suc p, h) = (p, h)

  -- A full slot is stored in the new array.
  module _ (key : Bytes) (value : V) (es fresh : List (Slot V)) (capacity n p : ℕ)
      (inv : IsProbed fresh capacity) (place : IsPlace fresh capacity inv key p)
      (vacant : IsVacant (slot_at fresh p)) where
    abbrev after : List (Slot V)
    after = set fresh p (full key value)

    Has-after : (k : Bytes) (v : V) → Has after k v → Has fresh k v ⊎ ((key ≡ k) × (value ≡ v))
    Has-after k v (q, h) = elim (slot-set fresh p (full key value) place.in_range q) [
      | inl (e, f) ↦ inr (cc, cc)
      | inr (ne, f) ↦ inl (q, sym f ∙ h)
    ]

    fresh-after : (k : Bytes) (v : V) → Has fresh k v → Has after k v
    fresh-after k v (q, h) = elim (slot-set fresh p (full key value) place.in_range q) [
      | inl (e, f) ↦ absurd (vacant k v (ap (slot_at fresh) (sym e) ∙ h))
      | inr (ne, f) ↦ (q, f ∙ h)
    ]

    here-after : (k : Bytes) (v : V) → key ≡ k → value ≡ v → Has after k v
    here-after k v a b =
        (p, get_or-set_self fresh p (full key value) free place.in_range ∙ ap₂ full a b)

    Moves-store :
        rehash (full key value ∷ es) fresh capacity n ≡ rehash es after capacity (n + 1)
        → Moves es after capacity (n + 1)
        → Moves (full key value ∷ es) fresh capacity n
    Moves-store e (fs, size, run, m) = (
      fs,
      size,
      e ∙ run,
      record {
        probed = m.probed;
        sized = m.sized;
        counted = omega (arith, m.counted, counted-after);
        moved = moved;
        kept = λ k v h. m.kept k v (fresh-after k v h);
        only = λ k v h. elim (m.only k v h) [
          | inr (q, a) ↦ inr (suc q, a)
          | inl a ↦ elim (Has-after k v a) [ inl b ↦ inl b | inr (b, c) ↦ inr (0, cc) ]
        ];
      },
    )
      where
        counted-after : count after ≡ count fresh + 1
        counted-after = omega (
          arith,
          (store-IsUpdate fresh capacity inv key p place value).counted,
          weight-vacant _ vacant,
        )

        moved : (k : Bytes) (v : V) → Has (full key value ∷ es) k v → Has fs k v
        moved k v (zero, h) = m.kept k v (here-after k v (cc) (cc))
        moved k v (suc q, h) = m.moved k v (q, h)

  -- The loop never faults while the new array has room, and moves every key with its value.
  rehash-Moves :
      (es fresh : List (Slot V)) (capacity n : ℕ)
      → IsProbed fresh capacity
      → n ≡ count fresh
      → count fresh + count es < capacity
      → IsOnce es
      → ((k : Bytes) (v w : V) → Has es k v → ¬ Has fresh k w)
      → Moves es fresh capacity n
  rehash-Moves [] fresh capacity n inv e room once apart =
      unfold rehash in
      (
        fresh,
        n,
        refl,
        record {
          probed = inv;
          sized = e;
          counted = omega arith;
          moved = λ k v h. cc (h.1);
          kept = λ k v h. h;
          only = λ k v h. inl h;
        },
      )
  rehash-Moves (free ∷ es) fresh capacity n inv e room once apart =
      Moves-skip free es fresh capacity n (λ k v f. cc) (unfold rehash in refl)
        (rehash-Moves es fresh capacity n inv e (omega arith) (IsOnce-tail _ es once)
          (λ k v w h. apart k v w (suc h.0, h.1)))
  rehash-Moves (deleted d ∷ es) fresh capacity n inv e room once apart =
      Moves-skip (deleted d) es fresh capacity n (λ k v f. cc) (unfold rehash in refl)
        (rehash-Moves es fresh capacity n inv e (omega arith) (IsOnce-tail _ es once)
          (λ k v w h. apart k v w (suc h.0, h.1)))
  rehash-Moves (full key value ∷ es) fresh capacity n inv e room once apart =
      let (p, found) = find_entry-some fresh capacity key inv (omega arith) in
      let place = find_entry-IsPlace fresh capacity inv key p found in
      let vacant : IsVacant (slot_at fresh p) =
        λ k v h. apart key value v (0, refl) (p, h ∙ ap (λ j. full j v) (place.own k v h)) in
      let update = store-IsUpdate fresh capacity inv key p place value in
      Moves-store key value es fresh capacity n p inv place vacant
        (unfold rehash in rw (rehash, found))
        (rehash-Moves es _ capacity (n + 1) update.probed
          (omega (arith, update.counted, weight-vacant _ vacant))
          (omega (arith, update.counted, weight-vacant _ vacant)) (IsOnce-tail _ es once)
          (λ k v w h g. elim (Has-after key value es fresh capacity n p inv place vacant k w g) [
            | inl a ↦ apart k v w (suc h.0, h.1) a
            | inr (a, b) ↦ absurd (omega (arith, once 0 (suc h.0) k value v (cc) h.1))
          ]))

  -- The invariant of a table: its slots, its counter, and the load that keeps it from filling up.
  pub record IsValid (t : Table V) : Type ℓ where
    pub probed : IsProbed t.entries t.capacity
    pub sized : t.size ≡ count t.entries
    pub load : t.size + t.tombstones ≤ t.capacity * 3 / 4

  pub record IsGrown (t : Table V) (t' : Table V) : Type ℓ where
    pub valid : IsValid t'
    pub doubled : t'.capacity ≡ t.capacity * 2
    pub size_kept : t'.size ≡ t.size
    pub no_tombstones : t'.tombstones ≡ 0
    pub reads : (k : Bytes) → lookup t'.entries t'.capacity k ≡ lookup t.entries t.capacity k

  -- Growing a well-formed table does not fault. The new table is well formed, has twice the
  -- capacity, the same size and no tombstones, and every lookup finds what it found before.
  pub grow-IsGrown : (t : Table V) → IsValid t → (t' : Table V) × (grow t ≡ some t') × IsGrown t t'
  grow-IsGrown t inv =
      let cap = grown_capacity t.capacity in
      let twice : cap ≡ t.capacity * 2 =
        unfold grown_capacity in ground (arith, inv.probed.positive) in
      let (fs, size, run, m) =
        rehash-Moves t.entries (blank cap) cap 0
          (replicate-IsProbed cap (omega (arith, inv.probed.positive)))
          (sym (count-blank (blank cap) cap refl))
          (omega
            (arith, count-blank (blank cap) cap refl, inv.sized, inv.load, inv.probed.positive))
          inv.probed.once (λ k v w h g. cc (g.1, get_or-replicate {A = Slot V} cap free g.0)) in
      (
        record { entries = fs; capacity = cap; size = size; tombstones = 0 },
        unfold grow in rw run,
        record {
          valid = record {
            probed = m.probed;
            sized = m.sized;
            load =
                omega (
                  arith,
                  m.counted,
                  m.sized,
                  count-blank (blank cap) cap refl,
                  inv.sized,
                  inv.load,
                );
          };
          doubled = twice;
          size_kept =
              omega (arith, m.counted, m.sized, count-blank (blank cap) cap refl, inv.sized);
          no_tombstones = refl;
          reads = λ k.
              lookup_congr fs t.entries cap t.capacity k m.probed inv.probed
                (λ v h. elim (m.only k v h) [
                  | inl a ↦ cc (a.1, get_or-replicate {A = Slot V} cap free a.0)
                  | inr a ↦ a
                ])
                (λ v h. m.moved k v h);
        },
      )
