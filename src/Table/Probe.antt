-- ===== src/Table/Probe.antt =====
-- What a search of the table returns: the entry that holds the key, or a vacant slot on the key's
-- probe sequence with no free slot before it.
use rebuild.Base.{
  ℕ, zero, suc, ◌+◌, ◌%◌, ◌≤◌, ◌<◌, ◌≡◌, refl, ap, ◌≢◌, ◌⊎◌, inl, inr, arith, List, sym,
}
use rebuild.Base.{Option, none, some, Bytes, same_string_refl, Bool-cases}
use rebuild.Base.{true, false, same_string, same_string_sound}
use mathlib.Core.Path.{◌∙◌, subst}
use rebuild.Table.{Slot, free, deleted, full, slot_at, or_slot, find_loop, hash_string}

pub eq_or_lt : (i j : ℕ) → i ≤ j → (i ≡ j) ⊎ (i + 1 ≤ j)
eq_or_lt i j h = grind arith

abbrev pub probe : ℕ → ℕ → ℕ → ℕ
probe capacity index i = (index + i) % capacity

abbrev pub home : ℕ → Bytes → ℕ
home capacity key = hash_string key % capacity

module _ {ℓ} {V : Type ℓ} where
  abbrev pub IsVacant : Slot V → Type ℓ
  IsVacant s = (k : Bytes) (v : V) → s ≢ full k v

  pub Slot-cases :
      (s : Slot V)
      → (s ≡ free) ⊎ ((k : Bytes) × (s ≡ deleted k)) ⊎ ((k : Bytes) × (v : V) × (s ≡ full k v))
  Slot-cases free = inl refl
  Slot-cases (deleted k) = inr (inl (k, refl))
  Slot-cases (full k v) = inr (inr (k, v, refl))

module _ {ℓ} {V : Type ℓ} (es : List (Slot V)) (capacity index : ℕ) where
  -- `p` is on the probe sequence, and no free slot stands before it.
  pub record IsReached (p : ℕ) : Type ℓ where
    pub steps : ℕ
    pub in_range : steps < capacity
    pub there : probe capacity index steps ≡ p
    pub clear : (j : ℕ) → j < steps → slot_at es (probe capacity index j) ≢ free

  -- A tombstone that the loop carries is a slot to write to.
  abbrev pub Holds : Option ℕ → Type ℓ
  Holds r = (p : ℕ) → r ≡ some p → IsReached p × IsVacant (slot_at es p)

  pub record IsHit (key : Bytes) (r : Option ℕ) : Type ℓ where
    pub entry : ℕ
    pub value : V
    pub found : r ≡ some entry
    pub holds : slot_at es entry ≡ full key value
    pub reached : IsReached entry

  pub record IsMiss (key : Bytes) (i left : ℕ) (r : Option ℕ) : Type ℓ where
    pub absent :
        (j : ℕ) (v : V)
        → i ≤ j
        → j < i + left
        → ((j' : ℕ) → j' < j → slot_at es (probe capacity index j') ≢ free)
        → slot_at es (probe capacity index j) ≢ full key v
    pub vacant : Holds r
    pub packed :
        r ≡ none
        → (j : ℕ) → i ≤ j
        → j < i + left
        → (k : Bytes) × (v : V) × (slot_at es (probe capacity index j) ≡ full k v)

  module _ (key : Bytes) where
    abbrev pub search : ℕ → ℕ → Option ℕ → Option ℕ
    search left i t = find_loop es capacity index key left i t

    step_free :
        (left i : ℕ) (t : Option ℕ)
        → slot_at es (probe capacity index i) ≡ free
        → search (suc left) i t ≡ some (or_slot t (probe capacity index i))
    unfolding find_loop
    step_free left i t e = rw (find_loop, e)

    step_deleted :
        (left i : ℕ) (t : Option ℕ) {k : Bytes}
        → slot_at es (probe capacity index i) ≡ deleted k
        → search (suc left) i t ≡ search left (i + 1) (some (or_slot t (probe capacity index i)))
    unfolding find_loop
    step_deleted left i t e = rw (e, find_loop)

    step_hit :
        (left i : ℕ) (t : Option ℕ) {k : Bytes} {v : V}
        → slot_at es (probe capacity index i) ≡ full k v
        → same_string k key ≡ true
        → search (suc left) i t ≡ some (probe capacity index i)
    unfolding find_loop
    step_hit left i t e same = ground arith

    step_other :
        (left i : ℕ) (t : Option ℕ) {k : Bytes} {v : V}
        → slot_at es (probe capacity index i) ≡ full k v
        → same_string k key ≡ false
        → search (suc left) i t ≡ search left (i + 1) t
    unfolding find_loop
    step_other left i t e other = rw (find_loop, e, other)

    -- One round that does not end the search.
    IsMiss-step :
        {i left : ℕ} {r : Option ℕ}
        → ((v : V) → slot_at es (probe capacity index i) ≢ full key v)
        → (r ≡ none → (k : Bytes) × (v : V) × (slot_at es (probe capacity index i) ≡ full k v))
        → IsMiss key (i + 1) left r
        → IsMiss key i (suc left) r
    IsMiss-step {i} {left} {r} other here m = record {
      absent = λ j v lo hi clear. elim (eq_or_lt i j lo) [
        | inl e ↦ rw (← e) (other v)
        | inr lt ↦ m.absent j v lt (omega arith) clear
      ];
      vacant = m.vacant;
      packed = λ e j lo hi. elim (eq_or_lt i j lo) [
        | inl q ↦ rw (← q) (here e)
        | inr lt ↦ m.packed e j lt (omega arith)
      ];
    }

    abbrev pub Outcome : ℕ → ℕ → Option ℕ → Type ℓ
    Outcome i left r = IsHit key r ⊎ IsMiss key i left r

    abbrev pub Clear : ℕ → Type ℓ
    Clear i = (j : ℕ) → j < i → slot_at es (probe capacity index j) ≢ free

    Clear-step : (i : ℕ) → Clear i → slot_at es (probe capacity index i) ≢ free → Clear (i + 1)
    Clear-step i clear here j h = elim (eq_or_lt j i (omega arith)) [
      | inl e ↦ rw e here
      | inr lt ↦ clear j (omega arith)
    ]

    -- The slot that the loop would return if it stopped at a vacant slot.
    Holds-or_slot :
        (i : ℕ) (t : Option ℕ)
        → i < capacity
        → Clear i
        → Holds t
        → IsVacant (slot_at es (probe capacity index i))
        → Holds (some (or_slot t (probe capacity index i)))
    Holds-or_slot i none lt clear ok vacant p e =
        let q : probe capacity index i ≡ p = cc in
        subst (λ q. IsReached q × IsVacant (slot_at es q)) q
          (record { steps = i; in_range = lt; there = refl; clear = clear }, vacant)
    Holds-or_slot i (some t) lt clear ok vacant p e = ok p e

    Outcome-step :
        {i left : ℕ} {r : Option ℕ}
        → ((v : V) → slot_at es (probe capacity index i) ≢ full key v)
        → (r ≡ none → (k : Bytes) × (v : V) × (slot_at es (probe capacity index i) ≡ full k v))
        → Outcome (i + 1) left r
        → Outcome i (suc left) r
    Outcome-step other here (inl hit) = inl hit
    Outcome-step other here (inr miss) = inr (IsMiss-step other here miss)

    -- A loop that carries a tombstone returns an entry.
    search-ne-none : (left i : ℕ) (t : ℕ) → search left i (some t) ≢ none
    search-ne-none zero i t e = unfold find_loop in cc
    search-ne-none (suc left) i t e = elim (Slot-cases (slot_at es (probe capacity index i))) [
      | inl h ↦ cc (e, step_free left i (some t) h)
      | inr (inl (k, h)) ↦ search-ne-none left (i + 1) t (sym (step_deleted left i (some t) h) ∙ e)
      | inr (inr (k, v, h)) ↦ elim (Bool-cases (same_string k key)) [
        | inl same ↦ cc (e, step_hit left i (some t) h same)
        | inr other ↦ search-ne-none left (i + 1) t (sym (step_other left i (some t) h other) ∙ e)
      ]
    ]

    -- What the loop returns from round `i` on.
    pub find_loop-Outcome :
        (left i : ℕ) (t : Option ℕ)
        → i + left ≤ capacity
        → Clear i
        → Holds t
        → Outcome i left (search left i t)
    find_loop-Outcome zero i t h clear ok =
        unfold find_loop in
        inr (record {
          absent = λ j v lo hi. absurd (omega arith);
          vacant = ok;
          packed = λ e j lo hi. absurd (omega arith);
        })
    find_loop-Outcome (suc left) i t h clear ok =
        elim (Slot-cases (slot_at es (probe capacity index i))) [
          | inl e ↦ rw (step_free left i t e) (
              inr (record {
                absent = λ j v lo hi before. elim (eq_or_lt i j lo) [
                  | inl q ↦ λ f. cc (ap (λ (n : ℕ). slot_at es (probe capacity index n)) q)
                  | inr lt ↦ absurd (before i (omega arith) e)
                ];
                vacant = Holds-or_slot i t (omega arith) clear ok (λ k v f. cc);
                packed = λ f. cc;
              }))
          | inr (inl (k, e)) ↦ rw (step_deleted left i t e) (
              Outcome-step (λ v f. cc)
                (λ f. absurd (search-ne-none left (i + 1) (or_slot t (probe capacity index i)) f))
                (find_loop-Outcome left (i + 1) _ (omega arith) (Clear-step i clear (λ f. cc))
                  (Holds-or_slot i t (omega arith) clear ok (λ k v f. cc))))
          | inr (inr (k, v, e)) ↦ elim (Bool-cases (same_string k key)) [
            | inl same ↦ rw (step_hit left i t e same) (
                inl (record {
                  entry = probe capacity index i;
                  value = v;
                  found = refl;
                  holds = rw (← same_string_sound k key same) e;
                  reached = record {
                    steps = i;
                    in_range = omega arith;
                    there = refl;
                    clear = clear;
                  };
                }))
            | inr other ↦ rw (step_other left i t e other) (
                Outcome-step (λ w f. cc (other, same_string_refl key, e, f)) (λ f. (k, v, e))
                  (find_loop-Outcome left (i + 1) t (omega arith) (Clear-step i clear (λ f. cc))
                    ok))
          ]
        ]
