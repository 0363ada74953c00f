-- ===== src/Table/Write.antt =====
-- The invariant of the slots, and a write to one slot.
use rebuild.Base.{ℕ, zero, suc, ◌+◌, ◌<◌, ◌≡◌, refl, ◌≢◌, ◌⊎◌, inl, inr, arith, List}
use rebuild.Base.{[], ◌∷◌, Bytes, length, set, length-set, get_or-set_self, get_or-set_ne, sym}
use native.Mathlib.Decide.{ℕ_discrete}
use mathlib.Core.Path.{◌∙◌}
use rebuild.Table.{Slot, free, deleted, full, slot_at}
use rebuild.Table.Probe.{home, IsReached, IsVacant}

module _ {ℓ} {V : Type ℓ} where
  abbrev pub weight : Slot V → ℕ
  weight free = 0
  weight (deleted _) = 0
  weight (full _ _) = 1

  -- The number of full slots.
  abbrev pub count : List (Slot V) → ℕ
  count [] = 0
  count (s ∷ es) = weight s + count es

  pub count-set :
      (es : List (Slot V)) (p : ℕ) (s : Slot V)
      → p < length es
      → count (set es p s) + weight (slot_at es p) ≡ count es + weight s
  count-set [] p s h = absurd (omega arith)
  count-set (x ∷ es) zero s h = omega arith
  count-set (x ∷ es) (suc p) s h = omega (arith, count-set es p s (omega arith))

  pub full-in_range :
      (es : List (Slot V)) (p : ℕ) {k : Bytes} {v : V} → slot_at es p ≡ full k v → p < length es
  full-in_range [] p h = cc
  full-in_range (x ∷ es) zero h = omega arith
  full-in_range (x ∷ es) (suc p) h = omega (arith, full-in_range es p h)

  pub weight-vacant : (s : Slot V) → IsVacant s → weight s ≡ 0
  weight-vacant free h = refl
  weight-vacant (deleted k) h = refl
  weight-vacant (full k v) h = absurd (h k v refl)

  -- If every slot is full, their number is the length.
  pub count_all :
      (es : List (Slot V))
      → ((p : ℕ) → p < length es → weight (slot_at es p) ≡ 1)
      → count es ≡ length es
  count_all [] h = refl
  count_all (x ∷ es) h =
      omega (arith, h 0 (omega arith), count_all es (λ p lt. h (suc p) (omega arith)))

  pub count_none :
      (es : List (Slot V)) (p : ℕ) {k : Bytes} {v : V} → slot_at es p ≡ full k v → 0 < count es
  count_none [] p h = cc
  count_none (x ∷ es) zero h = rw h (omega arith)
  count_none (x ∷ es) (suc p) h = omega (arith, count_none es p h)

  -- The key stands in some full slot, with this value.
  abbrev pub Has : List (Slot V) → Bytes → V → Type ℓ
  Has es k v = (p : ℕ) × (slot_at es p ≡ full k v)

  -- Every full slot is found from its key's home, and no key stands twice.
  pub record IsProbed (es : List (Slot V)) (capacity : ℕ) : Type ℓ where
    pub width : length es ≡ capacity
    pub positive : 0 < capacity
    pub reach :
        (p : ℕ) (k : Bytes) (v : V)
        → slot_at es p ≡ full k v
        → IsReached es capacity (home capacity k) p
    pub once :
        (p q : ℕ) (k : Bytes) (v w : V) → slot_at es p ≡ full k v → slot_at es q ≡ full k w → p ≡ q

  module _ (es : List (Slot V)) (p : ℕ) (s : Slot V) (lt : p < length es) where
    -- What a slot holds after the write.
    pub slot-set :
        (q : ℕ)
        → ((q ≡ p) × (slot_at (set es p s) q ≡ s))
          ⊎ ((q ≢ p) × (slot_at (set es p s) q ≡ slot_at es q))
    slot-set q = elim (ℕ_discrete q p) [
      | yes e ↦ inl (e, rw e (get_or-set_self es p s free lt))
      | no n ↦ inr (n, get_or-set_ne es p q s free (λ e. n (sym e)))
    ]

    clear-set : (q : ℕ) → s ≢ free → slot_at es q ≢ free → slot_at (set es p s) q ≢ free
    clear-set q filled was e = elim (slot-set q) [
      | inl h ↦ filled (sym h.1 ∙ e)
      | inr h ↦ was (sym h.1 ∙ e)
    ]

    IsReached-set :
        {capacity index q : ℕ}
        → s ≢ free
        → IsReached es capacity index q
        → IsReached (set es p s) capacity index q
    IsReached-set filled r = record {
      steps = r.steps;
      in_range = r.in_range;
      there = r.there;
      clear = λ j h. clear-set _ filled (r.clear j h);
    }

    -- A write keeps the invariant if it frees no slot, and if a key that it writes is reached here
    -- and stands nowhere else.
    pub set-IsProbed :
        {capacity : ℕ}
        → IsProbed es capacity
        → s ≢ free
        → ((k : Bytes) (v : V) → s ≡ full k v → IsReached es capacity (home capacity k) p)
        → ((k : Bytes) (v w : V) (q : ℕ) → s ≡ full k v → slot_at es q ≡ full k w → q ≡ p)
        → IsProbed (set es p s) capacity
    set-IsProbed inv filled here alone = record {
      width = length-set es p s ∙ inv.width;
      positive = inv.positive;
      reach = λ q k v h. elim (slot-set q) [
        | inl (e, f) ↦ rw e (IsReached-set filled (here k v (sym f ∙ h)))
        | inr (n, f) ↦ IsReached-set filled (inv.reach q k v (sym f ∙ h))
      ];
      once = λ q r k v w h i. elim (slot-set q) [
        | inl (e, f) ↦ elim (slot-set r) [
          | inl (e', f') ↦ e ∙ sym e'
          | inr (n', f') ↦ e ∙ sym (alone k v w r (sym f ∙ h) (sym f' ∙ i))
        ]
        | inr (n, f) ↦ elim (slot-set r) [
          | inl (e', f') ↦ alone k w v q (sym f' ∙ i) (sym f ∙ h) ∙ sym e'
          | inr (n', f') ↦ inv.once q r k v w (sym f ∙ h) (sym f' ∙ i)
        ]
      ];
    }
