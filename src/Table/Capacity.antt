-- ===== src/Table/Capacity.antt =====
-- The capacity that `map_create` and `set_create` allocate.
use rebuild.Base.{
  ℕ, zero, suc, ◌*◌, ◌^◌, ◌≤◌, ◌<◌, ◌≡◌, refl, ap, ◌∙◌, arith, some, Bool-cases, true, false,
}
use rebuild.Base.{inl, inr, ltb, ltb→lt}
use native.Mathlib.Nat.{pow-suc, mod-eq_of_lt}
use rebuild.Table.{round_up}

-- The least power of two that is at least the request.
pub record IsRounded (wanted capacity : ℕ) : Type 0 where
  pub exponent : ℕ
  pub power : capacity ≡ 2 ^ exponent
  pub enough : wanted ≤ capacity
  pub least : capacity < 2 * wanted

module _ (i wanted : ℕ) (small : 2 ^ i < 2 * wanted) where
  round_up_done :
      (fuel : ℕ)
      → ltb (2 ^ i) wanted ≡ false
      → (capacity : ℕ) × (round_up (suc fuel) (2 ^ i) wanted ≡ some capacity)
        × IsRounded wanted capacity
  unfolding round_up
  round_up_done fuel e = (
    2 ^ i,
    rw (round_up, e),
    record { exponent = i; power = refl; enough = ground arith; least = small },
  )

  round_up_next :
      (fuel : ℕ)
      → ltb (2 ^ i) wanted ≡ true
      → 2 ^ suc i < 2 ^ 64
      → round_up (suc fuel) (2 ^ i) wanted ≡ round_up fuel (2 ^ suc i) wanted
  unfolding round_up
  round_up_next fuel e small = rw (round_up, e, ← pow-suc 2 i, mod-eq_of_lt small)

-- With `left` doublings to go before the capacity reaches 2 ^ 63.
round_up-IsRounded :
    (left i wanted : ℕ)
    → 2 ^ i * 2 ^ left ≡ 2 ^ 63
    → 2 ^ i < 2 * wanted
    → wanted ≤ 2 ^ 63
    → (capacity : ℕ) × (round_up (suc left) (2 ^ i) wanted ≡ some capacity)
      × IsRounded wanted capacity
round_up-IsRounded zero i wanted top small bound =
    round_up_done i wanted small 0 (ground (arith, top))
round_up-IsRounded (suc left) i wanted top small bound =
    let more = round_up-IsRounded left (suc i) wanted (
      omega (
        arith,
        top,
        pow-suc 2 i,
        pow-suc 2 left,
        ap (λ (t : ℕ). t * 2 ^ left) (pow-suc 2 i),
        ap (λ (t : ℕ). 2 ^ i * t) (pow-suc 2 left),
      )) in
    elim (Bool-cases (ltb (2 ^ i) wanted)) [
      | inr e ↦ round_up_done i wanted small (suc left) e
      | inl e ↦
          let (capacity, run, r) =
            more (omega (arith, pow-suc 2 i, ltb→lt (2 ^ i) wanted e)) bound in
          (
            capacity,
            round_up_next i wanted small (suc left) e
                  (omega (arith, ltb→lt (2 ^ i) wanted e, pow-suc 2 i, bound))
                ∙ run,
            r,
          )
    ]

-- A request of 1 up to 2 ^ 63 is rounded up to the least power of two, within the fuel.
pub round_up-IsRounded_start :
    (wanted : ℕ)
    → 0 < wanted
    → wanted ≤ 2 ^ 63
    → (capacity : ℕ) × (round_up 64 1 wanted ≡ some capacity) × IsRounded wanted capacity
round_up-IsRounded_start wanted pos bound =
    let (c, run, r) = round_up-IsRounded 63 0 wanted (omega arith) (omega arith) bound in
    (c, run, r)
