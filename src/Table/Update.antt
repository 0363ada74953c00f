-- ===== src/Table/Update.antt =====
-- Storing a value under a key, and turning an entry into a tombstone.
use rebuild.Base.{ℕ, ◌+◌, ◌<◌, ◌≡◌, ap, ◌≢◌, inl, inr}
use rebuild.Base.{List, Option, none, some, Bytes, length, set, sym, ◌∙◌, same_string}
use rebuild.Base.{same_string_cases, same_string_refl, if◌then◌else◌, get_or-set_self}
use native.Mathlib.Nat.{mod-lt}
use rebuild.Table.{Slot, free, deleted, full, slot_at, find_entry, lookup}
use rebuild.Table.Probe.{home, IsReached}
use rebuild.Table.Write.{weight, count, IsProbed, full-in_range, slot-set}
use rebuild.Table.Write.{set-IsProbed, count-set}
use rebuild.Table.Find.{find_entry-cases, lookup_congr, Has-lookup, lookup-absent}

module _ {ℓ} {V : Type ℓ} (es : List (Slot V)) (capacity : ℕ) (inv : IsProbed es capacity)
    (key : Bytes) where
  -- The slot that a search for the key returned.
  pub record IsPlace (p : ℕ) : Type ℓ where
    pub in_range : p < length es
    pub reached : IsReached es capacity (home capacity key) p
    pub own : (k : Bytes) (w : V) → slot_at es p ≡ full k w → k ≡ key
    pub alone : (q : ℕ) (w : V) → slot_at es q ≡ full key w → q ≡ p

  reached-in_range : (p : ℕ) → IsReached es capacity (home capacity key) p → p < length es
  reached-in_range p r = rw (inv.width, ← r.there) (mod-lt _ inv.positive)

  pub find_entry-IsPlace : (p : ℕ) → find_entry es capacity key ≡ some p → IsPlace p
  find_entry-IsPlace p e = elim (find_entry-cases es capacity key inv) [
    | inl hit ↦
        let same : hit.entry ≡ p = cc (hit.found, e) in
        record {
          in_range = rw same at (full-in_range es hit.entry hit.holds);
          reached = rw same at hit.reached;
          own = λ k w h. cc (ap (slot_at es) same, hit.holds, h);
          alone = λ q w h. inv.once q hit.entry key w hit.value h hit.holds ∙ same;
        }
    | inr miss ↦
        let (reached, vacant) = miss.vacant p e in
        record {
          in_range = reached-in_range p reached;
          reached = reached;
          own = λ k w h. absurd (vacant k w h);
          alone = λ q w h. absurd (miss.nowhere w (q, h));
        }
  ]

  -- What a write at the key's place does to every search: `v` is what the key then maps to.
  pub record IsUpdate (fs : List (Slot V)) (p : ℕ) (v : Option V) (s : Slot V) : Type ℓ where
    pub probed : IsProbed fs capacity
    pub reads :
        (q : Bytes) → lookup fs capacity q ≡ (if same_string q key then v else lookup es capacity q)
    pub counted : count fs + weight (slot_at es p) ≡ count es + weight s

  module _ (p : ℕ) (place : IsPlace p) where
    -- Other keys are not touched.
    lookup-set_ne :
        (s : Slot V) (q : Bytes)
        → IsProbed (set es p s) capacity
        → q ≢ key
        → ((w : V) → s ≢ full q w)
        → lookup (set es p s) capacity q ≡ lookup es capacity q
    lookup-set_ne s q inw ne not_q =
        lookup_congr (set es p s) es capacity capacity q inw inv
          (λ w h. elim (slot-set es p s place.in_range h.0) [
            | inl (e, f) ↦ absurd (not_q w (sym f ∙ h.1))
            | inr (n, f) ↦ (h.0, sym f ∙ h.1)
          ])
          (λ w h. elim (slot-set es p s place.in_range h.0) [
            | inl (e, f) ↦ absurd (ne (place.own q w (ap (slot_at es) (sym e) ∙ h.1)))
            | inr (n, f) ↦ (h.0, f ∙ h.1)
          ])

    pub store-IsUpdate : (v : V) → IsUpdate (set es p (full key v)) p (some v) (full key v)
    store-IsUpdate v =
        let inw : IsProbed (set es p (full key v)) capacity =
          set-IsProbed es p (full key v) place.in_range inv (λ e. cc)
            (λ k w e. let same : key ≡ k = cc in rw same at place.reached)
            (λ k w x q e h. let same : key ≡ k = cc in place.alone q x (rw same h)) in
        record {
          probed = inw;
          reads = λ q. elim (same_string_cases q key) [
            | inl e ↦
                rw (e, same_string_refl key)
                  (Has-lookup _ capacity key inw v (p, get_or-set_self es p _ free place.in_range))
            | inr (n, f) ↦ rw f (lookup-set_ne (full key v) q inw n (λ w e. n (cc)))
          ];
          counted = count-set es p (full key v) place.in_range;
        }

    pub erase-IsUpdate : (k : Bytes) → IsUpdate (set es p (deleted k)) p none (deleted k)
    erase-IsUpdate k =
        let inw : IsProbed (set es p (deleted k)) capacity =
          set-IsProbed es p (deleted k) place.in_range inv (λ e. cc) (λ k w e. cc)
            (λ k w x q e h. cc) in
        record {
          probed = inw;
          reads = λ q. elim (same_string_cases q key) [
            | inl e ↦
                rw (e, same_string_refl key)
                  (lookup-absent _ capacity key inw λ w h. gone h.0 w h.1)
            | inr (n, f) ↦ rw f (lookup-set_ne (deleted k) q inw n (λ w e. cc))
          ];
          counted = count-set es p (deleted k) place.in_range;
        }
      where
        gone : (q : ℕ) (w : V) → slot_at (set es p (deleted k)) q ≢ full key w
        gone q w h = elim (slot-set es p (deleted k) place.in_range q) [
          | inl (e, f) ↦ cc
          | inr (n, f) ↦ n (place.alone q w (sym f ∙ h))
        ]
