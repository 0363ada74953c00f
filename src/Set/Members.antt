-- ===== src/Set/Members.antt =====
-- `set_add`, `set_has` and `set_remove` against a predicate on strings. The set's code is the map's
-- with no value, so its theorems come from the map's.
use rebuild.Base.{ℕ, zero, suc, ◌+◌, ◌≡◌, refl, ap, inl, inr, arith, List, [], ◌∷◌, Option}
use rebuild.Base.{none, some, Bytes, sym, ◌∙◌, same_string, true, false, Bool, if◌then◌else◌}
use rebuild.Base.{Option-cases, ok, set as set_elem}
use mathlib.Core.Option
use rebuild.Map
use rebuild.Map.Writes.{IsWrite, set-IsWrite, remove-IsWrite, has-get, to_nat}
use rebuild.Table.{free, deleted, full, slot_at, find_entry, must_grow, grow}
use rebuild.Table.Rehash.{IsValid}
use rebuild.Set.{Set, SetSlot, add, add_grown, write_entry, has, remove}

set-get_same :
    (es : List SetSlot) (p : ℕ) {k : Bytes}
    → slot_at es p ≡ full k tt
    → set_elem es p (full k tt) ≡ es
set-get_same [] p h = refl
set-get_same (x ∷ es) zero h = ap (λ t. t ∷ es) (sym h)
set-get_same (x ∷ es) (suc p) h = ap (λ t. x ∷ t) (set-get_same es p h)

write_entry-map :
    (s : Set) (p : ℕ) (value : Bytes) (slot : SetSlot)
    → slot_at s.entries p ≡ slot
    → write_entry s p value slot ≡ Map.write_entry s p value tt slot
unfolding write_entry Map.write_entry
write_entry-map s p value free h = refl
write_entry-map s p value (deleted _) h = refl
write_entry-map s p value (full k tt) h =
    ap (λ (es : List SetSlot). record s { entries = es }) (sym (set-get_same s.entries p h))

add_grown-map : (s : Set) (value : Bytes) → add_grown s value ≡ Map.set_grown s value tt
unfolding add_grown Map.set_grown
add_grown-map s value = elim (Option-cases (find_entry s.entries s.capacity value)) [
  | inl e ↦ rw (add_grown, Map.set_grown, e)
  | inr (p, e) ↦
      rw (add_grown, Map.set_grown, e, write_entry-map s p value (slot_at s.entries p) refl)
]

add-map : (s : Set) (value : Bytes) → add s value ≡ Map.set s value tt
unfolding add Map.set
add-map s value = λ i.
    if must_grow s.capacity s.size s.tombstones
    then Option.bind (grow s) (λ s'. add_grown-map s' value i)
    else add_grown-map s value i

pub has-map : (s : Set) (value : Bytes) → has s value ≡ Map.has s value
unfolding has Map.has
has-map s value = refl

remove-map :
    (s : Set) (value : Bytes)
    → remove s value ≡ (Map.is_some (Map.remove s value).0, (Map.remove s value).1)
unfolding remove Map.remove
remove-map s value = ground arith

-- `s'` is `s` with `value` put in or taken out: every membership, the size and the invariant.
pub record IsChange (s : Set) (value : Bytes) (present : Bool) (s' : Set) : Type 0 where
  pub valid : IsValid s'
  pub reads : (q : Bytes) → has s' q ≡ (if same_string q value then present else has s q)
  pub sized : s'.size + to_nat (has s value) ≡ s.size + to_nat present

has-get_unit : (s : Set) (q : Bytes) → has s q ≡ Map.is_some (Map.get s q)
has-get_unit s q = has-map s q ∙ has-get s q

is_some-if :
    (b : Bool) (o o' : Option (Unit {0}))
    → Map.is_some (if b then o else o') ≡ (if b then Map.is_some o else Map.is_some o')
is_some-if true o o' = refl
is_some-if false o o' = refl

IsWrite-IsChange :
    (s : Set) (value : Bytes) (v : Option (Unit {0})) (s' : Set)
    → IsWrite s value v s'
    → IsChange s value (Map.is_some v) s'
IsWrite-IsChange s value v s' w = record {
  valid = w.valid;
  reads = λ q.
      has-get_unit s' q
      ∙ ap Map.is_some (w.reads q)
      ∙ is_some-if (same_string q value) v (Map.get s q)
      ∙ ap (λ (b : Bool). if same_string q value then Map.is_some v else b)
          (sym (has-get_unit s q));
  sized = rw (has-get_unit s value) w.sized;
}

-- `set_add` on a well-formed set does not fault and returns REBUILD_OK. Afterwards the value is a
-- member, every other membership is unchanged, the set is well formed, and the size grows by one
-- exactly for a new value.
pub add-IsChange :
    (s : Set) (value : Bytes)
    → IsValid s
    → (s' : Set) × (add s value ≡ some (ok, s')) × IsChange s value true s'
add-IsChange s value inv =
    let (s', run, w) = set-IsWrite s value tt inv in
    (s', add-map s value ∙ run, IsWrite-IsChange s value (some tt) s' w)

-- `set_remove` on a well-formed set says whether the value was a member. Afterwards it is none, every other membership
-- is unchanged, the set is well formed, and the size falls by one exactly if it was there.
pub remove-IsChange :
    (s : Set) (value : Bytes)
    → IsValid s
    → ((remove s value).0 ≡ has s value) × IsChange s value false (remove s value).1
remove-IsChange s value inv =
    let (old, w) = remove-IsWrite s value inv in
    rw (remove-map s value)
      (ap Map.is_some old ∙ sym (has-get_unit s value), IsWrite-IsChange s value none _ w)
