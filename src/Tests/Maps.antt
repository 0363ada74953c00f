-- ===== src/Tests/Maps.antt =====
-- Maps of src/map.c with numbers as values.
use mathlib.Core.Option
use mathlib.Core.Path.{subst}
use rebuild.Base.{ℕ, ◌+◌, ◌≡◌, ◌↔◌, refl, ap, arith, [], ◌∷◌, Option, none}
use rebuild.Base.{some, Bytes, Bool, In, length, same_string, sym, ◌∙◌}
use rebuild.Base.{RebuildError, ok, ltb}
use rebuild.Table.{
  Table, free, deleted, full, hash_string, find_loop, find_entry, lookup, rehash, grow,
}
use rebuild.Table.{grown_capacity, round_up, requested, must_grow}
use rebuild.Table.Capacity.{IsRounded}
use rebuild.Table.Rehash.{IsValid, IsGrown, grow-IsGrown}
use rebuild.Map
use rebuild.Map.{Map}
use rebuild.Map.Writes.{IsWrite, set-IsWrite, remove-IsWrite, IsEmpty, blank-IsEmpty}
use rebuild.Map.Items.{items, items-get, create-IsEmpty}

program : Unit {0}
unfolding hash_string find_loop find_entry lookup rehash grow grown_capacity round_up must_grow
    same_string Map.write_entry Map.set_grown Map.set Map.get Map.erase_entry Map.remove
    Map.iterate_entries Map.iterate Option.bind Map.create
program = tt

abbrev a : Bytes
a = b'a' ∷ []

abbrev b : Bytes
b = b'b' ∷ []

abbrev none_yet : Map ℕ
none_yet = record { entries = free ∷ free ∷ []; capacity = 2; size = 0; tombstones = 0 }

abbrev just_a : Map ℕ
just_a = record { entries = full a 7 ∷ free ∷ []; capacity = 2; size = 1; tombstones = 0 }

none_yet-IsEmpty : IsEmpty none_yet
none_yet-IsEmpty = blank-IsEmpty 2 (omega arith)

written : Option (RebuildError × Map ℕ) → Map ℕ
written none = none_yet
written (some r) = r.1

after_set :
    (m m' : Map ℕ) (key : Bytes) (v : ℕ) → IsValid m → Map.set m key v ≡ some (ok, m') → IsValid m'
after_set m m' key v inv run =
    let (t, run', w) = set-IsWrite m key v inv in
    unfold written in subst IsValid (ap written (sym run' ∙ run)) w.valid

setting : Map.set none_yet a 7 ≡ some (ok, just_a)
unfolding program
setting = refl

just_a-IsValid : IsValid just_a
just_a-IsValid = after_set none_yet just_a a 7 none_yet-IsEmpty.valid setting

-- `a` is then deleted, which leaves a tombstone, and `b` takes its slot or the other.
abbrev after_remove : Option ℕ × Map ℕ
after_remove =
    (some 7, record { entries = deleted a ∷ free ∷ []; capacity = 2; size = 0; tombstones = 1 })

removing : Map.remove just_a a ≡ after_remove
unfolding program
removing = refl

-- The second `map_set` finds a table of capacity 2 too full and doubles it; the third fits.
three_keys :
    Option.bind
      (Map.set just_a b 8)
      (λ r. Option.map (λ s. s.1.capacity) (Map.set r.1 (b'c' ∷ []) 9))
    ≡ some 4
unfolding program
three_keys = refl

set-IsWrite_example :
    (m' : Map ℕ) × (Map.set just_a b 8 ≡ some (ok, m')) × IsWrite just_a b (some 8) m'
set-IsWrite_example = set-IsWrite just_a b 8 just_a-IsValid

remove-IsWrite_example :
    ((Map.remove just_a a).0 ≡ Map.get just_a a) × IsWrite just_a a none (Map.remove just_a a).1
remove-IsWrite_example = remove-IsWrite just_a a just_a-IsValid

grow-IsGrown_example : (t : Table ℕ) × (grow just_a ≡ some t) × IsGrown just_a t
grow-IsGrown_example = grow-IsGrown just_a just_a-IsValid

items-get_example :
    (length (items just_a.entries) ≡ just_a.size)
    × ((k : Bytes) (v : ℕ) → In (k, v) (items just_a.entries) ↔ (Map.get just_a k ≡ some v))
items-get_example = items-get just_a just_a-IsValid

-- The callback of a sum that stops once it is above 5.
add_value : Bytes → ℕ → ℕ → Bool × ℕ
add_value k v s = (ltb (s + v) 6, s + v)

create-IsEmpty_example :
    (m : Map ℕ) × (Map.create 5 ≡ some m) × IsEmpty m × IsRounded (requested 5) m.capacity
create-IsEmpty_example = create-IsEmpty 5 (omega arith)
