-- ===== src/Tests/Hashes.antt =====
-- Hashes of src/hash.c, over a digest that keeps the first 32 bytes.
use mathlib.Core.List.{Perm, append_assoc, append-nil}
use mathlib.Core.List.Perm
use rebuild.Base.{◌≡◌, refl, arith, List, [], ◌∷◌, ◌++◌, map, some, Bytes, true, false}
use rebuild.Base.{length, replicate, take}
use rebuild.Hash.{Hash, IsHash, Blake2, reads, hash_to_hex, hash_from_hex, hash_combine}
use rebuild.Hash.{hash_data, hash_file, zero_hash, hex_digit, is_xdigit, digit_value, from_hex_loop}
use rebuild.Hash.Hex.{to_lower, hash_from_hex-hash_to_hex, hash_to_hex-hash_from_hex}
use rebuild.Hash.Chunks.{IsStreaming, concat, hash_file-hash_data}
use rebuild.Hash.Tree.{Node, Entries, file, dir, nil, entry, Qsort, IsQsort, hash_tree}
use rebuild.Hash.Tree.{hash_entries}
use rebuild.Hash.Tree.Order.{hash_tree_order, hash_tree_exchange}

program : Unit {0}
unfolding hash_to_hex hash_from_hex hash_combine hash_data hash_file hex_digit is_xdigit digit_value
    from_hex_loop
program = tt

abbrev first_bytes : Bytes → Hash
first_bytes x = take 32 (x ++ replicate 32 0)

abbrev pub plain : Blake2
plain = record {
  State = Bytes;
  init = some [];
  update = λ s x. some (s ++ x);
  final = λ s. some (first_bytes s);
  one_shot = λ x. some (first_bytes x);
}

plain-IsStreaming : IsStreaming plain
plain-IsStreaming = record {
  start = [];
  starts = refl;
  step = ◌++◌;
  steps = λ s x. refl;
  step_nil = append-nil;
  step_append = append_assoc;
  whole = λ x. refl;
  digest = first_bytes;
  finishes = λ s. refl;
}

abbrev pub unsorted : Qsort
unsorted = record { sort = λ es. es }

unsorted-IsQsort : IsQsort unsorted
unsorted-IsQsort = record { permutes = Perm.refl }

abbrev ones : Hash
ones = replicate 32 0x1f

abbrev upper_hex : Bytes
upper_hex = replicate 64 b'F'

zero_hash-IsHash : IsHash zero_hash
zero_hash-IsHash = (refl, ground arith)

ones-IsHash : IsHash ones
ones-IsHash = (refl, ground arith)

parses : (hash_from_hex upper_hex zero_hash).0 ≡ true
unfolding program
parses = refl

not_hex : hash_from_hex (b'g' ∷ replicate 63 b'0') zero_hash ≡ (false, zero_hash)
unfolding program
not_hex = refl

hash_from_hex-hash_to_hex_example : hash_from_hex (hash_to_hex ones) zero_hash ≡ (true, ones)
hash_from_hex-hash_to_hex_example = hash_from_hex-hash_to_hex ones zero_hash ones-IsHash refl

hash_to_hex-hash_from_hex_example :
    (length upper_hex ≡ 64)
    × IsHash (hash_from_hex upper_hex zero_hash).1
    × (hash_to_hex (hash_from_hex upper_hex zero_hash).1 ≡ map to_lower upper_hex)
hash_to_hex-hash_from_hex_example = hash_to_hex-hash_from_hex upper_hex zero_hash refl parses

abbrev halves : List Bytes
halves = (b'a' ∷ []) ∷ (b'b' ∷ []) ∷ []

hash_file-hash_data_example :
    hash_file plain (reads halves false) ≡ some (hash_data plain (concat halves))
hash_file-hash_data_example = hash_file-hash_data plain plain-IsStreaming halves

abbrev text : Bytes → Node
text x = file (reads (x ∷ []) false)

abbrev one_way : Entries
one_way = entry (b'x' ∷ []) (text (b'1' ∷ [])) (entry (b'y' ∷ []) (text (b'2' ∷ [])) nil)

abbrev other_way : Entries
other_way = entry (b'y' ∷ []) (text (b'2' ∷ [])) (entry (b'x' ∷ []) (text (b'1' ∷ [])) nil)

swapped : Perm (hash_entries plain unsorted one_way) (hash_entries plain unsorted other_way)
unfolding hash_entries
swapped = Perm.swap _ _ _

hash_tree_order_example :
    hash_tree plain unsorted (dir one_way) ≡ hash_tree plain unsorted (dir other_way)
hash_tree_order_example = hash_tree_order plain unsorted unsorted-IsQsort one_way other_way swapped

hash_tree_exchange_example :
    hash_tree plain unsorted (dir one_way)
    ≡ hash_tree plain unsorted
        (dir (entry (b'x' ∷ []) (text (b'2' ∷ [])) (entry (b'y' ∷ []) (text (b'1' ∷ [])) nil)))
hash_tree_exchange_example =
    hash_tree_exchange plain unsorted unsorted-IsQsort (b'x' ∷ []) (b'y' ∷ []) (text (b'1' ∷ []))
      (text (b'2' ∷ [])) nil
