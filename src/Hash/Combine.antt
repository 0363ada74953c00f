-- ===== src/Hash/Combine.antt =====
-- `hash_combine` is the bytewise exclusive or: the order of what is combined does not matter, and
-- the same hash combined twice cancels.
use Prim.Native.Nat.{bit_xor}
use rebuild.Base.{ℕ, suc, ◌≡◌, refl, ap, ap₂, arith, [], ◌∷◌, length, sym, ◌∙◌}
use rebuild.Base.{replicate}
use rebuild.Base.Xor.{bit_xor_comm, bit_xor_assoc, bit_xor_self, bit_xor-lt, bit_xor-zero_left}
use rebuild.Hash.{Hash, AllBytes, IsHash, hash_combine}

xor_swap : (d a b : ℕ) → bit_xor (bit_xor d a) b ≡ bit_xor (bit_xor d b) a
xor_swap d a b = bit_xor_assoc d a b ∙ ap (bit_xor d) (bit_xor_comm a b) ∙ sym (bit_xor_assoc d b a)

pub hash_combine_swap :
    (d a b : Hash) → hash_combine (hash_combine d a) b ≡ hash_combine (hash_combine d b) a
unfolding hash_combine
hash_combine_swap [] a b = refl
hash_combine_swap (x ∷ d) [] [] = refl
hash_combine_swap (x ∷ d) [] (b ∷ bs) = refl
hash_combine_swap (x ∷ d) (a ∷ ys) [] = refl
hash_combine_swap (x ∷ d) (a ∷ ys) (b ∷ bs) = ap₂ ◌∷◌ (xor_swap x a b) (hash_combine_swap d ys bs)

hash_combine_comm : (a b : Hash) → length a ≡ length b → hash_combine a b ≡ hash_combine b a
unfolding hash_combine
hash_combine_comm [] [] e = refl
hash_combine_comm [] (y ∷ b) e = absurd (omega arith)
hash_combine_comm (x ∷ a) [] e = absurd (omega arith)
hash_combine_comm (x ∷ a) (y ∷ b) e =
    ap₂ ◌∷◌ (bit_xor_comm x y) (hash_combine_comm a b (omega arith))

xor_twice : (d a : ℕ) → bit_xor (bit_xor d a) a ≡ d
xor_twice d a =
    bit_xor_assoc d a a ∙ ap (bit_xor d) (bit_xor_self a) ∙ bit_xor_comm d 0 ∙ bit_xor-zero_left d

hash_combine_twice : (d a : Hash) → hash_combine (hash_combine d a) a ≡ d
unfolding hash_combine
hash_combine_twice [] a = refl
hash_combine_twice (x ∷ d) [] = refl
hash_combine_twice (x ∷ d) (a ∷ ys) = ap₂ ◌∷◌ (xor_twice x a) (hash_combine_twice d ys)

pub hash_combine_self : (h : Hash) → hash_combine h h ≡ replicate (length h) 0
unfolding hash_combine
hash_combine_self [] = refl
hash_combine_self (x ∷ h) = ap₂ ◌∷◌ (bit_xor_self x) (hash_combine_self h)

length-hash_combine : (d a : Hash) → length (hash_combine d a) ≡ length d
unfolding hash_combine
length-hash_combine [] a = refl
length-hash_combine (x ∷ d) [] = refl
length-hash_combine (x ∷ d) (a ∷ ys) = ap suc (length-hash_combine d ys)

hash_combine-AllBytes : (d a : Hash) → AllBytes d → AllBytes a → AllBytes (hash_combine d a)
unfolding hash_combine
hash_combine-AllBytes [] a p q = p
hash_combine-AllBytes (x ∷ d) [] p q = p
hash_combine-AllBytes (x ∷ d) (a ∷ ys) (lt, p) (lt', q) =
    (bit_xor-lt 8 x a lt lt', hash_combine-AllBytes d ys p q)

-- Combining two hashes of 32 bytes gives such a hash. It is symmetric, hashes that are combined in turn may be
-- exchanged, and a hash that is combined twice cancels.
hash_combine_laws :
    (d a b : Hash)
    → IsHash d
    → IsHash a
    → IsHash (hash_combine d a)
      × (hash_combine d a ≡ hash_combine a d)
      × (hash_combine (hash_combine d a) b ≡ hash_combine (hash_combine d b) a)
      × (hash_combine (hash_combine d a) a ≡ d)
hash_combine_laws d a b (dl, db) (al, ab) = (
  (length-hash_combine d a ∙ dl, hash_combine-AllBytes d a db ab),
  hash_combine_comm d a (dl ∙ sym al),
  hash_combine_swap d a b,
  hash_combine_twice d a,
)
