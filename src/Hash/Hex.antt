-- ===== src/Hash/Hex.antt =====
-- Hexadecimal printing and parsing: each undoes the other, up to the case of the digits.
use rebuild.Base.{ℕ, suc, ◌+◌, ◌*◌, ◌/◌, ◌%◌, ◌<◌, ◌≡◌, refl, ap, ap₂, arith, [], ◌∷◌}
use rebuild.Base.{map, Bool, true, Bytes, length, leb, ◌==◌, ◌&&◌, if◌then◌else◌, ◌∙◌}
use rebuild.Hash.{Hash, AllBytes, IsHash, hex_digit, hash_to_hex, is_xdigit, digit_value}
use rebuild.Base.{Bool-cases, inl, inr}
use rebuild.Hash.{from_hex_loop, hash_from_hex}

hex_digit_lem :
    (n : ℕ) → n < 16 → (is_xdigit (hex_digit n) ≡ true) × (digit_value (hex_digit n) ≡ n)
unfolding hex_digit is_xdigit digit_value
hex_digit_lem n h = (ground arith, ground arith)

from_hex_loop-to_hex :
    (h out : Hash)
    → AllBytes h
    → length out ≡ length h
    → from_hex_loop (hash_to_hex h) out ≡ (true, h)
unfolding from_hex_loop hash_to_hex
from_hex_loop-to_hex [] [] bytes e = refl
from_hex_loop-to_hex [] (o ∷ out) bytes e = absurd (omega arith)
from_hex_loop-to_hex (b ∷ bs) [] bytes e = absurd (omega arith)
from_hex_loop-to_hex (b ∷ bs) (o ∷ out) (lt, bytes) e =
    let hi = hex_digit_lem (b / 16) (omega arith) in
    let lo = hex_digit_lem (b % 16) (omega arith) in
    let byte : 16 * (b / 16) + b % 16 ≡ b = omega arith in
    rw (hi.0, lo.0, hi.1, lo.1, from_hex_loop-to_hex bs out bytes (omega arith), byte)

length-hash_to_hex : (h : Hash) → length (hash_to_hex h) ≡ 2 * length h
unfolding hash_to_hex
length-hash_to_hex [] = refl
length-hash_to_hex (b ∷ bs) = omega (arith, length-hash_to_hex bs)

-- A hash of 32 bytes that is printed and parsed comes back, whatever the output buffer of 32 bytes
-- held.
pub hash_from_hex-hash_to_hex :
    (h out : Hash) → IsHash h → length out ≡ 32 → hash_from_hex (hash_to_hex h) out ≡ (true, h)
unfolding hash_from_hex
hash_from_hex-hash_to_hex h out (len, bytes) e =
    ground (arith, length-hash_to_hex h, from_hex_loop-to_hex h out bytes)

pub to_lower : ℕ → ℕ
to_lower c = if leb b'A' c && leb c b'F' then c + 32 else c

lower_digit :
    (c : ℕ) → is_xdigit c ≡ true → (digit_value c < 16) × (hex_digit (digit_value c) ≡ to_lower c)
unfolding hex_digit is_xdigit digit_value to_lower
lower_digit c h = (ground arith, ground arith)

digits_byte :
    (a b : ℕ)
    → is_xdigit a ≡ true
    → is_xdigit b ≡ true
    → let v = 16 * digit_value a + digit_value b in
      (v < 256) × (hex_digit (v / 16) ≡ to_lower a) × (hex_digit (v % 16) ≡ to_lower b)
digits_byte a b p q =
    let (x, xl) = lower_digit a p in
    let (y, yl) = lower_digit b q in
    let hi : (16 * digit_value a + digit_value b) / 16 ≡ digit_value a = omega arith in
    let lo : (16 * digit_value a + digit_value b) % 16 ≡ digit_value b = omega arith in
    (omega arith, rw hi xl, rw lo yl)

-- What a parse that succeeds returns.
abbrev Printed : Bytes → Hash → Bool × Hash → Type 0
Printed hex out r =
    r.0 ≡ true → (hash_to_hex r.1 ≡ map to_lower hex) × AllBytes r.1 × (length r.1 ≡ length out)

from_hex_loop-Printed :
    (hex out : Bytes) → length hex ≡ 2 * length out → Printed hex out (from_hex_loop hex out)
unfolding from_hex_loop hash_to_hex
from_hex_loop-Printed [] [] e = λ h. (refl, tt, refl)
from_hex_loop-Printed [] (o ∷ out) e = λ h. absurd (omega arith)
from_hex_loop-Printed (a ∷ []) out e = λ h. absurd (omega arith)
from_hex_loop-Printed (a ∷ b ∷ rest) [] e = λ h. absurd (omega arith)
from_hex_loop-Printed (a ∷ b ∷ rest) (o ∷ out) e =
    let more = from_hex_loop-Printed rest out (omega arith) in
    elim (Bool-cases (is_xdigit a && is_xdigit b)) [
      | inr bad ↦ rw bad (λ h. cc)
      | inl good ↦ rw good λ h.
          let (text, bytes, len) = more h in
          let (lt, hi, lo) = digits_byte a b (ground arith) (ground arith) in
          (ap₂ (λ x xs. x ∷ xs) hi (ap₂ (λ x xs. x ∷ xs) lo text), (lt, bytes), ap suc len)
    ]

-- `hash_from_hex` accepts only 64 hexadecimal digits, and then the hash prints as those digits in
-- lower case.
pub hash_to_hex-hash_from_hex :
    (hex out : Bytes)
    → length out ≡ 32
    → (hash_from_hex hex out).0 ≡ true
    → (length hex ≡ 64)
      × IsHash (hash_from_hex hex out).1
      × (hash_to_hex (hash_from_hex hex out).1 ≡ map to_lower hex)
unfolding hash_from_hex
hash_to_hex-hash_from_hex hex out e = elim (Bool-cases (length hex == 64)) [
  | inr bad ↦ rw bad (λ h. cc)
  | inl good ↦
      let len : length hex ≡ 64 = ground arith in
      rw good λ h.
        let (text, bytes, size) = from_hex_loop-Printed hex out (omega arith) h in
        (len, (size ∙ e, bytes), text)
]
