-- ===== src/Hash.antt =====
-- Hashes: src/hash.c and the BLAKE2b interface that it calls.
--
-- A hash is its 32 bytes. `out` parameters are results: a function that returns false is `none`,
-- since its callers do not read `out` then.
pub mod Hex
pub mod Combine
pub mod Chunks
pub mod Tree
use Prim.Native.Nat.{bit_xor}
use mathlib.Core.Option
use rebuild.Base.{
  ℕ, zero, suc, ◌+◌, ◌-◌, ◌*◌, ◌/◌, ◌%◌, ◌<◌, ◌≡◌, List, [], ◌∷◌, ◌++◌, Option, none, some, Bool,
}
use rebuild.Base.{true, false, Bytes, length, replicate, leb, ltb, ◌==◌, ◌&&◌, ◌||◌, if◌then◌else◌}
use rebuild.Base.{same_string}

abbrev pub Hash : Type 0
Hash = Bytes

abbrev pub AllBytes : Bytes → Type 0
AllBytes [] = Unit
AllBytes (x ∷ xs) = (x < 256) × AllBytes xs

abbrev pub IsHash : Hash → Type 0
IsHash h = (length h ≡ 32) × AllBytes h

abbrev pub zero_hash : Hash
zero_hash = replicate 32 0

-- `memcmp(a->bytes, b->bytes, 32) == 0`
unfoldable pub hash_equal : Hash → Hash → Bool
unfolding same_string
hash_equal a b = same_string a b

-- A digit of `sprintf` with "%x".
unfoldable pub hex_digit : ℕ → ℕ
hex_digit n = if ltb n 10 then b'0' + n else b'a' + (n - 10)

-- `sprintf(&hex[i * 2], "%02x", h->bytes[i])` for each byte.
unfoldable pub hash_to_hex : Hash → Bytes
unfolding hex_digit
hash_to_hex [] = []
hash_to_hex (b ∷ bs) = hex_digit (b / 16) ∷ hex_digit (b % 16) ∷ hash_to_hex bs

unfoldable pub is_xdigit : ℕ → Bool
is_xdigit c = (leb b'0' c && leb c b'9') || (leb b'a' c && leb c b'f') || (leb b'A' c && leb c b'F')

-- The value of a hexadecimal digit, as `strtoul` with base 16 reads it.
unfoldable pub digit_value : ℕ → ℕ
digit_value c = if leb c b'9' then c - b'0' else if leb c b'F' then c - b'A' + 10 else c - b'a' + 10

-- The loop over the pairs of digits; the bytes of `out` that are not reached keep their values.
unfoldable pub from_hex_loop : Bytes → Hash → Bool × Hash
unfolding is_xdigit digit_value
from_hex_loop (a ∷ b ∷ rest) (o ∷ out) =
    let r = from_hex_loop rest out in
    if is_xdigit a && is_xdigit b
    then (r.0, (16 * digit_value a + digit_value b) ∷ r.1)
    else (false, o ∷ out)
from_hex_loop _ out = (true, out)

unfoldable pub hash_from_hex : Bytes → Hash → Bool × Hash
unfolding from_hex_loop
hash_from_hex hex out = if length hex == 64 then from_hex_loop hex out else (false, out)

-- `dest->bytes[i] ^= src->bytes[i]`
unfoldable pub hash_combine : Hash → Hash → Hash
hash_combine [] src = []
hash_combine (d ∷ dest) [] = d ∷ dest
hash_combine (d ∷ dest) (s ∷ src) = bit_xor d s ∷ hash_combine dest src

-- vendor/blake2, with 32 bytes of output and no key; `none` is a return value that is not 0.
pub record Blake2 : Type 1 where
  pub State : Type 0
  pub init : Option State
  pub update : State → Bytes → Option State
  pub final : State → Option Hash
  pub one_shot : Bytes → Option Hash

-- What `fopen` and the calls of `fread` on a file return: a file that cannot be opened, or the
-- chunks that were read and what `ferror` says after them.
pub data File : Type 0 where
  unopenable : File
  reads : List Bytes → Bool → File

module _ (b : Blake2) where
  open b use {State, init, update, final, one_shot}

  unfoldable pub hash_data : Bytes → Hash
  hash_data input = elim (one_shot input) [ some h ↦ h | none ↦ zero_hash ]

  -- The reading loop, and the test of `ferror` after it.
  unfoldable pub hash_chunks : List Bytes → Bool → State → Option State
  hash_chunks [] failed st = if failed then none else some st
  hash_chunks (c ∷ cs) failed st = Option.bind (update st c) (hash_chunks cs failed)

  unfoldable pub hash_file : File → Option Hash
  unfolding hash_chunks Option.bind
  hash_file unopenable = none
  hash_file (reads chunks failed) = Option.bind (Option.bind init (hash_chunks chunks failed)) final
