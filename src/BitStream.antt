-- ===== src/BitStream.antt =====
-- aotbot/bitstream.py, lines 46 to 346: the bit cursor over a byte buffer, flags, bits, integers
-- and raw bytes. An operation is a function on the stream, which returns its result and the stream.
pub mod View
pub mod Appended
pub mod Flags
pub mod Chunks
pub mod Ints
pub mod Fields
pub mod Signed
pub mod Ranged
pub mod Bounds
pub mod Huffman
pub mod Strings
pub mod Tests
use aot_headless_client.Base.{
  ℕ, zero, suc, ◌+◌, ◌-◌, ◌*◌, ◌/◌, ◌%◌, ◌^◌, Bool, true, false, Option, none, some, List, [], ◌∷◌,
  ◌++◌, ltb, leb, ◌==◌, if◌then◌else◌, length, get_or, set, replicate, take,
}
use aot_headless_client.Base.Int.{ℤ, pos, negsuc, neg, ◌+ℤ◌, ◌-ℤ◌, is_neg, low_bits}
use aot_headless_client.Base.Bytes.{test_bit, put_bit}

pub record BitStream : Type 0 where
  pub buf : List ℕ
  pub bit_num : ℕ
  pub error : Bool
  pub string_buffer : Option (List ℕ)

-- `BitStream()` and `BitStream(data)`
unfoldable pub new : BitStream
new = record { buf = []; bit_num = 0; error = false; string_buffer = none }

unfoldable pub open_on : List ℕ → BitStream
open_on bytes = record { buf = bytes; bit_num = 0; error = false; string_buffer = none }

-- A method that mutates the stream and returns a value.
abbrev pub M : Type 0 → Type 0
M A = BitStream → A × BitStream

unfoldable pub pure : {A : Type 0} → A → M A
pure a s = (a, s)

infixl 5 ◌>>=◌ ◌>>◌
unfoldable pub ◌>>=◌ : {A B : Type 0} → M A → (A → M B) → M B
◌>>=◌ m f s = let (a, s') = m s in f a s'

abbrev pub ◌>>◌ : {A B : Type 0} → M A → M B → M B
m >> k = m >>= λ _. k

-- A byte that the buffer lacks is appended, and all before it, as zeros.
unfoldable pub ensure_byte : ℕ → List ℕ → List ℕ
ensure_byte i buf = if leb (length buf) i then buf ++ replicate (i + 1 - length buf) 0 else buf

unfoldable pub get_byte_position : BitStream → ℕ
get_byte_position s = (s.bit_num + 7) / 8

unfoldable pub set_byte_position : ℕ → BitStream → BitStream
set_byte_position p s = record s { bit_num = p * 8 }

unfoldable pub get_bit_position : BitStream → ℕ
get_bit_position s = s.bit_num

unfoldable pub set_bit_position : ℕ → BitStream → BitStream
set_bit_position p s = record s { bit_num = p }

unfoldable pub get_bytes : BitStream → List ℕ
get_bytes s = take ((s.bit_num + 7) / 8) s.buf

unfoldable pub clear : BitStream → BitStream
clear s = record s { buf = []; bit_num = 0; error = false }

unfoldable pub is_valid : BitStream → Bool
is_valid s = if s.error then false else true

unfoldable pub align_byte : BitStream → BitStream
align_byte s = if s.bit_num % 8 == 0 then s else record s { bit_num = (s.bit_num + 7) / 8 * 8 }

unfoldable pub write_flag : Bool → M Bool
unfolding ensure_byte
write_flag val s =
    let i = s.bit_num / 8 in
    let buf = ensure_byte i s.buf in
    (
      val,
      record s {
        buf = set buf i (put_bit (get_or buf i 0) (s.bit_num % 8) val);
        bit_num = s.bit_num + 1;
      },
    )

unfoldable pub read_flag : M Bool
read_flag s =
    if leb (length s.buf) (s.bit_num / 8)
    then (false, record s { error = true; bit_num = s.bit_num + 1 })
    else (
      test_bit (get_or s.buf (s.bit_num / 8) 0) (s.bit_num % 8),
      record s { bit_num = s.bit_num + 1 },
    )

-- Bit `i` of the argument of `write_bits`, 0 past its end.
abbrev pub data_bit : List ℕ → ℕ → Bool
data_bit bytes i = test_bit (get_or bytes (i / 8) 0) (i % 8)

-- `for i in range(bit_count)`, with `left` rounds to go.
unfoldable pub write_bits_loop : ℕ → ℕ → List ℕ → M (Unit {0})
write_bits_loop zero i bytes s = (tt, s)
write_bits_loop (suc left) i bytes s =
    write_bits_loop left (i + 1) bytes (write_flag (data_bit bytes i) s).1

unfoldable pub write_bits : ℕ → List ℕ → M (Unit {0})
unfolding write_bits_loop
write_bits bit_count bytes = write_bits_loop bit_count 0 bytes

unfoldable pub read_bits_loop : ℕ → ℕ → List ℕ → M (List ℕ)
read_bits_loop zero i out s = (out, s)
read_bits_loop (suc left) i out s =
    let (bit, s') = read_flag s in
    read_bits_loop left (i + 1)
      (if bit then set out (i / 8) (put_bit (get_or out (i / 8) 0) (i % 8) true) else out) s'

unfoldable pub read_bits : ℕ → M (List ℕ)
unfolding read_bits_loop
read_bits bit_count = read_bits_loop bit_count 0 (replicate ((bit_count + 7) / 8) 0)

-- `to_bytes(n, "little")` and `from_bytes(_, "little")`
unfoldable pub to_bytes : ℕ → ℕ → List ℕ
to_bytes zero v = []
to_bytes (suc n) v = (v % 256) ∷ to_bytes n (v / 256)

unfoldable pub from_bytes : List ℕ → ℕ
from_bytes [] = 0
from_bytes (b ∷ bs) = b + 256 * from_bytes bs

-- A count at or below 0 is 0 here; the mask of 32 bits is applied from 32 bits on.
unfoldable pub write_int : ℤ → ℕ → M (Unit {0})
unfolding write_bits to_bytes
write_int value bit_count =
    if bit_count == 0
    then pure tt
    else write_bits bit_count
        (to_bytes 4 (if ltb bit_count 32 then low_bits value bit_count else low_bits value 32))

unfoldable pub read_int : ℕ → M ℕ
unfolding read_bits from_bytes
read_int bit_count = if bit_count == 0 then pure 0 else do
  raw ← read_bits bit_count
  let val = from_bytes raw
  pure ((if ltb bit_count 32 then val % 2 ^ bit_count else val) % 2 ^ 32)

unfoldable pub write_signed_int : ℤ → ℕ → M (Unit {0})
unfolding write_flag write_int
write_signed_int value bit_count = do
  negative ← write_flag (is_neg value)
  if negative then write_int (neg value) (bit_count - 1) else write_int value (bit_count - 1)

unfoldable pub read_signed_int : ℕ → M ℤ
unfolding read_flag read_int
read_signed_int bit_count = do
  negative ← read_flag
  magnitude ← read_int (bit_count - 1)
  pure (if negative then neg (pos magnitude) else pos magnitude)

unfoldable pub write_bytes : List ℕ → M (Unit {0})
unfolding write_bits
write_bytes bytes = write_bits (length bytes * 8) bytes

unfoldable pub read_bytes : ℕ → M (List ℕ)
unfolding read_bits
read_bytes count = read_bits (count * 8)

unfoldable pub write_u8 : ℤ → M (Unit {0})
unfolding write_int
write_u8 value = write_int (pos (low_bits value 8)) 8

unfoldable pub read_u8 : M ℕ
unfolding read_int
read_u8 = read_int 8

-- `while n < value: n <<= 1`, at most `value` rounds.
unfoldable pub next_pow2_loop : ℕ → ℕ → ℕ → ℕ
next_pow2_loop zero value n = n
next_pow2_loop (suc fuel) value n =
    let rest = next_pow2_loop fuel value (n * 2) in if ltb n value then rest else n

unfoldable pub next_pow2 : ℕ → ℕ
unfolding next_pow2_loop
next_pow2 value = if leb value 1 then 1 else next_pow2_loop value value 1

-- `while v > 1: v >>= 1; bits += 1`, at most `value` rounds.
unfoldable pub bin_log2_loop : ℕ → ℕ → ℕ → ℕ
bin_log2_loop zero v bits = bits
bin_log2_loop (suc fuel) v bits =
    let rest = bin_log2_loop fuel (v / 2) (bits + 1) in if ltb 1 v then rest else bits

unfoldable pub bin_log2 : ℕ → ℕ
unfolding bin_log2_loop
bin_log2 value = bin_log2_loop value value 0

unfoldable pub ranged_bits : ℕ → ℕ → ℕ
unfolding next_pow2 bin_log2
ranged_bits range_start range_end = bin_log2 (next_pow2 (range_end + 1 - range_start))

unfoldable pub write_ranged_u32 : ℤ → ℕ → ℕ → M (Unit {0})
unfolding write_int ranged_bits
write_ranged_u32 value range_start range_end =
    write_int (value -ℤ pos range_start) (ranged_bits range_start range_end)

unfoldable pub read_ranged_u32 : ℕ → ℕ → M ℕ
unfolding read_int ranged_bits
read_ranged_u32 range_start range_end = do
  v ← read_int (ranged_bits range_start range_end)
  pure (v + range_start)
