-- ===== src/BitStream/Tests.antt =====
-- aotbot/bitstream.py: runs of the bit stream on small inputs, and the theorems at concrete inputs.
use aot_headless_client.Base.{
  ℕ, ◌+◌, ◌-◌, ◌*◌, ◌^◌, ◌≤◌, ◌<◌, ◌≡◌, refl, false, ◌||◌, ◌&&◌, none, some, List, [], ◌∷◌, map,
  arith, ltb, length, take, All,
}
use aot_headless_client.Base.Int.{pos, negsuc, low_bits}
use aot_headless_client.Base.Bytes.{IsByte}
use aot_headless_client.BitStream.{
  BitStream, ◌>>◌, new, open_on, get_bytes, write_flag, write_int, read_int, write_signed_int,
  read_signed_int, ranged_bits, write_ranged_u32, read_ranged_u32,
}
use aot_headless_client.BitStream.Signed.{read_int-write_int, read_signed_int-write_signed_int}
use aot_headless_client.BitStream.Ranged.{ranged_bits_least, read_ranged_u32-write_ranged_u32}
use aot_headless_client.BitStream.Bounds.{read_int_error}
use aot_headless_client.BitStream.Huffman.{tables, decode_symbol, write_buffer, read_buffer}
use aot_headless_client.BitStream.Huffman.Coding.{decode_symbol_total}
use aot_headless_client.BitStream.Huffman.Decode.{
  buffer_bits, cut, read_buffer-write_buffer, buffer_bits-le,
}
use aot_headless_client.BitStream.Strings.{set_string_buffer}
use aot_headless_client.BitStream.Strings.Sequence.{
  write_strings, read_strings, read_strings-write_strings,
}

-- Three bits of 5 stand in one byte.
write_int_5 : get_bytes (write_int (pos 5) 3 new).1 ≡ 5 ∷ []
unfolding write_int get_bytes new write_flag
write_int_5 = refl

read_int-write_int_example :
    ((read_int 5 (open_on (get_bytes (write_int (negsuc 0) 5 new).1))).0 ≡ low_bits (negsuc 0) 5)
    × ((read_int 5 (open_on (get_bytes (write_int (negsuc 0) 5 new).1))).1.bit_num ≡ 5)
    × ((read_int 5 (open_on (get_bytes (write_int (negsuc 0) 5 new).1))).1.error ≡ false)
read_int-write_int_example = read_int-write_int (negsuc 0) 5 (omega arith)

read_signed_int-write_signed_int_example :
    ((read_signed_int 6 (open_on (get_bytes (write_signed_int (negsuc 8) 6 new).1))).0 ≡ negsuc 8)
    × ((read_signed_int 6 (open_on (get_bytes (write_signed_int (negsuc 8) 6 new).1))).1.error
        ≡ false)
read_signed_int-write_signed_int_example =
    read_signed_int-write_signed_int (negsuc 8) 6 (omega arith) (omega arith)

ranged_bits_least_example :
    (16 + 1 - 0 ≤ 2 ^ ranged_bits 0 16) × ((k : ℕ) → 16 + 1 - 0 ≤ 2 ^ k → ranged_bits 0 16 ≤ k)
ranged_bits_least_example = ranged_bits_least 0 16

width_5 : ranged_bits 3 20 ≡ 5
unfolding ranged_bits
width_5 = refl

read_ranged_u32-write_ranged_u32_example :
    ((read_ranged_u32 3 20 (open_on (get_bytes (write_ranged_u32 (pos 11) 3 20 new).1))).0 ≡ 11)
    × ((read_ranged_u32 3 20 (open_on (get_bytes (write_ranged_u32 (pos 11) 3 20 new).1))).1.bit_num
        ≡ ranged_bits 3 20)
read_ranged_u32-write_ranged_u32_example =
    read_ranged_u32-write_ranged_u32 11 3 20 (omega arith) (omega arith) (omega (arith, width_5))

-- A stream of two bytes.
abbrev two_bytes : BitStream
two_bytes = record { buf = 0xA5 ∷ 0x3C ∷ []; bit_num = 0; error = false; string_buffer = none }

read_int_error_example :
    ((read_int 20 two_bytes).1.error
      ≡ (two_bytes.error || (ltb 0 20 && ltb (8 * length two_bytes.buf) (two_bytes.bit_num + 20))))
    × ((read_int 20 two_bytes).1.bit_num ≡ two_bytes.bit_num + 20)
    × ((read_int 20 two_bytes).1.buf ≡ two_bytes.buf)
read_int_error_example = read_int_error 20 two_bytes

decode_symbol_total_example :
    (symbol : ℕ) × ((decode_symbol tables.nodes 256 (pos 0) two_bytes).0 ≡ some symbol)
    × (symbol < 256)
decode_symbol_total_example = decode_symbol_total two_bytes

abbrev word : List ℕ
word = b'A' ∷ b'o' ∷ b'T' ∷ b'!' ∷ []

word-IsByte : All IsByte word
word-IsByte = (omega arith, (omega arith, (omega arith, (omega arith, tt))))

read_buffer-write_buffer_example :
    ((read_buffer (open_on (get_bytes (write_buffer word 3 new).1))).0 ≡ cut word 3)
    × ((read_buffer (open_on (get_bytes (write_buffer word 3 new).1))).1.bit_num
        ≡ length (buffer_bits (cut word 3)))
    × ((read_buffer (open_on (get_bytes (write_buffer word 3 new).1))).1.error ≡ false)
read_buffer-write_buffer_example = read_buffer-write_buffer word 3 word-IsByte

buffer_bits-le_example : length (buffer_bits word) ≤ 9 + 8 * length word
buffer_bits-le_example = buffer_bits-le word

read_strings-write_strings_example :
    ((set_string_buffer (some []) >> read_strings (length (word ∷ word ∷ []))) (
      open_on
        (get_bytes ((set_string_buffer (some []) >> write_strings (word ∷ word ∷ [])) new).1))).0
    ≡ map (take 255) (word ∷ word ∷ [])
read_strings-write_strings_example =
    read_strings-write_strings (some []) (word ∷ word ∷ []) (word-IsByte, (word-IsByte, tt))
