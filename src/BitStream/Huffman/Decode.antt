-- ===== src/BitStream/Huffman/Decode.antt =====
-- `write_buffer` and `read_buffer` against the bit view, and the round trip of byte strings.
use aot_headless_client.Base.{
  ap, ℕ, zero, suc, ◌+◌, ◌*◌, ◌≡◌, ◌≤◌, refl, sym, ◌∙◌, inl, inr, Bool, true, false, Option, none,
  some, List, [], ◌∷◌, ◌++◌, arith, ltb, leb, if◌then◌else◌, length, take, take_all, length-append,
  All, All-take, length-take, Bool-cases,
}
use mathlib.Core.Path.{subst}
use aot_headless_client.Base.Int.{ℤ, pos, negsuc}
use aot_headless_client.Base.Bytes.{IsByte, bits_of, length-bits_of}
use aot_headless_client.Base.Values.{int_bits, length-int_bits}
use aot_headless_client.BitStream.Appended.{transmit}
use aot_headless_client.BitStream.{
  new, open_on, get_bytes, ◌>>=◌, write_bits, to_bytes, read_int, write_int, read_bytes,
  write_bytes, write_flag,
}
use aot_headless_client.BitStream.View.{
  Reads, Writes, Reads-bind, Reads-pure, Reads-return, Writes-bind, Writes-pure,
}
use aot_headless_client.BitStream.Flags.{Reads-flag, Writes-flag}
use aot_headless_client.BitStream.Chunks.{Writes-bits, Writes-bytes, Reads-bytes}
use aot_headless_client.BitStream.Ints.{bit_run-int_bits, Writes-int, Reads-int_bits, written_small}
use aot_headless_client.BitStream.Huffman.{
  Node, tables, numbits_of, code_of, decode_symbol, read_symbols, read_buffer, total_bits,
  write_symbols, sent_length, write_buffer,
}
use aot_headless_client.BitStream.Huffman.Coding.{walk, byte-IsCoded}

Reads-walk :
    (sb : Option (List ℕ)) (nodes : List Node) (bs : List Bool) (fuel : ℕ) (index : ℤ) (symbol : ℕ)
    → walk nodes bs index ≡ some symbol
    → length bs ≤ fuel
    → Reads sb (decode_symbol nodes fuel index) bs (some symbol) sb
unfolding walk decode_symbol
Reads-walk sb nodes [] zero (negsuc leaf) symbol e h = rw e (Reads-pure sb (some symbol))
Reads-walk sb nodes [] (suc fuel) (negsuc leaf) symbol e h = rw e (Reads-pure sb (some symbol))
Reads-walk sb nodes [] fuel (pos n) symbol e h = cc
Reads-walk sb nodes (b ∷ bs) fuel (negsuc leaf) symbol e h = cc
Reads-walk sb nodes (b ∷ bs) zero (pos n) symbol e h = absurd (omega arith)
Reads-walk sb nodes (b ∷ bs) (suc fuel) (pos n) symbol e h =
    Reads-bind _ (Reads-flag sb b) (Reads-walk sb nodes bs fuel _ symbol e (omega arith))

-- The bits of a symbol.
abbrev pub symbol_bits : ℕ → List Bool
symbol_bits b = int_bits (numbits_of tables.codes b) (code_of tables.codes b)

abbrev pub symbols_bits : List ℕ → List Bool
symbols_bits [] = []
symbols_bits (b ∷ bs) = symbol_bits b ++ symbols_bits bs

Reads-symbols :
    (sb : Option (List ℕ)) (bytes : List ℕ)
    → All IsByte bytes
    → Reads sb (read_symbols tables.nodes (length bytes)) (symbols_bits bytes) bytes sb
unfolding read_symbols
Reads-symbols sb [] h = Reads-pure sb []
Reads-symbols sb (b ∷ bs) (h, hs) =
    let coded = byte-IsCoded b h in
    Reads-bind _
      (Reads-walk sb tables.nodes (symbol_bits b) 256 (pos 0) b coded.decodes (
        omega (
          arith,
          coded.bits,
          length-int_bits (numbits_of tables.codes b) (code_of tables.codes b),
        )))
      (Reads-return _ (Reads-symbols sb bs hs))

Writes-symbols :
    (sb : Option (List ℕ)) (bytes : List ℕ)
    → All IsByte bytes
    → Writes sb (write_symbols tables.codes bytes) (symbols_bits bytes) tt sb
unfolding write_symbols
Writes-symbols sb [] h = Writes-pure sb tt
Writes-symbols sb (b ∷ bs) (h, hs) =
    let coded = byte-IsCoded b h in
    Writes-bind _
      (subst
        (λ t.
          Writes sb (write_bits (numbits_of tables.codes b) (to_bytes 4 (code_of tables.codes b))) t
            tt sb)
        (bit_run-int_bits (numbits_of tables.codes b) 0 (code_of tables.codes b) coded.code)
        (Writes-bits sb _ (to_bytes 4 (code_of tables.codes b))))
      (Writes-symbols sb bs hs)

-- Whether the Huffman form is shorter than the bytes.
abbrev pub is_shorter : List ℕ → Bool
is_shorter bytes = if leb (length bytes * 8) (total_bits tables.codes bytes) then false else true

-- The wire form of a byte string of at most 255 bytes.
abbrev pub buffer_bits : List ℕ → List Bool
buffer_bits bytes =
    is_shorter bytes
    ∷ (int_bits 8 (length bytes)
        ++ (if is_shorter bytes then symbols_bits bytes else bits_of bytes))

Reads-payload :
    (sb : Option (List ℕ)) (compressed : Bool) (bytes : List ℕ)
    → All IsByte bytes
    → Reads sb
        (if compressed then read_symbols tables.nodes (length bytes) else read_bytes (length bytes))
        (if compressed then symbols_bits bytes else bits_of bytes)
        bytes
        sb
Reads-payload sb true bytes h = Reads-symbols sb bytes h
Reads-payload sb false bytes h = Reads-bytes sb bytes h

pub Reads-count :
    (sb : Option (List ℕ)) (n : ℕ) → n ≤ 255 → Reads sb (read_int 8) (int_bits 8 n) n sb
Reads-count sb n h =
    subst (λ (v : ℕ). Reads sb (read_int 8) (int_bits 8 n) v sb) (omega arith)
      (Reads-int_bits sb 8 n (omega arith))

pub Reads-buffer :
    (sb : Option (List ℕ)) (bytes : List ℕ)
    → All IsByte bytes
    → length bytes ≤ 255
    → Reads sb read_buffer (buffer_bits bytes) bytes sb
unfolding read_buffer
Reads-buffer sb bytes h small = Reads-bind _ (Reads-flag sb (is_shorter bytes)) (
    Reads-bind _ (Reads-count sb (length bytes) small)
      (Reads-payload sb (is_shorter bytes) bytes h))

-- The part of a byte string that is sent: at most `max_len` and at most 255 bytes from its start.
abbrev pub cut : List ℕ → ℕ → List ℕ
cut bytes max_len = take 255 (take max_len bytes)

pub length-cut : (bytes : List ℕ) (max_len : ℕ) → length (cut bytes max_len) ≤ 255
length-cut bytes max_len = ground (arith, length-take 255 (take max_len bytes))

pub cut-IsByte : (bytes : List ℕ) (max_len : ℕ) → All IsByte bytes → All IsByte (cut bytes max_len)
cut-IsByte bytes max_len h =
    All-take IsByte 255 (take max_len bytes) (All-take IsByte max_len bytes h)

-- Nothing is cut off a string of at most `max_len` and 255 bytes.
pub cut_whole :
    (bytes : List ℕ) (max_len : ℕ)
    → length bytes ≤ max_len
    → length bytes ≤ 255
    → cut bytes max_len ≡ bytes
cut_whole bytes max_len h k = ap (take 255) (take_all max_len bytes h) ∙ take_all 255 bytes k

take-take : (m n : ℕ) (xs : List ℕ) → m ≤ n → take m (take n xs) ≡ take m xs
take-take zero n xs h = refl
take-take (suc m) zero xs h = absurd (omega (arith, h))
take-take (suc m) (suc n) [] h = refl
take-take (suc m) (suc n) (x ∷ xs) h = ap (λ t. x ∷ t) (take-take m n xs (omega (arith, h)))

sent_length-cut :
    (bytes : List ℕ) (max_len : ℕ) → take (sent_length bytes max_len) bytes ≡ cut bytes max_len
unfolding sent_length
sent_length-cut bytes max_len = elim (Bool-cases (ltb max_len (length bytes))) [
  | inl t ↦ elim (Bool-cases (ltb 255 max_len)) [
    | inl u ↦ rw (t, u) (sym (take-take 255 max_len bytes (ground arith)))
    | inr u ↦
        rw (t, u)
          (sym (take_all 255 (take max_len bytes) (ground (arith, length-take max_len bytes))))
  ]
  | inr t ↦ elim (Bool-cases (ltb 255 (length bytes))) [
    | inl u ↦ rw (t, u) (ap (take 255) (sym (take_all max_len bytes (ground arith))))
    | inr u ↦
        rw (t, u)
          (take_all (length bytes) bytes (ground arith)
            ∙ sym (cut_whole bytes max_len (ground arith) (ground arith)))
  ]
]

pub Writes-count :
    (sb : Option (List ℕ)) (n : ℕ) → n ≤ 255 → Writes sb (write_int (pos n) 8) (int_bits 8 n) tt sb
Writes-count sb n h =
    subst (λ (t : ℕ). Writes sb (write_int (pos n) 8) (int_bits 8 t) tt sb)
      (written_small 8 n (omega arith) (omega arith)) (Writes-int sb (pos n) 8)

-- Under a limit of at most 255 the part that is sent is what the limit leaves.
pub cut-eq-take :
    (bytes : List ℕ) (max_len : ℕ) → max_len ≤ 255 → cut bytes max_len ≡ take max_len bytes
cut-eq-take bytes max_len h =
    take_all 255 (take max_len bytes) (ground (arith, length-take max_len bytes))

Writes-payload :
    (sb : Option (List ℕ)) (plain : Bool) (sent : List ℕ)
    → All IsByte sent
    → length sent ≤ 255
    → Writes sb
        (if plain
          then (write_flag false >>= λ _. write_int (pos (length sent)) 8 >>= λ _. write_bytes sent)
          else (write_flag true >>= λ _.
              write_int (pos (length sent)) 8 >>= λ _. write_symbols tables.codes sent))
        ((if plain then false else true)
          ∷ (int_bits 8 (length sent)
              ++ (if (if plain then false else true) then symbols_bits sent else bits_of sent)))
        tt
        sb
Writes-payload sb true sent h small =
    Writes-bind _ (Writes-flag sb false)
      (Writes-bind _ (Writes-count sb (length sent) small) (Writes-bytes sb sent))
Writes-payload sb false sent h small =
    Writes-bind _ (Writes-flag sb true)
      (Writes-bind _ (Writes-count sb (length sent) small) (Writes-symbols sb sent h))

pub Writes-buffer :
    (sb : Option (List ℕ)) (bytes : List ℕ) (max_len : ℕ)
    → All IsByte bytes
    → Writes sb (write_buffer bytes max_len) (buffer_bits (cut bytes max_len)) tt sb
unfolding write_buffer
Writes-buffer sb bytes max_len h = rw (sent_length-cut bytes max_len) (
    Writes-payload sb _ (cut bytes max_len) (cut-IsByte bytes max_len h) (length-cut bytes max_len))

-- `read_buffer` gets back the bytes that `write_buffer` was given, the first `max_len` and of these
-- the first 255, whichever of the two forms was the shorter one; it takes exactly the bits that were
-- written, without an error.
pub read_buffer-write_buffer :
    (bytes : List ℕ) (max_len : ℕ)
    → All IsByte bytes
    → ((read_buffer (open_on (get_bytes (write_buffer bytes max_len new).1))).0 ≡ cut bytes max_len)
      × ((read_buffer (open_on (get_bytes (write_buffer bytes max_len new).1))).1.bit_num
          ≡ length (buffer_bits (cut bytes max_len)))
      × ((read_buffer (open_on (get_bytes (write_buffer bytes max_len new).1))).1.error ≡ false)
read_buffer-write_buffer bytes max_len h =
    transmit (Writes-buffer none bytes max_len h) (
      Reads-buffer none (cut bytes max_len) (cut-IsByte bytes max_len h) (length-cut bytes max_len))

length-symbols_bits : (bytes : List ℕ) → length (symbols_bits bytes) ≡ total_bits tables.codes bytes
unfolding total_bits
length-symbols_bits [] = refl
length-symbols_bits (b ∷ bs) = omega (
  arith,
  length-append (symbol_bits b) (symbols_bits bs),
  length-int_bits (numbits_of tables.codes b) (code_of tables.codes b),
  length-symbols_bits bs,
)

-- A byte string never takes more than its own eight bits a byte, with the flag and the length.
pub buffer_bits-le : (bytes : List ℕ) → length (buffer_bits bytes) ≤ 9 + 8 * length bytes
buffer_bits-le bytes = elim (Bool-cases (leb (length bytes * 8) (total_bits tables.codes bytes))) [
  | inl t ↦ rw t (omega (arith, length-bits_of bytes))
  | inr t ↦ rw t (ground (arith, length-symbols_bits bytes))
]
