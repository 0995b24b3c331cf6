-- ===== src/BitStream/Strings/Wire.antt =====
-- Strings against the bit view, with and without the string buffer.
use aot_headless_client.BitStream.Strings.{latin1}
use aot_headless_client.Base.{ltb, if◌then◌else◌, inl, inr, Bool-cases}
use aot_headless_client.Base.Tests.{ltb→lt}
use aot_headless_client.Base.{
  ℕ, zero, suc, ◌-◌, ◌≡◌, ◌≤◌, refl, ap, ap₂, ◌∙◌, inl, inr, Bool, true, false, Option, none, some,
  List, [], ◌∷◌, ◌++◌, append-nil, arith, ltb, ◌==◌, not, ◌&&◌, if◌then◌else◌, take, drop, All,
  All-drop, Bool-cases, take_all, length-take,
}
use mathlib.Core.Path.{subst}
use aot_headless_client.Base.Int.{pos}
use aot_headless_client.Base.Bytes.{IsByte}
use aot_headless_client.Base.Values.{int_bits}
use aot_headless_client.BitStream.{◌>>◌, write_int}
use aot_headless_client.BitStream.View.{Reads, Writes, Reads-bind, Reads-return, Writes-bind, emit}
use aot_headless_client.BitStream.Flags.{Reads-flag, Writes-flag}
use aot_headless_client.BitStream.Huffman.{write_buffer, read_buffer}
use aot_headless_client.BitStream.Huffman.Decode.{
  buffer_bits, cut, cut-IsByte, length-cut, cut-eq-take, Reads-buffer, Writes-buffer, Reads-count,
  Writes-count,
}
use aot_headless_client.BitStream.Strings.{
  StringArg, string_bytes, common_prefix, string_slot, set_string_buffer, write_dedup, write_string,
  read_whole, read_dedup, read_string, write_with, read_with,
}

common_prefix-le : (n : ℕ) (sb bytes : List ℕ) → common_prefix n sb bytes ≤ n
unfolding common_prefix
common_prefix-le zero sb bytes = omega arith
common_prefix-le (suc n) [] bytes = omega arith
common_prefix-le (suc n) (c ∷ sb) [] = omega arith
common_prefix-le (suc n) (c ∷ sb) (b ∷ bytes) = ground (arith, common_prefix-le n sb bytes)

-- The prefix that is left out is the same in the buffer and in the string.
take-common_prefix :
    (n : ℕ) (sb bytes : List ℕ)
    → take (common_prefix n sb bytes) sb ≡ take (common_prefix n sb bytes) bytes
unfolding common_prefix
take-common_prefix zero sb bytes = refl
take-common_prefix (suc n) [] bytes = refl
take-common_prefix (suc n) (c ∷ sb) [] = refl
take-common_prefix (suc n) (c ∷ sb) (b ∷ bytes) = elim (Bool-cases ((c == b) && not (b == 0))) [
  | inl t ↦ rw t (ap₂ ◌∷◌ (ground arith) (take-common_prefix n sb bytes))
  | inr t ↦ rw t refl
]

take-append-take-drop :
    (j m : ℕ) (bytes : List ℕ) → j ≤ m → take j bytes ++ take (m - j) (drop j bytes) ≡ take m bytes
take-append-take-drop zero m bytes h = ap (λ k. take k bytes) (omega arith)
take-append-take-drop (suc j) zero bytes h = absurd (omega arith)
take-append-take-drop (suc j) (suc m) [] h = nothing (suc m - suc j)
  where
    nothing : (k : ℕ) → take k (let e : List ℕ = [] in e) ≡ []
    nothing zero = refl
    nothing (suc k) = refl
take-append-take-drop (suc j) (suc m) (b ∷ bytes) h =
    let e : suc m - suc j ≡ m - j = omega arith in
    ap (λ t. b ∷ t)
      (ap (λ k. take j bytes ++ take k (drop j bytes)) e
        ∙ take-append-take-drop j m bytes (omega arith))

-- The string buffer after a string: none stays none.
abbrev pub strings_after : Option (List ℕ) → List ℕ → Option (List ℕ)
strings_after none bytes = none
strings_after (some sb) bytes = some (string_slot bytes)

-- The wire form of a string.
abbrev pub string_wire : Option (List ℕ) → List ℕ → ℕ → List Bool
string_wire none bytes m = buffer_bits (take m bytes)
string_wire (some sb) bytes m =
    let j = common_prefix m sb bytes in
    ltb 2 j
    ∷ (if ltb 2 j
        then int_bits 8 j ++ buffer_bits (take (m - j) (drop j bytes))
        else buffer_bits (take m bytes))

pub latin1-IsByte : (cs : List ℕ) → All IsByte (latin1 cs)
unfolding latin1
latin1-IsByte [] = tt
latin1-IsByte (c ∷ cs) = (
  elim (Bool-cases (ltb c 256)) [ inl t ↦ rw t (ltb→lt c 256 t) | inr t ↦ rw t (omega arith) ],
  latin1-IsByte cs,
)

pub Writes-set_strings : (sb sb' : Option (List ℕ)) → Writes sb (set_string_buffer sb') [] tt sb'
unfolding set_string_buffer emit
Writes-set_strings sb sb' = record { run = λ s e. refl }

pub Reads-set_strings : (sb sb' : Option (List ℕ)) → Reads sb (set_string_buffer sb') [] tt sb'
unfolding set_string_buffer
Reads-set_strings sb sb' = record {
  run = λ s rest e u. ap (λ n. (tt, record s { bit_num = n; string_buffer = sb' })) (omega arith);
}

Writes-cut :
    (sb : Option (List ℕ)) (bytes : List ℕ) (m : ℕ)
    → All IsByte bytes
    → m ≤ 255
    → Writes sb (write_buffer bytes m) (buffer_bits (take m bytes)) tt sb
Writes-cut sb bytes m h small =
    subst (λ t. Writes sb (write_buffer bytes m) (buffer_bits t) tt sb) (cut-eq-take bytes m small)
      (Writes-buffer sb bytes m h)

Reads-cut :
    (sb : Option (List ℕ)) (bytes : List ℕ) (m : ℕ)
    → All IsByte bytes
    → m ≤ 255
    → Reads sb read_buffer (buffer_bits (take m bytes)) (take m bytes) sb
Reads-cut sb bytes m h small =
    subst (λ t. Reads sb read_buffer (buffer_bits t) t sb) (cut-eq-take bytes m small)
      (Reads-buffer sb (cut bytes m) (cut-IsByte bytes m h) (length-cut bytes m))

Writes-rest :
    (sb : Option (List ℕ)) (dedup : Bool) (bytes : List ℕ) (j m : ℕ)
    → All IsByte bytes
    → m ≤ 255
    → j ≤ m
    → Writes sb
        (if dedup
          then (write_int (pos j) 8 >> write_buffer (drop j bytes) (m - j))
          else write_buffer bytes m)
        (if dedup
          then int_bits 8 j ++ buffer_bits (take (m - j) (drop j bytes))
          else buffer_bits (take m bytes))
        tt
        sb
Writes-rest sb true bytes j m h small le =
    Writes-bind _ (Writes-count sb j (omega arith))
      (Writes-cut sb (drop j bytes) (m - j) (All-drop IsByte j bytes h) (omega arith))
Writes-rest sb false bytes j m h small le = Writes-cut sb bytes m h small

Writes-dedup :
    (sb bytes : List ℕ) (m : ℕ)
    → All IsByte bytes
    → m ≤ 255
    → Writes
        (some sb)
        (write_dedup bytes m sb)
        (string_wire (some sb) bytes m)
        tt
        (some (string_slot (take m bytes)))
unfolding write_dedup
Writes-dedup sb bytes m h small =
    Writes-bind _ (Writes-bind _ (Writes-set_strings (some sb) _) (Writes-flag _ _))
      (Writes-rest _ _ bytes (common_prefix m sb bytes) m h small (common_prefix-le m sb bytes))

-- `write_string` in bits, in both modes.
pub Writes-string :
    (sb : Option (List ℕ)) (string : StringArg) (m : ℕ)
    → All IsByte (string_bytes string)
    → m ≤ 255
    → Writes sb
        (write_string string m)
        (string_wire sb (string_bytes string) m)
        tt
        (strings_after sb (take m (string_bytes string)))
unfolding write_string write_with
Writes-string none string m h small = record {
  run = λ s e.
      ap (λ o. write_with o (string_bytes string) m s) e
      ∙ (Writes-cut none (string_bytes string) m h small).run s e;
}
Writes-string (some sb) string m h small = record {
  run = λ s e.
      ap (λ o. write_with o (string_bytes string) m s) e
      ∙ (Writes-dedup sb (string_bytes string) m h small).run s e;
}

Reads-whole :
    (sb bytes : List ℕ) (m : ℕ)
    → All IsByte bytes
    → m ≤ 255
    → Reads
        (some sb)
        read_whole
        (buffer_bits (take m bytes))
        (take m bytes)
        (some (string_slot (take m bytes)))
unfolding read_whole
Reads-whole sb bytes m h small =
    let short : take 256 (take m bytes) ≡ take m bytes =
      take_all 256 (take m bytes) (omega (arith, length-take m bytes)) in
    subst
      (λ t.
        Reads (some sb) read_whole (buffer_bits (take m bytes)) (take m bytes)
          (some (string_slot t)))
      short
      (subst
        (λ t.
          Reads (some sb) read_whole t (take m bytes)
            (some (string_slot (take 256 (take m bytes)))))
        (append-nil (buffer_bits (take m bytes)))
        (Reads-bind _ (Reads-cut (some sb) bytes m h small)
          (Reads-return _ (Reads-set_strings (some sb) _))))

Reads-dedup :
    (sb bytes : List ℕ) (m : ℕ)
    → All IsByte bytes
    → m ≤ 255
    → Reads
        (some sb)
        (read_dedup sb)
        (int_bits 8 (common_prefix m sb bytes)
          ++ buffer_bits
              (take (m - common_prefix m sb bytes) (drop (common_prefix m sb bytes) bytes)))
        (take m bytes)
        (some (string_slot (take m bytes)))
unfolding read_dedup
Reads-dedup sb bytes m h small =
    let j = common_prefix m sb bytes in
    let le = common_prefix-le m sb bytes in
    let merged : take j sb ++ take (m - j) (drop j bytes) ≡ take m bytes =
      ap (λ t. t ++ take (m - j) (drop j bytes)) (take-common_prefix m sb bytes)
      ∙ take-append-take-drop j m bytes le in
    let short : take 256 (take m bytes) ≡ take m bytes =
      take_all 256 (take m bytes) (omega (arith, length-take m bytes)) in
    let bits = int_bits 8 j ++ buffer_bits (take (m - j) (drop j bytes)) in
    subst (λ t. Reads (some sb) (read_dedup sb) bits (take m bytes) (some (string_slot t))) short
      (subst (λ t. Reads (some sb) (read_dedup sb) bits t (some (string_slot (take 256 t)))) merged
        (subst
          (λ t.
            Reads (some sb) (read_dedup sb) (int_bits 8 j ++ t)
              (take j sb ++ take (m - j) (drop j bytes))
              (some (string_slot (take 256 (take j sb ++ take (m - j) (drop j bytes))))))
          (append-nil (buffer_bits (take (m - j) (drop j bytes))))
          (Reads-bind _ (Reads-count (some sb) j (omega arith)) (
            Reads-bind _
              (Reads-cut (some sb) (drop j bytes) (m - j) (All-drop IsByte j bytes h) (omega arith))
              (Reads-return _ (Reads-set_strings (some sb) _))))))

Reads-choice :
    (sb bytes : List ℕ) (m : ℕ) (dedup : Bool)
    → All IsByte bytes
    → m ≤ 255
    → Reads
        (some sb)
        (if dedup then read_dedup sb else read_whole)
        (if dedup
          then int_bits 8 (common_prefix m sb bytes)
            ++ buffer_bits
                (take (m - common_prefix m sb bytes) (drop (common_prefix m sb bytes) bytes))
          else buffer_bits (take m bytes))
        (take m bytes)
        (some (string_slot (take m bytes)))
Reads-choice sb bytes m true h small = Reads-dedup sb bytes m h small
Reads-choice sb bytes m false h small = Reads-whole sb bytes m h small

-- `read_string` reads that form back, and both ends then hold the same string buffer.
pub Reads-string :
    (sb : Option (List ℕ)) (bytes : List ℕ) (m : ℕ)
    → All IsByte bytes
    → m ≤ 255
    → Reads sb read_string (string_wire sb bytes m) (take m bytes) (strings_after sb (take m bytes))
unfolding read_string read_with
Reads-string none bytes m h small = record {
  run = λ s rest e u. ap (λ o. read_with o s) e ∙ (Reads-cut none bytes m h small).run s rest e u;
}
Reads-string (some sb) bytes m h small = record {
  run = λ s rest e u.
      ap (λ o. read_with o s) e
      ∙ (Reads-bind (λ dedup. if dedup then read_dedup sb else read_whole)
            (Reads-flag (some sb) (ltb 2 (common_prefix m sb bytes)))
            (Reads-choice sb bytes m _ h small)).run
          s rest e u;
}
