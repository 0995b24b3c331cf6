-- ===== src/Decoder/Rules.antt =====
-- `Decodes` for the readers of the bit stream and for the ways in which the decoders put them together.
use aot_headless_client.Base.{
  ℕ, zero, suc, ◌+◌, ◌*◌, ◌/◌, ◌%◌, refl, ap, ◌∙◌, Bool, true, false, Option, none, some, List, [],
  ◌==◌, if◌then◌else◌, get_or, set, replicate, arith,
}
use aot_headless_client.Base.Int.{ℤ, pos, negsuc}
use aot_headless_client.Base.Bytes.{put_bit}
use aot_headless_client.BitStream.{
  M, pure, ◌>>=◌, ◌>>◌, read_bits_loop, read_bits, read_int, read_signed_int, read_bytes,
  read_ranged_u32, read_u8,
}
use aot_headless_client.BitStream.Huffman.{
  Node, no_node, tables, decode_symbol, read_symbols, read_buffer,
}
use aot_headless_client.BitStream.Strings.{
  set_string_buffer, read_whole, read_dedup, read_with, read_string,
}
use aot_headless_client.BitStream.Strings.Wire.{Reads-set_strings}
use aot_headless_client.BitStream.View.{upcoming}
use aot_headless_client.Decoder.{
  repeat, when, if_flag, unless_flag, choose_flag, read_float, D, raise, ok, fine, after, then_,
  for_wheels,
}
use aot_headless_client.Decoder.Decodes.{Parse, Decodes, Decodes-pure, Decodes-bind, Decodes-flag}

pub Decodes-seq : {A B : Type 0} {m : M A} {n : M B} → Decodes m → Decodes n → Decodes (m >> n)
Decodes-seq d e = Decodes-bind d (λ v. e)

pub Decodes-if :
    {A : Type 0} {m n : M A} (b : Bool) → Decodes m → Decodes n → Decodes (if b then m else n)
Decodes-if true d e = d
Decodes-if false d e = e

pub Decodes-when : {A : Type 0} {m : M A} (b : Bool) → Decodes m → Decodes (when b m)
unfolding when
Decodes-when true d = Decodes-seq d (Decodes-pure tt)
Decodes-when false d = Decodes-pure tt

pub Decodes-if_flag : {A : Type 0} {m : M A} → Decodes m → Decodes (if_flag m)
unfolding if_flag
Decodes-if_flag d = Decodes-bind Decodes-flag (λ b. Decodes-when b d)

pub Decodes-unless_flag : {A : Type 0} {m : M A} → Decodes m → Decodes (unless_flag m)
unfolding unless_flag
Decodes-unless_flag d =
    Decodes-bind Decodes-flag (λ b. Decodes-if b (Decodes-pure tt) (Decodes-when true d))

pub Decodes-choose_flag :
    {A : Type 0} {m n : M A} → Decodes m → Decodes n → Decodes (choose_flag m n)
unfolding choose_flag
Decodes-choose_flag d e = Decodes-bind Decodes-flag (λ b. Decodes-if b d e)

pub Decodes-repeat : {A : Type 0} {m : M A} (count : ℕ) → Decodes m → Decodes (repeat count m)
unfolding repeat
Decodes-repeat zero d = Decodes-pure tt
Decodes-repeat (suc left) d = Decodes-seq d (Decodes-repeat left d)

Decodes-bits_loop : (left i : ℕ) (out : List ℕ) → Decodes (read_bits_loop left i out)
unfolding read_bits_loop pure ◌>>=◌
Decodes-bits_loop zero i out = Decodes-pure out
Decodes-bits_loop (suc left) i out = Decodes-bind Decodes-flag (λ bit.
    Decodes-bits_loop left (i + 1)
      (if bit then set out (i / 8) (put_bit (get_or out (i / 8) 0) (i % 8) true) else out))

pub Decodes-bits : (bit_count : ℕ) → Decodes (read_bits bit_count)
unfolding read_bits
Decodes-bits bit_count = Decodes-bits_loop bit_count 0 (replicate ((bit_count + 7) / 8) 0)

pub Decodes-int : (bit_count : ℕ) → Decodes (read_int bit_count)
unfolding read_int
Decodes-int bit_count =
    Decodes-if (bit_count == 0) (Decodes-pure 0)
      (Decodes-bind (Decodes-bits bit_count) (λ raw. Decodes-pure _))

pub Decodes-float : (bit_count : ℕ) → Decodes (read_float bit_count)
unfolding read_float
Decodes-float bit_count = Decodes-int bit_count

pub Decodes-signed_int : (bit_count : ℕ) → Decodes (read_signed_int bit_count)
unfolding read_signed_int
Decodes-signed_int bit_count =
    Decodes-bind Decodes-flag (λ b. Decodes-bind (Decodes-int _) (λ v. Decodes-pure _))

pub Decodes-bytes : (count : ℕ) → Decodes (read_bytes count)
unfolding read_bytes
Decodes-bytes count = Decodes-bits (count * 8)

pub Decodes-ranged_u32 : (lo hi : ℕ) → Decodes (read_ranged_u32 lo hi)
unfolding read_ranged_u32
Decodes-ranged_u32 lo hi = Decodes-bind (Decodes-int _) (λ v. Decodes-pure _)

pub Decodes-u8 : Decodes read_u8
unfolding read_u8
Decodes-u8 = Decodes-int 8

Decodes-symbol :
    (nodes : List Node) (fuel : ℕ) (index : ℤ) → Decodes (decode_symbol nodes fuel index)
unfolding decode_symbol
Decodes-symbol nodes zero (negsuc leaf) = Decodes-pure _
Decodes-symbol nodes zero (pos n) = Decodes-pure _
Decodes-symbol nodes (suc fuel) (negsuc leaf) = Decodes-pure _
Decodes-symbol nodes (suc fuel) (pos n) = Decodes-bind Decodes-flag (λ bit.
    Decodes-symbol nodes fuel
      (if bit then (get_or nodes n no_node).index1 else (get_or nodes n no_node).index0))

pub Decodes-symbols : (nodes : List Node) (count : ℕ) → Decodes (read_symbols nodes count)
unfolding read_symbols
Decodes-symbols nodes zero = Decodes-pure _
Decodes-symbols nodes (suc left) =
    Decodes-bind (Decodes-symbol nodes 256 (pos 0))
      (λ v. Decodes-bind (Decodes-symbols nodes left) (λ w. Decodes-pure _))

pub Decodes-buffer : Decodes read_buffer
unfolding read_buffer
Decodes-buffer = Decodes-bind Decodes-flag (λ b.
    Decodes-bind (Decodes-int 8)
      (λ n. Decodes-if b (Decodes-symbols tables.nodes n) (Decodes-bytes n)))

pub Decodes-set_string_buffer : (sb : Option (List ℕ)) → Decodes (set_string_buffer sb)
unfolding set_string_buffer
Decodes-set_string_buffer sb = record {
  kept = λ s. refl;
  onward = λ s. omega arith;
  sticky = λ s h. h;
  parses = λ s e. record {
    taken = [];
    rest = upcoming s;
    here = refl;
    reads = Reads-set_strings s.string_buffer sb;
  };
}

Decodes-with : (sb : Option (List ℕ)) → Decodes (read_with sb)
unfolding read_with read_whole read_dedup
Decodes-with none = Decodes-buffer
Decodes-with (some sb) = Decodes-bind Decodes-flag (λ b.
    Decodes-if b
      (Decodes-bind (Decodes-int 8) (λ n.
        Decodes-bind Decodes-buffer
          (λ t. Decodes-seq (Decodes-set_string_buffer _) (Decodes-pure _))))
      (Decodes-bind Decodes-buffer
        (λ t. Decodes-seq (Decodes-set_string_buffer _) (Decodes-pure _))))

pub Decodes-string : Decodes read_string
unfolding read_string
Decodes-string = record {
  kept = λ s. (Decodes-with s.string_buffer).kept s;
  onward = λ s. (Decodes-with s.string_buffer).onward s;
  sticky = λ s h. (Decodes-with s.string_buffer).sticky s h;
  parses = λ s e.
      let p = (Decodes-with s.string_buffer).parses s e in
      record {
        taken = p.taken;
        rest = p.rest;
        here = p.here;
        reads = record { run = λ t rest h u. ap (λ o. read_with o t) h ∙ p.reads.run t rest h u };
      };
}

pub Decodes-raise : {A : Type 0} → Decodes (raise {A = A})
unfolding raise
Decodes-raise = Decodes-pure none

pub Decodes-ok : Decodes ok
unfolding ok
Decodes-ok = Decodes-pure _

pub Decodes-fine : {m : M (Unit {0})} → Decodes m → Decodes (fine m)
unfolding fine
Decodes-fine d = Decodes-bind d (λ v. Decodes-pure _)

Decodes-after :
    {A B : Type 0} {f : A → D B} (o : Option A) → ((v : A) → Decodes (f v)) → Decodes (after o f)
Decodes-after none g = Decodes-pure none
Decodes-after (some v) g = g v

pub Decodes-then :
    {A B : Type 0} {m : D A} {f : A → D B}
    → Decodes m
    → ((v : A) → Decodes (f v))
    → Decodes (then_ m f)
unfolding then_
Decodes-then d g = Decodes-bind d (λ o. Decodes-after o g)

pub Decodes-for_wheels :
    {A : Type 0} {m : M A} (count : Option ℕ) → Decodes m → Decodes (for_wheels count m)
unfolding for_wheels
Decodes-for_wheels none d = Decodes-raise
Decodes-for_wheels (some count) d = Decodes-fine (Decodes-repeat count d)

pub ruleset decoder_rules = (
  Decodes-if, Decodes-if_flag, Decodes-unless_flag, Decodes-choose_flag, Decodes-ok, Decodes-repeat,
  Decodes-bits, Decodes-int, Decodes-float, Decodes-signed_int, Decodes-bytes, Decodes-ranged_u32,
  Decodes-u8, Decodes-string, Decodes-raise, Decodes-fine, Decodes-for_wheels, Decodes-when,
  Decodes-then, Decodes-pure, Decodes-bind, Decodes-flag,
)
