-- ===== src/BitStream/Huffman.antt =====
-- aotbot/bitstream.py, lines 421 to 611: `_HuffmanProcessor`, with the tables that it builds from the
-- character frequencies. The three node arrays are one list of records here.
pub mod Decode
pub mod Coding
use aot_headless_client.Base.{
  ℕ, zero, suc, ◌+◌, ◌-◌, ◌*◌, ◌/◌, ◌^◌, Bool, true, false, Option, none, some, ◌≡◌, refl, List, [],
  ◌∷◌, ◌++◌, map, bit_or, ltb, leb, ◌==◌, if◌then◌else◌, length, get_or, set, take, replicate,
}
use mathlib.Core.Option
use aot_headless_client.Base.Int.{ℤ, pos, negsuc}
use aot_headless_client.BitStream.{
  M, pure, ◌>>=◌, ◌>>◌, write_flag, read_flag, write_bits, write_int, read_int, write_bytes,
  read_bytes, to_bytes,
}

abbrev pub char_freqs : List ℕ
char_freqs =
    0 ∷ 0 ∷ 0 ∷ 0 ∷ 0 ∷ 0 ∷ 0 ∷ 0 ∷ 0 ∷ 329 ∷ 21 ∷ 0 ∷ 0 ∷ 0 ∷ 0 ∷ 0 ∷ 0 ∷ 0 ∷ 0 ∷ 0 ∷ 0 ∷ 0 ∷ 0 ∷ 0
    ∷ 0 ∷ 0 ∷ 0 ∷ 0 ∷ 0 ∷ 0 ∷ 0 ∷ 0 ∷ 2809 ∷ 68 ∷ 0 ∷ 27 ∷ 0 ∷ 58 ∷ 3 ∷ 62 ∷ 4 ∷ 7 ∷ 0 ∷ 0 ∷ 15 ∷ 65
    ∷ 554 ∷ 3 ∷ 394 ∷ 404 ∷ 189 ∷ 117 ∷ 30 ∷ 51 ∷ 27 ∷ 15 ∷ 34 ∷ 32 ∷ 80 ∷ 1 ∷ 142 ∷ 3 ∷ 142 ∷ 39
    ∷ 0 ∷ 144 ∷ 125 ∷ 44 ∷ 122 ∷ 275 ∷ 70 ∷ 135 ∷ 61 ∷ 127 ∷ 8 ∷ 12 ∷ 113 ∷ 246 ∷ 122 ∷ 36 ∷ 185 ∷ 1
    ∷ 149 ∷ 309 ∷ 335 ∷ 12 ∷ 11 ∷ 14 ∷ 54 ∷ 151 ∷ 0 ∷ 0 ∷ 2 ∷ 0 ∷ 0 ∷ 211 ∷ 0 ∷ 2090 ∷ 344 ∷ 736
    ∷ 993 ∷ 2872 ∷ 701 ∷ 605 ∷ 646 ∷ 1552 ∷ 328 ∷ 305 ∷ 1240 ∷ 735 ∷ 1533 ∷ 1713 ∷ 562 ∷ 3 ∷ 1775
    ∷ 1149 ∷ 1469 ∷ 979 ∷ 407 ∷ 553 ∷ 59 ∷ 279 ∷ 31 ∷ 0 ∷ 0 ∷ 0 ∷ 68 ∷ 0 ∷ 0 ∷ 0 ∷ 0 ∷ 0 ∷ 0 ∷ 0 ∷ 0
    ∷ 0 ∷ 0 ∷ 0 ∷ 0 ∷ 0 ∷ 0 ∷ 0 ∷ 0 ∷ 0 ∷ 0 ∷ 0 ∷ 0 ∷ 0 ∷ 0 ∷ 0 ∷ 0 ∷ 0 ∷ 0 ∷ 0 ∷ 0 ∷ 0 ∷ 0 ∷ 0 ∷ 0
    ∷ 0 ∷ 0 ∷ 0 ∷ 0 ∷ 0 ∷ 0 ∷ 0 ∷ 0 ∷ 0 ∷ 0 ∷ 0 ∷ 0 ∷ 0 ∷ 0 ∷ 0 ∷ 0 ∷ 0 ∷ 0 ∷ 0 ∷ 0 ∷ 0 ∷ 0 ∷ 0 ∷ 0
    ∷ 0 ∷ 0 ∷ 0 ∷ 0 ∷ 0 ∷ 0 ∷ 0 ∷ 0 ∷ 0 ∷ 0 ∷ 0 ∷ 0 ∷ 0 ∷ 0 ∷ 0 ∷ 0 ∷ 0 ∷ 0 ∷ 0 ∷ 0 ∷ 0 ∷ 0 ∷ 0 ∷ 0
    ∷ 0 ∷ 0 ∷ 0 ∷ 0 ∷ 0 ∷ 0 ∷ 0 ∷ 0 ∷ 0 ∷ 0 ∷ 0 ∷ 0 ∷ 0 ∷ 0 ∷ 0 ∷ 0 ∷ 0 ∷ 0 ∷ 0 ∷ 0 ∷ 0 ∷ 0 ∷ 0 ∷ 0
    ∷ 0 ∷ 0 ∷ 0 ∷ 0 ∷ 0 ∷ 0 ∷ 0 ∷ 0 ∷ 0 ∷ 0 ∷ 0 ∷ 0 ∷ 0 ∷ 0 ∷ 0 ∷ 0 ∷ 0 ∷ 0 ∷ 0 ∷ 0 ∷ 0 ∷ 0 ∷ 0 ∷ 0
    ∷ 0 ∷ []

-- An entry of `wraps`: a leaf or a node, by its number, with its population.
pub record Wrap : Type 0 where
  pub is_leaf : Bool
  pub idx : ℕ
  pub pop : ℕ

pub record Node : Type 0 where
  pub pop : ℕ
  pub index0 : ℤ
  pub index1 : ℤ

abbrev no_wrap : Wrap
no_wrap = record { is_leaf = true; idx = 0; pop = 0 }

abbrev pub no_node : Node
no_node = record { pop = 0; index0 = pos 0; index1 = pos 0 }

-- The variables of the scan for the two lowest populations; `-1` is `negsuc 0`.
record Minima : Type 0 where
  min1 : ℕ
  min2 : ℕ
  index1 : ℤ
  index2 : ℤ

scan : List Wrap → ℕ → Minima → Minima
scan [] i m = m
scan (w ∷ ws) i m = scan ws (i + 1) (
    if ltb w.pop m.min1
    then record { min1 = w.pop; min2 = m.min1; index1 = pos i; index2 = m.index1 }
    else if ltb w.pop m.min2
    then record m { min2 = w.pop; index2 = pos i }
    else m)

-- An index into a list, from its end if negative.
index_of : ℤ → ℕ → ℕ
index_of (pos i) n = i
index_of (negsuc i) n = n - 1 - i

encoded : Wrap → ℤ
encoded w = if w.is_leaf then negsuc w.idx else pos w.idx

record Forest : Type 0 where
  nodes : List Node
  wraps : List Wrap

-- One round of the merge loop.
merge_round : ℕ → Forest → Forest
unfolding scan index_of encoded
merge_round curr f =
    let m =
      scan (take curr f.wraps) 0
        (record { min1 = 0xFFFFFFFE; min2 = 0xFFFFFFFF; index1 = negsuc 0; index2 = negsuc 0 }) in
    let i1 = index_of m.index1 (length f.wraps) in
    let i2 = index_of m.index2 (length f.wraps) in
    let w1 = get_or f.wraps i1 no_wrap in
    let w2 = get_or f.wraps i2 no_wrap in
    let merged : Wrap = record { is_leaf = false; idx = length f.nodes; pop = w1.pop + w2.pop } in
    let node : Node = record { pop = w1.pop + w2.pop; index0 = encoded w1; index1 = encoded w2 } in
    let wraps = set f.wraps (if ltb i2 i1 then i2 else i1) merged in
    record {
      nodes = f.nodes ++ (node ∷ []);
      wraps =
          if i2 == curr - 1
          then wraps
          else set wraps (if ltb i2 i1 then i1 else i2) (get_or wraps (curr - 1) no_wrap);
    }

-- `while curr != 1`, with `curr` one more than the rounds that are left.
merge_rounds : ℕ → Forest → Forest
unfolding merge_round
merge_rounds zero f = f
merge_rounds (suc left) f = merge_rounds left (merge_round (suc (suc left)) f)

leaves_from : ℕ → List ℕ → List Wrap
leaves_from i [] = []
leaves_from i (freq ∷ fs) =
    record { is_leaf = true; idx = i; pop = freq + 1 } ∷ leaves_from (i + 1) fs

forest : Forest
unfolding merge_rounds leaves_from
forest = merge_rounds 255 (record {
  nodes = record { pop = 0; index0 = pos 0; index1 = pos 0 } ∷ [];
  wraps = leaves_from 0 char_freqs;
})

-- The root is copied into node 0.
rooted : Forest → List Node
rooted f = set f.nodes 0 (get_or f.nodes (get_or f.wraps 0 no_wrap).idx no_node)

-- An entry of the stack of `generateCodes`: index, depth, code.
record Pending : Type 0 where
  index : ℤ
  depth : ℕ
  code : ℕ

pub record Codes : Type 0 where
  pub code : List ℕ
  pub numbits : List ℕ

generate : ℕ → List Node → List Pending → Codes → List Pending × Codes
generate zero nodes stack c = (stack, c)
generate (suc fuel) nodes [] c = ([], c)
generate (suc fuel) nodes (p ∷ stack) c = elim p.index [
  | negsuc leaf ↦
      generate fuel nodes stack
        (record { code = set c.code leaf p.code; numbits = set c.numbits leaf p.depth })
  | pos n ↦
      let node = get_or nodes n no_node in
      generate fuel nodes
        (record { index = node.index1; depth = p.depth + 1; code = bit_or p.code (2 ^ p.depth) }
          ∷ record { index = node.index0; depth = p.depth + 1; code = p.code }
          ∷ stack)
        c
]

pub record Tables : Type 0 where
  pub nodes : List Node
  pub codes : Codes

generated : List Node → List Pending × Codes
unfolding generate
generated nodes =
    generate 512 nodes (record { index = pos 0; depth = 0; code = 0 } ∷ [])
      (record { code = replicate 256 0; numbits = replicate 256 0 })

-- `_build`
unfoldable pub tables : Tables
unfolding forest rooted generated
tables = let nodes = rooted forest in record { nodes = nodes; codes = (generated nodes).1 }

-- The stack is empty at the end: 511 rounds visit every leaf and node.
generate_ends : (generated (rooted forest)).0 ≡ []
unfolding generated rooted forest
generate_ends = refl

-- The `while True` walk of `read_buffer`; `none` says that the fuel ran out.
unfoldable pub decode_symbol : List Node → ℕ → ℤ → M (Option ℕ)
decode_symbol nodes zero (negsuc leaf) = pure (some leaf)
decode_symbol nodes zero (pos n) = pure none
decode_symbol nodes (suc fuel) (negsuc leaf) = pure (some leaf)
decode_symbol nodes (suc fuel) (pos n) = read_flag >>= λ bit.
    decode_symbol nodes fuel
      (if bit then (get_or nodes n no_node).index1 else (get_or nodes n no_node).index0)

-- A walk meets fewer than 256 nodes.
unfoldable pub read_symbols : List Node → ℕ → M (List ℕ)
unfolding decode_symbol
read_symbols nodes zero = pure []
read_symbols nodes (suc left) = do
  symbol ← decode_symbol nodes 256 (pos 0)
  symbols ← read_symbols nodes left
  pure (Option.get_or symbol 0 ∷ symbols)

unfoldable pub read_buffer : M (List ℕ)
unfolding read_symbols
read_buffer = do
  compressed ← read_flag
  count ← read_int 8
  if compressed then read_symbols tables.nodes count else read_bytes count

abbrev pub numbits_of : Codes → ℕ → ℕ
numbits_of c symbol = get_or c.numbits symbol 0

abbrev pub code_of : Codes → ℕ → ℕ
code_of c symbol = get_or c.code symbol 0

unfoldable pub total_bits : Codes → List ℕ → ℕ
total_bits c [] = 0
total_bits c (b ∷ bs) = numbits_of c b + total_bits c bs

unfoldable pub write_symbols : Codes → List ℕ → M (Unit {0})
write_symbols c [] = pure tt
write_symbols c (b ∷ bs) =
    write_bits (numbits_of c b) (to_bytes 4 (code_of c b)) >> write_symbols c bs

-- The length that is sent: at most `max_len`, and at most 255.
unfoldable pub sent_length : List ℕ → ℕ → ℕ
sent_length bytes max_len =
    let n = if ltb max_len (length bytes) then max_len else length bytes in
    if ltb 255 n then 255 else n

unfoldable pub write_buffer : List ℕ → ℕ → M (Unit {0})
unfolding total_bits write_symbols sent_length
write_buffer bytes max_len =
    let sent = take (sent_length bytes max_len) bytes in
    if leb (length sent * 8) (total_bits tables.codes sent)
    then (do write_flag false; write_int (pos (length sent)) 8; write_bytes sent)
    else (do write_flag true; write_int (pos (length sent)) 8; write_symbols tables.codes sent)
