-- ===== src/BitStream/Huffman/Coding.antt =====
-- aotbot/bitstream.py: the code table against the tree, at all 256 symbols by evaluation.
use aot_headless_client.Base.{
  ℕ, zero, suc, ◌≡◌, ◌≤◌, ◌<◌, ◌^◌, refl, Bool, true, false, Option, none, some, List, [], ◌∷◌,
  ◌&&◌, arith, ltb, leb, ◌==◌, if◌then◌else◌, get_or, ltb→lt, leb→le,
}
use aot_headless_client.Base.Int.{ℤ, pos, negsuc}
use aot_headless_client.Base.Bytes.{checks, checks_at}
use aot_headless_client.Base.Values.{int_bits}
use aot_headless_client.BitStream.Huffman.{
  Node, no_node, Tables, tables, numbits_of, code_of, decode_symbol,
}
use aot_headless_client.BitStream.{BitStream, pure, ◌>>=◌, read_flag}

-- Where a walk along `bs` from `index` ends, if it ends at a leaf with the last bit.
unfoldable pub walk : List Node → List Bool → ℤ → Option ℕ
walk nodes [] (negsuc leaf) = some leaf
walk nodes [] (pos n) = none
walk nodes (b ∷ bs) (negsuc leaf) = none
walk nodes (b ∷ bs) (pos n) =
    walk nodes bs (if b then (get_or nodes n no_node).index1 else (get_or nodes n no_node).index0)

ends_at : Option ℕ → ℕ → Bool
ends_at none symbol = false
ends_at (some leaf) symbol = leaf == symbol

ends_at_sound : (o : Option ℕ) (symbol : ℕ) → ends_at o symbol ≡ true → o ≡ some symbol
unfolding ends_at
ends_at_sound none symbol h = cc
ends_at_sound (some leaf) symbol h = ground arith

code_ok : Tables → ℕ → Bool
code_ok t symbol =
    ends_at (walk t.nodes (int_bits (numbits_of t.codes symbol) (code_of t.codes symbol)) (pos 0))
      symbol
    && (leb (numbits_of t.codes symbol) 32 && ltb (code_of t.codes symbol) (2 ^ 32))

codes_ok : Tables → Bool
unfolding code_ok
codes_ok t = checks (code_ok t) 256

codes_table : codes_ok tables ≡ true
unfolding codes_ok checks tables walk ends_at
codes_table = refl

-- What the table promises for a symbol.
pub record IsCoded (symbol : ℕ) : Type 0 where
  pub decodes :
      walk tables.nodes
        (int_bits (numbits_of tables.codes symbol) (code_of tables.codes symbol))
        (pos 0)
      ≡ some symbol
  pub bits : numbits_of tables.codes symbol ≤ 32
  pub code : code_of tables.codes symbol < 2 ^ 32

and_split : (a b : Bool) → (a && b) ≡ true → (a ≡ true) × (b ≡ true)
and_split a b h = ground arith

-- Every byte is coded.
pub byte-IsCoded : (symbol : ℕ) → symbol < 256 → IsCoded symbol
unfolding code_ok codes_ok
byte-IsCoded symbol h =
    let ok : code_ok tables symbol ≡ true = checks_at (code_ok tables) symbol 256 h codes_table in
    let (found, small) = and_split _ _ ok in
    let (bits, code) = and_split _ _ small in
    record {
      decodes = ends_at_sound _ symbol found;
      bits = leb→le (numbits_of tables.codes symbol) 32 bits;
      code = ltb→lt (code_of tables.codes symbol) (2 ^ 32) code;
    }

-- A child of node `n`, or of the copy of the root at 0, is a leaf or a node below `n`.
below : ℕ → ℤ → Bool
below n (negsuc leaf) = ltb leaf 256
below n (pos m) = ltb 0 m && ltb m n

children_ok : Tables → ℕ → Bool
children_ok t n =
    let node = get_or t.nodes n no_node in
    let bound : ℕ = if n == 0 then 256 else n in below bound node.index0 && below bound node.index1

children_table : checks (children_ok tables) 256 ≡ true
unfolding children_ok checks tables below
children_table = refl

-- What a walk may stand at with `bound` above the nodes to come.
abbrev pub IsBelow : ℕ → ℤ → Type 0
IsBelow bound (negsuc leaf) = leaf < 256
IsBelow bound (pos n) = (0 < n) × (n < bound)

below_sound : (bound : ℕ) (index : ℤ) → below bound index ≡ true → IsBelow bound index
unfolding below
below_sound bound (negsuc leaf) h = ltb→lt leaf 256 h
below_sound bound (pos n) h = let (a, b) = and_split _ _ h in (ltb→lt 0 n a, ltb→lt n bound b)

children-IsBelow :
    (n bound : ℕ) (bit : Bool)
    → n < 256
    → (if n == 0 then 256 else n) ≡ bound
    → IsBelow bound (
        if bit
        then (get_or tables.nodes n no_node).index1
        else (get_or tables.nodes n no_node).index0)
unfolding children_ok
children-IsBelow n bound bit h e =
    let ok : children_ok tables n ≡ true = checks_at (children_ok tables) n 256 h children_table in
    let (left, right) = and_split _ _ ok in
    choose bit (below_sound _ _ left) (below_sound _ _ right)
  where
    choose :
        (c : Bool)
        → IsBelow (if n == 0 then 256 else n) (get_or tables.nodes n no_node).index0
        → IsBelow (if n == 0 then 256 else n) (get_or tables.nodes n no_node).index1
        → IsBelow bound (
            if c
            then (get_or tables.nodes n no_node).index1
            else (get_or tables.nodes n no_node).index0)
    choose true l r = rw (← e) r
    choose false l r = rw (← e) l

IsBelow-mono : (a b : ℕ) (index : ℤ) → a ≤ b → IsBelow a index → IsBelow b index
IsBelow-mono a b (negsuc leaf) le h = h
IsBelow-mono a b (pos n) le h = omega arith

abbrev step_of : ℕ → Bool → ℤ
step_of n bit =
    if bit then (get_or tables.nodes n no_node).index1 else (get_or tables.nodes n no_node).index0

-- A walk from a node below its fuel ends at a byte, whatever the stream holds.
decode_below :
    (fuel : ℕ) (index : ℤ) (s : BitStream)
    → fuel ≤ 255
    → IsBelow (suc fuel) index
    → (symbol : ℕ) × ((decode_symbol tables.nodes fuel index s).0 ≡ some symbol) × (symbol < 256)
unfolding decode_symbol pure ◌>>=◌
decode_below zero (negsuc leaf) s f h = (leaf, refl, h)
decode_below (suc fuel) (negsuc leaf) s f h = (leaf, refl, h)
decode_below zero (pos n) s f h = absurd (omega arith)
decode_below (suc fuel) (pos n) s f h =
    let e : (if n == 0 then 256 else n) ≡ n = ground arith in
    decode_below fuel (step_of n (read_flag s).0) (read_flag s).1 (omega arith) (
      IsBelow-mono n (suc fuel) (step_of n (read_flag s).0) (omega arith)
        (children-IsBelow n n (read_flag s).0 (omega arith) e))

-- From every stream, one past its end included, the decoding loop reaches a leaf within its fuel of
-- 256 steps and returns a byte.
pub decode_symbol_total :
    (s : BitStream)
    → (symbol : ℕ) × ((decode_symbol tables.nodes 256 (pos 0) s).0 ≡ some symbol) × (symbol < 256)
unfolding decode_symbol ◌>>=◌
decode_symbol_total s =
    decode_below 255 (step_of 0 (read_flag s).0) (read_flag s).1 (omega arith)
      (children-IsBelow 0 256 (read_flag s).0 (omega arith) refl)
