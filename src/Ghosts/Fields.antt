-- ===== src/Ghosts/Fields.antt =====
-- aotbot/ghosts.py: the fields that the decoders share.
use aot_headless_client.Base.{ℕ, ◌+◌, ◌==◌, ltb, List, take, get_or, [], ◌∷◌, if◌then◌else◌}
use aot_headless_client.Base.Int.{ℤ}
use aot_headless_client.BitStream.{
  M, pure, ◌>>=◌, ◌>>◌, read_flag, read_int, read_signed_int, read_bytes,
}
use aot_headless_client.BitStream.Strings.{read_string}
use aot_headless_client.Decoder.{skip_all, repeat, if_flag, choose_flag, read_float, D, raise, ok}
use aot_headless_client.Decoder.Decodes.{Decodes}
use aot_headless_client.Decoder.Rules.{decoder_rules}

unfoldable pub read_point3f : M (List ℕ)
read_point3f = read_bytes 12

-- The centre of the box is what is kept.
unfoldable pub read_box6f : M (List ℕ)
read_box6f = do center ← read_bytes 24; read_flag; pure (take 12 center)

unfoldable pub read_matrix : M (List ℕ)
read_matrix = read_bytes 64

unfoldable pub read_colorf : M (Unit {0})
read_colorf = do read_bytes 4; skip_all

-- The numerators of the two angles.
unfoldable pub read_normal_vector : ℕ → M (ℕ × ℕ)
read_normal_vector bits = do phi ← read_float (bits + 1); theta ← read_float bits; pure (phi, theta)

-- A point is three floats in full, or three integers that are relative to the compression point.
pub data CompressedPoint : Type 0 where
  world : List ℕ → CompressedPoint
  relative : ℤ → ℤ → ℤ → CompressedPoint

abbrev pub compressed_point_bits : List ℕ
compressed_point_bits = 16 ∷ 18 ∷ 20 ∷ 32 ∷ []

in_full : M CompressedPoint
in_full = do raw ← read_bytes 12; pure (world raw)

compressed : ℕ → M CompressedPoint
compressed n = do
  x ← read_signed_int n
  y ← read_signed_int n
  z ← read_signed_int n
  pure (relative x y z)

unfoldable pub read_compressed_point : M CompressedPoint
unfolding in_full compressed
read_compressed_point = do
  t ← read_int 2
  if t == 3 then in_full else compressed (get_or compressed_point_bits t 0)

unfoldable pub read_move : M (Unit {0})
read_move = do
  repeat 3 (if_flag (read_int 16))
  repeat 3 (read_int 6)
  read_flag
  repeat 6 read_flag

-- A string is the number of a slot of the connection's table, or is sent in full.
pub data TaggedString : Type 0 where
  absent : TaggedString
  slot : ℕ → TaggedString
  text : List ℕ → TaggedString

by_slot : M TaggedString
by_slot = do id ← read_int 5; pure (slot id)

by_text : M TaggedString
by_text = do string ← read_string; pure (text string)

unfoldable pub read_tagged_string : M TaggedString
unfolding by_slot by_text
read_tagged_string = do
  present ← read_flag
  if present then choose_flag by_slot by_text else pure absent

unfoldable pub read_planef : M (Unit {0})
read_planef = do read_bytes 16; skip_all

unfoldable pub read_polyhedron : D (Unit {0})
read_polyhedron = do
  n_points ← read_int 32
  if (ltb 1048576 n_points) then raise else (do
    repeat n_points read_point3f
    n_planes ← read_int 32
    if (ltb 1048576 n_planes) then raise else (do repeat n_planes read_planef; ok))

pub Decodes-read_point3f : Decodes read_point3f
unfolding read_point3f
Decodes-read_point3f = search decoder_rules

pub Decodes-read_box6f : Decodes read_box6f
unfolding read_box6f
Decodes-read_box6f = search decoder_rules

pub Decodes-read_matrix : Decodes read_matrix
unfolding read_matrix
Decodes-read_matrix = search decoder_rules

pub Decodes-read_colorf : Decodes read_colorf
unfolding read_colorf
Decodes-read_colorf = search decoder_rules

pub Decodes-read_normal_vector : (bits : ℕ) → Decodes (read_normal_vector bits)
unfolding read_normal_vector
Decodes-read_normal_vector bits = search decoder_rules

Decodes-in_full : Decodes in_full
unfolding in_full
Decodes-in_full = search decoder_rules

Decodes-compressed : (n : ℕ) → Decodes (compressed n)
unfolding compressed
Decodes-compressed n = search decoder_rules

pub Decodes-read_compressed_point : Decodes read_compressed_point
unfolding read_compressed_point
Decodes-read_compressed_point = search (decoder_rules, Decodes-in_full, Decodes-compressed)

pub Decodes-read_move : Decodes read_move
unfolding read_move
Decodes-read_move = search decoder_rules depth 20

Decodes-by_slot : Decodes by_slot
unfolding by_slot
Decodes-by_slot = search decoder_rules

Decodes-by_text : Decodes by_text
unfolding by_text
Decodes-by_text = search decoder_rules

pub Decodes-read_tagged_string : Decodes read_tagged_string
unfolding read_tagged_string
Decodes-read_tagged_string = search (decoder_rules, Decodes-by_slot, Decodes-by_text)

pub Decodes-read_planef : Decodes read_planef
unfolding read_planef
Decodes-read_planef = search decoder_rules

pub Decodes-read_polyhedron : Decodes read_polyhedron
unfolding read_polyhedron
Decodes-read_polyhedron =
    search (decoder_rules, Decodes-read_point3f, Decodes-read_planef) depth 90 fits 9000
