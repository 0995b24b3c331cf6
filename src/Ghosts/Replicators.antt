-- ===== src/Ghosts/Replicators.antt =====
-- aotbot/ghosts.py: the decoders of foliage, grass, shapes that are replicated, and bricks.
use aot_headless_client.Base.{Bool}
use aot_headless_client.BitStream.{M, ◌>>◌, read_flag, read_int, read_signed_int, read_bytes}
use aot_headless_client.BitStream.Strings.{read_string}
use aot_headless_client.Decoder.{skip_all, repeat, if_flag}
use aot_headless_client.Decoder.Decodes.{Decodes}
use aot_headless_client.Decoder.Rules.{decoder_rules}
use aot_headless_client.Ghosts.Fields.{
  read_box6f, Decodes-read_box6f, read_colorf, Decodes-read_colorf, read_point3f,
  Decodes-read_point3f,
}

unfoldable pub unpack_fx_shape_replicator : Bool → M (Unit {0})
unpack_fx_shape_replicator is_new = do
  if_flag (do
    read_box6f
    repeat 3 (read_int 32)
    read_string
    repeat 4 (read_int 32)
    repeat 4 read_point3f
    read_signed_int 32
    repeat 5 read_flag
    read_signed_int 32
    read_flag
    read_point3f
    repeat 3 read_flag
    read_int 32
    read_colorf
    read_flag)
  skip_all

unfoldable pub unpack_fx_foliage_replicator : Bool → M (Unit {0})
unpack_fx_foliage_replicator is_new = do
  if_flag (do
    read_box6f
    read_flag
    repeat 4 (read_bytes 4)
    read_string
    repeat 8 (read_bytes 4)
    read_bytes 1
    read_bytes 1
    read_bytes 4
    read_bytes 1
    read_bytes 1
    repeat 7 (read_bytes 4)
    read_flag
    read_flag
    repeat 4 (read_bytes 4)
    read_flag
    read_flag
    repeat 3 (read_bytes 4)
    repeat 5 read_flag
    read_bytes 4
    read_flag
    read_flag
    read_bytes 4
    read_colorf)
  skip_all

unfoldable pub unpack_fx_grass_replicator : Bool → M (Unit {0})
unpack_fx_grass_replicator is_new = do
  if_flag (do
    read_box6f
    read_flag
    repeat 4 (read_bytes 4)
    read_string
    repeat 8 (read_bytes 4)
    read_bytes 1
    read_bytes 1
    read_bytes 4
    read_bytes 1
    read_bytes 1
    repeat 7 (read_bytes 4)
    read_flag
    read_flag
    repeat 4 (read_bytes 4)
    read_flag
    read_flag
    repeat 3 (read_bytes 4)
    repeat 6 read_flag
    read_bytes 4
    read_flag
    read_flag
    read_bytes 4
    read_colorf
    read_colorf
    read_colorf
    read_flag
    read_flag
    read_flag
    read_bytes 4
    read_flag
    read_bytes 4)
  skip_all

unfoldable pub unpack_fx_dts_brick : Bool → M (Unit {0})
unpack_fx_dts_brick is_new = do
  if_flag (do
    if_flag (read_int 10)
    repeat 3 (read_signed_int 20)
    read_int 2
    repeat 6 (read_int 10)
    repeat 3 (read_int 8)
    read_flag
    read_flag
    read_flag
    read_flag
    if_flag (do read_flag; read_int 6; read_flag; read_flag))
  skip_all

unfoldable pub unpack_fx_brick_batcher : Bool → M (Unit {0})
unpack_fx_brick_batcher is_new = skip_all

pub Decodes-unpack_fx_shape_replicator :
    (is_new : Bool) → Decodes (unpack_fx_shape_replicator is_new)
unfolding unpack_fx_shape_replicator
Decodes-unpack_fx_shape_replicator is_new =
    search (decoder_rules, Decodes-read_point3f, Decodes-read_box6f, Decodes-read_colorf) depth 90
      fits 9000

pub Decodes-unpack_fx_foliage_replicator :
    (is_new : Bool) → Decodes (unpack_fx_foliage_replicator is_new)
unfolding unpack_fx_foliage_replicator
Decodes-unpack_fx_foliage_replicator is_new =
    search (decoder_rules, Decodes-read_box6f, Decodes-read_colorf) depth 90 fits 9000

pub Decodes-unpack_fx_grass_replicator :
    (is_new : Bool) → Decodes (unpack_fx_grass_replicator is_new)
unfolding unpack_fx_grass_replicator
Decodes-unpack_fx_grass_replicator is_new =
    search (decoder_rules, Decodes-read_box6f, Decodes-read_colorf) depth 90 fits 9000

pub Decodes-unpack_fx_dts_brick : (is_new : Bool) → Decodes (unpack_fx_dts_brick is_new)
unfolding unpack_fx_dts_brick
Decodes-unpack_fx_dts_brick is_new = search decoder_rules depth 90 fits 9000

pub Decodes-unpack_fx_brick_batcher : (is_new : Bool) → Decodes (unpack_fx_brick_batcher is_new)
unfolding unpack_fx_brick_batcher
Decodes-unpack_fx_brick_batcher is_new = search decoder_rules depth 90 fits 9000
