-- ===== src/Ghosts/Players.antt =====
-- aotbot/ghosts.py: the decoders of players and projectiles.
use aot_headless_client.Base.{Bool, not}
use aot_headless_client.BitStream.{M, ◌>>=◌, ◌>>◌, read_flag, read_int, read_bytes}
use aot_headless_client.Decoder.{skip_all, repeat, when, if_flag, unless_flag, read_float}
use aot_headless_client.Decoder.Decodes.{Decodes}
use aot_headless_client.Decoder.Rules.{decoder_rules}
use aot_headless_client.Ghosts.Fields.{
  read_compressed_point, Decodes-read_compressed_point, read_move, Decodes-read_move,
  read_normal_vector, Decodes-read_normal_vector, read_point3f, Decodes-read_point3f,
}
use aot_headless_client.Ghosts.Shapes.{
  unpack_game_base, Decodes-unpack_game_base, unpack_shape_base, Decodes-unpack_shape_base,
}

unfoldable pub unpack_player : Bool → M (Unit {0})
unpack_player is_new = do
  unpack_shape_base is_new
  if_flag (repeat 4 (read_bytes 4))
  if_flag (do
    read_float 6
    read_float 6
    if_flag (do repeat 7 (read_bytes 4); read_int 7; repeat 2 (read_bytes 4))
    repeat 2 (read_bytes 4))
  if_flag (read_int 3)
  if_flag
      (do read_int 8; read_flag; f2 ← read_flag; read_flag; when (not f2) (if_flag (read_float 6)))
  if_flag (read_int 8)
  unless_flag (
      if_flag (do
        read_flag
        read_flag
        read_int 3
        if_flag (read_int 7)
        read_compressed_point
        if_flag (do read_normal_vector 10; read_int 13)
        read_float 7
        read_float 6
        read_float 6
        read_move
        read_flag))
  skip_all

unfoldable pub unpack_projectile : Bool → M (Unit {0})
unpack_projectile is_new = do
  unpack_game_base is_new
  if_flag (do
    read_compressed_point
    if_flag (do read_normal_vector 10; read_int 13)
    read_int 12
    if_flag (do read_int 15; read_int 3))
  if_flag (do read_point3f; read_point3f; read_bytes 4)
  if_flag (do read_point3f; read_point3f)
  skip_all

pub Decodes-unpack_player : (is_new : Bool) → Decodes (unpack_player is_new)
unfolding unpack_player
Decodes-unpack_player is_new =
    search
      (
        decoder_rules, Decodes-read_normal_vector, Decodes-read_compressed_point, Decodes-read_move,
        Decodes-unpack_shape_base,
      )
      depth 90 fits 9000

pub Decodes-unpack_projectile : (is_new : Bool) → Decodes (unpack_projectile is_new)
unfolding unpack_projectile
Decodes-unpack_projectile is_new =
    search
      (
        decoder_rules, Decodes-read_point3f, Decodes-read_normal_vector,
        Decodes-read_compressed_point, Decodes-unpack_game_base,
      )
      depth 90 fits 9000
