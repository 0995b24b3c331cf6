-- ===== src/Ghosts/Shapes.antt =====
-- aotbot/ghosts.py: the decoders of the objects of the game and those with a shape.
use aot_headless_client.Base.{Bool}
use aot_headless_client.BitStream.{M, ◌>>=◌, ◌>>◌, read_flag, read_int, read_bytes}
use aot_headless_client.BitStream.Strings.{read_string}
use aot_headless_client.Decoder.{
  skip_all, repeat, when, if_flag, unless_flag, choose_flag, read_float,
}
use aot_headless_client.Decoder.Decodes.{Decodes}
use aot_headless_client.Decoder.Rules.{decoder_rules}
use aot_headless_client.Ghosts.Fields.{
  read_box6f, Decodes-read_box6f, read_normal_vector, Decodes-read_normal_vector, read_point3f,
  Decodes-read_point3f, read_tagged_string, Decodes-read_tagged_string,
}

unfoldable pub unpack_game_base : Bool → M (Unit {0})
unpack_game_base is_new = do if_flag read_point3f; if_flag (read_int 10); skip_all

unfoldable pub unpack_shape_base : Bool → M (Unit {0})
unpack_shape_base is_new = do
  unpack_game_base is_new
  if_flag (do
    if_flag (do read_float 6; read_int 2; read_normal_vector 8)
    if_flag (repeat 4 (if_flag (do read_int 6; read_int 2; read_flag; read_flag)))
    if_flag (repeat 4 (if_flag (if_flag (read_int 10))))
    if_flag (
        repeat 8 (
          if_flag (do
            if_flag (read_int 10)
            repeat 5 read_flag
            read_int 3
            when is_new read_flag
            repeat 4 (read_int 6))))
    if_flag (do
      if_flag (do
        read_flag
        read_flag
        choose_flag (do read_flag; read_bytes 4; skip_all) (do read_flag; skip_all))
      if_flag (do read_tagged_string)
      if_flag (do cnt ← read_int 8; repeat cnt (if_flag (repeat 4 (read_float 8))))
      if_flag (do n ← read_int 8; repeat n (read_int 8); repeat 20 (read_int 8)))
    if_flag (if_flag (do read_int 14; read_int 5)))
  skip_all

unfoldable pub unpack_mission_marker : Bool → M (Unit {0})
unpack_mission_marker is_new = do
  unpack_shape_base is_new
  if_flag (do read_box6f; read_point3f)
  skip_all

unfoldable pub unpack_static_shape : Bool → M (Unit {0})
unpack_static_shape is_new = do
  unpack_shape_base is_new
  if_flag (do read_box6f; read_point3f)
  read_flag
  skip_all

unfoldable pub unpack_camera : Bool → M (Unit {0})
unpack_camera is_new = do unpack_shape_base is_new; unless_flag (if_flag (read_bytes 20)); skip_all

unfoldable pub unpack_item : Bool → M (Unit {0})
unpack_item is_new = do
  unpack_shape_base is_new
  if_flag (do
    read_flag
    read_flag
    read_flag
    if_flag read_point3f
    read_flag
    read_bytes 4
    read_string)
  if_flag (read_int 14)
  if_flag (do read_flag; read_bytes 4)
  if_flag (do read_point3f; unless_flag read_point3f; read_flag)
  skip_all

pub Decodes-unpack_game_base : (is_new : Bool) → Decodes (unpack_game_base is_new)
unfolding unpack_game_base
Decodes-unpack_game_base is_new = search (decoder_rules, Decodes-read_point3f) depth 90 fits 9000

pub Decodes-unpack_shape_base : (is_new : Bool) → Decodes (unpack_shape_base is_new)
unfolding unpack_shape_base
Decodes-unpack_shape_base is_new =
    search
      (
        decoder_rules, Decodes-read_normal_vector, Decodes-read_tagged_string,
        Decodes-unpack_game_base,
      )
      depth 90 fits 9000

pub Decodes-unpack_mission_marker : (is_new : Bool) → Decodes (unpack_mission_marker is_new)
unfolding unpack_mission_marker
Decodes-unpack_mission_marker is_new =
    search (decoder_rules, Decodes-read_point3f, Decodes-read_box6f, Decodes-unpack_shape_base)
      depth 90 fits 9000

pub Decodes-unpack_static_shape : (is_new : Bool) → Decodes (unpack_static_shape is_new)
unfolding unpack_static_shape
Decodes-unpack_static_shape is_new =
    search (decoder_rules, Decodes-read_point3f, Decodes-read_box6f, Decodes-unpack_shape_base)
      depth 90 fits 9000

pub Decodes-unpack_camera : (is_new : Bool) → Decodes (unpack_camera is_new)
unfolding unpack_camera
Decodes-unpack_camera is_new = search (decoder_rules, Decodes-unpack_shape_base) depth 90 fits 9000

pub Decodes-unpack_item : (is_new : Bool) → Decodes (unpack_item is_new)
unfolding unpack_item
Decodes-unpack_item is_new =
    search (decoder_rules, Decodes-read_point3f, Decodes-unpack_shape_base) depth 90 fits 9000
