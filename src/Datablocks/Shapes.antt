-- ===== src/Datablocks/Shapes.antt =====
-- aotbot/datablocks.py: the decoders of the shapes, items and players.
use aot_headless_client.Base.{ℕ, ◌-◌}
use aot_headless_client.BitStream.{M, ◌>>=◌, ◌>>◌, read_flag, read_int, read_bytes}
use aot_headless_client.BitStream.Strings.{read_string}
use aot_headless_client.Decoder.{skip_all, repeat, if_flag, read_float}
use aot_headless_client.Decoder.Decodes.{Decodes}
use aot_headless_client.Decoder.Rules.{decoder_rules}
use aot_headless_client.Decoder.Sizes.{AtLeast, AtLeast-bind, size_rules}
use aot_headless_client.Datablocks.Fields.{
  read_db_ref, Decodes-read_db_ref, field_sizes, read_f32, Decodes-read_f32,
}

unfoldable pub unpack_sim_data_block : M (Unit {0})
unpack_sim_data_block = skip_all

unfoldable pub unpack_game_base_data : M (Unit {0})
unpack_game_base_data = skip_all

unfoldable pub unpack_shape_base_data : M (Unit {0})
unpack_shape_base_data = do
  if_flag read_f32
  read_string
  read_string
  repeat 9 (if_flag read_f32)
  read_string
  read_flag
  read_db_ref
  read_flag
  read_flag
  read_flag
  read_db_ref
  read_db_ref
  read_flag
  read_flag
  read_flag
  skip_all

unfoldable pub unpack_camera_data : M (Unit {0})
unpack_camera_data = do unpack_shape_base_data; skip_all

unfoldable pub unpack_static_shape_data : M (Unit {0})
unpack_static_shape_data = do unpack_shape_base_data; read_flag; read_f32; skip_all

unfoldable pub unpack_trigger_data : M (Unit {0})
unpack_trigger_data = do read_f32; skip_all

unfoldable pub unpack_item_data : M (Unit {0})
unpack_item_data = do
  unpack_shape_base_data
  read_float 10
  read_float 10
  read_flag
  if_flag (read_float 10)
  if_flag (read_bytes 4)
  if_flag (do
    read_int 2
    read_float 7
    read_float 7
    read_float 7
    read_float 7
    read_bytes 4
    read_bytes 4
    read_flag)
  repeat 8 read_string
  skip_all

unfoldable pub unpack_player_data : M (Unit {0})
unpack_player_data = do
  unpack_shape_base_data
  read_flag
  read_flag
  read_flag
  read_flag
  repeat 27 (read_bytes 4)
  repeat 18 read_db_ref
  read_bytes 4
  read_bytes 4
  read_bytes 4
  read_flag
  read_db_ref
  read_bytes 4
  read_bytes 4
  read_db_ref
  read_bytes 4
  read_db_ref
  read_db_ref
  repeat 3 read_db_ref
  repeat 9 (read_bytes 4)
  read_flag
  skip_all

pub Decodes-unpack_sim_data_block : Decodes unpack_sim_data_block
unfolding unpack_sim_data_block
Decodes-unpack_sim_data_block = search decoder_rules depth 90 fits 4000

pub AtLeast-unpack_sim_data_block : AtLeast 0 unpack_sim_data_block
unfolding unpack_sim_data_block
AtLeast-unpack_sim_data_block = search (size_rules, decoder_rules) depth 90 fits 4000

pub Decodes-unpack_game_base_data : Decodes unpack_game_base_data
unfolding unpack_game_base_data
Decodes-unpack_game_base_data = search decoder_rules depth 90 fits 4000

pub AtLeast-unpack_game_base_data : AtLeast 0 unpack_game_base_data
unfolding unpack_game_base_data
AtLeast-unpack_game_base_data = search (size_rules, decoder_rules) depth 90 fits 4000

pub Decodes-unpack_shape_base_data : Decodes unpack_shape_base_data
unfolding unpack_shape_base_data
Decodes-unpack_shape_base_data =
    search (decoder_rules, Decodes-read_f32, Decodes-read_db_ref) depth 90 fits 4000

pub AtLeast-unpack_shape_base_data : AtLeast 47 unpack_shape_base_data
unfolding unpack_shape_base_data
AtLeast-unpack_shape_base_data =
    search (size_rules, decoder_rules, field_sizes, Decodes-read_f32, Decodes-read_db_ref) depth 90
      fits 4000

pub shape_base_data_then :
    {A : Type 0} {f : Unit {0} → M A} {all : ℕ}
    → ((v : Unit {0}) → AtLeast (all - 47) (f v))
    → AtLeast all (unpack_shape_base_data >>= f)
shape_base_data_then g = AtLeast-bind AtLeast-unpack_shape_base_data g

pub Decodes-unpack_camera_data : Decodes unpack_camera_data
unfolding unpack_camera_data
Decodes-unpack_camera_data =
    search (decoder_rules, Decodes-unpack_shape_base_data) depth 90 fits 4000

pub AtLeast-unpack_camera_data : AtLeast 47 unpack_camera_data
unfolding unpack_camera_data
AtLeast-unpack_camera_data =
    search (size_rules, decoder_rules, shape_base_data_then, Decodes-unpack_shape_base_data) depth
      90 fits 4000

pub Decodes-unpack_static_shape_data : Decodes unpack_static_shape_data
unfolding unpack_static_shape_data
Decodes-unpack_static_shape_data =
    search (decoder_rules, Decodes-read_f32, Decodes-unpack_shape_base_data) depth 90 fits 4000

pub AtLeast-unpack_static_shape_data : AtLeast 80 unpack_static_shape_data
unfolding unpack_static_shape_data
AtLeast-unpack_static_shape_data =
    search
      (
        size_rules, decoder_rules, field_sizes, shape_base_data_then, Decodes-read_f32,
        Decodes-unpack_shape_base_data,
      )
      depth 90 fits 4000

pub Decodes-unpack_trigger_data : Decodes unpack_trigger_data
unfolding unpack_trigger_data
Decodes-unpack_trigger_data = search (decoder_rules, Decodes-read_f32) depth 90 fits 4000

pub AtLeast-unpack_trigger_data : AtLeast 32 unpack_trigger_data
unfolding unpack_trigger_data
AtLeast-unpack_trigger_data =
    search (size_rules, decoder_rules, field_sizes, Decodes-read_f32) depth 90 fits 4000

pub Decodes-unpack_item_data : Decodes unpack_item_data
unfolding unpack_item_data
Decodes-unpack_item_data = search (decoder_rules, Decodes-unpack_shape_base_data) depth 90 fits 4000

pub AtLeast-unpack_item_data : AtLeast 143 unpack_item_data
unfolding unpack_item_data
AtLeast-unpack_item_data =
    search (size_rules, decoder_rules, shape_base_data_then, Decodes-unpack_shape_base_data) depth
      90 fits 4000

pub Decodes-unpack_player_data : Decodes unpack_player_data
unfolding unpack_player_data
Decodes-unpack_player_data =
    search (decoder_rules, Decodes-read_db_ref, Decodes-unpack_shape_base_data) depth 90 fits 4000

pub AtLeast-unpack_player_data : AtLeast 1422 unpack_player_data
unfolding unpack_player_data
AtLeast-unpack_player_data =
    search
      (
        size_rules, decoder_rules, field_sizes, shape_base_data_then, Decodes-read_db_ref,
        Decodes-unpack_shape_base_data,
      )
      depth 90 fits 4000
