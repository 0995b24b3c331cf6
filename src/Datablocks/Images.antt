-- ===== src/Datablocks/Images.antt =====
-- aotbot/datablocks.py: the decoders of the images that are mounted on shapes.
use aot_headless_client.Base.{ltb}
use aot_headless_client.BitStream.{M, ◌>>=◌, ◌>>◌, read_flag, read_int, read_signed_int, read_bytes}
use aot_headless_client.BitStream.Strings.{read_string}
use aot_headless_client.Decoder.{skip_all, repeat, when, if_flag, unless_flag, read_float}
use aot_headless_client.Decoder.Decodes.{Decodes}
use aot_headless_client.Decoder.Rules.{decoder_rules}
use aot_headless_client.Decoder.Sizes.{AtLeast, size_rules}
use aot_headless_client.Datablocks.Fields.{read_db_ref, Decodes-read_db_ref, field_sizes}

unfoldable pub unpack_shape_base_image_data : M (Unit {0})
unpack_shape_base_image_data = do
  if_flag (read_bytes 4)
  read_flag
  read_string
  read_bytes 4
  unless_flag (do read_bytes 24; read_flag)
  unless_flag (do read_bytes 24; read_flag)
  read_flag
  read_flag
  read_bytes 4
  read_flag
  read_bytes 4
  read_flag
  read_db_ref
  read_flag
  gate ← read_int 2
  when (ltb 0 gate)
      (do read_bytes 4; read_bytes 4; read_float 7; read_float 7; read_float 7; read_float 7)
  read_bytes 12
  read_bytes 4
  read_bytes 4
  read_db_ref
  repeat 31 (
      if_flag (do
        read_string
        repeat 11 (read_int 5)
        if_flag (read_bytes 4)
        read_flag
        read_flag
        read_flag
        read_flag
        read_flag
        if_flag (read_bytes 4)
        read_int 3
        read_int 3
        read_int 3
        if_flag (read_signed_int 16)
        if_flag (read_signed_int 16)
        read_flag
        read_flag
        if_flag (do read_int 10; read_bytes 4; read_bytes 4)
        if_flag (read_int 10)))
  read_string
  read_string
  read_string
  read_string
  skip_all

pub Decodes-unpack_shape_base_image_data : Decodes unpack_shape_base_image_data
unfolding unpack_shape_base_image_data
Decodes-unpack_shape_base_image_data =
    search (decoder_rules, Decodes-read_db_ref) depth 90 fits 4000

pub AtLeast-unpack_shape_base_image_data : AtLeast 314 unpack_shape_base_image_data
unfolding unpack_shape_base_image_data
AtLeast-unpack_shape_base_image_data =
    search (size_rules, decoder_rules, field_sizes, Decodes-read_db_ref) depth 90 fits 4000
