-- ===== src/Datablocks/Objects.antt =====
-- aotbot/datablocks.py: the decoders of projectiles, interiors, bricks and shape constructors.
use aot_headless_client.BitStream.{M, ◌>>=◌, ◌>>◌, read_flag, read_int, read_bytes}
use aot_headless_client.BitStream.Strings.{read_string}
use aot_headless_client.Decoder.{skip_all, repeat, if_flag, read_float}
use aot_headless_client.Decoder.Decodes.{Decodes}
use aot_headless_client.Decoder.Rules.{decoder_rules}
use aot_headless_client.Decoder.Sizes.{AtLeast, size_rules}
use aot_headless_client.Datablocks.Fields.{read_db_ref, Decodes-read_db_ref, field_sizes}

unfoldable pub unpack_ts_shape_constructor : M (Unit {0})
unpack_ts_shape_constructor = do read_string; count ← read_int 7; repeat count read_string; skip_all

unfoldable pub unpack_projectile_data : M (Unit {0})
unpack_projectile_data = do
  read_string
  read_flag
  if_flag (do read_bytes 4; read_bytes 4; read_bytes 4)
  read_db_ref
  read_db_ref
  read_db_ref
  read_db_ref
  read_db_ref
  read_db_ref
  read_db_ref
  read_flag
  read_bytes 4
  read_db_ref
  read_db_ref
  repeat 6 read_db_ref
  if_flag (do read_float 8; read_float 7; read_float 7; read_float 7)
  if_flag (do read_float 7; read_float 7; read_float 7)
  read_int 12
  read_int 12
  read_int 12
  read_flag
  if_flag (do read_bytes 4; read_bytes 4; read_bytes 4)
  skip_all

unfoldable pub unpack_pathed_interior_data : M (Unit {0})
unpack_pathed_interior_data = do repeat 3 read_db_ref; skip_all

unfoldable pub unpack_fx_dts_brick_data : M (Unit {0})
unpack_fx_dts_brick_data = do repeat 7 read_string; read_int 6; read_int 6; read_int 6; skip_all

pub Decodes-unpack_ts_shape_constructor : Decodes unpack_ts_shape_constructor
unfolding unpack_ts_shape_constructor
Decodes-unpack_ts_shape_constructor = search decoder_rules depth 90 fits 4000

pub AtLeast-unpack_ts_shape_constructor : AtLeast 16 unpack_ts_shape_constructor
unfolding unpack_ts_shape_constructor
AtLeast-unpack_ts_shape_constructor = search (size_rules, decoder_rules) depth 90 fits 4000

pub Decodes-unpack_projectile_data : Decodes unpack_projectile_data
unfolding unpack_projectile_data
Decodes-unpack_projectile_data = search (decoder_rules, Decodes-read_db_ref) depth 90 fits 4000

pub AtLeast-unpack_projectile_data : AtLeast 99 unpack_projectile_data
unfolding unpack_projectile_data
AtLeast-unpack_projectile_data =
    search (size_rules, decoder_rules, field_sizes, Decodes-read_db_ref) depth 90 fits 4000

pub Decodes-unpack_pathed_interior_data : Decodes unpack_pathed_interior_data
unfolding unpack_pathed_interior_data
Decodes-unpack_pathed_interior_data = search (decoder_rules, Decodes-read_db_ref) depth 90 fits 4000

pub AtLeast-unpack_pathed_interior_data : AtLeast 3 unpack_pathed_interior_data
unfolding unpack_pathed_interior_data
AtLeast-unpack_pathed_interior_data =
    search (size_rules, decoder_rules, field_sizes, Decodes-read_db_ref) depth 90 fits 4000

pub Decodes-unpack_fx_dts_brick_data : Decodes unpack_fx_dts_brick_data
unfolding unpack_fx_dts_brick_data
Decodes-unpack_fx_dts_brick_data = search decoder_rules depth 90 fits 4000

pub AtLeast-unpack_fx_dts_brick_data : AtLeast 81 unpack_fx_dts_brick_data
unfolding unpack_fx_dts_brick_data
AtLeast-unpack_fx_dts_brick_data = search (size_rules, decoder_rules) depth 90 fits 4000
