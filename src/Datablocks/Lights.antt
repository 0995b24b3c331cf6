-- ===== src/Datablocks/Lights.antt =====
-- aotbot/datablocks.py: the decoders of lights, lightning, decals and precipitation.
use aot_headless_client.BitStream.{M, ◌>>◌, read_flag, read_bytes}
use aot_headless_client.BitStream.Strings.{read_string}
use aot_headless_client.Decoder.{skip_all, repeat}
use aot_headless_client.Decoder.Decodes.{Decodes}
use aot_headless_client.Decoder.Rules.{decoder_rules}
use aot_headless_client.Decoder.Sizes.{AtLeast, size_rules}
use aot_headless_client.Datablocks.Fields.{read_db_ref, Decodes-read_db_ref, field_sizes}

unfoldable pub unpack_fx_light_data : M (Unit {0})
unpack_fx_light_data = do
  read_bytes 1
  read_bytes 4
  read_bytes 4
  read_bytes 4
  read_string
  read_bytes 4
  read_bytes 1
  read_bytes 1
  read_bytes 1
  repeat 7 (read_bytes 4)
  repeat 5 read_flag
  read_flag
  read_flag
  read_bytes 4
  read_bytes 4
  repeat 12 (read_bytes 4)
  read_flag
  repeat 7 read_string
  repeat 5 (read_bytes 4)
  repeat 5 read_flag
  skip_all

unfoldable pub unpack_lightning_data : M (Unit {0})
unpack_lightning_data = do repeat 8 read_db_ref; repeat 8 read_string; read_db_ref; skip_all

unfoldable pub unpack_decal_data : M (Unit {0})
unpack_decal_data = do read_bytes 4; read_bytes 4; read_string; skip_all

unfoldable pub unpack_precipitation_data : M (Unit {0})
unpack_precipitation_data = do
  read_db_ref
  read_string
  read_string
  read_bytes 4
  read_bytes 4
  read_bytes 4
  read_flag
  skip_all

pub Decodes-unpack_fx_light_data : Decodes unpack_fx_light_data
unfolding unpack_fx_light_data
Decodes-unpack_fx_light_data = search decoder_rules depth 90 fits 4000

pub AtLeast-unpack_fx_light_data : AtLeast 1077 unpack_fx_light_data
unfolding unpack_fx_light_data
AtLeast-unpack_fx_light_data = search (size_rules, decoder_rules) depth 90 fits 4000

pub Decodes-unpack_lightning_data : Decodes unpack_lightning_data
unfolding unpack_lightning_data
Decodes-unpack_lightning_data = search (decoder_rules, Decodes-read_db_ref) depth 90 fits 4000

pub AtLeast-unpack_lightning_data : AtLeast 81 unpack_lightning_data
unfolding unpack_lightning_data
AtLeast-unpack_lightning_data =
    search (size_rules, decoder_rules, field_sizes, Decodes-read_db_ref) depth 90 fits 4000

pub Decodes-unpack_decal_data : Decodes unpack_decal_data
unfolding unpack_decal_data
Decodes-unpack_decal_data = search decoder_rules depth 90 fits 4000

pub AtLeast-unpack_decal_data : AtLeast 73 unpack_decal_data
unfolding unpack_decal_data
AtLeast-unpack_decal_data = search (size_rules, decoder_rules) depth 90 fits 4000

pub Decodes-unpack_precipitation_data : Decodes unpack_precipitation_data
unfolding unpack_precipitation_data
Decodes-unpack_precipitation_data = search (decoder_rules, Decodes-read_db_ref) depth 90 fits 4000

pub AtLeast-unpack_precipitation_data : AtLeast 116 unpack_precipitation_data
unfolding unpack_precipitation_data
AtLeast-unpack_precipitation_data =
    search (size_rules, decoder_rules, field_sizes, Decodes-read_db_ref) depth 90 fits 4000
