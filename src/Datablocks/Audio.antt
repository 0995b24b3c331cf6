-- ===== src/Datablocks/Audio.antt =====
-- aotbot/datablocks.py: the decoders of sounds and sound environments.
use aot_headless_client.BitStream.{M, ◌>>◌, read_flag, read_int, read_ranged_u32, ranged_bits}
use aot_headless_client.BitStream.Strings.{read_string}
use aot_headless_client.Decoder.{skip_all, if_flag, choose_flag, read_float}
use aot_headless_client.Decoder.Decodes.{Decodes}
use aot_headless_client.Decoder.Rules.{decoder_rules}
use aot_headless_client.Decoder.Sizes.{AtLeast, size_rules}
use aot_headless_client.Datablocks.Fields.{
  read_db_ref, Decodes-read_db_ref, field_sizes, read_f32, Decodes-read_f32, read_normal_vector,
  Decodes-read_normal_vector,
}

unfoldable pub unpack_audio_environment : M (Unit {0})
unpack_audio_environment =
    choose_flag (do read_ranged_u32 0 28; skip_all)
      (do
        read_ranged_u32 0 10000
        read_ranged_u32 0 20000
        read_ranged_u32 0 12000
        read_int 8
        read_int 8
        read_int 8
        read_int 9
        read_int 7
        read_ranged_u32 0 10000
        read_int 8
        read_int 9
        read_int 10
        read_int 8
        read_int 10
        read_int 6
        skip_all)

unfoldable pub unpack_audio_sample_environment : M (Unit {0})
unpack_audio_sample_environment = do
  read_ranged_u32 0 11000
  read_ranged_u32 0 10000
  read_ranged_u32 0 11000
  read_ranged_u32 0 10000
  read_int 9
  read_int 8
  read_int 9
  read_int 8
  read_int 9
  read_int 9
  read_int 9
  read_ranged_u32 0 10000
  read_int 3
  skip_all

unfoldable pub unpack_audio_description : M (Unit {0})
unpack_audio_description = do
  read_float 6
  if_flag (do read_f32; read_f32; read_f32)
  read_flag
  if_flag
      (do read_f32; read_f32; read_int 9; read_int 9; read_float 6; read_normal_vector 8; read_f32)
  read_int 3
  skip_all

unfoldable pub unpack_audio_profile : M (Unit {0})
unpack_audio_profile = do read_db_ref; read_db_ref; read_string; skip_all

pub Decodes-unpack_audio_environment : Decodes unpack_audio_environment
unfolding unpack_audio_environment
Decodes-unpack_audio_environment = search decoder_rules depth 90 fits 4000

pub AtLeast-unpack_audio_environment : AtLeast 6 unpack_audio_environment
unfolding unpack_audio_environment ranged_bits
AtLeast-unpack_audio_environment = search (size_rules, decoder_rules) depth 90 fits 4000

pub Decodes-unpack_audio_sample_environment : Decodes unpack_audio_sample_environment
unfolding unpack_audio_sample_environment
Decodes-unpack_audio_sample_environment = search decoder_rules depth 90 fits 4000

pub AtLeast-unpack_audio_sample_environment : AtLeast 134 unpack_audio_sample_environment
unfolding unpack_audio_sample_environment ranged_bits
AtLeast-unpack_audio_sample_environment = search (size_rules, decoder_rules) depth 90 fits 4000

pub Decodes-unpack_audio_description : Decodes unpack_audio_description
unfolding unpack_audio_description
Decodes-unpack_audio_description =
    search (decoder_rules, Decodes-read_f32, Decodes-read_normal_vector) depth 90 fits 4000

pub AtLeast-unpack_audio_description : AtLeast 12 unpack_audio_description
unfolding unpack_audio_description
AtLeast-unpack_audio_description =
    search (size_rules, decoder_rules, field_sizes, Decodes-read_f32, Decodes-read_normal_vector)
      depth 90 fits 4000

pub Decodes-unpack_audio_profile : Decodes unpack_audio_profile
unfolding unpack_audio_profile
Decodes-unpack_audio_profile = search (decoder_rules, Decodes-read_db_ref) depth 90 fits 4000

pub AtLeast-unpack_audio_profile : AtLeast 11 unpack_audio_profile
unfolding unpack_audio_profile
AtLeast-unpack_audio_profile =
    search (size_rules, decoder_rules, field_sizes, Decodes-read_db_ref) depth 90 fits 4000
