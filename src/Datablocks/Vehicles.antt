-- ===== src/Datablocks/Vehicles.antt =====
-- aotbot/datablocks.py: the decoders of vehicles and their wheels.
use aot_headless_client.Base.{ℕ, ◌-◌}
use aot_headless_client.BitStream.{M, ◌>>=◌, ◌>>◌, read_flag, read_bytes}
use aot_headless_client.BitStream.Strings.{read_string}
use aot_headless_client.Decoder.{skip_all, repeat}
use aot_headless_client.Decoder.Decodes.{Decodes}
use aot_headless_client.Decoder.Rules.{decoder_rules}
use aot_headless_client.Decoder.Sizes.{AtLeast, AtLeast-bind, size_rules}
use aot_headless_client.Datablocks.Fields.{
  read_db_ref, Decodes-read_db_ref, field_sizes, read_f32, Decodes-read_f32,
}
use aot_headless_client.Datablocks.Shapes.{
  unpack_shape_base_data, Decodes-unpack_shape_base_data, shape_base_data_then,
}

unfoldable pub unpack_wheeled_vehicle_spring : M (Unit {0})
unpack_wheeled_vehicle_spring = do repeat 4 (read_bytes 4); skip_all

unfoldable pub unpack_wheeled_vehicle_tire : M (Unit {0})
unpack_wheeled_vehicle_tire = do read_string; repeat 11 (read_bytes 4); skip_all

unfoldable pub unpack_vehicle_data : M (Unit {0})
unpack_vehicle_data = do
  unpack_shape_base_data
  read_f32
  read_f32
  repeat 2 read_db_ref
  repeat 19 read_f32
  read_flag
  repeat 10 read_f32
  repeat 5 read_db_ref
  read_db_ref
  repeat 3 read_db_ref
  repeat 2 read_db_ref
  repeat 2 (do read_f32; read_f32; read_f32)
  repeat 2 read_f32
  repeat 4 read_f32
  skip_all

unfoldable pub unpack_flying_vehicle_data : M (Unit {0})
unpack_flying_vehicle_data = do
  unpack_vehicle_data
  repeat 2 read_db_ref
  repeat 4 read_db_ref
  repeat 15 read_f32
  skip_all

unfoldable pub unpack_hover_vehicle_data : M (Unit {0})
unpack_hover_vehicle_data = do
  unpack_vehicle_data
  repeat 17 read_f32
  read_bytes 12
  read_f32
  read_f32
  repeat 3 read_db_ref
  repeat 3 read_db_ref
  read_db_ref
  repeat 3 read_f32
  skip_all

unfoldable pub unpack_wheeled_vehicle_data : M (Unit {0})
unpack_wheeled_vehicle_data = do
  unpack_vehicle_data
  read_db_ref
  repeat 4 read_db_ref
  repeat 4 read_f32
  skip_all

pub Decodes-unpack_wheeled_vehicle_spring : Decodes unpack_wheeled_vehicle_spring
unfolding unpack_wheeled_vehicle_spring
Decodes-unpack_wheeled_vehicle_spring = search decoder_rules depth 90 fits 4000

pub AtLeast-unpack_wheeled_vehicle_spring : AtLeast 128 unpack_wheeled_vehicle_spring
unfolding unpack_wheeled_vehicle_spring
AtLeast-unpack_wheeled_vehicle_spring = search (size_rules, decoder_rules) depth 90 fits 4000

pub Decodes-unpack_wheeled_vehicle_tire : Decodes unpack_wheeled_vehicle_tire
unfolding unpack_wheeled_vehicle_tire
Decodes-unpack_wheeled_vehicle_tire = search decoder_rules depth 90 fits 4000

pub AtLeast-unpack_wheeled_vehicle_tire : AtLeast 361 unpack_wheeled_vehicle_tire
unfolding unpack_wheeled_vehicle_tire
AtLeast-unpack_wheeled_vehicle_tire = search (size_rules, decoder_rules) depth 90 fits 4000

pub Decodes-unpack_vehicle_data : Decodes unpack_vehicle_data
unfolding unpack_vehicle_data
Decodes-unpack_vehicle_data =
    search (decoder_rules, Decodes-read_f32, Decodes-read_db_ref, Decodes-unpack_shape_base_data)
      depth 90 fits 4000

pub AtLeast-unpack_vehicle_data : AtLeast 1437 unpack_vehicle_data
unfolding unpack_vehicle_data
AtLeast-unpack_vehicle_data =
    search
      (
        size_rules, decoder_rules, field_sizes, shape_base_data_then, Decodes-read_f32,
        Decodes-read_db_ref, Decodes-unpack_shape_base_data,
      )
      depth 90 fits 40000

pub vehicle_data_then :
    {A : Type 0} {f : Unit {0} → M A} {all : ℕ}
    → ((v : Unit {0}) → AtLeast (all - 1437) (f v))
    → AtLeast all (unpack_vehicle_data >>= f)
vehicle_data_then g = AtLeast-bind AtLeast-unpack_vehicle_data g

pub Decodes-unpack_flying_vehicle_data : Decodes unpack_flying_vehicle_data
unfolding unpack_flying_vehicle_data
Decodes-unpack_flying_vehicle_data =
    search (decoder_rules, Decodes-read_f32, Decodes-read_db_ref, Decodes-unpack_vehicle_data) depth
      90 fits 4000

pub AtLeast-unpack_flying_vehicle_data : AtLeast 1923 unpack_flying_vehicle_data
unfolding unpack_flying_vehicle_data
AtLeast-unpack_flying_vehicle_data =
    search
      (
        size_rules, decoder_rules, field_sizes, vehicle_data_then, Decodes-read_f32,
        Decodes-read_db_ref, Decodes-unpack_vehicle_data,
      )
      depth 90 fits 4000

pub Decodes-unpack_hover_vehicle_data : Decodes unpack_hover_vehicle_data
unfolding unpack_hover_vehicle_data
Decodes-unpack_hover_vehicle_data =
    search (decoder_rules, Decodes-read_f32, Decodes-read_db_ref, Decodes-unpack_vehicle_data) depth
      90 fits 4000

pub AtLeast-unpack_hover_vehicle_data : AtLeast 2244 unpack_hover_vehicle_data
unfolding unpack_hover_vehicle_data
AtLeast-unpack_hover_vehicle_data =
    search
      (
        size_rules, decoder_rules, field_sizes, vehicle_data_then, Decodes-read_f32,
        Decodes-read_db_ref, Decodes-unpack_vehicle_data,
      )
      depth 90 fits 4000

pub Decodes-unpack_wheeled_vehicle_data : Decodes unpack_wheeled_vehicle_data
unfolding unpack_wheeled_vehicle_data
Decodes-unpack_wheeled_vehicle_data =
    search (decoder_rules, Decodes-read_f32, Decodes-read_db_ref, Decodes-unpack_vehicle_data) depth
      90 fits 4000

pub AtLeast-unpack_wheeled_vehicle_data : AtLeast 1570 unpack_wheeled_vehicle_data
unfolding unpack_wheeled_vehicle_data
AtLeast-unpack_wheeled_vehicle_data =
    search
      (
        size_rules, decoder_rules, field_sizes, vehicle_data_then, Decodes-read_f32,
        Decodes-read_db_ref, Decodes-unpack_vehicle_data,
      )
      depth 90 fits 4000
