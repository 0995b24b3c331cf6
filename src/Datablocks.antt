-- ===== src/Datablocks.antt =====
-- aotbot/datablocks.py: the body of a datablock, which has no length of its own: each class has a decoder
-- that must read it to the last bit. What the decoders report to telemetry is left out.
pub mod Fields
pub mod Shapes
pub mod Images
pub mod Effects
pub mod Lights
pub mod Objects
pub mod Audio
pub mod Vehicles
pub mod Bodies
pub mod Tests
use aot_headless_client.Base.{ℕ, Option, none, some, List, [], ◌∷◌, get_elem?}
use aot_headless_client.BitStream.{M}
use aot_headless_client.Decoder.{D, raise, fine}
use aot_headless_client.Datablocks.Shapes.{
  unpack_sim_data_block, unpack_game_base_data, unpack_shape_base_data, unpack_camera_data,
  unpack_static_shape_data, unpack_trigger_data, unpack_item_data, unpack_player_data,
}
use aot_headless_client.Datablocks.Images.{unpack_shape_base_image_data}
use aot_headless_client.Datablocks.Effects.{
  unpack_particle_data, unpack_particle_emitter_data, unpack_explosion_data, unpack_splash_data,
  unpack_debris_data,
}
use aot_headless_client.Datablocks.Lights.{
  unpack_fx_light_data, unpack_lightning_data, unpack_decal_data, unpack_precipitation_data,
}
use aot_headless_client.Datablocks.Objects.{
  unpack_ts_shape_constructor, unpack_projectile_data, unpack_pathed_interior_data,
  unpack_fx_dts_brick_data,
}
use aot_headless_client.Datablocks.Audio.{
  unpack_audio_environment, unpack_audio_sample_environment, unpack_audio_description,
  unpack_audio_profile,
}
use aot_headless_client.Datablocks.Vehicles.{
  unpack_wheeled_vehicle_spring, unpack_wheeled_vehicle_tire, unpack_flying_vehicle_data,
  unpack_hover_vehicle_data, unpack_wheeled_vehicle_data,
}

-- The 34 classes.
pub data DatablockClass : Type 0 where
  audio_description : DatablockClass
  audio_environment : DatablockClass
  audio_profile : DatablockClass
  audio_sample_environment : DatablockClass
  camera_data : DatablockClass
  debris_data : DatablockClass
  decal_data : DatablockClass
  explosion_data : DatablockClass
  flying_vehicle_data : DatablockClass
  game_base_data : DatablockClass
  hover_vehicle_data : DatablockClass
  item_data : DatablockClass
  lightning_data : DatablockClass
  mission_marker_data : DatablockClass
  particle_data : DatablockClass
  particle_emitter_data : DatablockClass
  particle_emitter_node_data : DatablockClass
  path_camera_data : DatablockClass
  pathed_interior_data : DatablockClass
  player_data : DatablockClass
  precipitation_data : DatablockClass
  projectile_data : DatablockClass
  shape_base_data : DatablockClass
  shape_base_image_data : DatablockClass
  sim_data_block : DatablockClass
  splash_data : DatablockClass
  static_shape_data : DatablockClass
  ts_shape_constructor : DatablockClass
  trigger_data : DatablockClass
  wheeled_vehicle_data : DatablockClass
  wheeled_vehicle_spring : DatablockClass
  wheeled_vehicle_tire : DatablockClass
  fx_dts_brick_data : DatablockClass
  fx_light_data : DatablockClass

-- In the order of their ids.
abbrev pub datablock_class_names : List DatablockClass
datablock_class_names =
    audio_description ∷ audio_environment ∷ audio_profile ∷ audio_sample_environment ∷ camera_data
    ∷ debris_data ∷ decal_data ∷ explosion_data ∷ flying_vehicle_data ∷ game_base_data
    ∷ hover_vehicle_data ∷ item_data ∷ lightning_data ∷ mission_marker_data ∷ particle_data
    ∷ particle_emitter_data ∷ particle_emitter_node_data ∷ path_camera_data ∷ pathed_interior_data
    ∷ player_data ∷ precipitation_data ∷ projectile_data ∷ shape_base_data ∷ shape_base_image_data
    ∷ sim_data_block ∷ splash_data ∷ static_shape_data ∷ ts_shape_constructor ∷ trigger_data
    ∷ wheeled_vehicle_data ∷ wheeled_vehicle_spring ∷ wheeled_vehicle_tire ∷ fx_dts_brick_data
    ∷ fx_light_data ∷ []

-- `DECODERS.get`
unfoldable pub decoders : DatablockClass → Option (M (Unit {0}))
decoders audio_description = some unpack_audio_description
decoders audio_environment = some unpack_audio_environment
decoders audio_profile = some unpack_audio_profile
decoders audio_sample_environment = some unpack_audio_sample_environment
decoders camera_data = some unpack_camera_data
decoders debris_data = some unpack_debris_data
decoders decal_data = some unpack_decal_data
decoders explosion_data = some unpack_explosion_data
decoders flying_vehicle_data = some unpack_flying_vehicle_data
decoders game_base_data = some unpack_game_base_data
decoders hover_vehicle_data = some unpack_hover_vehicle_data
decoders item_data = some unpack_item_data
decoders lightning_data = some unpack_lightning_data
decoders mission_marker_data = some unpack_shape_base_data
decoders particle_data = some unpack_particle_data
decoders particle_emitter_data = some unpack_particle_emitter_data
decoders particle_emitter_node_data = some unpack_trigger_data
decoders path_camera_data = some unpack_camera_data
decoders pathed_interior_data = some unpack_pathed_interior_data
decoders player_data = some unpack_player_data
decoders precipitation_data = some unpack_precipitation_data
decoders projectile_data = some unpack_projectile_data
decoders shape_base_data = some unpack_shape_base_data
decoders shape_base_image_data = some unpack_shape_base_image_data
decoders sim_data_block = some unpack_sim_data_block
decoders splash_data = some unpack_splash_data
decoders static_shape_data = some unpack_static_shape_data
decoders ts_shape_constructor = some unpack_ts_shape_constructor
decoders trigger_data = some unpack_trigger_data
decoders wheeled_vehicle_data = some unpack_wheeled_vehicle_data
decoders wheeled_vehicle_spring = some unpack_wheeled_vehicle_spring
decoders wheeled_vehicle_tire = some unpack_wheeled_vehicle_tire
decoders fx_dts_brick_data = some unpack_fx_dts_brick_data
decoders fx_light_data = some unpack_fx_light_data

-- `if dec is None: raise`, and else `dec(bs)`
call_decoder : Option (M (Unit {0})) → D (Unit {0})
call_decoder none = raise
call_decoder (some dec) = fine dec

run_decoder : Option DatablockClass → D (Unit {0})
unfolding call_decoder
run_decoder none = raise
run_decoder (some name) = call_decoder (decoders name)

unfoldable pub unpack_datablock : ℕ → D (Unit {0})
unfolding run_decoder
unpack_datablock class_id = run_decoder (get_elem? datablock_class_names class_id)
