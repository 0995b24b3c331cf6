-- ===== src/Datablocks/Bodies.antt =====
-- aotbot/datablocks.py: what holds of the decoder of every class.
use aot_headless_client.Base.{ℕ, ◌+◌, ◌≤◌, ◌≡◌, Option, none, some, get_elem?}
use aot_headless_client.BitStream.{BitStream, M, pure, ◌>>=◌}
use aot_headless_client.Decoder.{fine}
use aot_headless_client.Decoder.Decodes.{Decodes}
use aot_headless_client.Decoder.Rules.{Decodes-raise, Decodes-fine}
use aot_headless_client.Decoder.Sizes.{AtLeast}
use aot_headless_client.Datablocks.Shapes.{
  Decodes-unpack_sim_data_block, AtLeast-unpack_sim_data_block, Decodes-unpack_game_base_data,
  AtLeast-unpack_game_base_data, Decodes-unpack_shape_base_data, AtLeast-unpack_shape_base_data,
  Decodes-unpack_camera_data, AtLeast-unpack_camera_data, Decodes-unpack_static_shape_data,
  AtLeast-unpack_static_shape_data, Decodes-unpack_trigger_data, AtLeast-unpack_trigger_data,
  Decodes-unpack_item_data, AtLeast-unpack_item_data, Decodes-unpack_player_data,
  AtLeast-unpack_player_data,
}
use aot_headless_client.Datablocks.Images.{
  Decodes-unpack_shape_base_image_data, AtLeast-unpack_shape_base_image_data,
}
use aot_headless_client.Datablocks.Effects.{
  Decodes-unpack_particle_data, AtLeast-unpack_particle_data, Decodes-unpack_particle_emitter_data,
  AtLeast-unpack_particle_emitter_data, Decodes-unpack_explosion_data,
  AtLeast-unpack_explosion_data, Decodes-unpack_splash_data, AtLeast-unpack_splash_data,
  Decodes-unpack_debris_data, AtLeast-unpack_debris_data,
}
use aot_headless_client.Datablocks.Lights.{
  Decodes-unpack_fx_light_data, AtLeast-unpack_fx_light_data, Decodes-unpack_lightning_data,
  AtLeast-unpack_lightning_data, Decodes-unpack_decal_data, AtLeast-unpack_decal_data,
  Decodes-unpack_precipitation_data, AtLeast-unpack_precipitation_data,
}
use aot_headless_client.Datablocks.Objects.{
  Decodes-unpack_ts_shape_constructor, AtLeast-unpack_ts_shape_constructor,
  Decodes-unpack_projectile_data, AtLeast-unpack_projectile_data,
  Decodes-unpack_pathed_interior_data, AtLeast-unpack_pathed_interior_data,
  Decodes-unpack_fx_dts_brick_data, AtLeast-unpack_fx_dts_brick_data,
}
use aot_headless_client.Datablocks.Audio.{
  Decodes-unpack_audio_environment, AtLeast-unpack_audio_environment,
  Decodes-unpack_audio_sample_environment, AtLeast-unpack_audio_sample_environment,
  Decodes-unpack_audio_description, AtLeast-unpack_audio_description, Decodes-unpack_audio_profile,
  AtLeast-unpack_audio_profile,
}
use aot_headless_client.Datablocks.Vehicles.{
  Decodes-unpack_wheeled_vehicle_spring, AtLeast-unpack_wheeled_vehicle_spring,
  Decodes-unpack_wheeled_vehicle_tire, AtLeast-unpack_wheeled_vehicle_tire,
  Decodes-unpack_flying_vehicle_data, AtLeast-unpack_flying_vehicle_data,
  Decodes-unpack_hover_vehicle_data, AtLeast-unpack_hover_vehicle_data,
  Decodes-unpack_wheeled_vehicle_data, AtLeast-unpack_wheeled_vehicle_data,
}
use aot_headless_client.Datablocks.{
  DatablockClass, datablock_class_names, decoders, call_decoder, run_decoder, unpack_datablock,
  audio_description, audio_environment, audio_profile, audio_sample_environment, camera_data,
  debris_data, decal_data, explosion_data, flying_vehicle_data, game_base_data, hover_vehicle_data,
  item_data, lightning_data, mission_marker_data, particle_data, particle_emitter_data,
  particle_emitter_node_data, path_camera_data, pathed_interior_data, player_data,
  precipitation_data, projectile_data, shape_base_data, shape_base_image_data, sim_data_block,
  splash_data, static_shape_data, ts_shape_constructor, trigger_data, wheeled_vehicle_data,
  wheeled_vehicle_spring, wheeled_vehicle_tire, fx_dts_brick_data, fx_light_data,
}

Decodes-decoders : (name : DatablockClass) → Decodes (call_decoder (decoders name))
unfolding decoders call_decoder
Decodes-decoders audio_description = Decodes-fine Decodes-unpack_audio_description
Decodes-decoders audio_environment = Decodes-fine Decodes-unpack_audio_environment
Decodes-decoders audio_profile = Decodes-fine Decodes-unpack_audio_profile
Decodes-decoders audio_sample_environment = Decodes-fine Decodes-unpack_audio_sample_environment
Decodes-decoders camera_data = Decodes-fine Decodes-unpack_camera_data
Decodes-decoders debris_data = Decodes-fine Decodes-unpack_debris_data
Decodes-decoders decal_data = Decodes-fine Decodes-unpack_decal_data
Decodes-decoders explosion_data = Decodes-fine Decodes-unpack_explosion_data
Decodes-decoders flying_vehicle_data = Decodes-fine Decodes-unpack_flying_vehicle_data
Decodes-decoders game_base_data = Decodes-fine Decodes-unpack_game_base_data
Decodes-decoders hover_vehicle_data = Decodes-fine Decodes-unpack_hover_vehicle_data
Decodes-decoders item_data = Decodes-fine Decodes-unpack_item_data
Decodes-decoders lightning_data = Decodes-fine Decodes-unpack_lightning_data
Decodes-decoders mission_marker_data = Decodes-fine Decodes-unpack_shape_base_data
Decodes-decoders particle_data = Decodes-fine Decodes-unpack_particle_data
Decodes-decoders particle_emitter_data = Decodes-fine Decodes-unpack_particle_emitter_data
Decodes-decoders particle_emitter_node_data = Decodes-fine Decodes-unpack_trigger_data
Decodes-decoders path_camera_data = Decodes-fine Decodes-unpack_camera_data
Decodes-decoders pathed_interior_data = Decodes-fine Decodes-unpack_pathed_interior_data
Decodes-decoders player_data = Decodes-fine Decodes-unpack_player_data
Decodes-decoders precipitation_data = Decodes-fine Decodes-unpack_precipitation_data
Decodes-decoders projectile_data = Decodes-fine Decodes-unpack_projectile_data
Decodes-decoders shape_base_data = Decodes-fine Decodes-unpack_shape_base_data
Decodes-decoders shape_base_image_data = Decodes-fine Decodes-unpack_shape_base_image_data
Decodes-decoders sim_data_block = Decodes-fine Decodes-unpack_sim_data_block
Decodes-decoders splash_data = Decodes-fine Decodes-unpack_splash_data
Decodes-decoders static_shape_data = Decodes-fine Decodes-unpack_static_shape_data
Decodes-decoders ts_shape_constructor = Decodes-fine Decodes-unpack_ts_shape_constructor
Decodes-decoders trigger_data = Decodes-fine Decodes-unpack_trigger_data
Decodes-decoders wheeled_vehicle_data = Decodes-fine Decodes-unpack_wheeled_vehicle_data
Decodes-decoders wheeled_vehicle_spring = Decodes-fine Decodes-unpack_wheeled_vehicle_spring
Decodes-decoders wheeled_vehicle_tire = Decodes-fine Decodes-unpack_wheeled_vehicle_tire
Decodes-decoders fx_dts_brick_data = Decodes-fine Decodes-unpack_fx_dts_brick_data
Decodes-decoders fx_light_data = Decodes-fine Decodes-unpack_fx_light_data

AtLeast-fine : {bits : ℕ} {m : M (Unit {0})} → AtLeast bits m → AtLeast bits (fine m)
unfolding fine ◌>>=◌ pure
AtLeast-fine d = record { least = λ s. d.least s }

-- The fewest bits that an object of the class takes.
unfoldable pub least_size : DatablockClass → ℕ
least_size audio_description = 12
least_size audio_environment = 6
least_size audio_profile = 11
least_size audio_sample_environment = 134
least_size camera_data = 47
least_size debris_data = 557
least_size decal_data = 73
least_size explosion_data = 611
least_size flying_vehicle_data = 1923
least_size game_base_data = 0
least_size hover_vehicle_data = 2244
least_size item_data = 143
least_size lightning_data = 81
least_size mission_marker_data = 47
least_size particle_data = 66
least_size particle_emitter_data = 132
least_size particle_emitter_node_data = 32
least_size path_camera_data = 47
least_size pathed_interior_data = 3
least_size player_data = 1422
least_size precipitation_data = 116
least_size projectile_data = 99
least_size shape_base_data = 47
least_size shape_base_image_data = 314
least_size sim_data_block = 0
least_size splash_data = 854
least_size static_shape_data = 80
least_size ts_shape_constructor = 16
least_size trigger_data = 32
least_size wheeled_vehicle_data = 1570
least_size wheeled_vehicle_spring = 128
least_size wheeled_vehicle_tire = 361
least_size fx_dts_brick_data = 81
least_size fx_light_data = 1077

AtLeast-decoders :
    (name : DatablockClass) → AtLeast (least_size name) (call_decoder (decoders name))
unfolding decoders call_decoder least_size
AtLeast-decoders audio_description = AtLeast-fine AtLeast-unpack_audio_description
AtLeast-decoders audio_environment = AtLeast-fine AtLeast-unpack_audio_environment
AtLeast-decoders audio_profile = AtLeast-fine AtLeast-unpack_audio_profile
AtLeast-decoders audio_sample_environment = AtLeast-fine AtLeast-unpack_audio_sample_environment
AtLeast-decoders camera_data = AtLeast-fine AtLeast-unpack_camera_data
AtLeast-decoders debris_data = AtLeast-fine AtLeast-unpack_debris_data
AtLeast-decoders decal_data = AtLeast-fine AtLeast-unpack_decal_data
AtLeast-decoders explosion_data = AtLeast-fine AtLeast-unpack_explosion_data
AtLeast-decoders flying_vehicle_data = AtLeast-fine AtLeast-unpack_flying_vehicle_data
AtLeast-decoders game_base_data = AtLeast-fine AtLeast-unpack_game_base_data
AtLeast-decoders hover_vehicle_data = AtLeast-fine AtLeast-unpack_hover_vehicle_data
AtLeast-decoders item_data = AtLeast-fine AtLeast-unpack_item_data
AtLeast-decoders lightning_data = AtLeast-fine AtLeast-unpack_lightning_data
AtLeast-decoders mission_marker_data = AtLeast-fine AtLeast-unpack_shape_base_data
AtLeast-decoders particle_data = AtLeast-fine AtLeast-unpack_particle_data
AtLeast-decoders particle_emitter_data = AtLeast-fine AtLeast-unpack_particle_emitter_data
AtLeast-decoders particle_emitter_node_data = AtLeast-fine AtLeast-unpack_trigger_data
AtLeast-decoders path_camera_data = AtLeast-fine AtLeast-unpack_camera_data
AtLeast-decoders pathed_interior_data = AtLeast-fine AtLeast-unpack_pathed_interior_data
AtLeast-decoders player_data = AtLeast-fine AtLeast-unpack_player_data
AtLeast-decoders precipitation_data = AtLeast-fine AtLeast-unpack_precipitation_data
AtLeast-decoders projectile_data = AtLeast-fine AtLeast-unpack_projectile_data
AtLeast-decoders shape_base_data = AtLeast-fine AtLeast-unpack_shape_base_data
AtLeast-decoders shape_base_image_data = AtLeast-fine AtLeast-unpack_shape_base_image_data
AtLeast-decoders sim_data_block = AtLeast-fine AtLeast-unpack_sim_data_block
AtLeast-decoders splash_data = AtLeast-fine AtLeast-unpack_splash_data
AtLeast-decoders static_shape_data = AtLeast-fine AtLeast-unpack_static_shape_data
AtLeast-decoders ts_shape_constructor = AtLeast-fine AtLeast-unpack_ts_shape_constructor
AtLeast-decoders trigger_data = AtLeast-fine AtLeast-unpack_trigger_data
AtLeast-decoders wheeled_vehicle_data = AtLeast-fine AtLeast-unpack_wheeled_vehicle_data
AtLeast-decoders wheeled_vehicle_spring = AtLeast-fine AtLeast-unpack_wheeled_vehicle_spring
AtLeast-decoders wheeled_vehicle_tire = AtLeast-fine AtLeast-unpack_wheeled_vehicle_tire
AtLeast-decoders fx_dts_brick_data = AtLeast-fine AtLeast-unpack_fx_dts_brick_data
AtLeast-decoders fx_light_data = AtLeast-fine AtLeast-unpack_fx_light_data

Decodes-run_decoder : (name : Option DatablockClass) → Decodes (run_decoder name)
unfolding run_decoder
Decodes-run_decoder none = Decodes-raise
Decodes-run_decoder (some name) = Decodes-decoders name

-- The decoder of every class id takes a definite bit string off the stream.
pub Decodes-unpack_datablock : (class_id : ℕ) → Decodes (unpack_datablock class_id)
unfolding unpack_datablock
Decodes-unpack_datablock class_id = Decodes-run_decoder (get_elem? datablock_class_names class_id)

-- For every class of datablocks, `unpack_datablock` moves the cursor by at least the least size of the
-- class, whatever the stream holds. Condition: the class id is the class's.
pub unpack_datablock-least_size :
    (class_id : ℕ) (name : DatablockClass) (s : BitStream)
    → get_elem? datablock_class_names class_id ≡ some name
    → s.bit_num + least_size name ≤ (unpack_datablock class_id s).1.bit_num
unfolding unpack_datablock run_decoder
unpack_datablock-least_size class_id name s h = rw h ((AtLeast-decoders name).least s)
