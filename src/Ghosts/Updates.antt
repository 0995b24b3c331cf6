-- ===== src/Ghosts/Updates.antt =====
-- aotbot/ghosts.py: what the decoders of every class take off the stream.
use aot_headless_client.Base.{ℕ, Bool, Option, none, some, get_elem?}
use aot_headless_client.Decoder.Decodes.{Decodes}
use aot_headless_client.Decoder.Rules.{Decodes-raise, Decodes-fine}
use aot_headless_client.Ghosts.Shapes.{
  Decodes-unpack_game_base, Decodes-unpack_shape_base, Decodes-unpack_mission_marker,
  Decodes-unpack_static_shape, Decodes-unpack_camera, Decodes-unpack_item,
}
use aot_headless_client.Ghosts.Replicators.{
  Decodes-unpack_fx_shape_replicator, Decodes-unpack_fx_foliage_replicator,
  Decodes-unpack_fx_grass_replicator, Decodes-unpack_fx_dts_brick, Decodes-unpack_fx_brick_batcher,
}
use aot_headless_client.Ghosts.Markers.{
  Decodes-unpack_destructable_spawner, Decodes-unpack_gold_spawner, Decodes-unpack_spawn_sphere,
  Decodes-unpack_way_point, Decodes-unpack_simple_net_object, Decodes-unpack_marker,
  Decodes-unpack_mission_area, Decodes-unpack_trigger, Decodes-unpack_physical_zone,
}
use aot_headless_client.Ghosts.Scenery.{
  Decodes-unpack_particle_emitter_node, Decodes-unpack_sun, Decodes-unpack_terrain_block,
  Decodes-unpack_fx_sun_light, Decodes-unpack_pathed_interior, Decodes-unpack_ts_static,
  Decodes-unpack_interior_instance, Decodes-unpack_volume_light, Decodes-unpack_audio_emitter,
  Decodes-unpack_water_block,
}
use aot_headless_client.Ghosts.Weather.{
  Decodes-unpack_sky, Decodes-unpack_lightning, Decodes-unpack_splash, Decodes-unpack_fx_light,
  Decodes-unpack_precipitation, Decodes-unpack_tw_surface_reference, Decodes-unpack_vehicle_blocker,
}
use aot_headless_client.Ghosts.Vehicles.{
  Decodes-unpack_hover_vehicle, Decodes-unpack_flying_vehicle, Decodes-unpack_wheeled_vehicle,
  Decodes-unpack_path_camera,
}
use aot_headless_client.Ghosts.Players.{Decodes-unpack_player, Decodes-unpack_projectile}
use aot_headless_client.Ghosts.{
  ObjectClass, object_class_names, decoders, call_decoder, update, unpack_update, ai_player,
  audio_emitter, camera, debris, destructable_spawner, flying_vehicle, game_base, gold_spawner,
  hover_vehicle, interior_instance, item, lightning, marker, maze_spawner, mission_area,
  mission_marker, npc_spawner, particle_emitter_node, path_camera, pathed_interior, physical_zone,
  player, precipitation, projectile, room_marker, scope_always_shape, shape_base, simple_net_object,
  sky, spawn_sphere, splash, static_shape, sun, ts_static, terrain_block, trigger, vehicle_blocker,
  water_block, way_point, wheeled_vehicle, fx_brick_batcher, fx_dts_brick, fx_foliage_replicator,
  fx_grass_replicator, fx_light, fx_shape_replicated_static, fx_shape_replicator, fx_sun_light,
  tw_surface_reference, volume_light,
}

Decodes-decoders :
    (wheel_count : Option ℕ) (is_new : Bool) (name : ObjectClass)
    → Decodes (call_decoder (decoders wheel_count is_new name))
unfolding decoders call_decoder
Decodes-decoders wheel_count is_new ai_player = Decodes-fine (Decodes-unpack_player is_new)
Decodes-decoders wheel_count is_new audio_emitter =
    Decodes-fine (Decodes-unpack_audio_emitter is_new)
Decodes-decoders wheel_count is_new camera = Decodes-fine (Decodes-unpack_camera is_new)
Decodes-decoders wheel_count is_new debris = Decodes-fine (Decodes-unpack_game_base is_new)
Decodes-decoders wheel_count is_new destructable_spawner =
    Decodes-fine (Decodes-unpack_destructable_spawner is_new)
Decodes-decoders wheel_count is_new flying_vehicle =
    Decodes-fine (Decodes-unpack_flying_vehicle is_new)
Decodes-decoders wheel_count is_new game_base = Decodes-fine (Decodes-unpack_game_base is_new)
Decodes-decoders wheel_count is_new gold_spawner = Decodes-fine (Decodes-unpack_gold_spawner is_new)
Decodes-decoders wheel_count is_new hover_vehicle =
    Decodes-fine (Decodes-unpack_hover_vehicle is_new)
Decodes-decoders wheel_count is_new interior_instance =
    Decodes-fine (Decodes-unpack_interior_instance is_new)
Decodes-decoders wheel_count is_new item = Decodes-fine (Decodes-unpack_item is_new)
Decodes-decoders wheel_count is_new lightning = Decodes-fine (Decodes-unpack_lightning is_new)
Decodes-decoders wheel_count is_new marker = Decodes-fine (Decodes-unpack_marker is_new)
Decodes-decoders wheel_count is_new maze_spawner =
    Decodes-fine (Decodes-unpack_mission_marker is_new)
Decodes-decoders wheel_count is_new mission_area = Decodes-fine (Decodes-unpack_mission_area is_new)
Decodes-decoders wheel_count is_new mission_marker =
    Decodes-fine (Decodes-unpack_mission_marker is_new)
Decodes-decoders wheel_count is_new npc_spawner =
    Decodes-fine (Decodes-unpack_mission_marker is_new)
Decodes-decoders wheel_count is_new particle_emitter_node =
    Decodes-fine (Decodes-unpack_particle_emitter_node is_new)
Decodes-decoders wheel_count is_new path_camera = Decodes-unpack_path_camera is_new
Decodes-decoders wheel_count is_new pathed_interior =
    Decodes-fine (Decodes-unpack_pathed_interior is_new)
Decodes-decoders wheel_count is_new physical_zone = Decodes-unpack_physical_zone is_new
Decodes-decoders wheel_count is_new player = Decodes-fine (Decodes-unpack_player is_new)
Decodes-decoders wheel_count is_new precipitation =
    Decodes-fine (Decodes-unpack_precipitation is_new)
Decodes-decoders wheel_count is_new projectile = Decodes-fine (Decodes-unpack_projectile is_new)
Decodes-decoders wheel_count is_new room_marker =
    Decodes-fine (Decodes-unpack_mission_marker is_new)
Decodes-decoders wheel_count is_new scope_always_shape =
    Decodes-fine (Decodes-unpack_static_shape is_new)
Decodes-decoders wheel_count is_new shape_base = Decodes-fine (Decodes-unpack_shape_base is_new)
Decodes-decoders wheel_count is_new simple_net_object =
    Decodes-fine (Decodes-unpack_simple_net_object is_new)
Decodes-decoders wheel_count is_new sky = Decodes-unpack_sky is_new
Decodes-decoders wheel_count is_new spawn_sphere = Decodes-fine (Decodes-unpack_spawn_sphere is_new)
Decodes-decoders wheel_count is_new splash = Decodes-fine (Decodes-unpack_splash is_new)
Decodes-decoders wheel_count is_new static_shape = Decodes-fine (Decodes-unpack_static_shape is_new)
Decodes-decoders wheel_count is_new sun = Decodes-fine (Decodes-unpack_sun is_new)
Decodes-decoders wheel_count is_new ts_static = Decodes-fine (Decodes-unpack_ts_static is_new)
Decodes-decoders wheel_count is_new terrain_block = Decodes-unpack_terrain_block is_new
Decodes-decoders wheel_count is_new trigger = Decodes-unpack_trigger is_new
Decodes-decoders wheel_count is_new vehicle_blocker =
    Decodes-fine (Decodes-unpack_vehicle_blocker is_new)
Decodes-decoders wheel_count is_new water_block = Decodes-fine (Decodes-unpack_water_block is_new)
Decodes-decoders wheel_count is_new way_point = Decodes-fine (Decodes-unpack_way_point is_new)
Decodes-decoders wheel_count is_new wheeled_vehicle =
    Decodes-unpack_wheeled_vehicle wheel_count is_new
Decodes-decoders wheel_count is_new fx_brick_batcher =
    Decodes-fine (Decodes-unpack_fx_brick_batcher is_new)
Decodes-decoders wheel_count is_new fx_dts_brick = Decodes-fine (Decodes-unpack_fx_dts_brick is_new)
Decodes-decoders wheel_count is_new fx_foliage_replicator =
    Decodes-fine (Decodes-unpack_fx_foliage_replicator is_new)
Decodes-decoders wheel_count is_new fx_grass_replicator =
    Decodes-fine (Decodes-unpack_fx_grass_replicator is_new)
Decodes-decoders wheel_count is_new fx_light = Decodes-fine (Decodes-unpack_fx_light is_new)
Decodes-decoders wheel_count is_new fx_shape_replicated_static =
    Decodes-fine (Decodes-unpack_ts_static is_new)
Decodes-decoders wheel_count is_new fx_shape_replicator =
    Decodes-fine (Decodes-unpack_fx_shape_replicator is_new)
Decodes-decoders wheel_count is_new fx_sun_light = Decodes-fine (Decodes-unpack_fx_sun_light is_new)
Decodes-decoders wheel_count is_new tw_surface_reference =
    Decodes-fine (Decodes-unpack_tw_surface_reference is_new)
Decodes-decoders wheel_count is_new volume_light = Decodes-fine (Decodes-unpack_volume_light is_new)

Decodes-update :
    (wheel_count : Option ℕ) (is_new : Bool) (name : Option ObjectClass)
    → Decodes (update wheel_count is_new name)
unfolding update
Decodes-update wheel_count is_new none = Decodes-raise
Decodes-update wheel_count is_new (some name) = Decodes-decoders wheel_count is_new name

-- For every class id, new object or not, and whether or not the count of wheels is set,
-- `unpack_update` takes a definite bit string off the stream, or runs past its end: what it reads
-- depends on those bits and the string buffer only. It keeps the buffer, never moves the cursor back
-- and never clears the error flag.
pub Decodes-unpack_update :
    (wheel_count : Option ℕ) (class_id : ℕ) (is_new : Bool)
    → Decodes (unpack_update wheel_count class_id is_new)
unfolding unpack_update
Decodes-unpack_update wheel_count class_id is_new =
    Decodes-update wheel_count is_new (get_elem? object_class_names class_id)
