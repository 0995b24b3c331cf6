-- ===== src/Ghosts.antt =====
-- aotbot/ghosts.py: the state of an object as the server sends it, which has no length of its own: each class
-- has a decoder that must read it to the last bit. What the decoders report to telemetry is left out.
-- `wheel_count` is the variable `WHEELED_VEHICLE_WHEEL_COUNT`, which is not set by default.
pub mod Fields
pub mod Shapes
pub mod Replicators
pub mod Markers
pub mod Scenery
pub mod Weather
pub mod Vehicles
pub mod Players
pub mod Control
pub mod Updates
pub mod Tests
use aot_headless_client.Base.{ℕ, Bool, Option, none, some, List, [], ◌∷◌, get_elem?}
use aot_headless_client.Decoder.{D, raise, fine}
use aot_headless_client.Ghosts.Shapes.{
  unpack_game_base, unpack_shape_base, unpack_mission_marker, unpack_static_shape, unpack_camera,
  unpack_item,
}
use aot_headless_client.Ghosts.Replicators.{
  unpack_fx_shape_replicator, unpack_fx_foliage_replicator, unpack_fx_grass_replicator,
  unpack_fx_dts_brick, unpack_fx_brick_batcher,
}
use aot_headless_client.Ghosts.Markers.{
  unpack_destructable_spawner, unpack_gold_spawner, unpack_spawn_sphere, unpack_way_point,
  unpack_simple_net_object, unpack_marker, unpack_mission_area, unpack_trigger,
  unpack_physical_zone,
}
use aot_headless_client.Ghosts.Scenery.{
  unpack_particle_emitter_node, unpack_sun, unpack_terrain_block, unpack_fx_sun_light,
  unpack_pathed_interior, unpack_ts_static, unpack_interior_instance, unpack_volume_light,
  unpack_audio_emitter, unpack_water_block,
}
use aot_headless_client.Ghosts.Weather.{
  unpack_sky, unpack_lightning, unpack_splash, unpack_fx_light, unpack_precipitation,
  unpack_tw_surface_reference, unpack_vehicle_blocker,
}
use aot_headless_client.Ghosts.Vehicles.{
  unpack_hover_vehicle, unpack_flying_vehicle, unpack_wheeled_vehicle, unpack_path_camera,
}
use aot_headless_client.Ghosts.Players.{unpack_player, unpack_projectile}
use aot_headless_client.Ghosts.Control.{
  read_packet_data_shapebase, read_packet_data_gamebase, read_packet_data_vehicle,
  read_packet_data_flying_vehicle, read_packet_data_wheeled_vehicle, read_packet_data_camera,
  read_packet_data_player,
}

-- The 50 classes.
pub data ObjectClass : Type 0 where
  ai_player : ObjectClass
  audio_emitter : ObjectClass
  camera : ObjectClass
  debris : ObjectClass
  destructable_spawner : ObjectClass
  flying_vehicle : ObjectClass
  game_base : ObjectClass
  gold_spawner : ObjectClass
  hover_vehicle : ObjectClass
  interior_instance : ObjectClass
  item : ObjectClass
  lightning : ObjectClass
  marker : ObjectClass
  maze_spawner : ObjectClass
  mission_area : ObjectClass
  mission_marker : ObjectClass
  npc_spawner : ObjectClass
  particle_emitter_node : ObjectClass
  path_camera : ObjectClass
  pathed_interior : ObjectClass
  physical_zone : ObjectClass
  player : ObjectClass
  precipitation : ObjectClass
  projectile : ObjectClass
  room_marker : ObjectClass
  scope_always_shape : ObjectClass
  shape_base : ObjectClass
  simple_net_object : ObjectClass
  sky : ObjectClass
  spawn_sphere : ObjectClass
  splash : ObjectClass
  static_shape : ObjectClass
  sun : ObjectClass
  ts_static : ObjectClass
  terrain_block : ObjectClass
  trigger : ObjectClass
  vehicle_blocker : ObjectClass
  water_block : ObjectClass
  way_point : ObjectClass
  wheeled_vehicle : ObjectClass
  fx_brick_batcher : ObjectClass
  fx_dts_brick : ObjectClass
  fx_foliage_replicator : ObjectClass
  fx_grass_replicator : ObjectClass
  fx_light : ObjectClass
  fx_shape_replicated_static : ObjectClass
  fx_shape_replicator : ObjectClass
  fx_sun_light : ObjectClass
  tw_surface_reference : ObjectClass
  volume_light : ObjectClass

-- In the order of their ids.
abbrev pub object_class_names : List ObjectClass
object_class_names =
    ai_player ∷ audio_emitter ∷ camera ∷ debris ∷ destructable_spawner ∷ flying_vehicle ∷ game_base
    ∷ gold_spawner ∷ hover_vehicle ∷ interior_instance ∷ item ∷ lightning ∷ marker ∷ maze_spawner
    ∷ mission_area ∷ mission_marker ∷ npc_spawner ∷ particle_emitter_node ∷ path_camera
    ∷ pathed_interior ∷ physical_zone ∷ player ∷ precipitation ∷ projectile ∷ room_marker
    ∷ scope_always_shape ∷ shape_base ∷ simple_net_object ∷ sky ∷ spawn_sphere ∷ splash
    ∷ static_shape ∷ sun ∷ ts_static ∷ terrain_block ∷ trigger ∷ vehicle_blocker ∷ water_block
    ∷ way_point ∷ wheeled_vehicle ∷ fx_brick_batcher ∷ fx_dts_brick ∷ fx_foliage_replicator
    ∷ fx_grass_replicator ∷ fx_light ∷ fx_shape_replicated_static ∷ fx_shape_replicator
    ∷ fx_sun_light ∷ tw_surface_reference ∷ volume_light ∷ []

unfoldable pub decoders : Option ℕ → Bool → ObjectClass → Option (D (Unit {0}))
decoders wheel_count is_new ai_player = some (fine (unpack_player is_new))
decoders wheel_count is_new audio_emitter = some (fine (unpack_audio_emitter is_new))
decoders wheel_count is_new camera = some (fine (unpack_camera is_new))
decoders wheel_count is_new debris = some (fine (unpack_game_base is_new))
decoders wheel_count is_new destructable_spawner = some (fine (unpack_destructable_spawner is_new))
decoders wheel_count is_new flying_vehicle = some (fine (unpack_flying_vehicle is_new))
decoders wheel_count is_new game_base = some (fine (unpack_game_base is_new))
decoders wheel_count is_new gold_spawner = some (fine (unpack_gold_spawner is_new))
decoders wheel_count is_new hover_vehicle = some (fine (unpack_hover_vehicle is_new))
decoders wheel_count is_new interior_instance = some (fine (unpack_interior_instance is_new))
decoders wheel_count is_new item = some (fine (unpack_item is_new))
decoders wheel_count is_new lightning = some (fine (unpack_lightning is_new))
decoders wheel_count is_new marker = some (fine (unpack_marker is_new))
decoders wheel_count is_new maze_spawner = some (fine (unpack_mission_marker is_new))
decoders wheel_count is_new mission_area = some (fine (unpack_mission_area is_new))
decoders wheel_count is_new mission_marker = some (fine (unpack_mission_marker is_new))
decoders wheel_count is_new npc_spawner = some (fine (unpack_mission_marker is_new))
decoders wheel_count is_new particle_emitter_node =
    some (fine (unpack_particle_emitter_node is_new))
decoders wheel_count is_new path_camera = some (unpack_path_camera is_new)
decoders wheel_count is_new pathed_interior = some (fine (unpack_pathed_interior is_new))
decoders wheel_count is_new physical_zone = some (unpack_physical_zone is_new)
decoders wheel_count is_new player = some (fine (unpack_player is_new))
decoders wheel_count is_new precipitation = some (fine (unpack_precipitation is_new))
decoders wheel_count is_new projectile = some (fine (unpack_projectile is_new))
decoders wheel_count is_new room_marker = some (fine (unpack_mission_marker is_new))
decoders wheel_count is_new scope_always_shape = some (fine (unpack_static_shape is_new))
decoders wheel_count is_new shape_base = some (fine (unpack_shape_base is_new))
decoders wheel_count is_new simple_net_object = some (fine (unpack_simple_net_object is_new))
decoders wheel_count is_new sky = some (unpack_sky is_new)
decoders wheel_count is_new spawn_sphere = some (fine (unpack_spawn_sphere is_new))
decoders wheel_count is_new splash = some (fine (unpack_splash is_new))
decoders wheel_count is_new static_shape = some (fine (unpack_static_shape is_new))
decoders wheel_count is_new sun = some (fine (unpack_sun is_new))
decoders wheel_count is_new ts_static = some (fine (unpack_ts_static is_new))
decoders wheel_count is_new terrain_block = some (unpack_terrain_block is_new)
decoders wheel_count is_new trigger = some (unpack_trigger is_new)
decoders wheel_count is_new vehicle_blocker = some (fine (unpack_vehicle_blocker is_new))
decoders wheel_count is_new water_block = some (fine (unpack_water_block is_new))
decoders wheel_count is_new way_point = some (fine (unpack_way_point is_new))
decoders wheel_count is_new wheeled_vehicle = some (unpack_wheeled_vehicle wheel_count is_new)
decoders wheel_count is_new fx_brick_batcher = some (fine (unpack_fx_brick_batcher is_new))
decoders wheel_count is_new fx_dts_brick = some (fine (unpack_fx_dts_brick is_new))
decoders wheel_count is_new fx_foliage_replicator =
    some (fine (unpack_fx_foliage_replicator is_new))
decoders wheel_count is_new fx_grass_replicator = some (fine (unpack_fx_grass_replicator is_new))
decoders wheel_count is_new fx_light = some (fine (unpack_fx_light is_new))
decoders wheel_count is_new fx_shape_replicated_static = some (fine (unpack_ts_static is_new))
decoders wheel_count is_new fx_shape_replicator = some (fine (unpack_fx_shape_replicator is_new))
decoders wheel_count is_new fx_sun_light = some (fine (unpack_fx_sun_light is_new))
decoders wheel_count is_new tw_surface_reference = some (fine (unpack_tw_surface_reference is_new))
decoders wheel_count is_new volume_light = some (fine (unpack_volume_light is_new))

-- `if dec is None: raise`, and else `dec(bs, is_new)`
call_decoder : Option (D (Unit {0})) → D (Unit {0})
call_decoder none = raise
call_decoder (some dec) = dec

update : Option ℕ → Bool → Option ObjectClass → D (Unit {0})
unfolding call_decoder
update wheel_count is_new none = raise
update wheel_count is_new (some name) = call_decoder (decoders wheel_count is_new name)

unfoldable pub unpack_update : Option ℕ → ℕ → Bool → D (Unit {0})
unfolding update
unpack_update wheel_count class_id is_new =
    update wheel_count is_new (get_elem? object_class_names class_id)

-- The decoder of a class of its own, or the one that all shapes share.
unfoldable pub packet_data_decoders : Option ℕ → ObjectClass → D (Unit {0})
packet_data_decoders wheel_count ai_player = fine read_packet_data_player
packet_data_decoders wheel_count audio_emitter = fine read_packet_data_shapebase
packet_data_decoders wheel_count camera = fine read_packet_data_camera
packet_data_decoders wheel_count debris = fine read_packet_data_gamebase
packet_data_decoders wheel_count destructable_spawner = fine read_packet_data_shapebase
packet_data_decoders wheel_count flying_vehicle = fine read_packet_data_flying_vehicle
packet_data_decoders wheel_count game_base = fine read_packet_data_gamebase
packet_data_decoders wheel_count gold_spawner = fine read_packet_data_shapebase
packet_data_decoders wheel_count hover_vehicle = fine read_packet_data_vehicle
packet_data_decoders wheel_count interior_instance = fine read_packet_data_shapebase
packet_data_decoders wheel_count item = fine read_packet_data_shapebase
packet_data_decoders wheel_count lightning = fine read_packet_data_gamebase
packet_data_decoders wheel_count marker = fine read_packet_data_shapebase
packet_data_decoders wheel_count maze_spawner = fine read_packet_data_shapebase
packet_data_decoders wheel_count mission_area = fine read_packet_data_shapebase
packet_data_decoders wheel_count mission_marker = fine read_packet_data_shapebase
packet_data_decoders wheel_count npc_spawner = fine read_packet_data_shapebase
packet_data_decoders wheel_count particle_emitter_node = fine read_packet_data_gamebase
packet_data_decoders wheel_count path_camera = fine read_packet_data_shapebase
packet_data_decoders wheel_count pathed_interior = fine read_packet_data_gamebase
packet_data_decoders wheel_count physical_zone = fine read_packet_data_shapebase
packet_data_decoders wheel_count player = fine read_packet_data_player
packet_data_decoders wheel_count precipitation = fine read_packet_data_gamebase
packet_data_decoders wheel_count projectile = fine read_packet_data_gamebase
packet_data_decoders wheel_count room_marker = fine read_packet_data_shapebase
packet_data_decoders wheel_count scope_always_shape = fine read_packet_data_shapebase
packet_data_decoders wheel_count shape_base = fine read_packet_data_shapebase
packet_data_decoders wheel_count simple_net_object = fine read_packet_data_shapebase
packet_data_decoders wheel_count sky = fine read_packet_data_shapebase
packet_data_decoders wheel_count spawn_sphere = fine read_packet_data_shapebase
packet_data_decoders wheel_count splash = fine read_packet_data_gamebase
packet_data_decoders wheel_count static_shape = fine read_packet_data_shapebase
packet_data_decoders wheel_count sun = fine read_packet_data_shapebase
packet_data_decoders wheel_count ts_static = fine read_packet_data_shapebase
packet_data_decoders wheel_count terrain_block = fine read_packet_data_shapebase
packet_data_decoders wheel_count trigger = fine read_packet_data_gamebase
packet_data_decoders wheel_count vehicle_blocker = fine read_packet_data_shapebase
packet_data_decoders wheel_count water_block = fine read_packet_data_shapebase
packet_data_decoders wheel_count way_point = fine read_packet_data_shapebase
packet_data_decoders wheel_count wheeled_vehicle = read_packet_data_wheeled_vehicle wheel_count
packet_data_decoders wheel_count fx_brick_batcher = fine read_packet_data_shapebase
packet_data_decoders wheel_count fx_dts_brick = fine read_packet_data_shapebase
packet_data_decoders wheel_count fx_foliage_replicator = fine read_packet_data_shapebase
packet_data_decoders wheel_count fx_grass_replicator = fine read_packet_data_shapebase
packet_data_decoders wheel_count fx_light = fine read_packet_data_gamebase
packet_data_decoders wheel_count fx_shape_replicated_static = fine read_packet_data_shapebase
packet_data_decoders wheel_count fx_shape_replicator = fine read_packet_data_shapebase
packet_data_decoders wheel_count fx_sun_light = fine read_packet_data_shapebase
packet_data_decoders wheel_count tw_surface_reference = fine read_packet_data_shapebase
packet_data_decoders wheel_count volume_light = fine read_packet_data_shapebase

packet_data : Option ℕ → Option ObjectClass → D (Unit {0})
packet_data wheel_count none = fine read_packet_data_shapebase
packet_data wheel_count (some name) = packet_data_decoders wheel_count name

-- The class id is missing while the ghost's class is not known.
unfoldable pub read_packet_data : Option ℕ → Option ℕ → D (Unit {0})
unfolding packet_data
read_packet_data wheel_count none = fine read_packet_data_shapebase
read_packet_data wheel_count (some class_id) =
    packet_data wheel_count (get_elem? object_class_names class_id)
