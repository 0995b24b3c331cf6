-- ===== src/Events/Incoming/Decoded.antt =====
-- aotbot/events.py: what the readers of payloads take off the stream.
use aot_headless_client.Base.{ℕ, zero, suc, Option}
use aot_headless_client.BitStream.{M}
use aot_headless_client.Decoder.Decodes.{Decodes, Decodes-bind, Decodes-pure}
use aot_headless_client.Decoder.Rules.{decoder_rules}
use aot_headless_client.Datablocks.Bodies.{Decodes-unpack_datablock}
use aot_headless_client.Ghosts.Updates.{Decodes-unpack_update}
use aot_headless_client.Events.{read_magnitude, unpack_string}
use aot_headless_client.Events.Incoming.{
  triple, read_compressed_point, read_connection_message_event, collect, read_path_manager_event,
  read_file_chunk_event, read_file_download_request_event, read_set_mission_crc_event,
  read_sim2d_audio_event, read_sim3d_audio_event, read_lightning_strike_event,
  read_simple_message_event, scoped, read_ghost_always_object_event, read_class_id, present,
  read_sim_datablock_event, read_static_brick_data_event, read_net_string_event,
  read_remote_command_event, read_one_event,
}

Decodes-collect : {A : Type 0} {m : M A} (count : ℕ) → Decodes m → Decodes (collect count m)
unfolding collect
Decodes-collect zero d = Decodes-pure _
Decodes-collect (suc left) d =
    Decodes-bind d (λ v. Decodes-bind (Decodes-collect left d) (λ rest. Decodes-pure _))

Decodes-read_magnitude : Decodes read_magnitude
unfolding read_magnitude
Decodes-read_magnitude = search decoder_rules depth 20

Decodes-unpack_string : Decodes unpack_string
unfolding unpack_string
Decodes-unpack_string = search (decoder_rules, Decodes-read_magnitude) depth 20

Decodes-triple : (n : ℕ) → Decodes (triple n)
unfolding triple
Decodes-triple n = search decoder_rules

Decodes-point : Decodes read_compressed_point
unfolding read_compressed_point
Decodes-point = search (decoder_rules, Decodes-triple)

Decodes-scoped : (wheel_count : Option ℕ) (ghost_id : ℕ) → Decodes (scoped wheel_count ghost_id)
unfolding scoped
Decodes-scoped wheel_count ghost_id = search (decoder_rules, Decodes-unpack_update)

Decodes-class_id : (bits : ℕ) → Decodes (read_class_id bits)
unfolding read_class_id
Decodes-class_id bits = search decoder_rules

Decodes-present : Decodes present
unfolding present
Decodes-present = search (decoder_rules, Decodes-unpack_datablock, Decodes-class_id) depth 20

ruleset event_rules = (
  decoder_rules, Decodes-collect, Decodes-unpack_string, Decodes-point, Decodes-scoped,
  Decodes-present,
)

Decodes-connection_message : Decodes read_connection_message_event
unfolding read_connection_message_event
Decodes-connection_message = search event_rules depth 20

Decodes-path_manager : Decodes read_path_manager_event
unfolding read_path_manager_event
Decodes-path_manager = search event_rules depth 20

Decodes-file_chunk : Decodes read_file_chunk_event
unfolding read_file_chunk_event
Decodes-file_chunk = search event_rules depth 20

Decodes-file_download_request : Decodes read_file_download_request_event
unfolding read_file_download_request_event
Decodes-file_download_request = search event_rules depth 20

Decodes-set_mission_crc : Decodes read_set_mission_crc_event
unfolding read_set_mission_crc_event
Decodes-set_mission_crc = search event_rules depth 20

Decodes-sim2d_audio : Decodes read_sim2d_audio_event
unfolding read_sim2d_audio_event
Decodes-sim2d_audio = search event_rules depth 20

Decodes-sim3d_audio : Decodes read_sim3d_audio_event
unfolding read_sim3d_audio_event
Decodes-sim3d_audio = search event_rules depth 20

Decodes-lightning_strike : Decodes read_lightning_strike_event
unfolding read_lightning_strike_event
Decodes-lightning_strike = search event_rules depth 20

Decodes-simple_message : Decodes read_simple_message_event
unfolding read_simple_message_event
Decodes-simple_message = search event_rules depth 20

Decodes-sim_datablock : Decodes read_sim_datablock_event
unfolding read_sim_datablock_event
Decodes-sim_datablock = search event_rules depth 20

Decodes-static_brick_data : Decodes read_static_brick_data_event
unfolding read_static_brick_data_event
Decodes-static_brick_data = search event_rules depth 20

Decodes-net_string : Decodes read_net_string_event
unfolding read_net_string_event
Decodes-net_string = search event_rules depth 20

Decodes-remote_command : Decodes read_remote_command_event
unfolding read_remote_command_event
Decodes-remote_command = search event_rules depth 20

Decodes-ghost_always :
    (wheel_count : Option ℕ) → Decodes (read_ghost_always_object_event wheel_count)
unfolding read_ghost_always_object_event
Decodes-ghost_always wheel_count = search event_rules depth 20

ruleset payload_rules = (
  Decodes-ghost_always, Decodes-connection_message, Decodes-path_manager, Decodes-file_chunk,
  Decodes-file_download_request, Decodes-set_mission_crc, Decodes-sim2d_audio, Decodes-sim3d_audio,
  Decodes-lightning_strike, Decodes-simple_message, Decodes-sim_datablock,
  Decodes-static_brick_data, Decodes-net_string, Decodes-remote_command,
)

-- The reader of every event class takes a definite bit string off the stream, or runs past its end:
-- what it reads depends on those bits and the string buffer only, neither on where they stand nor on
-- what follows them. It keeps the buffer, never moves the cursor back and never clears the error flag.
pub Decodes-read_one_event :
    (wheel_count : Option ℕ) (classid : ℕ) → Decodes (read_one_event wheel_count classid)
unfolding read_one_event
Decodes-read_one_event wheel_count classid = search (decoder_rules, payload_rules) depth 40
