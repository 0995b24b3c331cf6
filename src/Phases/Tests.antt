-- ===== src/Phases/Tests.antt =====
-- aotbot/phases.py: small runs, and the theorems at them.
use aot_headless_client.Events.Incoming
use aot_headless_client.Events.Incoming.{read_one_event}
use aot_headless_client.Phases.Messages.{
  write_connection_message, read_one_event-write_connection_message,
}
use aot_headless_client.BitStream.{BitStream, open_on, new, get_bytes}
use aot_headless_client.Events.StringTable.{empty_table}
use aot_headless_client.Phases.Moves.{
  MoveStream, generate_moves, move_window, pending_moves, write_control_header,
}
use aot_headless_client.Phases.Moves.Window.{move_window_covers}
use aot_headless_client.Phases.Moves.Wire.{
  unpack_header, header_of, unpack_header-write_control_header,
}
use aot_headless_client.Phases.Body.{GameConnection, Handlers}
use aot_headless_client.Phases.Body.Keeps.{read_packets, read_packets_send_once}
use aot_headless_client.Base.{
  false, List, ℕ, ◌+◌, ◌%◌, ◌^◌, arith, ◌≤◌, ◌≡◌, refl, Option, none, some, [], ◌∷◌, ◌==◌,
  if◌then◌else◌,
}
use aot_headless_client.Base.Int.{pos}
use aot_headless_client.Phases.GhostSection.{ghost_loop, commit}
use aot_headless_client.Phases.GhostSection.Eager.{eager_loop, ghost_loop-eager_loop}
use aot_headless_client.Phases.Mission.{
  Mission, new_mission, handle, connection_message, phase_ack, phase2_acked_hook,
  mission_start_phase2, message_came, ghost_came, tick,
}
use aot_headless_client.Phases.Mission.Once.{
  Reachable, start, next, count, is_ready, is_ack, is_login_hook, bit, Reachable-sends_once,
}

-- A table that knows ghost 5, of class 39.
abbrev known : ℕ → Option ℕ
known id = if id == 5 then some 39 else none

ghost_loop-eager_loop_example :
    ghost_loop (some 4) 16384 3 known (λ id. none)
    ≡ eager_loop (some 4) 16384 3 known (commit known (λ id. none))
ghost_loop-eager_loop_example = ghost_loop-eager_loop (some 4) 16384 3 known (λ id. none)

-- A run in which the phase and the messages come twice.
abbrev ghosting_run : Mission
ghosting_run = handle (message_came 0 1 0) (
    handle (tick 2 9) (
      handle (ghost_came 5 3 39) (
        handle (message_came 3 1 1) (
          handle (mission_start_phase2 (some (pos 1)))
            (handle (mission_start_phase2 none) new_mission)))))

ghosting_run-Reachable : Reachable ghosting_run
ghosting_run-Reachable = next (message_came 0 1 0) (
    next (tick 2 9) (
      next (ghost_came 5 3 39) (
        next (message_came 3 1 1)
          (next (mission_start_phase2 (some (pos 1))) (next (mission_start_phase2 none) start)))))

ghosting_run_log :
    ghosting_run.log ≡ connection_message 1 1 0 ∷ phase2_acked_hook ∷ phase_ack 2 (pos 1) ∷ []
unfolding handle new_mission
ghosting_run_log = refl

Reachable-sends_once_example :
    (count is_ready ghosting_run.log ≤ bit ghosting_run.seen_ghost_always_starting)
    × (count (is_ack 2) ghosting_run.log ≤ 1)
    × (count (is_ack 3) ghosting_run.log ≤ 1)
    × (count is_login_hook ghosting_run.log ≤ 1)
Reachable-sends_once_example = Reachable-sends_once ghosting_run-Reachable

-- The server has acknowledged nothing, and 40 moves are generated.
abbrev forty_moves : MoveStream
forty_moves = record { last_move_ack = 0; moves_per_packet = 1; next_move_id = 39 }

forty_moves_window : move_window (generate_moves forty_moves) ≡ (10, 30)
unfolding move_window generate_moves
forty_moves_window = refl

forty_moves_pending : 1 ≤ pending_moves (generate_moves forty_moves)
unfolding pending_moves generate_moves
forty_moves_pending = omega arith

move_window_covers_example :
    (((move_window (generate_moves forty_moves)).0 + (move_window (generate_moves forty_moves)).1)
        % 2 ^ 32
      ≡ (39 + 1) % 2 ^ 32)
    × (1 ≤ (move_window (generate_moves forty_moves)).1)
    × ((move_window (generate_moves forty_moves)).1 ≤ 30)
    × (pending_moves (generate_moves forty_moves) ≤ 30
        → (move_window (generate_moves forty_moves)).0 ≡ 0 % 2 ^ 32)
move_window_covers_example = move_window_covers forty_moves forty_moves_pending

unpack_header-write_control_header_example :
    ((unpack_header (open_on (get_bytes (write_control_header forty_moves new).1))).0
      ≡ header_of (generate_moves forty_moves))
    × ((unpack_header (open_on (get_bytes (write_control_header forty_moves new).1))).1.bit_num
        ≡ (write_control_header forty_moves new).1.bit_num)
    × ((unpack_header (open_on (get_bytes (write_control_header forty_moves new).1))).1.error
        ≡ false)
unpack_header-write_control_header_example = unpack_header-write_control_header forty_moves

abbrev fresh : GameConnection
fresh = record {
  control = record {
    moves = forty_moves;
    control_ghost_id = none;
    last_control_report = none;
    reports = [];
  };
  mission = new_mission;
  events = record { next_recv_event_seq = 0; recv_table = empty_table; calls = [] };
}

-- Each command starts phase 2.
abbrev phase2_handlers : Handlers
phase2_handlers verb args table = mission_start_phase2 none ∷ []

abbrev two_packets : List (ℕ × BitStream)
two_packets =
    (1, open_on (0 ∷ 0 ∷ 0 ∷ 0 ∷ 0 ∷ 1 ∷ [])) ∷ (2, open_on (7 ∷ 0 ∷ 0 ∷ 0 ∷ 192 ∷ 255 ∷ [])) ∷ []

read_packets_send_once_example :
    (count is_ready (read_packets (some 4) phase2_handlers 3 two_packets fresh).mission.log ≤ 1)
    × (count (is_ack 2) (read_packets (some 4) phase2_handlers 3 two_packets fresh).mission.log ≤ 1)
    × (count (is_ack 3) (read_packets (some 4) phase2_handlers 3 two_packets fresh).mission.log ≤ 1)
    × (count is_login_hook (read_packets (some 4) phase2_handlers 3 two_packets fresh).mission.log
        ≤ 1)
read_packets_send_once_example =
    read_packets_send_once (some 4) phase2_handlers 3 two_packets fresh refl

read_one_event-write_connection_message_example :
    ((read_one_event none 0 (open_on (get_bytes (write_connection_message 1 900 0 new).1))).0
      ≡ Incoming.connection_message (1 % 2 ^ 3) (900 % 2 ^ 32) (0 % 2 ^ 15))
    × ((read_one_event none 0
          (open_on (get_bytes (write_connection_message 1 900 0 new).1))).1.error
        ≡ false)
read_one_event-write_connection_message_example =
    read_one_event-write_connection_message none 1 900 0
