-- ===== src/Phases/Body/Keeps.antt =====
-- aotbot/phases.py: bodies of packets, and the states of the machine between them.
use aot_headless_client.Base.{ℕ, ◌≡◌, ◌≤◌, sym, arith, Option, none, some, List, [], ◌∷◌, replicate}
use mathlib.Core.Path.{subst}
use aot_headless_client.BitStream.{BitStream, pure, ◌>>=◌}
use aot_headless_client.BitStream.Strings.{set_string_buffer}
use aot_headless_client.Events.Receive.{
  Call, dispatch_command, on_connection_message, on_ghost_scoped, Outcome, finished, overrun, spent,
  gap, decode_error, read_events,
}
use aot_headless_client.Phases.Control.{read_control_header}
use aot_headless_client.Phases.Mission.{
  Mission, Input, message_came, ghost_came, classes_read, tick, new_mission, handle,
}
use aot_headless_client.Phases.Mission.Once.{
  Reachable, start, next, count, is_ready, is_ack, is_login_hook, bit_le_one, Reachable-sends_once,
}
use aot_headless_client.Phases.Body.{
  GameConnection, Handlers, handle_all, answer, answer_all, answered, read_ghosts, after_events,
  after_header, read_packet_body,
}

handle_all-Reachable :
    (inputs : List Input) (p : Mission) → Reachable p → Reachable (handle_all inputs p)
unfolding handle_all
handle_all-Reachable [] p reach = reach
handle_all-Reachable (input ∷ inputs) p reach = handle_all-Reachable inputs _ (next input reach)

answer-Reachable :
    (handlers : Handlers) (now : ℕ) (call : Call) (p : Mission)
    → Reachable p
    → Reachable (answer handlers now call p)
unfolding answer
answer-Reachable handlers now (dispatch_command verb args table) p reach =
    handle_all-Reachable (handlers verb args table) p reach
answer-Reachable handlers now (on_connection_message message sequence ghost_count) p reach =
    next (message_came message sequence ghost_count) reach
answer-Reachable handlers now (on_ghost_scoped ghost_id class_id) p reach =
    next (ghost_came now ghost_id class_id) reach

answer_all-Reachable :
    (handlers : Handlers) (now : ℕ) (calls : List Call) (p : Mission)
    → Reachable p
    → Reachable (answer_all handlers now calls p)
unfolding answer_all
answer_all-Reachable handlers now [] p reach = reach
answer_all-Reachable handlers now (call ∷ calls) p reach =
    answer_all-Reachable handlers now calls _ (answer-Reachable handlers now call p reach)

read_ghosts-Reachable :
    (wheel_count : Option ℕ) (g : GameConnection) (s : BitStream)
    → Reachable g.mission
    → Reachable (read_ghosts wheel_count g s).0.1.mission
unfolding read_ghosts ◌>>=◌ pure
read_ghosts-Reachable wheel_count g s reach = next (classes_read _) reach

after_events-Reachable :
    (wheel_count : Option ℕ) (o : Outcome) (g : GameConnection) (s : BitStream)
    → Reachable g.mission
    → Reachable (after_events wheel_count o g s).0.1.mission
unfolding after_events pure
after_events-Reachable wheel_count finished g s reach = read_ghosts-Reachable wheel_count g s reach
after_events-Reachable wheel_count overrun g s reach = read_ghosts-Reachable wheel_count g s reach
after_events-Reachable wheel_count spent g s reach = read_ghosts-Reachable wheel_count g s reach
after_events-Reachable wheel_count (gap expected seq) g s reach = reach
after_events-Reachable wheel_count (decode_error class_id) g s reach = reach

after_header-Reachable :
    (wheel_count : Option ℕ) (handlers : Handlers) (now : ℕ) (header : Option (Unit {0}))
    (g : GameConnection) (s : BitStream)
    → Reachable g.mission
    → Reachable (after_header wheel_count handlers now header g s).0.1.mission
unfolding after_header ◌>>=◌ pure
after_header-Reachable wheel_count handlers now none g s reach = reach
after_header-Reachable wheel_count handlers now (some v) g s reach =
    let result = read_events wheel_count (record g.events { calls = [] }) s in
    after_events-Reachable wheel_count result.0.0 (answered handlers now result.0.1 g) result.1
      (answer_all-Reachable handlers now result.0.1.calls g.mission reach)

read_packet_body-Reachable :
    (wheel_count : Option ℕ) (handlers : Handlers) (now : ℕ) (g : GameConnection) (s : BitStream)
    → Reachable g.mission
    → Reachable (read_packet_body wheel_count handlers now g s).0.1.mission
unfolding read_packet_body set_string_buffer ◌>>=◌ pure
read_packet_body-Reachable wheel_count handlers now g s reach =
    let header =
      read_control_header wheel_count g.mission.ghosting.ghost_classes g.control
        (set_string_buffer (some (replicate 256 0)) s).1 in
    after_header-Reachable wheel_count handlers now header.0.0 (record g { control = header.0.1 })
      header.1 reach

-- Packets that are read one after the other, each with its time, and a tick of the connection behind each.
unfoldable pub read_packets :
    Option ℕ → Handlers → ℕ → List (ℕ × BitStream) → GameConnection → GameConnection
unfolding read_packet_body
read_packets wheel_count handlers timeout [] g = g
read_packets wheel_count handlers timeout ((now, s) ∷ packets) g =
    let read = (read_packet_body wheel_count handlers now g s).0.1 in
    read_packets wheel_count handlers timeout packets
      (record read { mission = handle (tick timeout now) read.mission })

read_packets-Reachable :
    (wheel_count : Option ℕ) (handlers : Handlers) (timeout : ℕ) (packets : List (ℕ × BitStream))
    (g : GameConnection)
    → Reachable g.mission
    → Reachable (read_packets wheel_count handlers timeout packets g).mission
unfolding read_packets
read_packets-Reachable wheel_count handlers timeout [] g reach = reach
read_packets-Reachable wheel_count handlers timeout ((now, s) ∷ packets) g reach =
    read_packets-Reachable wheel_count handlers timeout packets _
      (next (tick timeout now) (read_packet_body-Reachable wheel_count handlers now g s reach))

-- A connection whose mission is new reads packets one after the other, with any bits and at any times,
-- and ticks behind each, whatever the handlers of commands put into the machine:
-- `ReadyForNormalGhosts`, the acks of phase 2 and of phase 3 and the login hook have each gone out at
-- most once.
pub read_packets_send_once :
    (wheel_count : Option ℕ) (handlers : Handlers) (timeout : ℕ) (packets : List (ℕ × BitStream))
    (g : GameConnection)
    → g.mission ≡ new_mission
    → (count is_ready (read_packets wheel_count handlers timeout packets g).mission.log ≤ 1)
      × (count (is_ack 2) (read_packets wheel_count handlers timeout packets g).mission.log ≤ 1)
      × (count (is_ack 3) (read_packets wheel_count handlers timeout packets g).mission.log ≤ 1)
      × (count is_login_hook (read_packets wheel_count handlers timeout packets g).mission.log ≤ 1)
read_packets_send_once wheel_count handlers timeout packets g fresh =
    let reach =
      read_packets-Reachable wheel_count handlers timeout packets g
        (subst (λ (p : Mission). Reachable p) (sym fresh) start) in
    let (ready, second, third, login) = Reachable-sends_once reach in
    (
      omega (
        arith,
        ready,
        bit_le_one
            (read_packets wheel_count handlers timeout packets
              g).mission.seen_ghost_always_starting,
      ),
      second,
      third,
      login,
    )
