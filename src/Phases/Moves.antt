-- ===== src/Phases/Moves.antt =====
-- aotbot/phases.py: the stream of idle moves, and the control header that the client writes in front of its
-- events.
pub mod Window
pub mod Wire
use aot_headless_client.Base.{
  ℕ, zero, suc, ◌+◌, ◌-◌, ◌%◌, ◌^◌, Bool, true, false, Option, some, none, List, [], ◌∷◌, replicate,
  ltb, ◌==◌, if◌then◌else◌,
}
use aot_headless_client.Base.Int.{pos}
use aot_headless_client.BitStream.{BitStream, M, pure, ◌>>=◌, write_flag, write_int, ◌>>◌}
use aot_headless_client.BitStream.Strings.{set_string_buffer}
use aot_headless_client.Events.{SendQueue, write_events}
use aot_headless_client.Decoder.{repeat}

pub record MoveStream : Type 0 where
  pub last_move_ack : ℕ
  pub moves_per_packet : ℕ
  pub next_move_id : ℕ

abbrev pub max_move_count : ℕ
max_move_count = 30

-- The moves of this tick are generated.
unfoldable pub generate_moves : MoveStream → MoveStream
generate_moves p = record p { next_move_id = (p.next_move_id + p.moves_per_packet) % 2 ^ 32 }

-- `(next - start) & 0xFFFFFFFF`, where both are below 2 ^ 32.
unfoldable pub pending_moves : MoveStream → ℕ
pending_moves p = (p.next_move_id + 2 ^ 32 - p.last_move_ack % 2 ^ 32) % 2 ^ 32

abbrev pub min : ℕ → ℕ → ℕ
min m n = if ltb n m then n else m

-- The first move that goes out, and how many.
unfoldable pub move_window : MoveStream → ℕ × ℕ
unfolding pending_moves
move_window p =
    if ltb max_move_count (pending_moves p)
    then ((p.next_move_id + 2 ^ 32 - max_move_count) % 2 ^ 32, max_move_count)
    else (
      p.last_move_ack % 2 ^ 32,
      min (if ltb 0 (pending_moves p) then pending_moves p else p.moves_per_packet) max_move_count,
    )

unfoldable pub write_idle_move : M (Unit {0})
write_idle_move = do
  write_flag false
  write_flag false
  write_flag false
  write_int (pos 16) 6
  write_int (pos 16) 6
  write_int (pos 16) 6
  write_flag false
  repeat 6 (write_flag false)

unfoldable pub write_moves : MoveStream → M MoveStream
unfolding generate_moves move_window write_idle_move
write_moves p = do
  let generated = generate_moves p
  let window = move_window generated
  write_int (pos window.0) 32
  write_int (pos window.1) 5
  repeat window.1 write_idle_move
  pure generated

unfoldable pub write_control_header : MoveStream → M MoveStream
unfolding write_moves
write_control_header p = do
  write_flag true
  write_int (pos 0) 32
  moved ← write_moves p
  write_flag false
  pure moved

unfoldable pub write_ghost_section : M Bool
write_ghost_section s = write_flag false s

abbrev written_events : ℕ → SendQueue → M SendQueue
written_events send_seq q s = write_events send_seq q s

-- The body of a packet, with a string buffer for the time of its writing.
pub write_packet_body : ℕ → MoveStream → SendQueue → M (MoveStream × SendQueue)
unfolding write_control_header write_ghost_section
write_packet_body send_seq p q = do
  set_string_buffer (some (replicate 256 0))
  moved ← write_control_header p
  settled ← written_events send_seq q
  write_ghost_section
  set_string_buffer none
  pure (moved, settled)
