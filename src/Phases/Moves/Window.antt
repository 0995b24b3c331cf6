-- ===== src/Phases/Moves/Window.antt =====
-- aotbot/phases.py: the window of moves that a packet carries.
use aot_headless_client.Base.{◌+◌, ◌%◌, ◌^◌, ◌≤◌, ◌<◌, ◌≡◌, arith}
use aot_headless_client.Phases.Moves.{MoveStream, generate_moves, pending_moves, move_window}

-- While a generated move is not acknowledged, a packet carries between 1 and 30 moves, and they end,
-- modulo 2 ^ 32, at the move that was generated last; if at most 30 moves are pending they start at
-- the one after the acknowledged ones.
pub move_window_covers :
    (p : MoveStream)
    → 1 ≤ pending_moves (generate_moves p)
    → (((move_window (generate_moves p)).0 + (move_window (generate_moves p)).1) % 2 ^ 32
        ≡ (p.next_move_id + p.moves_per_packet) % 2 ^ 32)
      × (1 ≤ (move_window (generate_moves p)).1)
      × ((move_window (generate_moves p)).1 ≤ 30)
      × (pending_moves (generate_moves p) ≤ 30
          → (move_window (generate_moves p)).0 ≡ p.last_move_ack % 2 ^ 32)
unfolding generate_moves move_window pending_moves
move_window_covers p some_pending = ground arith

pub start_small : (p : MoveStream) → (move_window p).0 < 2 ^ 32
unfolding move_window
start_small p = ground arith

pub count_small : (p : MoveStream) → (move_window p).1 ≤ 30
unfolding move_window
count_small p = ground arith
