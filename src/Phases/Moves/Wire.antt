-- ===== src/Phases/Moves/Wire.antt =====
-- aotbot/phases.py: what a server reads of the control header.
use aot_headless_client.Base.{length, ◌≡◌, sym, ap, ◌∙◌, refl}
use aot_headless_client.Base.{
  ℕ, zero, suc, ◌^◌, ◌≤◌, ◌<◌, ◌≡◌, Bool, true, false, none, List, [], ◌∷◌, ◌++◌, replicate, arith,
  if◌then◌else◌,
}
use aot_headless_client.BitStream.{
  M, pure, ◌>>=◌, new, open_on, get_bytes, read_flag, read_int, write_flag,
}
use aot_headless_client.BitStream.View.{
  Reads, Writes, Reads-pure, Reads-bind, Reads-return, Writes-pure, Writes-bind, Writes-last,
}
use aot_headless_client.BitStream.Appended.{emit-IsAppended, new-IsAppended, transmit}
use aot_headless_client.BitStream.Flags.{Reads-flag, Writes-flag}
use aot_headless_client.BitStream.Fields.{field_bits, Writes-field, Reads-fit}
use aot_headless_client.Decoder.{repeat}
use aot_headless_client.Phases.Moves.{
  MoveStream, generate_moves, move_window, write_idle_move, write_moves, write_control_header,
}
use aot_headless_client.Phases.Moves.Window.{start_small, count_small}

-- A move as the server unpacks it: a rotation is a flag and, if it is set, an angle.
pub record Move : Type 0 where
  pub yaw : ℕ
  pub pitch : ℕ
  pub roll : ℕ
  pub x : ℕ
  pub y : ℕ
  pub z : ℕ
  pub free_look : Bool
  pub triggers : List Bool

pub record ControlHeader : Type 0 where
  pub camera : Bool
  pub checksum : ℕ
  pub first_move : ℕ
  pub moves : List Move
  pub fov : Bool

unfoldable pub read_angle : M ℕ
read_angle = do turned ← read_flag; if turned then read_int 16 else pure 0

unfoldable pub read_list : {A : Type 0} → ℕ → M A → M (List A)
read_list zero m = pure []
read_list (suc n) m = do v ← m; vs ← read_list n m; pure (v ∷ vs)

unfoldable pub unpack_move : M Move
unfolding read_angle read_list
unpack_move = do
  yaw ← read_angle
  pitch ← read_angle
  roll ← read_angle
  x ← read_int 6
  y ← read_int 6
  z ← read_int 6
  free_look ← read_flag
  triggers ← read_list 6 read_flag
  pure (record {
    yaw = yaw;
    pitch = pitch;
    roll = roll;
    x = x;
    y = y;
    z = z;
    free_look = free_look;
    triggers = triggers;
  })

-- The first move and the moves.
unfoldable pub unpack_moves : M (ℕ × List Move)
unfolding unpack_move
unpack_moves = do
  start ← read_int 32
  count ← read_int 5
  moves ← read_list count unpack_move
  pure (start, moves)

unfoldable pub unpack_header : M ControlHeader
unfolding unpack_moves
unpack_header = do
  camera ← read_flag
  checksum ← read_int 32
  stream ← unpack_moves
  fov ← read_flag
  pure (record {
    camera = camera;
    checksum = checksum;
    first_move = stream.0;
    moves = stream.1;
    fov = fov;
  })

abbrev pub idle : Move
idle = record {
  yaw = 0;
  pitch = 0;
  roll = 0;
  x = 16;
  y = 16;
  z = 16;
  free_look = false;
  triggers = replicate 6 false;
}

-- The bits of `n` repetitions.
abbrev pub times : ℕ → List Bool → List Bool
times zero bs = []
times (suc n) bs = bs ++ times n bs

Writes-repeat :
    {A : Type 0} (n : ℕ) (m : M A) (bs : List Bool) (v : A)
    → Writes none m bs v none
    → Writes none (repeat n m) (times n bs) tt none
unfolding repeat
Writes-repeat zero m bs v w = Writes-pure none tt
Writes-repeat (suc n) m bs v w = Writes-bind _ w (Writes-repeat n m bs v w)

Reads-list :
    {A : Type 0} (n : ℕ) (m : M A) (bs : List Bool) (v : A)
    → Reads none m bs v none
    → Reads none (read_list n m) (times n bs) (replicate n v) none
unfolding read_list
Reads-list zero m bs v r = Reads-pure none []
Reads-list (suc n) m bs v r = Reads-bind _ r (Reads-return (λ vs. v ∷ vs) (Reads-list n m bs v r))

Reads-angle : Reads none read_angle (false ∷ []) 0 none
unfolding read_angle
Reads-angle = Reads-bind _ (Reads-flag none false) (Reads-pure none 0)

abbrev idle_bits : List Bool
idle_bits =
    (false ∷ [])
    ++ ((false ∷ [])
        ++ ((false ∷ [])
            ++ (field_bits 6 16
                ++ (field_bits 6 16
                    ++ (field_bits 6 16 ++ ((false ∷ []) ++ times 6 (false ∷ [])))))))

Writes-idle_move : Writes none write_idle_move idle_bits tt none
unfolding write_idle_move
Writes-idle_move = Writes-bind _ (Writes-flag none false) (
    Writes-bind _ (Writes-flag none false) (
      Writes-bind _ (Writes-flag none false) (
        Writes-bind _ (Writes-field 6 16) (
          Writes-bind _ (Writes-field 6 16) (
            Writes-bind _ (Writes-field 6 16) (
              Writes-bind _ (Writes-flag none false) (
                Writes-repeat 6 (write_flag false) (false ∷ []) false
                  (Writes-flag none false))))))))

Reads-idle_move : Reads none unpack_move idle_bits idle none
unfolding unpack_move
Reads-idle_move =
    let sixteen = Reads-fit 6 16 (omega arith) (omega arith) in
    Reads-bind _ Reads-angle (
      Reads-bind _ Reads-angle (
        Reads-bind _ Reads-angle (
          Reads-bind _ sixteen (
            Reads-bind _ sixteen (
              Reads-bind _ sixteen (
                Reads-bind _ (Reads-flag none false) (
                  Reads-return _
                    (Reads-list 6 read_flag (false ∷ []) false (Reads-flag none false)))))))))

abbrev moves_bits : ℕ → ℕ → List Bool
moves_bits start count = field_bits 32 start ++ (field_bits 5 count ++ times count idle_bits)

Writes-moves :
    (p : MoveStream)
    → Writes none
        (write_moves p)
        (moves_bits (move_window (generate_moves p)).0 (move_window (generate_moves p)).1)
        (generate_moves p)
        none
unfolding write_moves
Writes-moves p = Writes-bind _ (Writes-field 32 _) (
    Writes-bind _ (Writes-field 5 _) (
      Writes-last (λ u. generate_moves p)
        (Writes-repeat _ write_idle_move idle_bits tt Writes-idle_move)))

Reads-moves :
    (start count : ℕ)
    → start < 2 ^ 32
    → count ≤ 30
    → Reads none unpack_moves (moves_bits start count) (start, replicate count idle) none
unfolding unpack_moves
Reads-moves start count small few = Reads-bind _ (Reads-fit 32 start (omega arith) small) (
    Reads-bind _ (Reads-fit 5 count (omega arith) (omega (arith, few))) (
      Reads-return (λ moves. (start, moves))
        (Reads-list count unpack_move idle_bits idle Reads-idle_move)))

abbrev header_bits : List Bool → List Bool
header_bits moves = (true ∷ []) ++ (field_bits 32 0 ++ (moves ++ (false ∷ [])))

Writes-control_header :
    (p : MoveStream)
    → Writes none
        (write_control_header p)
        (header_bits
          (moves_bits (move_window (generate_moves p)).0 (move_window (generate_moves p)).1))
        (generate_moves p)
        none
unfolding write_control_header
Writes-control_header p = Writes-bind _ (Writes-flag none true) (
    Writes-bind _ (Writes-field 32 0) (
      Writes-bind _ (Writes-moves p)
        (Writes-last (λ b. generate_moves p) (Writes-flag none false))))

-- The header that the server is to read for the stream of moves, whose moves of this tick are generated.
abbrev pub header_of : MoveStream → ControlHeader
header_of p = record {
  camera = true;
  checksum = 0;
  first_move = (move_window p).0;
  moves = replicate (move_window p).1 idle;
  fov = false;
}

Reads-control_header :
    (p : MoveStream)
    → Reads none unpack_header
        (header_bits (moves_bits (move_window p).0 (move_window p).1))
        (header_of p)
        none
unfolding unpack_header
Reads-control_header p = Reads-bind _ (Reads-flag none true) (
    Reads-bind _ (Reads-fit 32 0 (omega arith) (omega arith)) (
      Reads-bind _ (Reads-moves _ _ (start_small p) (count_small p))
        (Reads-return _ (Reads-flag none false))))

-- A writer on a fresh stream leaves its cursor behind the bits.
cursor_behind :
    {A : Type 0} (m : M A) (bs : List Bool) (v : A)
    → Writes none m bs v none
    → (m new).1.bit_num ≡ length bs
unfolding new
cursor_behind m bs v w =
    ap (λ r. r.1.bit_num) (w.run new refl) ∙ (emit-IsAppended [] bs new new-IsAppended).cursor

-- A server that unpacks the control header of a client's packet takes exactly the bits that were
-- written and gets back, without an error, the camera flag, the checksum 0, the first move and exactly
-- as many moves as the window of the stream has, all of them idle, and no field of view, for every
-- state of the stream.
pub unpack_header-write_control_header :
    (p : MoveStream)
    → ((unpack_header (open_on (get_bytes (write_control_header p new).1))).0
        ≡ header_of (generate_moves p))
      × ((unpack_header (open_on (get_bytes (write_control_header p new).1))).1.bit_num
          ≡ (write_control_header p new).1.bit_num)
      × ((unpack_header (open_on (get_bytes (write_control_header p new).1))).1.error ≡ false)
unpack_header-write_control_header p =
    let (got, moved, fine) =
      transmit (Writes-control_header p) (Reads-control_header (generate_moves p)) in
    (got, moved ∙ sym (cursor_behind (write_control_header p) _ _ (Writes-control_header p)), fine)
