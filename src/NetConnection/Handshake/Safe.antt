-- ===== src/NetConnection/Handshake/Safe.antt =====
-- aotbot/netconn.py: which datagrams can move the state machine of the handshake.
use aot_headless_client.Base.{
  ℕ, ◌≡◌, refl, sym, ap, ◌∙◌, inl, inr, Bool, true, false, Option, none, some, List, [], ◌∷◌, ◌==◌,
  if◌then◌else◌, Bool-cases,
}
use aot_headless_client.Base.Tests.{==_iff}
use aot_headless_client.Base.Bytes.{odd}
use aot_headless_client.BitStream.{open_on}
use aot_headless_client.NetConnection.{Connection, Hooks, is_connected}
use aot_headless_client.NetConnection.Receive.{process_raw_packet}
use aot_headless_client.NetConnection.Handshake.{
  OobPacket, challenge_response, accepted, refused, disconnecting, read_oob, shutdown, apply_oob,
  apply_some, handle_oob, dispatch,
}

-- The connect sequence that a packet names.
abbrev pub sequence_of : OobPacket → ℕ
sequence_of (challenge_response seq digest) = seq
sequence_of (accepted seq version) = seq
sequence_of (refused seq reason) = seq
sequence_of (disconnecting seq reason) = seq

module _ {B : Type 0} where
  -- A packet of the handshake that names another connect sequence changes nothing, whatever its type.
  pub apply_oob_foreign :
      (p : OobPacket) (c : Connection B)
      → (sequence_of p == c.connect_sequence) ≡ false
      → apply_oob p c ≡ c
  unfolding apply_oob
  apply_oob_foreign (challenge_response seq digest) c h = rw h refl
  apply_oob_foreign (accepted seq version) c h = rw h refl
  apply_oob_foreign (refused seq reason) c h = rw h refl
  apply_oob_foreign (disconnecting seq reason) c h = rw h refl

  apply_oob-connected :
      (p : OobPacket) (c : Connection B)
      → is_connected c.state ≡ false
      → is_connected (apply_oob p c).state ≡ true
      → (version : ℕ) × (p ≡ accepted c.connect_sequence version)
  unfolding apply_oob shutdown
  apply_oob-connected (challenge_response seq digest) c h e =
      elim (Bool-cases (seq == c.connect_sequence)) [
        | inl t ↦
            let f : is_connected (apply_oob (challenge_response seq digest) c).state ≡ false =
              rw t refl in
            cc
        | inr t ↦
            let f : is_connected (apply_oob (challenge_response seq digest) c).state ≡ false =
              rw t h in
            cc
      ]
  apply_oob-connected (accepted seq version) c h e = elim (Bool-cases (seq == c.connect_sequence)) [
    | inl t ↦ (version, ap (λ (s : ℕ). accepted s version) ((==_iff seq c.connect_sequence).0 t))
    | inr t ↦ let f : is_connected (apply_oob (accepted seq version) c).state ≡ false = rw t h in cc
  ]
  apply_oob-connected (refused seq reason) c h e = elim (Bool-cases (seq == c.connect_sequence)) [
    | inl t ↦
        let f : is_connected (apply_oob (refused seq reason) c).state ≡ false = rw t refl in cc
    | inr t ↦ let f : is_connected (apply_oob (refused seq reason) c).state ≡ false = rw t h in cc
  ]
  apply_oob-connected (disconnecting seq reason) c h e =
      elim (Bool-cases (seq == c.connect_sequence)) [
        | inl t ↦
            let f : is_connected (apply_oob (disconnecting seq reason) c).state ≡ false =
              rw t refl in
            cc
        | inr t ↦
            let f : is_connected (apply_oob (disconnecting seq reason) c).state ≡ false = rw t h in
            cc
      ]

  some_oob-connected :
      (o : Option OobPacket) (c : Connection B)
      → is_connected c.state ≡ false
      → is_connected (apply_some o c).state ≡ true
      → (version : ℕ) × (o ≡ some (accepted c.connect_sequence version))
  some_oob-connected none c h e = let f : true ≡ false = sym e ∙ h in cc
  some_oob-connected (some p) c h e =
      let (version, q) = apply_oob-connected p c h e in (version, ap (λ t. some t) q)

  process_raw_packet-unconnected :
      (hooks : Hooks B) (bytes : List ℕ) (c : Connection B)
      → is_connected c.state ≡ false
      → process_raw_packet hooks bytes c ≡ c
  unfolding process_raw_packet
  process_raw_packet-unconnected hooks bytes c h = rw h refl

  -- If a datagram turns a client that is not connected into a connected one, it is read as a
  -- ConnectAccept that names the client's own connect sequence.
  pub dispatch-connected :
      (hooks : Hooks B) (bytes : List ℕ) (c : Connection B)
      → is_connected c.state ≡ false
      → is_connected (dispatch hooks bytes c).state ≡ true
      → (version : ℕ) × ((read_oob (open_on bytes)).0 ≡ some (accepted c.connect_sequence version))
  unfolding dispatch handle_oob
  dispatch-connected hooks [] c h e = let f : true ≡ false = sym e ∙ h in cc
  dispatch-connected hooks (b ∷ bytes) c h e = elim (Bool-cases (odd b)) [
    | inl t ↦
        let f : is_connected (dispatch hooks (b ∷ bytes) c).state ≡ false = rw t (
          ap (λ (d : Connection B). is_connected d.state)
            (process_raw_packet-unconnected hooks (b ∷ bytes) c h)
          ∙ h) in
        cc
    | inr t ↦ some_oob-connected (read_oob (open_on (b ∷ bytes))).0 c h (
        sym (
          ap
            (λ (x : Bool).
              is_connected
                (if x
                  then process_raw_packet hooks (b ∷ bytes) c
                  else handle_oob (b ∷ bytes) c).state)
            t)
        ∙ e)
  ]
