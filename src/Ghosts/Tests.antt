-- ===== src/Ghosts/Tests.antt =====
-- aotbot/ghosts.py: small updates.
use aot_headless_client.Base.{◌≡◌, refl, none, some, false, [], ◌∷◌}
use aot_headless_client.BitStream.{open_on, pure, from_bytes, ◌>>=◌, read_flag, read_bytes}
use aot_headless_client.Decoder.{choose_flag, raise}
use aot_headless_client.Ghosts.Scenery.{unpack_terrain_block}
use aot_headless_client.Ghosts.{decoders, unpack_update}

-- A terrain block whose count of materials is too large raises.
large_count :
    (unpack_update (some 4) 34 false (open_on (254 ∷ 255 ∷ 255 ∷ 255 ∷ 255 ∷ []))).0 ≡ none
unfolding unpack_update open_on pure ◌>>=◌ read_flag decoders unpack_terrain_block choose_flag
    from_bytes read_bytes raise
large_count = refl
