-- ===== src/Datablocks/Tests.antt =====
-- aotbot/datablocks.py: small bodies, and the theorems at them.
use aot_headless_client.Base.{◌+◌, ◌≤◌, ◌≡◌, refl, [], ◌∷◌}
use aot_headless_client.BitStream.{BitStream, open_on, pure, ◌>>=◌, read_flag, read_bytes, read_int}
use aot_headless_client.BitStream.Strings.{read_string}
use aot_headless_client.BitStream.Huffman.{read_buffer}
use aot_headless_client.Decoder.{fine}
use aot_headless_client.Datablocks.Fields.{read_f32}
use aot_headless_client.Datablocks.Lights.{unpack_decal_data}
use aot_headless_client.Datablocks.Shapes.{unpack_trigger_data}
use aot_headless_client.Datablocks.{decoders, unpack_datablock, trigger_data, decal_data}
use aot_headless_client.Datablocks.Bodies.{least_size, unpack_datablock-least_size}

abbrev body : BitStream
body = open_on (1 ∷ 2 ∷ 3 ∷ 4 ∷ 5 ∷ [])

unpack_datablock-least_size_example :
    body.bit_num + least_size trigger_data ≤ (unpack_datablock 28 body).1.bit_num
unpack_datablock-least_size_example = unpack_datablock-least_size 28 trigger_data body refl

-- The least size of a trigger is its size, and that of a decal is taken when its string is empty.
trigger_size : (unpack_datablock 28 body).1.bit_num ≡ 32
unfolding unpack_datablock open_on pure ◌>>=◌ read_flag fine decoders unpack_trigger_data read_f32
    read_bytes
trigger_size = refl

decal_size :
    (unpack_datablock 6 (open_on (1 ∷ 2 ∷ 3 ∷ 4 ∷ 5 ∷ 6 ∷ 7 ∷ 8 ∷ 0 ∷ 0 ∷ []))).1.bit_num
    ≡ least_size decal_data
unfolding unpack_datablock open_on pure ◌>>=◌ read_flag least_size fine decoders unpack_decal_data
    read_string read_bytes read_buffer read_int
decal_size = refl
