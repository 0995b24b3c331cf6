-- ===== src/Events/Packed.antt =====
-- aotbot/events.py: `_write_integer` and the integers of `unpack_string`.
use aot_headless_client.Base.{
  ℕ, suc, ◌<◌, ◌^◌, ◌≡◌, inl, inr, Bool, true, false, none, List, [], ◌∷◌, ◌++◌, arith, ltb,
  if◌then◌else◌, Bool-cases,
}
use aot_headless_client.Base.Tests.{ltb→lt}
use aot_headless_client.Base.Int.{ℤ, pos, negsuc, is_neg}
use aot_headless_client.Base.Values.{int_bits}
use aot_headless_client.BitStream.{new, open_on, get_bytes}
use aot_headless_client.BitStream.View.{Reads, Writes, Reads-bind, Reads-return, Writes-bind}
use aot_headless_client.BitStream.Appended.{transmit}
use aot_headless_client.BitStream.Flags.{Reads-flag, Writes-flag}
use aot_headless_client.BitStream.Ints.{Writes-int, written}
use aot_headless_client.BitStream.Signed.{magnitude, Reads-magnitude}
use aot_headless_client.Events.{
  write_magnitude, read_magnitude, write_integer, unpack_string, integer,
}

magnitude_bits : ℕ → List Bool
magnitude_bits mag =
    if ltb mag 128
    then true ∷ int_bits 7 (written (pos mag) 7)
    else false
      ∷ (if ltb mag 32768
          then true ∷ int_bits 15 (written (pos mag) 15)
          else false ∷ int_bits 31 (written (pos mag) 31))

Writes-mag : (mag : ℕ) → Writes none (write_magnitude mag) (magnitude_bits mag) tt none
unfolding write_magnitude magnitude_bits
Writes-mag mag = elim (Bool-cases (ltb mag 128)) [
  | inl t ↦ rw t (Writes-bind _ (Writes-flag none true) (Writes-int none (pos mag) 7))
  | inr t ↦ elim (Bool-cases (ltb mag 32768)) [
    | inl u ↦
        rw (t, u)
          (Writes-bind _ (Writes-flag none false)
            (Writes-bind _ (Writes-flag none true) (Writes-int none (pos mag) 15)))
    | inr u ↦
        rw (t, u)
          (Writes-bind _ (Writes-flag none false)
            (Writes-bind _ (Writes-flag none false) (Writes-int none (pos mag) 31)))
  ]
]

Reads-mag : (mag : ℕ) → mag < 2 ^ 31 → Reads none read_magnitude (magnitude_bits mag) mag none
unfolding read_magnitude magnitude_bits
Reads-mag mag h = elim (Bool-cases (ltb mag 128)) [
  | inl t ↦ rw t (
      Reads-bind _ (Reads-flag none true)
        (Reads-magnitude none 7 mag (omega arith) (ltb→lt mag 128 t)))
  | inr t ↦ elim (Bool-cases (ltb mag 32768)) [
    | inl u ↦
        rw (t, u)
          (Reads-bind _ (Reads-flag none false) (
            Reads-bind _ (Reads-flag none true)
              (Reads-magnitude none 15 mag (omega arith) (ltb→lt mag 32768 u))))
    | inr u ↦
        rw (t, u)
          (Reads-bind _ (Reads-flag none false)
            (Reads-bind _ (Reads-flag none false) (Reads-magnitude none 31 mag (omega arith) h)))
  ]
]

integer_bits : ℤ → List Bool
integer_bits num =
    int_bits 2 (written (pos 3) 2) ++ ((is_neg num ∷ []) ++ magnitude_bits (magnitude num))

Writes-integer : (num : ℤ) → Writes none (write_integer num) (integer_bits num) tt none
unfolding write_integer integer_bits
Writes-integer num =
    Writes-bind _ (Writes-int none (pos 3) 2)
      (Writes-bind _ (Writes-flag none (is_neg num)) (Writes-mag (magnitude num)))

Reads-integer :
    (num : ℤ)
    → magnitude num < 2 ^ 31
    → Reads none unpack_string (integer_bits num) (integer num) none
unfolding unpack_string integer_bits
Reads-integer (pos v) h =
    Reads-bind _ (Reads-magnitude none 2 3 (omega arith) (omega arith))
      (Reads-bind _ (Reads-flag none false) (Reads-return _ (Reads-mag v h)))
Reads-integer (negsuc v) h =
    Reads-bind _ (Reads-magnitude none 2 3 (omega arith) (omega arith))
      (Reads-bind _ (Reads-flag none true) (Reads-return _ (Reads-mag (suc v) h)))

-- An integer whose magnitude is below 2 ^ 31 is unpacked as the same integer, without an error,
-- whichever of the three widths it takes.
pub unpack_string-write_integer :
    (num : ℤ)
    → magnitude num < 2 ^ 31
    → ((unpack_string (open_on (get_bytes (write_integer num new).1))).0 ≡ integer num)
      × ((unpack_string (open_on (get_bytes (write_integer num new).1))).1.error ≡ false)
unpack_string-write_integer num h =
    let (got, moved, fine) = transmit (Writes-integer num) (Reads-integer num h) in (got, fine)
