-- ===== src/BitStream/Flags.antt =====
-- `write_flag` and `read_flag` against the bit view: one bit out, one bit in.
use aot_headless_client.Base.{
  ℕ, ◌+◌, ◌/◌, ◌≤◌, ◌≡◌, refl, sym, ap, ◌∙◌, Bool, true, false, Option, List, [], ◌∷◌, arith, leb,
  length, drop_head,
}
use aot_headless_client.Base.Bytes.{bits_of, length-bits_of, get_or-bits_of}
use aot_headless_client.BitStream.{BitStream, write_flag, read_flag}
use aot_headless_client.BitStream.View.{
  upcoming, skip, emit, Reads, Writes, Writes-emit, Reads-skip,
}

pub Writes-flag : (sb : Option (List ℕ)) (b : Bool) → Writes sb (write_flag b) (b ∷ []) b sb
unfolding write_flag emit
Writes-flag sb b = Writes-emit sb (write_flag b) (b ∷ []) b (λ s. refl)

pub read_flag_in :
    (s : BitStream) (b : Bool) (rest : List Bool)
    → upcoming s ≡ b ∷ rest
    → read_flag s ≡ (b, skip 1 s)
unfolding read_flag
read_flag_in s b rest e =
    let (inside, found, _) = drop_head s.bit_num (bits_of s.buf) b rest false e in
    let test : leb (length s.buf) (s.bit_num / 8) ≡ false =
      ground (arith, inside, length-bits_of s.buf) in
    rw test (ap (λ v. (v, skip 1 s)) (sym (get_or-bits_of s.buf s.bit_num) ∙ found))

pub Reads-flag : (sb : Option (List ℕ)) (b : Bool) → Reads sb read_flag (b ∷ []) b sb
Reads-flag sb b = Reads-skip sb read_flag (b ∷ []) b (λ s rest u. read_flag_in s b rest u)

-- Past the end of the buffer `read_flag` answers 0, moves on and raises the error flag.
pub read_flag_past_end :
    (s : BitStream)
    → length (bits_of s.buf) ≤ s.bit_num
    → read_flag s ≡ (false, record s { error = true; bit_num = s.bit_num + 1 })
unfolding read_flag
read_flag_past_end s h =
    let test : leb (length s.buf) (s.bit_num / 8) ≡ true = ground (arith, length-bits_of s.buf) in
    rw test
