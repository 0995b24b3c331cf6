-- ===== src/BitStream/View.antt =====
-- The abstract view of a stream: a reader consumes a list of bits, a writer emits one, and each may
-- replace the string buffer. Both compose along a `do` block.
use aot_headless_client.Base.{
  ℕ, ◌+◌, ◌≡◌, refl, sym, ap, ◌∙◌, Bool, Option, List, [], ◌∷◌, ◌++◌, append_assoc, append-nil,
  arith, length, drop, length-append, drop-append, drop-drop,
}
use mathlib.Core.Path.{subst}
use aot_headless_client.Base.Bytes.{bits_of}
use aot_headless_client.BitStream.{BitStream, M, pure, ◌>>=◌, write_flag}

-- The bits that the cursor has not reached.
abbrev pub upcoming : BitStream → List Bool
upcoming s = drop s.bit_num (bits_of s.buf)

abbrev pub skip : ℕ → BitStream → BitStream
skip n s = record s { bit_num = s.bit_num + n }

abbrev pub with_strings : Option (List ℕ) → BitStream → BitStream
with_strings sb s = record s { string_buffer = sb }

-- Bits written one by one.
unfoldable pub emit : List Bool → BitStream → BitStream
emit [] s = s
emit (b ∷ bs) s = emit bs (write_flag b s).1

-- With the string buffer `sb`, and the bits `bs` next on the stream, `m` returns `v`, moves the cursor
-- past `bs` and leaves the string buffer `sb'`. The buffer and the error flag stay.
pub record Reads {A : Type 0} (sb : Option (List ℕ)) (m : M A) (bs : List Bool) (v : A)
    (sb' : Option (List ℕ)) : Type 0 where
  pub run :
      (s : BitStream) (rest : List Bool)
      → s.string_buffer ≡ sb
      → upcoming s ≡ bs ++ rest
      → m s ≡ (v, with_strings sb' (skip (length bs) s))

-- With the string buffer `sb`, `m` emits exactly the bits `bs`.
pub record Writes {A : Type 0} (sb : Option (List ℕ)) (m : M A) (bs : List Bool) (v : A)
    (sb' : Option (List ℕ)) : Type 0 where
  pub run : (s : BitStream) → s.string_buffer ≡ sb → m s ≡ (v, with_strings sb' (emit bs s))

pub upcoming-skip :
    (s : BitStream) (bs rest : List Bool)
    → upcoming s ≡ bs ++ rest
    → upcoming (skip (length bs) s) ≡ rest
upcoming-skip s bs rest e =
    sym (drop-drop (length bs) s.bit_num (bits_of s.buf))
    ∙ ap (drop (length bs)) e
    ∙ drop-append bs rest

pub Reads-pure : {A : Type 0} (sb : Option (List ℕ)) (v : A) → Reads sb (pure v) [] v sb
unfolding pure
Reads-pure sb v = record {
  run = λ s rest e u.
      ap (λ (t : BitStream). (v, t))
        (same s sb e ∙ ap (λ n. record s { bit_num = n; string_buffer = sb }) (omega arith));
}
  where
    same : (s : BitStream) (sb : Option (List ℕ)) → s.string_buffer ≡ sb → s ≡ with_strings sb s
    same s sb e = ap (λ t. with_strings t s) e

pub Reads-bind :
    {A B : Type 0} {sb sb' sb'' : Option (List ℕ)} {m : M A} {bs cs : List Bool} {v : A} {w : B}
    (f : A → M B)
    → Reads sb m bs v sb'
    → Reads sb' (f v) cs w sb''
    → Reads sb (m >>= f) (bs ++ cs) w sb''
unfolding ◌>>=◌
Reads-bind {sb = sb} {sb' = sb'} {sb'' = sb''} {bs = bs} {cs = cs} {v = v} {w = w} f r q = record {
  run = λ s rest e u.
      let step = r.run s (cs ++ rest) e (u ∙ append_assoc bs cs rest) in
      let after =
        q.run (with_strings sb' (skip (length bs) s)) rest refl
          (upcoming-skip s bs (cs ++ rest) (u ∙ append_assoc bs cs rest)) in
      let moved : s.bit_num + length bs + length cs ≡ s.bit_num + length (bs ++ cs) =
        omega (arith, length-append bs cs) in
      ap (λ p. f p.0 p.1) step
      ∙ after
      ∙ ap (λ n. (w, record s { bit_num = n; string_buffer = sb'' })) moved;
}

pub emit-append : (bs cs : List Bool) (s : BitStream) → emit (bs ++ cs) s ≡ emit cs (emit bs s)
unfolding emit
emit-append [] cs s = refl
emit-append (b ∷ bs) cs s = emit-append bs cs (write_flag b s).1

pub emit-with_strings :
    (bs : List Bool) (sb : Option (List ℕ)) (s : BitStream)
    → emit bs (with_strings sb s) ≡ with_strings sb (emit bs s)
unfolding emit write_flag
emit-with_strings [] sb s = refl
emit-with_strings (b ∷ bs) sb s = emit-with_strings bs sb (write_flag b s).1

pub Writes-pure : {A : Type 0} (sb : Option (List ℕ)) (v : A) → Writes sb (pure v) [] v sb
unfolding emit pure
Writes-pure sb v = record { run = λ s e. ap (λ (t : Option (List ℕ)). (v, with_strings t s)) e }

pub Writes-bind :
    {A B : Type 0} {sb sb' sb'' : Option (List ℕ)} {m : M A} {bs cs : List Bool} {v : A} {w : B}
    (f : A → M B)
    → Writes sb m bs v sb'
    → Writes sb' (f v) cs w sb''
    → Writes sb (m >>= f) (bs ++ cs) w sb''
unfolding ◌>>=◌
Writes-bind {sb' = sb'} {sb'' = sb''} {bs = bs} {cs = cs} {v = v} {w = w} f r q = record {
  run = λ s e.
      ap (λ p. f p.0 p.1) (r.run s e)
      ∙ q.run (with_strings sb' (emit bs s)) refl
      ∙ ap (λ t. (w, with_strings sb'' t)) (emit-with_strings cs sb' (emit bs s))
      ∙ ap (λ t. (w, with_strings sb'' t)) (sym (emit-append bs cs s));
}

pub emit_keeps : (bs : List Bool) (s : BitStream) → (emit bs s).string_buffer ≡ s.string_buffer
unfolding emit write_flag
emit_keeps [] s = refl
emit_keeps (b ∷ bs) s = emit_keeps bs (write_flag b s).1

-- The case of an operation that has nothing to do with the string buffer.
pub Writes-emit :
    {A : Type 0} (sb : Option (List ℕ)) (m : M A) (bs : List Bool) (v : A)
    → ((s : BitStream) → m s ≡ (v, emit bs s))
    → Writes sb m bs v sb
Writes-emit sb m bs v h = record {
  run = λ s e. h s ∙ ap (λ t. (v, with_strings t (emit bs s))) (emit_keeps bs s ∙ e);
}

pub Reads-skip :
    {A : Type 0} (sb : Option (List ℕ)) (m : M A) (bs : List Bool) (v : A)
    → ((s : BitStream) (rest : List Bool) → upcoming s ≡ bs ++ rest → m s ≡ (v, skip (length bs) s))
    → Reads sb m bs v sb
Reads-skip sb m bs v h = record {
  run = λ s rest e u. h s rest u ∙ ap (λ t. (v, with_strings t (skip (length bs) s))) e;
}

-- A last step that only returns something of what was read.
pub Reads-return :
    {A B : Type 0} {sb sb' : Option (List ℕ)} {m : M A} {bs : List Bool} {v : A} (g : A → B)
    → Reads sb m bs v sb'
    → Reads sb (m >>= λ x. pure (g x)) bs (g v) sb'
Reads-return {sb = sb} {sb' = sb'} {m = m} {bs = bs} {v = v} g r =
    subst (λ t. Reads sb (m >>= λ x. pure (g x)) t (g v) sb') (append-nil bs)
      (Reads-bind _ r (Reads-pure sb' (g v)))

pub Writes-last :
    {A B : Type 0} {sb sb' : Option (List ℕ)} {m : M A} {bs : List Bool} {v : A} (g : A → B)
    → Writes sb m bs v sb'
    → Writes sb (m >>= λ x. pure (g x)) bs (g v) sb'
Writes-last {sb = sb} {sb' = sb'} {m = m} {bs = bs} {v = v} g r =
    subst (λ t. Writes sb (m >>= λ x. pure (g x)) t (g v) sb') (append-nil bs)
      (Writes-bind _ r (Writes-pure sb' (g v)))
