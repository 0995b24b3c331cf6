-- ===== src/Decoder/Decodes.antt =====
-- A reader takes a definite bit string off the stream: it reads the same value from the same bits
-- wherever they stand and whatever follows them, unless it runs past the end.
use aot_headless_client.Base.{
  ◌≤◌, ◌≡◌, refl, sym, ap, ◌∙◌, Bool, true, false, List, [], ◌∷◌, ◌++◌, append_assoc, arith, length,
  length-drop,
}
use mathlib.Core.Path.{subst}
use aot_headless_client.Base.Bytes.{bits_of}
use aot_headless_client.BitStream.{BitStream, M, pure, ◌>>=◌, read_flag}
use aot_headless_client.BitStream.View.{upcoming, Reads, Reads-pure, Reads-bind, upcoming-skip}
use aot_headless_client.BitStream.Flags.{Reads-flag, read_flag_in, read_flag_past_end}
use aot_headless_client.BitStream.Bounds.{read_flag_error}

-- The bits that `m` takes at `s`.
pub record Parse {A : Type 0} (m : M A) (s : BitStream) : Type 0 where
  pub taken : List Bool
  pub rest : List Bool
  pub here : upcoming s ≡ taken ++ rest
  pub reads : Reads s.string_buffer m taken (m s).0 (m s).1.string_buffer

pub record Decodes {A : Type 0} (m : M A) : Type 0 where
  pub kept : (s : BitStream) → (m s).1.buf ≡ s.buf
  pub onward : (s : BitStream) → s.bit_num ≤ (m s).1.bit_num
  pub sticky : (s : BitStream) → s.error ≡ true → (m s).1.error ≡ true
  pub parses : (s : BitStream) → (m s).1.error ≡ false → Parse m s

pub Decodes-pure : {A : Type 0} (v : A) → Decodes (pure v)
unfolding pure
Decodes-pure v = record {
  kept = λ s. refl;
  onward = λ s. omega arith;
  sticky = λ s h. h;
  parses = λ s e. record {
    taken = [];
    rest = upcoming s;
    here = refl;
    reads = Reads-pure s.string_buffer v;
  };
}

-- Behind the bits that were taken stands the rest.
Parse-next : {A : Type 0} {m : M A} {s : BitStream} (p : Parse m s) → upcoming (m s).1 ≡ p.rest
Parse-next {s = s} p =
    ap (λ r. upcoming r.1) (p.reads.run s p.rest refl p.here)
    ∙ upcoming-skip s p.taken p.rest p.here

unset : (e : Bool) → (e ≡ true → true ≡ false) → e ≡ false
unset true h = h refl
unset false h = refl

pub Decodes-bind :
    {A B : Type 0} {m : M A} {f : A → M B}
    → Decodes m
    → ((v : A) → Decodes (f v))
    → Decodes (m >>= f)
unfolding ◌>>=◌
Decodes-bind {m = m} {f = f} d g = record {
  kept = λ s. (g (m s).0).kept (m s).1 ∙ d.kept s;
  onward = λ s. omega (arith, d.onward s, (g (m s).0).onward (m s).1);
  sticky = λ s h. (g (m s).0).sticky (m s).1 (d.sticky s h);
  parses = λ s e.
      let p = d.parses s (unset (m s).1.error (λ t. sym ((g (m s).0).sticky (m s).1 t) ∙ e)) in
      let q = (g (m s).0).parses (m s).1 e in
      record {
        taken = p.taken ++ q.taken;
        rest = q.rest;
        here =
            p.here
            ∙ ap (λ t. p.taken ++ t) (sym (Parse-next p) ∙ q.here)
            ∙ sym (append_assoc p.taken q.taken q.rest);
        reads = Reads-bind f p.reads q.reads;
      };
}

flag_sticky : (s : BitStream) → s.error ≡ true → (read_flag s).1.error ≡ true
flag_sticky s h = (read_flag_error s).0 ∙ rw h refl

flag_took :
    (s : BitStream) (l : List Bool)
    → upcoming s ≡ l
    → (read_flag s).1.error ≡ false
    → Parse read_flag s
flag_took s [] u e =
    let past : length (bits_of s.buf) ≤ s.bit_num =
      omega (arith, length-drop s.bit_num (bits_of s.buf), ap length u) in
    let no : true ≡ false = sym (ap (λ r. r.1.error) (read_flag_past_end s past)) ∙ e in cc
flag_took s (b ∷ rest) u e =
    let got = read_flag_in s b rest u in
    record {
      taken = b ∷ [];
      rest = rest;
      here = u;
      reads =
          subst (λ r. Reads s.string_buffer read_flag (b ∷ []) r.0 r.1.string_buffer) (sym got)
            (Reads-flag s.string_buffer b);
    }

pub Decodes-flag : Decodes read_flag
Decodes-flag = record {
  kept = λ s. (read_flag_error s).2;
  onward = λ s. omega (arith, (read_flag_error s).1);
  sticky = flag_sticky;
  parses = λ s e. flag_took s (upcoming s) refl e;
}
