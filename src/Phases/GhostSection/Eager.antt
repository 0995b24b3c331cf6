-- ===== src/Phases/GhostSection/Eager.antt =====
-- aotbot/phases.py: the staged changes of a ghost section against a table that is changed at once.
use aot_headless_client.Base.{
  ℕ, zero, suc, ◌≡◌, refl, ap, ◌∙◌, inl, inr, Bool, true, false, Option, none, some, ◌==◌,
  if◌then◌else◌, Bool-cases,
}
use aot_headless_client.BitStream.{M, pure, ◌>>=◌, read_flag, read_int}
use std.Path.{fun_ext}
use aot_headless_client.Ghosts.{unpack_update}
use aot_headless_client.Phases.GhostSection.{
  alignment_error, Classes, Staged, SectionEnd, committed, overrun, stage, staged_class, commit,
  stream_error, finish, after_update, update_ghost, one_ghost, ghost_loop,
}

-- The table with one id changed.
unfoldable pub put : ℕ → Option ℕ → Classes → Classes
put ghost_id v table id = if id == ghost_id then v else table id

-- Where the decoder of an update raises, the section ends with the old table.
unfoldable pub or_roll_back :
    Option (Unit {0}) → Classes → M (SectionEnd × Classes) → M (SectionEnd × Classes)
or_roll_back none old more = pure (alignment_error, old)
or_roll_back (some v) old more = more

unfoldable pub eager_update :
    Option ℕ
    → ℕ
    → Option ℕ
    → Classes
    → Classes
    → (Classes → M (SectionEnd × Classes))
    → M (SectionEnd × Classes)
unfolding or_roll_back put
eager_update wheel_count ghost_id none old table more = do
  class_id ← read_int 6
  body ← unpack_update wheel_count class_id true
  or_roll_back body old (more (put ghost_id (some class_id) table))
eager_update wheel_count ghost_id (some class_id) old table more = do
  body ← unpack_update wheel_count class_id false
  or_roll_back body old (more table)

-- The loop of an engine that changes its table `table` at each ghost, and goes back to the table `old` of
-- before if the section fails.
unfoldable pub eager_loop : Option ℕ → ℕ → ℕ → Classes → Classes → M (SectionEnd × Classes)
unfolding stream_error eager_update put
eager_loop wheel_count zero id_size old table = do
  error ← stream_error
  pure (if error then (overrun, old) else (committed, table))
eager_loop wheel_count (suc left) id_size old table = do
  error ← stream_error
  if error then pure (overrun, old) else (do
    present ← read_flag
    if present
        then (do
          ghost_id ← read_int id_size
          removed ← read_flag
          if removed
              then eager_loop wheel_count left id_size old (put ghost_id none table)
              else eager_update wheel_count ghost_id (table ghost_id) old table
                  (eager_loop wheel_count left id_size old))
        else (do error ← stream_error; pure (if error then (overrun, old) else (committed, table))))

stage-put :
    (ghost_id : ℕ) (v : Option ℕ) (classes : Classes) (staged : Staged)
    → commit classes (stage ghost_id v staged) ≡ put ghost_id v (commit classes staged)
unfolding commit staged_class stage put
stage-put ghost_id v classes staged =
    fun_ext (λ id. elim (Bool-cases (id == ghost_id)) [ inl t ↦ rw t refl | inr t ↦ rw t refl ])

bind_ext : {A B : Type 0} (m : M A) {f g : A → M B} → ((v : A) → f v ≡ g v) → (m >>= f) ≡ (m >>= g)
bind_ext m h = ap (λ k. m >>= k) (fun_ext h)

if_ext :
    {A : Type 0} {m n m' n' : A} (b : Bool)
    → m ≡ m'
    → n ≡ n'
    → (if b then m else n) ≡ (if b then m' else n')
if_ext true p q = p
if_ext false p q = q

after_ext :
    (body : Option (Unit {0})) (old : Classes) {m n : M (SectionEnd × Classes)}
    → m ≡ n
    → after_update body old m ≡ or_roll_back body old n
unfolding after_update or_roll_back
after_ext none old p = refl
after_ext (some v) old p = p

-- The rest of the section, for the staged changes and for the changed table.
AreAlike :
    Classes → (Staged → M (SectionEnd × Classes)) → (Classes → M (SectionEnd × Classes)) → Type 0
AreAlike classes more more' = (staged : Staged) → more staged ≡ more' (commit classes staged)

staged_rest :
    (classes : Classes) (more : Staged → M (SectionEnd × Classes))
    (more' : Classes → M (SectionEnd × Classes)) (ghost_id : ℕ) (v : Option ℕ) (staged : Staged)
    → AreAlike classes more more'
    → more (stage ghost_id v staged) ≡ more' (put ghost_id v (commit classes staged))
unfolding AreAlike
staged_rest classes more more' ghost_id v staged alike =
    alike (stage ghost_id v staged) ∙ ap more' (stage-put ghost_id v classes staged)

update-eager :
    (w : Option ℕ) (ghost_id : ℕ) (known : Option ℕ) (classes : Classes) (staged : Staged)
    (more : Staged → M (SectionEnd × Classes)) (more' : Classes → M (SectionEnd × Classes))
    → AreAlike classes more more'
    → update_ghost w ghost_id known classes staged more
      ≡ eager_update w ghost_id known classes (commit classes staged) more'
unfolding update_ghost eager_update AreAlike
update-eager w ghost_id none classes staged more more' alike = bind_ext (read_int 6) (λ class_id.
    bind_ext (unpack_update w class_id true) (λ body.
      after_ext body classes
        (staged_rest classes more more' ghost_id (some class_id) staged alike)))
update-eager w ghost_id (some class_id) classes staged more more' alike =
    bind_ext (unpack_update w class_id false) (λ body. after_ext body classes (alike staged))

-- The staged loop of a ghost section has the same result and leaves the same stream as a loop that
-- changes the table of classes at each ghost, and on a failure goes back to the table from before the
-- section: for every number of rounds, and from any staged changes, as a table that already has them.
pub ghost_loop-eager_loop :
    (wheel_count : Option ℕ) (left id_size : ℕ) (classes : Classes) (staged : Staged)
    → ghost_loop wheel_count left id_size classes staged
      ≡ eager_loop wheel_count left id_size classes (commit classes staged)
unfolding ghost_loop finish one_ghost eager_loop commit AreAlike
ghost_loop-eager_loop w zero id_size classes staged = refl
ghost_loop-eager_loop w (suc left) id_size classes staged =
    let more = ghost_loop w left id_size classes in
    let more' = eager_loop w left id_size classes in
    let alike : AreAlike classes more more' =
      λ st. ghost_loop-eager_loop w left id_size classes st in
    bind_ext stream_error (λ error. if_ext error refl (
      bind_ext read_flag (λ present.
        if_ext present
          (bind_ext (read_int id_size) (λ ghost_id. bind_ext read_flag (λ removed.
            if_ext removed (staged_rest classes more more' ghost_id none staged alike) (
              update-eager w ghost_id (staged_class classes staged ghost_id) classes staged more
                more' alike))))
          refl)))
