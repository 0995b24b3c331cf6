-- ===== src/Phases/GhostSection.antt =====
-- aotbot/phases.py: `_read_ghost_section`, which stages what it reads of the ghosts' classes and commits it
-- if the whole section decodes. The registry of telemetry is left out. A dictionary is a function.
pub mod Eager
use aot_headless_client.Base.{
  ℕ, zero, suc, ◌+◌, Bool, true, false, Option, none, some, ◌==◌, if◌then◌else◌,
}
use aot_headless_client.BitStream.{BitStream, M, pure, ◌>>=◌, read_flag, read_int}
use aot_headless_client.Ghosts.{unpack_update}

-- The classes by ghost id, and what is staged for an id: a class, or (`none`) that it is removed.
abbrev pub Classes : Type 0
Classes = ℕ → Option ℕ

abbrev pub Staged : Type 0
Staged = ℕ → Option (Option ℕ)

pub record Ghosting : Type 0 where
  pub ghosting_active : Bool
  pub ghost_classes : Classes

-- How the section ends: there is none, it decoded, it ran past the end, or `AlignmentError` was raised.
pub data SectionEnd : Type 0 where
  no_section : SectionEnd
  committed : SectionEnd
  overrun : SectionEnd
  alignment_error : SectionEnd

unfoldable pub stage : ℕ → Option ℕ → Staged → Staged
stage ghost_id v staged id = if id == ghost_id then some v else staged id

-- `dict.get` with a default.
abbrev pub get : {A : Type 0} → Option A → A → A
get none default = default
get (some v) default = v

unfoldable pub staged_class : Classes → Staged → ℕ → Option ℕ
staged_class classes staged ghost_id = get (staged ghost_id) (classes ghost_id)

-- `for gid, v in staged.items()`
unfoldable pub commit : Classes → Staged → Classes
unfolding staged_class
commit classes staged ghost_id = staged_class classes staged ghost_id

unfoldable pub stream_error : M Bool
stream_error s = (s.error, s)

unfoldable pub finish : Classes → Staged → M (SectionEnd × Classes)
unfolding stream_error commit
finish classes staged = do
  error ← stream_error
  pure (if error then (overrun, classes) else (committed, commit classes staged))

unfoldable pub after_update :
    Option (Unit {0}) → Classes → M (SectionEnd × Classes) → M (SectionEnd × Classes)
after_update none classes more = pure (alignment_error, classes)
after_update (some v) classes more = more

-- An update of a ghost, whose class is on the wire if the id is new.
unfoldable pub update_ghost :
    Option ℕ
    → ℕ
    → Option ℕ
    → Classes
    → Staged
    → (Staged → M (SectionEnd × Classes))
    → M (SectionEnd × Classes)
unfolding after_update stage
update_ghost wheel_count ghost_id none classes staged more = do
  class_id ← read_int 6
  body ← unpack_update wheel_count class_id true
  after_update body classes (more (stage ghost_id (some class_id) staged))
update_ghost wheel_count ghost_id (some class_id) classes staged more = do
  body ← unpack_update wheel_count class_id false
  after_update body classes (more staged)

unfoldable pub one_ghost :
    Option ℕ → ℕ → Classes → Staged → (Staged → M (SectionEnd × Classes)) → M (SectionEnd × Classes)
unfolding update_ghost staged_class stage
one_ghost wheel_count id_size classes staged more = do
  ghost_id ← read_int id_size
  removed ← read_flag
  if removed
      then more (stage ghost_id none staged)
      else update_ghost wheel_count ghost_id (staged_class classes staged ghost_id) classes staged
          more

-- `for _ in range(1 << 14)`, with `left` rounds to go.
unfoldable pub ghost_loop : Option ℕ → ℕ → ℕ → Classes → Staged → M (SectionEnd × Classes)
unfolding stream_error finish one_ghost
ghost_loop wheel_count zero id_size classes staged = finish classes staged
ghost_loop wheel_count (suc left) id_size classes staged = do
  error ← stream_error
  if error then pure (overrun, classes) else (do
    present ← read_flag
    if present
        then one_ghost wheel_count id_size classes staged
            (ghost_loop wheel_count left id_size classes)
        else finish classes staged)

ghosts_present : Option ℕ → Bool → Classes → M (SectionEnd × Classes)
unfolding ghost_loop
ghosts_present wheel_count false classes = pure (no_section, classes)
ghosts_present wheel_count true classes = do
  size ← read_int 4
  ghost_loop wheel_count 16384 (size + 3) classes (λ id. none)

ghost_section : Option ℕ → Bool → Bool → Classes → M (SectionEnd × Classes)
unfolding ghosts_present
ghost_section wheel_count true active classes = pure (overrun, classes)
ghost_section wheel_count false false classes = pure (no_section, classes)
ghost_section wheel_count false true classes = do
  present ← read_flag
  ghosts_present wheel_count present classes

unfoldable pub read_ghost_section : Option ℕ → Ghosting → M (SectionEnd × Ghosting)
unfolding stream_error ghost_section
read_ghost_section wheel_count g = do
  error ← stream_error
  result ← ghost_section wheel_count error g.ghosting_active g.ghost_classes
  pure (result.0, record g { ghost_classes = result.1 })
