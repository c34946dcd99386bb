-- ===== src/Files/AtomicWrite.antt =====
-- paw_kit/atomicio.py: `atomic_write_text` as steps on one file and its temporary file. A file is its text, its
-- permission bits, and whether its text is on disk: what is not may be anything after a crash. The making of
-- directories and the resolution of a link come before the steps, and are left out.
use paw_toolkit.Prelude.{ℕ, String, Bool, true, false, Option, none, some, ◌≡◌, ◌⊎◌}

pub record File : Type 0 where
  pub content : String
  pub mode : ℕ
  pub synced : Bool

-- What was done last: nothing, `mkstemp` and some writes, the flush, the two `fsync`s with the `chmod` and the
-- rename between them, an exception, the end of its handler, or a crash.
pub data Stage : Type 0 where
  opening writing flushed on_disk moded published finished cleaning failed crashed : Stage

pub record Disk : Type 0 where
  pub stage : Stage
  pub target : Option File
  pub temp : Option File

-- `mkstemp`
abbrev pub private_mode : ℕ
private_mode = 384

-- The bits of a destination that is there.
abbrev pub existing_mode : Option File → Option ℕ
existing_mode none = none
existing_mode (some f) = some f.mode

-- `if existing_mode is not None: os.chmod(tmp_path, existing_mode)`
abbrev pub change_mode : Option ℕ → File → File
change_mode none f = f
change_mode (some m) f = record f { mode = m }

abbrev pub is_durable : Option File → Bool
is_durable none = true
is_durable (some f) = f.synced

abbrev pub at : Stage → Option File → Option File → Disk
at stage target temp = record { stage = stage; target = target; temp = temp }

-- One step of a write of `content` to a target that was `old`.
pub data Step (old : Option File) (content : String) : Disk → Disk → Type 0 where
  make_temp :
      (target : Option File)
      → Step old content (at Stage.opening target none) (
          at Stage.writing target
            (some (record { content = ""; mode = private_mode; synced = false })))
  -- Some of the text is written.
  write_part :
      (target : Option File) (f : File) (part : String)
      → Step old content
          (at Stage.writing target (some f))
          (at Stage.writing target (some (record f { content = part; synced = false })))
  -- The rest of it is, and flushed.
  flush :
      (target : Option File) (f : File)
      → Step old content
          (at Stage.writing target (some f))
          (at Stage.flushed target (some (record f { content = content; synced = false })))
  sync_temp :
      (target : Option File) (f : File)
      → Step old content
          (at Stage.flushed target (some f))
          (at Stage.on_disk target (some (record f { synced = true })))
  set_mode :
      (target : Option File) (f : File)
      → Step old content
          (at Stage.on_disk target (some f))
          (at Stage.moded target (some (change_mode (existing_mode old) f)))
  -- `os.replace`
  publish :
      (target : Option File) (f : File)
      → Step old content (at Stage.moded target (some f)) (at Stage.published (some f) none)
  sync_directory :
      (target temp : Option File)
      → Step old content (at Stage.published target temp) (at Stage.finished target temp)
  -- An exception inside the `try`, at any point of it.
  fail_writing :
      (target temp : Option File)
      → Step old content (at Stage.writing target temp) (at Stage.cleaning target temp)
  fail_flushed :
      (target temp : Option File)
      → Step old content (at Stage.flushed target temp) (at Stage.cleaning target temp)
  fail_on_disk :
      (target temp : Option File)
      → Step old content (at Stage.on_disk target temp) (at Stage.cleaning target temp)
  fail_moded :
      (target temp : Option File)
      → Step old content (at Stage.moded target temp) (at Stage.cleaning target temp)
  fail_published :
      (target temp : Option File)
      → Step old content (at Stage.published target temp) (at Stage.cleaning target temp)
  -- `os.unlink` of the temporary file, whose own failure is ignored.
  unlink :
      (target temp : Option File)
      → Step old content (at Stage.cleaning target temp) (at Stage.failed target none)
  unlink_fails :
      (target temp : Option File)
      → Step old content (at Stage.cleaning target temp) (at Stage.failed target temp)
  -- A crash, at any point: a file that is on disk is as it was, and any other is anything.
  crash :
      (stage : Stage) (target temp target' temp' : Option File)
      → (is_durable target ≡ true → target' ≡ target)
      → Step old content (at stage target temp) (at Stage.crashed target' temp')
  -- A rename whose directory is not on disk may be lost.
  lose_rename :
      (target temp temp' : Option File)
      → Step old content (at Stage.published target temp) (at Stage.crashed old temp')

pub data Reach (old : Option File) (content : String) : Disk → Type 0 where
  before : Reach old content (at Stage.opening old none)
  step : (d e : Disk) → Reach old content d → Step old content d e → Reach old content e

-- The new file's bits: the destination's, or those of `mkstemp`.
abbrev pub final_mode : Option File → ℕ
final_mode none = private_mode
final_mode (some f) = f.mode

-- The file as it is meant to be.
abbrev pub written : Option File → String → Option File
written old content = some (record { content = content; mode = final_mode old; synced = true })

abbrev pub IsWhole : Option File → String → Disk → Type 0
IsWhole old content d = (d.target ≡ old) ⊎ (d.target ≡ written old content)

-- A temporary file with these parts.
abbrev IsTemp : Option File → (File → Type 0) → Type 0
IsTemp temp P = (f : File) → temp ≡ some f → P f

-- What holds at each stage.
abbrev IsStaged : Option File → String → Stage → Option File → Option File → Type 0
IsStaged old content Stage.opening target temp = target ≡ old
IsStaged old content Stage.writing target temp =
    (target ≡ old) × IsTemp temp λ f. f.mode ≡ private_mode
IsStaged old content Stage.flushed target temp =
    (target ≡ old) × IsTemp temp λ f. (f.mode ≡ private_mode) × (f.content ≡ content)
IsStaged old content Stage.on_disk target temp =
    (target ≡ old)
    × IsTemp temp λ f. (f.mode ≡ private_mode) × (f.content ≡ content) × (f.synced ≡ true)
IsStaged old content Stage.moded target temp =
    (target ≡ old) × IsTemp temp λ f. some f ≡ written old content
IsStaged old content _ target temp = (target ≡ old) ⊎ (target ≡ written old content)
