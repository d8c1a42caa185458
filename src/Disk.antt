-- ===== src/Disk.antt =====
-- The host's files, as the harness writes them and opens them to containers:
-- `makeContainerWritable`, `MakeContainerReadable` of internal/harness/compose.go, and the calls of
-- package os.
pub mod Modes
use e2e.Base.{
  ℕ, Bool, true, false, Option, none, some, List, [], ◌∷◌, ◌++◌, Text, lit, if◌then◌else◌,
}
use e2e.Base.Maps.{Map, lookup, insert}
use e2e.Run.{Run, done, fatal, ◌>>=◌, ◌>>◌, pure}

-- The contents of the files and the permission bits of files and directories, by path. The process's
-- umask is not applied.
pub record Disk : Type 0 where
  pub files : Map Text
  pub modes : Map ℕ

-- What the operating system lets the harness do, by path. `stat` says whether a path is a directory,
-- or nothing if the walk cannot look at it.
pub record Host : Type 0 where
  pub can_make : Text → Bool
  pub can_write : Text → Bool
  pub can_read : Text → Bool
  pub can_chmod : Text → Bool
  pub stat : Text → Option Bool

-- `filepath.Join` of a clean path and a name.
unfoldable pub join : Text → Text → Text
join dir name = dir ++ (lit "/" ++ name)

abbrev pub mode_600 : ℕ
mode_600 = 384

abbrev pub mode_644 : ℕ
mode_644 = 420

abbrev pub mode_666 : ℕ
mode_666 = 438

abbrev pub mode_755 : ℕ
mode_755 = 493

abbrev pub mode_777 : ℕ
mode_777 = 511

-- The bits of a new file or directory. One that is there keeps its own.
unfoldable pub create_mode : Text → ℕ → Map ℕ → Map ℕ
create_mode path mode modes = elim (lookup path modes) [
  | none ↦ insert path mode modes
  | some _ ↦ modes
]

module _ (host : Host) where
  -- `os.MkdirAll`, without the entries of the parents.
  unfoldable pub mkdir_all : Text → ℕ → Run Text Disk (Unit {0})
  mkdir_all path mode d =
      if host.can_make path
      then (done tt, record d { modes = create_mode path mode d.modes })
      else (fatal path, d)

  -- `os.WriteFile`
  unfoldable pub write_file : Text → Text → ℕ → Run Text Disk (Unit {0})
  write_file path content mode d =
      if host.can_write path
      then (
        done tt,
        record d { files = insert path content d.files; modes = create_mode path mode d.modes },
      )
      else (fatal path, d)

  -- `os.Chmod`
  unfoldable pub chmod : Text → ℕ → Run Text Disk (Unit {0})
  chmod path mode d =
      if host.can_chmod path
      then (done tt, record d { modes = insert path mode d.modes })
      else (fatal path, d)

  -- The function that `filepath.WalkDir` calls for each entry.
  unfoldable pub open_entry : ℕ → ℕ → Text → Run Text Disk (Unit {0})
  unfolding chmod
  open_entry dir_mode file_mode path d = elim (host.stat path) [
    | none ↦ (fatal path, d)
    | some is_dir ↦ chmod path (if is_dir then dir_mode else file_mode) d
  ]

  -- The walk over a tree, whose paths come in the order of the walk. It ends at the first error.
  unfoldable pub walk_dir : ℕ → ℕ → List Text → Run Text Disk (Unit {0})
  walk_dir dir_mode file_mode [] = pure tt
  walk_dir dir_mode file_mode (path ∷ tree) =
      open_entry dir_mode file_mode path >> walk_dir dir_mode file_mode tree

  -- `makeContainerWritable`
  unfoldable pub make_container_writable : List Text → Run Text Disk (Unit {0})
  make_container_writable tree = walk_dir mode_777 mode_666 tree

  -- `MakeContainerReadable`
  unfoldable pub make_container_readable : List Text → Run Text Disk (Unit {0})
  make_container_readable tree = walk_dir mode_755 mode_644 tree
