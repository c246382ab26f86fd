-- ===== src/Store/Disk.antt =====
-- The directory `dataDir`, and what store.go asks of the operating system. A transfer's directory is
-- a map from file names to contents. `Io` says which calls fail, and what a failed call leaves.
pub mod Keeps
pub mod Contents
use bitphase_file_share.Prelude.{
  ℕ, Bool, List, [], ◌∷◌, ◌++◌, Option, none, some, if◌then◌else◌, take, Text, bytes, Map, lookup,
  insert, delete, ℤ, Result, ok, err,
}
use bitphase_file_share.Strconv.{itoa}

abbrev pub Files : Type 0
Files = Map Text

abbrev pub Disk : Type 0
Disk = Map Files

-- os.WriteFile truncates and then writes, so a failed call may leave the first bytes.
pub data WriteOutcome : Type 0 where
  written : WriteOutcome
  refused : Text → WriteOutcome
  torn : ℕ → Text → WriteOutcome

-- os.RemoveAll stops at an error, and the files for which `keeps` holds are still there.
pub data RemoveOutcome : Type 0 where
  removed : RemoveOutcome
  stopped : (Text → Bool) → Text → RemoveOutcome

-- The outcome of each call on each path while one operation runs; a text is an error's message.
pub record Io : Type 0 where
  pub mkdir_error : Text → Option Text
  pub write_outcome : Text → Text → WriteOutcome
  pub rename_error : Text → Option Text
  pub read_error : Text → Text → Option Text
  pub list_error : Text → Option Text
  pub remove_outcome : Text → RemoveOutcome
  pub root_error : Option Text
  pub list_root_error : Option Text

abbrev pub not_exist : Text
not_exist = bytes "file does not exist"

abbrev pub Done : Type 0
Done = Result (Unit {0})

abbrev pub ensure_dir : Text → Disk → Option Files → Disk
ensure_dir dir d none = insert dir [] d
ensure_dir dir d (some files) = d

-- os.MkdirAll
unfoldable pub mkdir_all : Io → Text → Disk → Done × Disk
mkdir_all io dir d = elim (io.mkdir_error dir) [
  | some e ↦ (err e, d)
  | none ↦ (ok tt, ensure_dir dir d (lookup dir d))
]

abbrev pub put_file : Text → Text → Text → Files → Disk → Disk
put_file dir name content files d = insert dir (insert name content files) d

abbrev pub write_to : Text → Text → Text → Files → Disk → WriteOutcome → Done × Disk
write_to dir name content files d written = (ok tt, put_file dir name content files d)
write_to dir name content files d (refused e) = (err e, d)
write_to dir name content files d (torn n e) = (err e, put_file dir name (take n content) files d)

-- os.WriteFile
unfoldable pub write_file : Io → Text → Text → Text → Disk → Done × Disk
write_file io dir name content d = elim (lookup dir d) [
  | none ↦ (err not_exist, d)
  | some files ↦ write_to dir name content files d (io.write_outcome dir name)
]

abbrev pub rename_in : Text → Text → Text → Files → Disk → Option Text → Done × Disk
rename_in dir old new files d none = (err not_exist, d)
rename_in dir old new files d (some content) =
    (ok tt, insert dir (insert new content (delete old files)) d)

-- os.Rename of a file within a directory
unfoldable pub rename : Io → Text → Text → Text → Disk → Done × Disk
rename io dir old new d = elim (io.rename_error dir) [
  | some e ↦ (err e, d)
  | none ↦ elim (lookup dir d) [
    | none ↦ (err not_exist, d)
    | some files ↦ rename_in dir old new files d (lookup old files)
  ]
]

abbrev pub read_in : Text → Files → Result Text
read_in name files = elim (lookup name files) [ none ↦ err not_exist | some content ↦ ok content ]

-- os.ReadFile
unfoldable pub read_file : Io → Text → Text → Disk → Result Text
read_file io dir name d = elim (io.read_error dir name) [
  | some e ↦ err e
  | none ↦ elim (lookup dir d) [ none ↦ err not_exist | some files ↦ read_in name files ]
]

unfoldable pub retain : (Text → Bool) → Files → Files
retain keeps [] = []
retain keeps ((name, content) ∷ files) =
    let rest = retain keeps files in if keeps name then (name, content) ∷ rest else rest

abbrev pub remove_some : Text → (Text → Bool) → Disk → Option Files → Disk
remove_some dir keeps d none = d
remove_some dir keeps d (some files) = insert dir (retain keeps files) d

-- os.RemoveAll
unfoldable pub remove_all : Io → Text → Disk → Done × Disk
unfolding retain
remove_all io dir d = elim (io.remove_outcome dir) [
  | removed ↦ (ok tt, delete dir d)
  | stopped keeps e ↦ (err e, remove_some dir keeps d (lookup dir d))
]

abbrev pub meta_name : Text
meta_name = bytes "meta.json"

abbrev pub meta_tmp_name : Text
meta_tmp_name = bytes "meta.json.tmp"

abbrev pub chunk_suffix : Text
chunk_suffix = bytes ".chunk"

-- strconv.Itoa(index)+".chunk"
unfoldable pub chunk_name : ℤ → Text
unfolding itoa
chunk_name i = itoa i ++ chunk_suffix
