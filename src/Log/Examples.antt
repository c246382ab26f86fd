-- ===== src/Log/Examples.antt =====
-- The theorems on the log at a small directory.
use bitphase_file_share.Prelude.{
  ℕ, suc, ◌*◌, ◌^◌, ◌++◌, if◌then◌else◌, ◌<ℤ◌, ◌≡◌, refl, true, List, [], ◌∷◌, none, some, arith,
  lookup, insert, delete, text_eq, Text, bytes, pos, err,
}
use bitphase_file_share.Strconv.{itoa, digits_of, atoi, parse_unsigned, parse_digits}
use bitphase_file_share.Log.{
  Disk, Io, RotatingFile, Log, already_closed, rotate, close, write, rename, remove, shift,
  make_room, reopen, open_log, new_rotating_file, env_int, megabytes,
}
use bitphase_file_share.Log.Bounds.{AreBounded}
use bitphase_file_share.Log.Bounds.Rotation.{IsBounded}
use bitphase_file_share.Log.Bounds.Writes.{AreShort, write_all, write_all-IsBounded}
use bitphase_file_share.Log.Shift.{IsCalm}
use bitphase_file_share.Log.Kept.{IsLive}
use bitphase_file_share.Log.Lossless.{Keeps, dropped, write-Keeps}
use bitphase_file_share.Log.Opened.{IsOpened, open_log-IsOpened}
use bitphase_file_share.Log.Ended.{rotate-fails}

abbrev calm : Io
calm = record {
  mkdir_error = none;
  open_error = none;
  stat_error = none;
  close_error = none;
  remove_error = λ name. none;
  rename_error = λ name. none;
  write_error = none;
}

calm-IsCalm : IsCalm calm
calm-IsCalm = record {
  opens = refl;
  closes = refl;
  removes = λ name. refl;
  renames = λ name. refl;
  writes = refl;
}

-- A disk on which no file is opened.
abbrev full_disk : Io
full_disk = record calm { open_error = some (bytes "no space") }

abbrev before : Disk
before = (bytes "log", bytes "cc") ∷ (bytes "log.1", bytes "bb") ∷ (bytes "log.2", bytes "aa") ∷ []

-- Two backups, and a limit of four bytes.
abbrev small_log : Log
small_log = record {
  file = record {
    path = bytes "log";
    max_bytes = pos 4;
    max_files = pos 2;
    is_open = true;
    size = 2;
  };
  disk = before;
}

small_log-IsLive : IsLive 2 small_log
unfolding lookup text_eq
small_log-IsLive = record { opened = refl; counted = refl; sized = refl }

write-Keeps_example :
    Keeps 2
      (bytes "ddd")
      small_log
      (write calm (bytes "ddd") small_log)
      (dropped 2 (bytes "ddd") small_log)
write-Keeps_example =
    write-Keeps calm calm-IsCalm 1 (bytes "ddd") small_log (omega arith) small_log-IsLive

-- The oldest backup is what is lost.
oldest_dropped : dropped 2 (bytes "ddd") small_log ≡ bytes "aa"
unfolding lookup text_eq itoa digits_of
oldest_dropped = refl

before-AreBounded : AreBounded 4 before
unfolding lookup
before-AreBounded name = ground arith

small_log-IsBounded : IsBounded 4 small_log
unfolding lookup text_eq
small_log-IsBounded = record { bounded = before-AreBounded; sized = λ up. refl; limited = refl }

abbrev lines : List (Io × Text)
lines = (calm, bytes "ddd") ∷ (full_disk, bytes "ee") ∷ (calm, bytes "ff") ∷ []

lines-AreShort : AreShort 4 lines
lines-AreShort = (omega arith, (omega arith, (omega arith, tt)))

write_all-IsBounded_example : IsBounded 4 (write_all lines small_log)
write_all-IsBounded_example =
    write_all-IsBounded 4 lines small_log lines-AreShort small_log-IsBounded

not_opened : (rotate full_disk small_log).0 ≡ err (bytes "no space")
unfolding rotate close make_room shift remove rename reopen lookup insert delete text_eq itoa
    digits_of
not_opened = refl

rotate-fails_example :
    (write_all lines (rotate full_disk small_log).1 ≡ (rotate full_disk small_log).1)
    × (write calm (bytes "gg") (write_all lines (rotate full_disk small_log).1)
        ≡ ((0, some already_closed), (rotate full_disk small_log).1))
rotate-fails_example =
    rotate-fails full_disk small_log (bytes "no space") lines calm (bytes "gg") not_opened

-- One megabyte, and the default number of backups.
abbrev settings : Text → Text
settings name =
    if text_eq name (bytes "LOG_DIR")
    then bytes "/var/log"
    else if text_eq name (bytes "LOG_MAX_MB")
    then bytes "1"
    else []

abbrev slash : Text → Text → Text
slash dir name = dir ++ bytes "/" ++ name

abbrev opened_file : RotatingFile
opened_file = record {
  path = bytes "/var/log/file-share.log";
  max_bytes = pos (2 ^ 20);
  max_files = pos 5;
  is_open = true;
  size = 2;
}

abbrev found : Disk
found = (bytes "/var/log/file-share.log", bytes "zz") ∷ []

mb_small : env_int (settings (bytes "LOG_MAX_MB")) (pos 20) <ℤ pos (2 ^ 43)
unfolding env_int text_eq atoi parse_unsigned parse_digits
mb_small = ground arith

was_opened : open_log slash calm settings (bytes "file-share") found ≡ (some opened_file, found)
unfolding open_log new_rotating_file env_int megabytes text_eq atoi parse_unsigned parse_digits
    lookup insert
was_opened = refl

open_log-IsOpened_example :
    IsOpened
      (bytes "/var/log/file-share.log")
      (env_int (settings (bytes "LOG_MAX_MB")) (pos 20))
      (env_int (settings (bytes "LOG_MAX_FILES")) (pos 5))
      found
      opened_file
      found
    × ((mb : ℕ) × (opened_file.max_bytes ≡ pos (suc mb * 2 ^ 20)))
unfolding text_eq
open_log-IsOpened_example =
    open_log-IsOpened slash calm settings (bytes "file-share") found opened_file found mb_small
      was_opened
