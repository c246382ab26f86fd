-- ===== src/Log.antt =====
-- logging.go: the log file that is rotated by size, and the settings of the log.
pub mod Bounds
pub mod Shift
pub mod Kept
pub mod Turn
pub mod Lossless
pub mod Ended
pub mod Opened
mod Examples
use bitphase_file_share.Prelude.{
  ℕ, zero, suc, ◌+◌, ◌-◌, ◌*◌, ◌%◌, ◌^◌, Bool, true, false, not, ◌&&◌, ◌||◌, [], ◌∷◌, ◌++◌, Option,
  none, some, ltb, if◌then◌else◌, length, take, Text, bytes, text_eq, Map, lookup, insert, delete,
  ℤ, pos, negsuc, ltb_ℤ, leb_ℤ, Result, ok, err,
}
use bitphase_file_share.Strconv.{itoa, atoi}

-- The directory of the log: the content of each file by its path.
abbrev pub Disk : Type 0
Disk = Map Text

-- Which calls fail while one operation runs. A write that fails has written its first bytes.
pub record Io : Type 0 where
  pub mkdir_error : Option Text
  pub open_error : Option Text
  pub stat_error : Option Text
  pub close_error : Option Text
  pub remove_error : Text → Option Text
  pub rename_error : Text → Option Text
  pub write_error : Option (ℕ × Text)

-- `is_open` is whether `f` has not been closed. No file is as long as 2^63 bytes, and so the sums of
-- `size` and the length of a line do not wrap.
pub record RotatingFile : Type 0 where
  pub path : Text
  pub max_bytes : ℤ
  pub max_files : ℤ
  pub is_open : Bool
  pub size : ℕ

-- A log file and the directory that it is in.
pub record Log : Type 0 where
  pub file : RotatingFile
  pub disk : Disk

abbrev pub content_of : Option Text → Text
content_of none = []
content_of (some b) = b

abbrev pub content : Text → Disk → Text
content name d = content_of (lookup name d)

-- os.OpenFile with O_CREATE and O_APPEND leaves a content that is there.
abbrev pub open_append : Text → Disk → Disk
open_append name d = insert name (content name d) d

-- os.Rename
pub data Renamed : Type 0 where
  renamed missing : Renamed
  denied : Text → Renamed

unfoldable pub rename : Io → Text → Text → Disk → Renamed × Disk
rename io from to d = elim (io.rename_error from) [
  | some e ↦ (denied e, d)
  | none ↦ elim (lookup from d) [
    | none ↦ (missing, d)
    | some b ↦ (renamed, insert to b (delete from d))
  ]
]

-- os.Remove; the caller drops the error.
unfoldable pub remove : Io → Text → Disk → Disk
remove io name d = elim (io.remove_error name) [ some e ↦ d | none ↦ delete name d ]

abbrev pub backup : Text → ℕ → Text
backup path i = path ++ bytes "." ++ itoa (pos i)

-- The loop from `i` down to 1.
unfoldable pub shift : Io → Text → ℕ → Disk → Disk
shift io path zero d = d
shift io path (suc i) d =
    shift io path i (rename io (backup path (suc i)) (backup path (suc (suc i))) d).1

-- Where the loop starts: one less than `max_files`.
abbrev pub first_shifted : ℤ → ℕ
first_shifted (pos n) = n - 1
first_shifted (negsuc n) = 0

abbrev pub already_closed : Text
already_closed = bytes "file already closed"

abbrev pub closed : Log → Log
closed s = record s { file = record s.file { is_open = false } }

-- `f` is closed after a Close that fails, too.
unfoldable pub close : Io → Log → Option Text × Log
close io s = if s.file.is_open then (io.close_error, closed s) else (some already_closed, s)

abbrev pub on_disk : Log → Disk → Log
on_disk s d = record s { disk = d }

-- The new file.
unfoldable pub reopen : Io → Log → Result (Unit {0}) × Log
reopen io s = elim io.open_error [
  | some e ↦ (err e, s)
  | none ↦ (
    ok tt,
    record {
      file = record s.file { is_open = true; size = 0 };
      disk = open_append s.file.path s.disk;
    },
  )
]

abbrev pub after_rename : Io → Log → Renamed × Disk → Result (Unit {0}) × Log
after_rename io s (denied e, d) = (err e, on_disk s d)
after_rename io s (missing, d) = reopen io (on_disk s d)
after_rename io s (renamed, d) = reopen io (on_disk s d)

-- The backups make room.
unfoldable pub make_room : Io → RotatingFile → Disk → Disk
make_room io r d =
    shift io r.path (first_shifted r.max_files)
      (remove io (r.path ++ bytes "." ++ itoa r.max_files) d)

abbrev pub after_close : Io → Option Text × Log → Result (Unit {0}) × Log
after_close io (some e, s) = (err e, s)
after_close io (none, s) =
    after_rename io s
      (rename io s.file.path (s.file.path ++ bytes ".1") (make_room io s.file s.disk))

unfoldable pub rotate : Io → Log → Result (Unit {0}) × Log
rotate io s = after_close io (close io s)

abbrev pub added : Text → Log → Log
added b s = record {
  file = record s.file { size = s.file.size + length b };
  disk = insert s.file.path (content s.file.path s.disk ++ b) s.disk;
}

-- How much was written, and the error.
abbrev pub Written : Type 0
Written = (ℕ × Option Text) × Log

abbrev pub append_open : Text → Log → Option (ℕ × Text) → Written
append_open p s none = ((length p, none), added p s)
append_open p s (some (n, e)) = ((length (take n p), some e), added (take n p) s)

unfoldable pub append : Io → Text → Log → Written
append io p s =
    if s.file.is_open then append_open p s io.write_error else ((0, some already_closed), s)

abbrev pub after_rotate : Io → Text → Result (Unit {0}) × Log → Written
after_rotate io p (err e, s) = ((0, some e), s)
after_rotate io p (ok _, s) = append io p s

abbrev pub is_full : RotatingFile → Text → Bool
is_full r p = ltb 0 r.size && ltb_ℤ r.max_bytes (pos (r.size + length p))

unfoldable pub write : Io → Text → Log → Written
write io p s = if is_full s.file p then after_rotate io p (rotate io s) else append io p s

unfoldable pub new_rotating_file : Io → Text → ℤ → ℤ → Disk → Result RotatingFile × Disk
new_rotating_file io path max_bytes max_files d = elim io.mkdir_error [
  | some e ↦ (err e, d)
  | none ↦ elim io.open_error [
    | some e ↦ (err e, d)
    | none ↦ elim io.stat_error [
      | some e ↦ (err e, open_append path d)
      | none ↦ (
        ok (record {
          path = path;
          max_bytes = max_bytes;
          max_files = max_files;
          is_open = true;
          size = length (content path d);
        }),
        open_append path d,
      )
    ]
  ]
]

-- `v` is the environment's value, which is empty if there is none.
unfoldable pub env_int : Text → ℤ → ℤ
env_int v default =
    if text_eq v []
    then default
    else elim (atoi v) [ none ↦ default | some n ↦ if leb_ℤ n (pos 0) then default else n ]

-- The 64-bit integer of these bits.
abbrev pub int64 : ℕ → ℤ
int64 n = let m = n % 2 ^ 64 in if ltb m (2 ^ 63) then pos m else negsuc (2 ^ 64 - 1 - m)

-- int64(maxMB)*1024*1024
unfoldable pub megabytes : ℤ → ℤ
megabytes (pos n) = int64 (n * 2 ^ 20)
megabytes (negsuc n) = int64 ((2 ^ 64 - (suc n) % 2 ^ 64) * 2 ^ 20)

-- Without a file the log goes to the standard output only.
abbrev pub or_stdout : Result RotatingFile × Disk → Option RotatingFile × Disk
or_stdout (err e, d) = (none, d)
or_stdout (ok r, d) = (some r, d)

-- The part of initLogging that opens the file. `join` is filepath.Join.
unfoldable pub open_log :
    (Text → Text → Text) → Io → (Text → Text) → Text → Disk → Option RotatingFile × Disk
open_log join io getenv service_name d =
    let dir = getenv (bytes "LOG_DIR") in
    if text_eq dir []
    then (none, d)
    else or_stdout (
        new_rotating_file io (join dir (service_name ++ bytes ".log"))
          (megabytes (env_int (getenv (bytes "LOG_MAX_MB")) (pos 20)))
          (env_int (getenv (bytes "LOG_MAX_FILES")) (pos 5)) d)
