-- ===== src/Log/Opened.antt =====
-- The log as initLogging opens it.
use bitphase_file_share.Prelude.{
  ℕ, zero, suc, ◌≡◌, ◌<◌, ◌*◌, ◌^◌, refl, ◌∙◌, ap, inl, inr, true, [], ◌++◌, some, arith, length,
  Text, bytes, text_eq, text_eq_iff, lookup-insert, ℤ, pos, negsuc, ◌<ℤ◌, Result, ok, err,
  Bool-cases, Option-cases,
}
use bitphase_file_share.Strconv.{atoi}
use bitphase_file_share.Log.{
  Disk, Io, RotatingFile, content, open_append, new_rotating_file, env_int, megabytes, or_stdout,
  open_log,
}
use bitphase_file_share.Log.Kept.{IsLive}

-- A setting is positive if its default is.
pub env_int-positive : (v : Text) (default : ℤ) → pos 0 <ℤ default → pos 0 <ℤ env_int v default
unfolding env_int
env_int-positive v default h = elim (Option-cases (atoi v)) [
  | inl bad ↦ ground (arith, h, bad)
  | inr (n, good) ↦ ground (arith, h, good)
]

megabytes-fits : (n : ℕ) → n < 2 ^ 43 → megabytes (pos n) ≡ pos (n * 2 ^ 20)
unfolding megabytes
megabytes-fits n h = ground (arith, h)

-- The file that is opened, and what it was opened on.
pub record IsOpened (name : Text) (mb files : ℤ) (d : Disk) (r : RotatingFile) (d' : Disk)
    : Type 0 where
  pub live : (n : ℕ) × IsLive (suc n) (record { file = r; disk = d' })
  pub named : r.path ≡ name
  pub limited : r.max_bytes ≡ megabytes mb
  pub counted : r.max_files ≡ files
  pub kept : (other : Text) → content other d' ≡ content other d

positive-suc : (z : ℤ) → pos 0 <ℤ z → (n : ℕ) × (z ≡ pos (suc n))
positive-suc (pos zero) h = absurd (ground (arith, h))
positive-suc (pos (suc n)) h = (n, refl)
positive-suc (negsuc n) h = absurd (ground (arith, h))

open_append-same :
    (name other : Text) (d : Disk) → content other (open_append name d) ≡ content other d
open_append-same name other d =
    ground (arith, lookup-insert name other (content name d) d, text_eq_iff name other)

new_rotating_file-IsOpened :
    (io : Io) (name : Text) (mb files : ℤ) (d : Disk) (r : RotatingFile) (d' : Disk)
    → pos 0 <ℤ files
    → new_rotating_file io name (megabytes mb) files d ≡ (ok r, d')
    → IsOpened name mb files d r d'
unfolding new_rotating_file
new_rotating_file-IsOpened io name mb files d r d' some_files h =
    elim (Option-cases io.mkdir_error) [
      | inr (e, no_dir) ↦ cc (rw (no_dir, new_rotating_file) at h)
      | inl dir ↦ elim (Option-cases io.open_error) [
        | inr (e, no_file) ↦ cc (rw (dir, no_file, new_rotating_file) at h)
        | inl file ↦ elim (Option-cases io.stat_error) [
          | inr (e, no_stat) ↦ cc (rw (dir, file, no_stat, new_rotating_file) at h)
          | inl stat ↦
              let opened = rw (dir, file, stat, new_rotating_file) at h in
              let one = ap (λ x. elim x.0 [ ok y ↦ y | err e ↦ r ]) opened in
              let two = ap (λ x. x.1) opened in
              let (n, least) = positive-suc files some_files in
              rw (one, two) at (IsOpened-made n least)
        ]
      ]
    ]
  where
    made : RotatingFile
    made = record {
      path = name;
      max_bytes = megabytes mb;
      max_files = files;
      is_open = true;
      size = length (content name d);
    }

    IsOpened-made :
        (n : ℕ) → files ≡ pos (suc n) → IsOpened name mb files d made (open_append name d)
    IsOpened-made n least = record {
      live = (
        n,
        record {
          opened = refl;
          counted = least;
          sized = ap (λ (t : Text). length t) (open_append-same name name d);
        },
      );
      named = refl;
      limited = refl;
      counted = refl;
      kept = λ other. open_append-same name other d;
    }

-- A log file that initLogging opens is in the directory of the settings under the service's name; it
-- is open, with at least one backup and the right size; its limit is a positive number of megabytes;
-- and no file has lost anything. The setting for the megabytes is below 2^43.
pub open_log-IsOpened :
    (join : Text → Text → Text) (io : Io) (getenv : Text → Text) (service : Text) (d : Disk)
    (r : RotatingFile) (d' : Disk)
    → env_int (getenv (bytes "LOG_MAX_MB")) (pos 20) <ℤ pos (2 ^ 43)
    → open_log join io getenv service d ≡ (some r, d')
    → IsOpened
        (join (getenv (bytes "LOG_DIR")) (service ++ bytes ".log"))
        (env_int (getenv (bytes "LOG_MAX_MB")) (pos 20))
        (env_int (getenv (bytes "LOG_MAX_FILES")) (pos 5))
        d
        r
        d'
      × ((mb : ℕ) × (r.max_bytes ≡ pos (suc mb * 2 ^ 20)))
unfolding open_log
open_log-IsOpened join io getenv service d r d' small h =
    elim (Bool-cases (text_eq (getenv (bytes "LOG_DIR")) [])) [
      | inl unset ↦ cc (rw (unset, open_log) at h)
      | inr set ↦
          let name = join (getenv (bytes "LOG_DIR")) (service ++ bytes ".log") in
          let mb = env_int (getenv (bytes "LOG_MAX_MB")) (pos 20) in
          let files = env_int (getenv (bytes "LOG_MAX_FILES")) (pos 5) in
          let made =
            or_stdout-some (new_rotating_file io name (megabytes mb) files d) r d'
              (rw (set, open_log) at h) in
          let opened =
            new_rotating_file-IsOpened io name mb files d r d'
              (env_int-positive (getenv (bytes "LOG_MAX_FILES")) (pos 5) (ground arith)) made in
          let (n, e) =
            positive-suc mb
              (env_int-positive (getenv (bytes "LOG_MAX_MB")) (pos 20) (ground arith)) in
          (
            opened,
            (
              n,
              opened.limited ∙ ap megabytes e ∙ megabytes-fits (suc n) (ground (arith, e, small)),
            ),
          )
    ]
  where
    or_stdout-some :
        (x : Result RotatingFile × Disk) (r : RotatingFile) (d' : Disk)
        → or_stdout x ≡ (some r, d')
        → x ≡ (ok r, d')
    or_stdout-some (err e, d) r d' h = cc
    or_stdout-some (ok r', d) r d' h = ground (arith, h)
