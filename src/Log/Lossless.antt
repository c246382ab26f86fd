-- ===== src/Log/Lossless.antt =====
-- What a write does to the log.
use bitphase_file_share.Prelude.{
  ℕ, suc, ◌≡◌, ◌<◌, ◌^◌, refl, sym, ◌∙◌, ap, inl, inr, true, [], ◌++◌, none, arith, length,
  length-append, append_assoc, append-nil, text_eq_iff, Text, lookup-insert_self, lookup-insert,
  insert, if◌then◌else◌, Bool-cases,
}
use bitphase_file_share.Log.{
  Io, Log, content, content_of, backup, rotate, added, append, after_rotate, is_full, write,
  Written,
}
use bitphase_file_share.Log.Shift.{IsCalm}
use bitphase_file_share.Log.Kept.{backups, log_text, IsLive, backup-aside, backups-same}
use bitphase_file_share.Log.Turn.{turned, rotate-calm, turned-IsLive}

-- The line goes behind the others.
added-log_text : (n : ℕ) (p : Text) (s : Log) → log_text n (added p s) ≡ log_text n s ++ p
added-log_text n p s =
    let path = s.file.path in
    let now = content path s.disk ++ p in
    let same = backups-same path n s.disk (insert path now s.disk) (λ j low high.
      lookup-insert path (backup path j) now s.disk
      ∙ ground (
        arith,
        text_eq_iff path (backup path j),
        text_eq_iff (backup path j) path,
        backup-aside path j,
      )) in
    let here = lookup-insert_self path now s.disk in
    ap (λ o. backups path n (added p s).disk ++ content_of o) here
    ∙ ap (λ t. t ++ now) same
    ∙ sym (append_assoc (backups path n s.disk) (content path s.disk) p)

added-IsLive : (n : ℕ) (p : Text) (s : Log) → IsLive n s → IsLive n (added p s)
added-IsLive n p s live =
    let now = content s.file.path s.disk in
    record {
      opened = live.opened;
      counted = live.counted;
      sized =
          ap (λ o. length (content_of o)) (lookup-insert_self s.file.path (now ++ p) s.disk)
          ∙ omega (arith, length-append now p, live.sized);
    }

-- What a write drops: the oldest backup, if the file is full.
abbrev pub dropped : ℕ → Text → Log → Text
dropped n p s = if is_full s.file p then content (backup s.file.path n) s.disk else []

-- A write by which nothing but the oldest backup is lost.
pub record Keeps (n : ℕ) (p : Text) (s : Log) (r : Written) (lost : Text) : Type 0 where
  pub done : r.0 ≡ (length p, none)
  pub kept : log_text n s ++ p ≡ lost ++ log_text n r.1
  pub live : IsLive n r.1

module _ (io : Io) (calm : IsCalm io) where
  append-calm :
      (p : Text) (s : Log) → s.file.is_open ≡ true → append io p s ≡ ((length p, none), added p s)
  unfolding append
  append-calm p s up = simp (up, calm.writes, append) refl

  full-Keeps :
      (n : ℕ) (p : Text) (s : Log)
      → suc n < 2 ^ 63
      → IsLive (suc n) s
      → Keeps
          (suc n)
          p
          s
          (after_rotate io p (rotate io s))
          (content (backup s.file.path (suc n)) s.disk)
  unfolding backups
  full-Keeps n p s small live =
      let path = s.file.path in
      let (live', behind, blank) = turned-IsLive io calm n small s live in
      let last = content (backup path (suc n)) s.disk in
      let others = backups path n s.disk in
      let now = content path s.disk in
      let whole : log_text (suc n) (turned io s) ≡ others ++ now =
        rw (behind, blank) (append-nil (others ++ now)) in
      rw (rotate-calm io calm n small s live.opened, append-calm p (turned io s) refl)
        (record {
          done = refl;
          kept =
              ap (λ t. t ++ p) (append_assoc last others now)
              ∙ append_assoc last (others ++ now) p
              ∙ ap (λ t. last ++ t)
                  (ap (λ t. t ++ p) (sym whole) ∙ sym (added-log_text (suc n) p (turned io s)));
          live = added-IsLive (suc n) p (turned io s) live';
        })

  -- On a disk that refuses nothing a line is written whole, and the files of the log, the backups from
  -- the oldest to the newest and then the file, hold what they held with the line behind it, less the
  -- oldest backup if the file was full. The log is open with at least one backup, and its size is
  -- right; both hold of it afterwards too.
  pub write-Keeps :
      (n : ℕ) (p : Text) (s : Log)
      → suc n < 2 ^ 63
      → IsLive (suc n) s
      → Keeps (suc n) p s (write io p s) (dropped (suc n) p s)
  unfolding write
  write-Keeps n p s small live = elim (Bool-cases (is_full s.file p)) [
    | inl full ↦ simp (full, write) (full-Keeps n p s small live)
    | inr room ↦
        simp (room, write)
          (rw (append-calm p s live.opened) (record {
            done = refl;
            kept = sym (added-log_text (suc n) p s);
            live = added-IsLive (suc n) p s live;
          }))
  ]
