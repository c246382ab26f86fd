-- ===== src/Log/Ended.antt =====
-- What ends a log.
use bitphase_file_share.Prelude.{
  ◌≡◌, refl, ◌∙◌, ap, inl, inr, false, List, [], ◌∷◌, Option, none, some, arith, Text, err,
  Option-cases,
}
use bitphase_file_share.Log.{
  Disk, Io, Log, Renamed, renamed, missing, denied, close, already_closed, reopen, after_rename,
  after_close, rotate, append, write, on_disk,
}
use bitphase_file_share.Log.Bounds.Writes.{write_all}

-- The file is not open any more.
reopen-error :
    (io : Io) (s : Log) (e : Text)
    → (reopen io s).0 ≡ err e
    → (reopen io s).1.file.is_open ≡ s.file.is_open
unfolding reopen
reopen-error io s e h = elim (Option-cases io.open_error) [
  | inl calm ↦ cc (rw (calm, reopen) at h)
  | inr (e', refused) ↦ rw (refused, reopen) refl
]

after_rename-error :
    (io : Io) (s : Log) (r : Renamed × Disk) (e : Text)
    → s.file.is_open ≡ false
    → (after_rename io s r).0 ≡ err e
    → (after_rename io s r).1.file.is_open ≡ false
after_rename-error io s (denied m, d) e shut h = shut
after_rename-error io s (missing, d) e shut h = reopen-error io (on_disk s d) e h ∙ shut
after_rename-error io s (renamed, d) e shut h = reopen-error io (on_disk s d) e h ∙ shut

close-error : (io : Io) (s : Log) → (close io s).1.file.is_open ≡ false
unfolding close
close-error io s = ground arith

after_close-error :
    (io : Io) (c : Option Text × Log) (e : Text)
    → c.1.file.is_open ≡ false
    → (after_close io c).0 ≡ err e
    → (after_close io c).1.file.is_open ≡ false
after_close-error io (some m, s) e shut h = shut
after_close-error io (none, s) e shut h = after_rename-error io s _ e shut h

-- A closed log writes nothing.
write-closed :
    (io : Io) (p : Text) (s : Log)
    → s.file.is_open ≡ false
    → write io p s ≡ ((0, some already_closed), s)
unfolding write rotate close append
write-closed io p s shut = ground (arith, shut)

write_all-closed : (ps : List (Io × Text)) (s : Log) → s.file.is_open ≡ false → write_all ps s ≡ s
write_all-closed [] s shut = refl
write_all-closed ((io, p) ∷ ps) s shut =
    ap (λ r. write_all ps r.1) (write-closed io p s shut) ∙ write_all-closed ps s shut

-- After one rotation that fails, for whatever reason, the log is at its end: each line that is
-- written later, whatever the disk then does, is refused, and nothing in the directory changes.
pub rotate-fails :
    (io : Io) (s : Log) (e : Text) (later : List (Io × Text)) (last : Io) (p : Text)
    → (rotate io s).0 ≡ err e
    → (write_all later (rotate io s).1 ≡ (rotate io s).1)
      × (write last p (write_all later (rotate io s).1)
          ≡ ((0, some already_closed), (rotate io s).1))
unfolding rotate
rotate-fails io s e later last p h =
    let shut : (rotate io s).1.file.is_open ≡ false =
      after_close-error io (close io s) e (close-error io s) h in
    let still = write_all-closed later (rotate io s).1 shut in
    (still, ap (λ t. write last p t) still ∙ write-closed last p (rotate io s).1 shut)
