-- ===== src/Log/Bounds/Rotation.antt =====
-- A rotation keeps the log within its limit.
use bitphase_file_share.Prelude.{
  ℕ, ◌≡◌, refl, ap, inl, inr, true, false, ◌∷◌, ◌++◌, Option, none, some, arith, length,
  length-append, Text, bytes, text_eq, text_eq_iff, lookup, delete, lookup-insert,
  lookup-delete_self, pos, ok, Bool-cases, Option-cases,
}
use bitphase_file_share.Strconv.{itoa}
use bitphase_file_share.Log.Bounds.{
  AreBounded, insert-AreBounded, rename-AreBounded, remove-AreBounded, shift-AreBounded,
}
use bitphase_file_share.Log.{
  Disk, Io, RotatingFile, Log, content, Renamed, renamed, missing, denied, rename, first_shifted,
  closed, close, reopen, after_rename, make_room, after_close, rotate, on_disk,
}

-- Every file of the log is within the limit, and the size of an open one is known.
pub record IsBounded (limit : ℕ) (s : Log) : Type 0 where
  pub bounded : AreBounded limit s.disk
  pub sized : s.file.is_open ≡ true → length (content s.file.path s.disk) ≡ s.file.size
  pub limited : s.file.max_bytes ≡ pos limit

pub text_eq-suffix : (path : Text) (c : ℕ) (s : Text) → text_eq (path ++ c ∷ s) path ≡ false
text_eq-suffix path c s = ground (
  arith,
  text_eq_iff (path ++ c ∷ s) path,
  ap (λ (t : Text). length t) {x = path ++ c ∷ s} {y = path},
  length-append path (c ∷ s),
)

-- What a rename of a file leaves under its name, unless it is refused.
abbrev Leaves : Text → Renamed × Disk → Type 0
Leaves name (denied e, d) = Unit
Leaves name (missing, d) = lookup name d ≡ none
Leaves name (renamed, d) = lookup name d ≡ none

rename-Leaves :
    (io : Io) (from to : Text) (d : Disk)
    → text_eq to from ≡ false
    → Leaves from (rename io from to d)
unfolding rename
rename-Leaves io from to d ne = elim (Option-cases (io.rename_error from)) [
  | inr (e, refused) ↦ rw (refused, rename) tt
  | inl calm ↦ elim (Option-cases (lookup from d)) [
    | inl gone ↦ rw (calm, gone, rename) gone
    | inr (b, here) ↦
        rw (calm, here, rename)
          (rw (lookup-insert to from b (delete from d), ne) (lookup-delete_self from d))
  ]
]

-- A rotation that succeeds leaves an empty file.
reopen-size : (io : Io) (s : Log) → (reopen io s).0 ≡ ok tt → (reopen io s).1.file.size ≡ 0
unfolding reopen
reopen-size io s h = ground (arith, h)

after_rename-size :
    (io : Io) (s : Log) (r : Renamed × Disk)
    → (after_rename io s r).0 ≡ ok tt
    → (after_rename io s r).1.file.size ≡ 0
after_rename-size io s (denied e, d) h = cc
after_rename-size io s (missing, d) h = reopen-size io (on_disk s d) h
after_rename-size io s (renamed, d) h = reopen-size io (on_disk s d) h

after_close-size :
    (io : Io) (c : Option Text × Log)
    → (after_close io c).0 ≡ ok tt
    → (after_close io c).1.file.size ≡ 0
after_close-size io (some e, s) h = cc
after_close-size io (none, s) h = after_rename-size io s _ h

pub rotate-size : (io : Io) (s : Log) → (rotate io s).0 ≡ ok tt → (rotate io s).1.file.size ≡ 0
unfolding rotate
rotate-size io s h = after_close-size io (close io s) h

module _ (limit : ℕ) where
  reopen-IsBounded :
      (io : Io) (s : Log)
      → IsBounded limit s
      → lookup s.file.path s.disk ≡ none
      → IsBounded limit (reopen io s).1
  unfolding reopen
  reopen-IsBounded io s h gone = elim (Option-cases io.open_error) [
    | inr (e, refused) ↦ rw (refused, reopen) h
    | inl calm ↦
        rw (calm, reopen)
          (record {
            bounded =
                insert-AreBounded limit s.file.path _ s.disk (h.bounded s.file.path) h.bounded;
            sized = λ e. ground (
              arith,
              lookup-insert s.file.path s.file.path (content s.file.path s.disk) s.disk,
              gone,
            );
            limited = h.limited;
          })
  ]

  after_rename-IsBounded :
      (io : Io) (s : Log) (r : Renamed × Disk)
      → s.file.is_open ≡ false
      → s.file.max_bytes ≡ pos limit
      → AreBounded limit r.1
      → Leaves s.file.path r
      → IsBounded limit (after_rename io s r).1
  after_rename-IsBounded io s (denied e, d) shut max h left = record {
    bounded = h;
    sized = λ e. ground (arith, shut, e);
    limited = max;
  }
  after_rename-IsBounded io s (missing, d) shut max h left =
      reopen-IsBounded io (on_disk s d)
        (record { bounded = h; sized = λ e. ground (arith, shut, e); limited = max }) left
  after_rename-IsBounded io s (renamed, d) shut max h left =
      reopen-IsBounded io (on_disk s d)
        (record { bounded = h; sized = λ e. ground (arith, shut, e); limited = max }) left

  make_room-AreBounded :
      (io : Io) (r : RotatingFile) (d : Disk)
      → AreBounded limit d
      → AreBounded limit (make_room io r d)
  unfolding make_room
  make_room-AreBounded io r d h =
      shift-AreBounded limit io r.path (first_shifted r.max_files) _
        (remove-AreBounded limit io (r.path ++ bytes "." ++ itoa r.max_files) d h)

  after_close-IsBounded :
      (io : Io) (s : Log) (e : Option Text)
      → s.file.is_open ≡ false
      → IsBounded limit s
      → IsBounded limit (after_close io (e, s)).1
  after_close-IsBounded io s (some e) shut h = h
  after_close-IsBounded io s none shut h =
      let room = make_room io s.file s.disk in
      let to = s.file.path ++ bytes ".1" in
      after_rename-IsBounded io s (rename io s.file.path to room) shut h.limited
        (rename-AreBounded limit io s.file.path to room
          (make_room-AreBounded io s.file s.disk h.bounded))
        (rename-Leaves io s.file.path to room (text_eq-suffix s.file.path _ _))

  pub rotate-IsBounded : (io : Io) (s : Log) → IsBounded limit s → IsBounded limit (rotate io s).1
  unfolding rotate close
  rotate-IsBounded io s h = elim (Bool-cases s.file.is_open) [
    | inl up ↦
        rw (up, close)
          (after_close-IsBounded io (closed s) io.close_error refl
            (record { bounded = h.bounded; sized = λ e. cc; limited = h.limited }))
    | inr down ↦
        rw (down, close) (record { bounded = h.bounded; sized = λ e. cc; limited = h.limited })
  ]
