-- ===== src/Log/Bounds/Writes.antt =====
-- A write keeps the log within its limit.
use bitphase_file_share.Prelude.{
  ℕ, ◌≡◌, ◌≤◌, ◌+◌, refl, ◌∙◌, ap, true, List, [], ◌∷◌, ◌++◌, Option, none, some, arith, length,
  take, length-append, length-take, Text, lookup, insert, lookup-insert_self, Result, ok, err,
  either_branch,
}
use bitphase_file_share.Log.Bounds.Rotation.{IsBounded, rotate-size, rotate-IsBounded}
use bitphase_file_share.Log.Bounds.{insert-AreBounded, insert-AreBounded}
use bitphase_file_share.Log.{
  Io, Log, content, content_of, rotate, added, append, after_rotate, append_open, is_full, write,
  Written,
}

module _ (limit : ℕ) where
  -- What append adds is at most the line.
  added-IsBounded :
      (b : Text) (s : Log)
      → s.file.is_open ≡ true
      → s.file.size + length b ≤ limit
      → IsBounded limit s
      → IsBounded limit (added b s)
  added-IsBounded b s up fits h =
      let now = content s.file.path s.disk in
      let here : lookup s.file.path (insert s.file.path (now ++ b) s.disk) ≡ some (now ++ b) =
        lookup-insert_self s.file.path (now ++ b) s.disk in
      let long : length (now ++ b) ≡ s.file.size + length b =
        omega (arith, length-append now b, h.sized up) in
      record {
        bounded =
            insert-AreBounded limit s.file.path (now ++ b) s.disk (omega (arith, long, fits))
              h.bounded;
        sized = λ e. ap (λ o. length (content_of o)) here ∙ long;
        limited = h.limited;
      }

  append_open-IsBounded :
      (p : Text) (s : Log) (o : Option (ℕ × Text))
      → s.file.is_open ≡ true
      → s.file.size + length p ≤ limit
      → IsBounded limit s
      → IsBounded limit (append_open p s o).1
  append_open-IsBounded p s none up fits h = added-IsBounded p s up fits h
  append_open-IsBounded p s (some (n, e)) up fits h =
      added-IsBounded (take n p) s up (omega (arith, fits, length-take n p)) h

  append-IsBounded :
      (io : Io) (p : Text) (s : Log)
      → (s.file.is_open ≡ true → s.file.size + length p ≤ limit)
      → IsBounded limit s
      → IsBounded limit (append io p s).1
  unfolding append
  append-IsBounded io p s fits h =
      either_branch (λ (r : Written). IsBounded limit r.1) s.file.is_open _ _
        (λ up. append_open-IsBounded p s io.write_error up (fits up) h) (λ down. h)

  after_rotate-IsBounded :
      (io : Io) (p : Text) (r : Result (Unit {0}) × Log)
      → length p ≤ limit
      → (r.0 ≡ ok tt → r.1.file.size ≡ 0)
      → IsBounded limit r.1
      → IsBounded limit (after_rotate io p r).1
  after_rotate-IsBounded io p (err e, s) short fresh h = h
  after_rotate-IsBounded io p (ok u, s) short fresh h =
      append-IsBounded io p s (λ up. omega (arith, fresh refl, short)) h

  pub write-IsBounded :
      (io : Io) (p : Text) (s : Log)
      → length p ≤ limit
      → IsBounded limit s
      → IsBounded limit (write io p s).1
  unfolding write
  write-IsBounded io p s short h =
      either_branch (λ (r : Written). IsBounded limit r.1) (is_full s.file p) _ _
        (λ full.
          after_rotate-IsBounded io p (rotate io s) short (rotate-size io s)
            (rotate-IsBounded limit io s h))
        (λ room. append-IsBounded io p s (λ up. ground (arith, room, h.limited, short)) h)

-- The lines that are written, each with what fails at its time.
abbrev pub write_all : List (Io × Text) → Log → Log
write_all [] s = s
write_all ((io, p) ∷ ps) s = write_all ps (write io p s).1

abbrev pub AreShort : ℕ → List (Io × Text) → Type 0
AreShort limit [] = Unit
AreShort limit ((io, p) ∷ ps) = (length p ≤ limit) × AreShort limit ps

-- Whatever calls fail while lines within the limit are written, no file of the directory gets longer
-- than the limit, and while the log is open its size is the length of its file. At the start no file
-- is longer and the size is right.
pub write_all-IsBounded :
    (limit : ℕ) (ps : List (Io × Text)) (s : Log)
    → AreShort limit ps
    → IsBounded limit s
    → IsBounded limit (write_all ps s)
write_all-IsBounded limit [] s short h = h
write_all-IsBounded limit ((io, p) ∷ ps) s (short, more) h =
    write_all-IsBounded limit ps (write io p s).1 more (write-IsBounded limit io p s short h)
