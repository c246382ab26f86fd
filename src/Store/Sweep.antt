-- ===== src/Store/Sweep.antt =====
-- The TTL sweep removes the expired transfers and no others.
use bitphase_file_share.Prelude.{
  ℕ, ◌-◌, ◌≡◌, refl, ◌∙◌, Bool, true, false, ◌||◌, List, [], ◌∷◌, Option, none, some, arith,
  if◌then◌else◌, ltb, Text, text_eq, text_eq_iff, Map, lookup, lookup-delete, IsDistinct,
  Bool-cases, inl, inr,
}
use bitphase_file_share.Store.Meta.{TransferMeta}
use bitphase_file_share.Store.Disk.{Io, remove_all, removed}
use bitphase_file_share.Store.Disk.Contents.{
  content_at, content_at-remove_all, content_at-remove_all_ne,
}
use bitphase_file_share.Store.Ops.{Store, delete_transfer, delete_all, expired_ids, sweep}

contains : Text → List Text → Bool
contains id [] = false
contains id (j ∷ ids) = text_eq j id || contains id ids

lookup-delete_all :
    (io : Io) (ids : List Text) (id : Text) (s : Store)
    → (lookup id (delete_all io ids s).meta ≡ (if contains id ids then none else lookup id s.meta))
      × (lookup id (delete_all io ids s).received
          ≡ (if contains id ids then none else lookup id s.received))
unfolding delete_all delete_transfer contains
lookup-delete_all io [] id s = (refl, refl)
lookup-delete_all io (j ∷ ids) id s = ground (
  arith,
  lookup-delete_all io ids id (delete_transfer io j s).1,
  lookup-delete j id s.meta,
  lookup-delete j id s.received,
)

content_at-delete_all_ne :
    (io : Io) (ids : List Text) (id file : Text) (s : Store)
    → contains id ids ≡ false
    → content_at id file (delete_all io ids s).disk ≡ content_at id file s.disk
unfolding delete_all delete_transfer contains
content_at-delete_all_ne io [] id file s h = refl
content_at-delete_all_ne io (j ∷ ids) id file s h =
    content_at-delete_all_ne io ids id file (delete_transfer io j s).1 (ground arith)
    ∙ content_at-remove_all_ne io j id file s.disk (ground arith)

emptied :
    (io : Io) (j id file : Text) (s : Store)
    → j ≡ id
    → io.remove_outcome id ≡ removed
    → content_at id file (remove_all io j s.disk).1 ≡ none
emptied io j id file s e gone = rw e (content_at-remove_all io id file s.disk gone)

content_at-delete_all :
    (io : Io) (ids : List Text) (id file : Text) (s : Store)
    → io.remove_outcome id ≡ removed
    → contains id ids ≡ true
    → content_at id file (delete_all io ids s).disk ≡ none
unfolding delete_all delete_transfer contains
content_at-delete_all io [] id file s gone h = cc
content_at-delete_all io (j ∷ ids) id file s gone h = elim (Bool-cases (contains id ids)) [
  | inl again ↦ content_at-delete_all io ids id file (delete_transfer io j s).1 gone again
  | inr last ↦
      content_at-delete_all_ne io ids id file (delete_transfer io j s).1 last
      ∙ emptied io j id file s ((text_eq_iff j id).0 (ground arith)) gone
]

contains-expired_ids :
    (cutoff : ℕ) (id : Text) (meta : Map TransferMeta)
    → IsDistinct meta
    → contains id (expired_ids cutoff meta)
      ≡ elim (lookup id meta) [ none ↦ false | some m ↦ ltb m.touched_at cutoff ]
unfolding contains expired_ids lookup
contains-expired_ids cutoff id [] d = refl
contains-expired_ids cutoff id ((j, m) ∷ meta) (fresh, d) =
    ground (arith, contains-expired_ids cutoff id meta d, text_eq_iff j id)

-- A transfer is expired when it was not touched for longer than the TTL.
abbrev pub is_expired : ℕ → ℕ → TransferMeta → Bool
is_expired now ttl m = ltb m.touched_at (now - ttl)

abbrev pub unexpired : ℕ → ℕ → Option TransferMeta → Option TransferMeta
unexpired now ttl none = none
unexpired now ttl (some m) = if is_expired now ttl m then none else some m

module _ (io : Io) (now : ℕ) (s : Store) (d : IsDistinct s.meta) (id : Text) where
  expired_iff :
      contains id (expired_ids (now - s.ttl) s.meta)
      ≡ elim (lookup id s.meta) [ none ↦ false | some m ↦ ltb m.touched_at (now - s.ttl) ]
  expired_iff = contains-expired_ids (now - s.ttl) id s.meta d

  -- After a sweep exactly the transfers that had not expired are known.
  pub lookup-sweep : lookup id (sweep io now s).meta ≡ unexpired now s.ttl (lookup id s.meta)
  unfolding sweep
  lookup-sweep =
      ground (arith, expired_iff, lookup-delete_all io (expired_ids (now - s.ttl) s.meta) id s)

  -- A transfer that has not expired keeps its received indices and every file, and of one that has
  -- expired, and whose directory the system removes, no file and no index is left.
  pub sweep_files :
      (m : TransferMeta)
      → lookup id s.meta ≡ some m
      → (is_expired now s.ttl m ≡ false
          → (lookup id (sweep io now s).received ≡ lookup id s.received)
            × ((file : Text)
                → content_at id file (sweep io now s).disk ≡ content_at id file s.disk))
        × (is_expired now s.ttl m ≡ true
            → io.remove_outcome id ≡ removed
            → (lookup id (sweep io now s).received ≡ none)
              × ((file : Text) → content_at id file (sweep io now s).disk ≡ none))
  unfolding sweep
  sweep_files m e = (
    λ fresh.
        let kept : contains id (expired_ids (now - s.ttl) s.meta) ≡ false =
          ground (arith, expired_iff) in
        (
          ground (arith, kept, lookup-delete_all io (expired_ids (now - s.ttl) s.meta) id s),
          λ file. content_at-delete_all_ne io (expired_ids (now - s.ttl) s.meta) id file s kept,
        ),
    λ old gone.
        let dropped : contains id (expired_ids (now - s.ttl) s.meta) ≡ true =
          ground (arith, expired_iff) in
        (
          ground (arith, dropped, lookup-delete_all io (expired_ids (now - s.ttl) s.meta) id s),
          λ file.
              content_at-delete_all io (expired_ids (now - s.ttl) s.meta) id file s gone dropped,
        ),
  )
