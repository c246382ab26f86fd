-- ===== src/Store/Changes.antt =====
-- The abstract view of a store: how the metadata can change, with the disk and the chunks forgotten.
pub mod Steps
use bitphase_file_share.Prelude.{
  ℕ, zero, suc, ◌+◌, ◌≤◌, ◌<◌, ◌≡◌, ◌≢◌, refl, ◌⊎◌, inl, inr, Bool, true, false, List, [], ◌∷◌,
  Option, none, some, arith, if◌then◌else◌, Text, text_eq, text_eq_iff, Map, lookup, insert, delete,
  lookup-insert, lookup-delete, IsDistinct, insert-IsDistinct, delete-IsDistinct,
}
use bitphase_file_share.Store.Meta.{TransferMeta}
use bitphase_file_share.Store.Ops.{sender_count}

abbrev pub delete_keys : List Text → Map TransferMeta → Map TransferMeta
delete_keys [] meta = meta
delete_keys (id ∷ ids) meta = delete_keys ids (delete id meta)

-- A link share has no sender; a direct transfer has one with room for it.
abbrev pub IsAllowed : ℕ → Map TransferMeta → TransferMeta → Type 0
IsAllowed cap meta m = (m.from ≡ []) ⊎ (sender_count m.from meta < cap)

pub data Change (cap : ℕ) (meta meta' : Map TransferMeta) : Type 0 where
  same : meta' ≡ meta → Change cap meta meta'
  enter :
      (id : Text) (m : TransferMeta)
      → lookup id meta ≡ none
      → IsAllowed cap meta m
      → meta' ≡ insert id m meta
      → Change cap meta meta'
  touch :
      (id : Text) (m : TransferMeta) (now : ℕ)
      → lookup id meta ≡ some m
      → meta' ≡ insert id (record m { touched_at = now }) meta
      → Change cap meta meta'
  drop : (ids : List Text) → meta' ≡ delete_keys ids meta → Change cap meta meta'

delete_keys-IsDistinct :
    (ids : List Text) (meta : Map TransferMeta)
    → IsDistinct meta
    → IsDistinct (delete_keys ids meta)
delete_keys-IsDistinct [] meta d = d
delete_keys-IsDistinct (id ∷ ids) meta d =
    delete_keys-IsDistinct ids _ (delete-IsDistinct id meta d)

pub Change-IsDistinct :
    {cap : ℕ} {meta meta' : Map TransferMeta}
    → Change cap meta meta'
    → IsDistinct meta
    → IsDistinct meta'
Change-IsDistinct (same e) d = rw e d
Change-IsDistinct {meta = meta} (enter id m new allowed e) d = rw e (insert-IsDistinct id m meta d)
Change-IsDistinct {meta = meta} (touch id m now was e) d = rw e (insert-IsDistinct id _ meta d)
Change-IsDistinct {meta = meta} (drop ids e) d = rw e (delete_keys-IsDistinct ids meta d)

sender_count-insert_new :
    (from id : Text) (m : TransferMeta) (meta : Map TransferMeta)
    → lookup id meta ≡ none
    → sender_count from (insert id m meta)
      ≡ (if text_eq m.from from then suc (sender_count from meta) else sender_count from meta)
unfolding sender_count lookup insert
sender_count-insert_new from id m [] h = refl
sender_count-insert_new from id m ((j, n) ∷ meta) h =
    ground (arith, sender_count-insert_new from id m meta)

sender_count-insert_same :
    (from id : Text) (m n : TransferMeta) (meta : Map TransferMeta)
    → lookup id meta ≡ some n
    → m.from ≡ n.from
    → sender_count from (insert id m meta) ≡ sender_count from meta
unfolding sender_count lookup insert
sender_count-insert_same from id m n [] h e = cc
sender_count-insert_same from id m n ((j, o) ∷ meta) h e =
    ground (arith, sender_count-insert_same from id m n meta)

sender_count-delete :
    (from id : Text) (meta : Map TransferMeta)
    → sender_count from (delete id meta) ≤ sender_count from meta
unfolding sender_count delete
sender_count-delete from id [] = omega arith
sender_count-delete from id ((j, o) ∷ meta) = ground (arith, sender_count-delete from id meta)

sender_count-delete_keys :
    (from : Text) (ids : List Text) (meta : Map TransferMeta)
    → sender_count from (delete_keys ids meta) ≤ sender_count from meta
sender_count-delete_keys from [] meta = omega arith
sender_count-delete_keys from (id ∷ ids) meta =
    omega
      (arith, sender_count-delete_keys from ids (delete id meta), sender_count-delete from id meta)

-- Nobody has more transfers than the cap; link shares have no sender and are not counted.
abbrev pub IsLimited : ℕ → Map TransferMeta → Type 0
IsLimited cap meta = (from : Text) → from ≢ [] → sender_count from meta ≤ cap

pub Change-IsLimited :
    {cap : ℕ} {meta meta' : Map TransferMeta}
    → Change cap meta meta'
    → IsLimited cap meta
    → IsLimited cap meta'
Change-IsLimited (same e) l = rw e l
Change-IsLimited {meta = meta} (enter id m new allowed e) l = λ from ne.
    rw e (
      ground
        (arith, sender_count-insert_new from id m meta new, l from ne, text_eq_iff m.from from))
Change-IsLimited {meta = meta} (touch id m now was e) l = λ from ne. rw e (
    ground (
      arith,
      sender_count-insert_same from id (record m { touched_at = now }) m meta was refl,
      l from ne,
    ))
Change-IsLimited {meta = meta} (drop ids e) l =
    λ from ne. rw e (omega (arith, sender_count-delete_keys from ids meta, l from ne))
