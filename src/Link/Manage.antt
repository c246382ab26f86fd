-- ===== src/Link/Manage.antt =====
-- Only the holder of the manage token changes a share link's chunks or deletes it.
use bitphase_file_share.Prelude.{ℕ, ◌≡◌, ◌≤◌, ◌⊎◌, refl, inl, inr}
use bitphase_file_share.Store.Meta.{TransferMeta, MetaJson}
use bitphase_file_share.Store.Disk.{Io}
use bitphase_file_share.Store.Ops.{Store}
use bitphase_file_share.Link.{Answer, Request, handle_link_chunk_upload, handle_link_delete}
use bitphase_file_share.Link.Cases.{IsManaged, upload_cases, delete_cases}

-- Refused without a change, or asked by the holder of the token.
abbrev pub IsGuarded : Request → Store → Answer → Type 0
IsGuarded r s a = ((400 ≤ a.0.status) × (a.1 ≡ s)) ⊎ ((m : TransferMeta) × IsManaged r s m)

-- An upload and a delete are refused with an error status and leave the store as it is, unless the
-- request carries the manage token, which is not empty, of a share link that is there.
pub manage-IsGuarded :
    (j : MetaJson) (now : ℕ) (io : Io) (r : Request) (s : Store)
    → IsGuarded r s (handle_link_chunk_upload j now io r s)
      × IsGuarded r s (handle_link_delete io r s)
manage-IsGuarded j now io r s = (
  upload_cases (IsGuarded r s) s (λ p h. inl (h, refl)) j now io r
      (λ m i content h e f fits. inr (m, h)),
  delete_cases (IsGuarded r s) s (λ p h. inl (h, refl)) io r (λ m h. inr (m, h)),
)
