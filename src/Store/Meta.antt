-- ===== src/Store/Meta.antt =====
-- The data of store.go and types.go: transfer identifiers, metadata, and the summary of a transfer.
use bitphase_file_share.Prelude.{
  ℕ, Bool, true, false, ◌&&◌, ◌||◌, [], ◌∷◌, Option, leb, ◌==◌, if◌then◌else◌, length, Text, bytes,
  ℤ,
}

-- [A-Za-z0-9_-]
abbrev pub is_id_char : ℕ → Bool
is_id_char c =
    (leb b'A' c && leb c b'Z')
    || (leb b'a' c && leb c b'z')
    || (leb b'0' c && leb c b'9')
    || c == b'_'
    || c == b'-'

unfoldable pub all_id_chars : Text → Bool
all_id_chars [] = true
all_id_chars (c ∷ s) = if is_id_char c then all_id_chars s else false

-- ^[A-Za-z0-9_-]{1,128}$
unfoldable pub valid_transfer_id : Text → Bool
unfolding all_id_chars
valid_transfer_id id = leb 1 (length id) && leb (length id) 128 && all_id_chars id

-- Times are nanoseconds since an epoch.
pub record TransferMeta : Type 0 where
  pub transfer_id : Text
  pub from : Text
  pub to : Text
  pub total_chunks : ℤ
  pub created_at : ℕ
  pub touched_at : ℕ
  pub shareable : Bool
  pub mode : Text
  pub manage_token : Text
  pub one_time : Bool

abbrev pub link_mode : Text
link_mode = bytes "link"

-- The literal of createTransfer; the fields that it leaves out are zero values.
unfoldable pub direct_meta : Text → Text → Text → ℤ → Bool → ℕ → TransferMeta
direct_meta id from to total shareable now = record {
  transfer_id = id;
  from = from;
  to = to;
  total_chunks = total;
  created_at = now;
  touched_at = now;
  shareable = shareable;
  mode = [];
  manage_token = [];
  one_time = false;
}

-- The literal of createLinkTransfer.
unfoldable pub link_meta : Text → Text → ℤ → Bool → ℕ → TransferMeta
link_meta id token total one_time now = record {
  transfer_id = id;
  from = [];
  to = [];
  total_chunks = total;
  created_at = now;
  touched_at = now;
  shareable = false;
  mode = link_mode;
  manage_token = token;
  one_time = one_time;
}

pub record TransferSummary : Type 0 where
  pub transfer_id : Text
  pub from : Text
  pub total_chunks : ℤ
  pub created_at : ℕ
  pub shareable : Bool

-- encoding/json on the metadata file.
pub record MetaJson : Type 0 where
  pub marshal : TransferMeta → Text
  pub unmarshal : Text → Option TransferMeta
