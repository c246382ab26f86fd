-- ===== src/Link/Routes.antt =====
-- One request to the share-link surface, whichever the route.
use bitphase_file_share.Prelude.{ℕ, Bool, Text, bytes, text_eq, ◌||◌, if◌then◌else◌, Result}
use bitphase_file_share.Store.Disk.{Io}
use bitphase_file_share.Store.Ops.{Store}
use bitphase_file_share.Server.{FileShareServer}
use bitphase_file_share.Link.{
  Answer, LinkResponse, LinkCodec, Request, handle_link_start, handle_link_chunk_upload,
  handle_link_meta, handle_link_chunk_download, handle_link_delete, with_link_cors,
}

-- A start has the two draws of random bytes, and a download says whether its response was sent.
pub data Route : Type 0 where
  start : Result Text → Result Text → Route
  upload : Route
  share_meta : Route
  download : Bool → Route
  remove : Route

-- `unrouted` is what net/http answers by itself when no handler is registered for the method.
pub record Visit : Type 0 where
  pub now : ℕ
  pub io : Io
  pub method : Text
  pub route : Route
  pub request : Request
  pub unrouted : LinkResponse

unfoldable pub handle : LinkCodec → FileShareServer → Visit → Store → Answer
handle codec fs v s = elim v.route [
  | start first second ↦
      handle_link_start codec v.now v.io (first, second) v.request (record fs { store = s })
  | upload ↦ handle_link_chunk_upload codec.meta v.now v.io v.request s
  | share_meta ↦ handle_link_meta v.request s
  | download sent ↦ handle_link_chunk_download codec.meta v.now v.io sent v.request s
  | remove ↦ handle_link_delete v.io v.request s
]

abbrev is_get : Text → Bool
is_get method = text_eq method (bytes "GET") || text_eq method (bytes "HEAD")

abbrev is_options : Text → Bool
is_options method = text_eq method (bytes "OPTIONS")

-- The two handlers on /link/{id}/chunk/{index} differ in the method; net/http gives a HEAD to what is
-- registered for GET, and OPTIONS is registered with the handler of the upload.
unfoldable pub is_registered : Route → Text → Bool
is_registered (start first second) method = text_eq method (bytes "POST") || is_options method
is_registered upload method = text_eq method (bytes "PUT") || is_options method
is_registered share_meta method = is_get method
is_registered (download sent) method = is_get method
is_registered remove method = text_eq method (bytes "DELETE") || is_options method

unfoldable pub serve : LinkCodec → FileShareServer → Visit → Answer
serve codec fs v =
    if is_registered v.route v.method
    then with_link_cors v.method (handle codec fs v) fs.store
    else (v.unrouted, fs.store)
