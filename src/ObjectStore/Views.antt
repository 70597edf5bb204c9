-- ===== src/ObjectStore/Views.antt =====
-- Views of blobs and the cache of their sizes in cas/object_store.cpp.
use Prim.Native.String.{String}
use context_fs.Base.{
  ℕ, ◌+◌, ◌-◌, ◌^◌, Bool, not, Option, none, some, [], length, take, drop, ltb, leb, ◌==◌,
  if◌then◌else◌,
}
use context_fs.Base.Order.{Bytes, bytes_ord, same}
use context_fs.Base.Result.{codes}
use context_fs.OrdMap.{find, insert}
use context_fs.WorkingTree.{Hash}
use context_fs.Codec.{from_le}
use context_fs.ObjectStore.{
  StoredFile, StoreError, ObjectStore, set_last_error, no_error, view_failed,
}

-- `errno` of a failed view: the one of `open` when the process is out of descriptors
pub data ViewError : Type 0 where
  out_of_descriptors : ℕ → ViewError
  eio eoverflow : ViewError

pub data View : Type 0 where
  opened : ℕ → View
  not_opened : ViewError → String → View

-- the checks on the contents, once the header is read
unfoldable pub view_of : Bytes → View
view_of raw =
    let payload_size = from_le (take 8 (drop 4 raw)) in
    if ltb (length raw) 12
    then not_opened eio "open blob view: truncated header"
    else if not (same (take 4 raw) (codes "blob"))
    then not_opened eio "open blob view: invalid type tag"
    else if ltb (2 ^ 63 - 1 - 12) payload_size
    then not_opened eoverflow "open blob view: payload size overflows offset"
    else if not (length raw == 12 + payload_size)
    then not_opened eio "open blob view: encoded size does not match object"
    else opened payload_size

-- the answers to the calls of one view: the error of `open` on an existing file, a failed `lseek`
-- and a failed `read`
pub record ViewAnswers : Type 0 where
  pub open_error : Option ViewError
  pub seek_fails : Bool
  pub read_fails : Bool

unfoldable pub view_file : ViewAnswers → Option StoredFile → View
unfolding view_of
view_file a none = not_opened eio "open blob view: no such file"
view_file a (some f) = elim a.open_error [
  | some e ↦ not_opened e "open blob view"
  | none ↦
      if a.seek_fails
      then not_opened eio "open blob view: cannot seek object"
      else if a.read_fails
      then not_opened eio "open blob view: truncated header"
      else view_of f.content
]

abbrev pub view_message : View → StoreError
view_message (opened n) = no_error
view_message (not_opened e text) = view_failed text

unfoldable pub open_blob : Hash → ViewAnswers → ObjectStore → View × ObjectStore
unfolding view_file set_last_error
open_blob hash a st =
    let view = view_file a (find hash st.objects) in (view, set_last_error st (view_message view))

abbrev pub size_cache_cap : ℕ
size_cache_cap = 65536

unfoldable pub remember_size : Hash → View → ObjectStore → ObjectStore
remember_size hash (not_opened e text) st = st
remember_size hash (opened n) st =
    let cache = if leb size_cache_cap (length st.size_cache) then [] else st.size_cache in
    record st { size_cache = insert hash n cache }

unfoldable pub blob_payload_size : Hash → ViewAnswers → ObjectStore → View × ObjectStore
unfolding open_blob remember_size
blob_payload_size hash a st = elim (find hash st.size_cache) [
  | some n ↦ (opened n, st)
  | none ↦ let (view, st') = open_blob hash a st in (view, remember_size hash view st')
]

unfoldable pub clear_size_cache : ObjectStore → ObjectStore
clear_size_cache st = record st { size_cache = [] }
