-- ===== src/ObjectStore/Sizes.antt =====
-- The sizes that cas/object_store.cpp tells of blobs, over any history of calls.
use Prim.Native.String.{String}
use context_fs.Base.{
  ◌≡◌, refl, ◌∙◌, true, Option, some, [], ◌∷◌, All, ℕ, length, Bool-cases, inl, inr, arith, List,
  Bool,
}
use context_fs.Base.Order.{Bytes, bytes_ord, same, same→eq}
use context_fs.OrdMap.{OrdMap, find, insert}
use context_fs.OrdMap.Laws.{find-insert}
use context_fs.WorkingTree.{Hash}
use context_fs.ObjectStore.{
  ObjectStore, Objects, StoredFile, set_last_error, Answers, write_object, read_object, read_blob,
  no_error,
}
use context_fs.ObjectStore.Pending.{
  RemoveFault, remove_object_if_older_than, drain_pending, restore_pending, fsync_pending,
}
use context_fs.ObjectStore.Views.{
  opened, ViewAnswers, open_blob, blob_payload_size, clear_size_cache,
}
use context_fs.ObjectStore.Outcome.{Written, write_object_lem}
use context_fs.ObjectStore.Cache.{
  IsBlobSize, CacheIsValid, blob_payload_size_view, blob_payload_size-CacheIsValid, view_of-read,
}

-- the removals of one sweep
pub data Removals : ObjectStore → ObjectStore → Type 0 where
  no_more : {r : ObjectStore} → Removals r r
  remove :
      {r s : ObjectStore} (h : Hash) (fence : ℕ) (stat_fault : Option String)
      (remove_fault : Option RemoveFault)
      → Removals r s
      → Removals r (remove_object_if_older_than h fence stat_fault remove_fault s).1

-- Finished calls. What other threads do between the two locked blocks of a write is such calls again;
-- a sweep ends by clearing the cache.
pub data Calls (blake3 : Bytes → Hash) : ObjectStore → ObjectStore → Type 0 where
  done : {r : ObjectStore} → Calls blake3 r r
  size :
      {r s : ObjectStore} (h : Hash) (a : ViewAnswers)
      → Calls blake3 r s
      → Calls blake3 r (blob_payload_size h a s).1
  view :
      {r s : ObjectStore} (h : Hash) (a : ViewAnswers)
      → Calls blake3 r s
      → Calls blake3 r (open_blob h a s).1
  write :
      {r s : ObjectStore} (tag body : Bytes) (a : Answers) (others : ObjectStore → ObjectStore)
      → ((t : ObjectStore) → Calls blake3 t (others t))
      → Calls blake3 r s
      → Calls blake3 r (write_object blake3 tag body a others s).1
  drain : {r s : ObjectStore} → Calls blake3 r s → Calls blake3 r (drain_pending s).1
  restore :
      {r s : ObjectStore} (hashes : List Hash)
      → Calls blake3 r s
      → Calls blake3 r (restore_pending hashes s)
  sync :
      {r s : ObjectStore} (hashes : List Hash) (objects_synced dirs_synced : Bool)
      → Calls blake3 r s
      → Calls blake3 r (fsync_pending hashes objects_synced dirs_synced s).1
  sweep :
      {r s t : ObjectStore} → Calls blake3 r s → Removals s t → Calls blake3 r (clear_size_cache t)

insert-IsBlobSize :
    (objects : Objects) (h : Hash) (g : StoredFile) (k : Hash) (n : ℕ)
    → ((f : StoredFile) → find h objects ≡ some f → g.content ≡ f.content)
    → IsBlobSize objects (k, n)
    → IsBlobSize (insert h g objects) (k, n)
insert-IsBlobSize objects h g k n keeps (f, e, v) = elim (Bool-cases (same k h)) [
  | inl t ↦ (g, find-insert k h g objects ∙ rw t refl, rw (keeps f (rw⁻¹ (same→eq k h t) e)) v)
  | inr t ↦ (f, find-insert k h g objects ∙ rw t e, v)
]

insert-CacheIsValid :
    (objects : Objects) (h : Hash) (g : StoredFile) (cache : OrdMap Hash ℕ)
    → ((f : StoredFile) → find h objects ≡ some f → g.content ≡ f.content)
    → All (IsBlobSize objects) cache
    → All (IsBlobSize (insert h g objects)) cache
insert-CacheIsValid objects h g [] keeps v = tt
insert-CacheIsValid objects h g ((k, n) ∷ cache) keeps v =
    (insert-IsBlobSize objects h g k n keeps v.0, insert-CacheIsValid objects h g cache keeps v.1)

one_file :
    {o : Option StoredFile} {f g : StoredFile} → o ≡ some f → o ≡ some g → f.content ≡ g.content
one_file p q = cc

Written-CacheIsValid :
    {hash : Hash} {content : Bytes} {first second : ℕ} {before late : ObjectStore}
    {x : Hash × ObjectStore}
    → Written hash content first second before late x
    → CacheIsValid before
    → CacheIsValid late
    → CacheIsValid x.1
unfolding CacheIsValid set_last_error
Written-CacheIsValid {hash = h} {before = b} (Written.adopted f e) v w =
    insert-CacheIsValid b.objects h _ b.size_cache (λ g k. one_file e k) v
Written-CacheIsValid {hash = h} {late = l} (Written.adopted_late f e) v w =
    insert-CacheIsValid l.objects h _ l.size_cache (λ g k. one_file e k) w
Written-CacheIsValid {hash = h} {late = l} (Written.published e) v w =
    insert-CacheIsValid l.objects h _ l.size_cache (λ g k. cc (e, k)) w
Written-CacheIsValid (Written.failed e) v w = v
Written-CacheIsValid (Written.failed_late e) v w = w

fsync_pending-CacheIsValid :
    (hashes : List Hash) (o d : Bool) (st : ObjectStore)
    → CacheIsValid st
    → CacheIsValid (fsync_pending hashes o d st).1
unfolding fsync_pending CacheIsValid
fsync_pending-CacheIsValid hashes o d st v = ground (arith, v)

Calls-CacheIsValid :
    (blake3 : Bytes → Hash) {r s : ObjectStore} → Calls blake3 r s → CacheIsValid r → CacheIsValid s
unfolding CacheIsValid open_blob drain_pending restore_pending clear_size_cache set_last_error
Calls-CacheIsValid blake3 Calls.done v = v
Calls-CacheIsValid blake3 (Calls.size {s = s} h a c) v =
    blob_payload_size-CacheIsValid h a s (Calls-CacheIsValid blake3 c v)
Calls-CacheIsValid blake3 (Calls.view h a c) v = Calls-CacheIsValid blake3 c v
Calls-CacheIsValid blake3 (Calls.write {s = s} tag body a others keep c) v =
    let w = Calls-CacheIsValid blake3 c v in
    Written-CacheIsValid (write_object_lem blake3 tag body a others s) w
      (Calls-CacheIsValid blake3 (keep (set_last_error s no_error)) w)
Calls-CacheIsValid blake3 (Calls.drain c) v = Calls-CacheIsValid blake3 c v
Calls-CacheIsValid blake3 (Calls.restore hashes c) v = Calls-CacheIsValid blake3 c v
Calls-CacheIsValid blake3 (Calls.sync {s = s} hashes o d c) v =
    fsync_pending-CacheIsValid hashes o d s (Calls-CacheIsValid blake3 c v)
Calls-CacheIsValid blake3 (Calls.sweep c x) v = tt

empty-CacheIsValid : (st : ObjectStore) → st.size_cache ≡ [] → CacheIsValid st
unfolding CacheIsValid
empty-CacheIsValid st e = rw e tt

-- Take a store with an empty cache of sizes and any calls from then on: size queries, views, writes
-- with other threads in between, changes of the pending set, and sweeps that clear the cache before
-- any other call. A size that is told then, from the cache or from the file, is the length of the
-- contents that reading the blob returns, if the file can be read.
pub blob_payload_size_lem :
    (blake3 : Bytes → Hash) (r st : ObjectStore) (h : Hash) (a : ViewAnswers) (n : ℕ)
    → r.size_cache ≡ []
    → Calls blake3 r st
    → (blob_payload_size h a st).0 ≡ opened n
    → (content : Bytes) × (read_blob h true st ≡ some content) × (length content ≡ n)
unfolding read_blob read_object
blob_payload_size_lem blake3 r st h a n e c told =
    let (f, found, v) =
      blob_payload_size_view h a st n (Calls-CacheIsValid blake3 c (empty-CacheIsValid r e)) told in
    let (content, stripped, payload, fits) = view_of-read f.content n v in
    (content, rw (found, stripped, payload) refl, fits)
