-- ===== src/ObjectStore/Reading.antt =====
-- Reading back what was written to the object store of cas/object_store.cpp.
use context_fs.Base.{
  ◌≡◌, ◌≢◌, ◌⊎◌, refl, sym, ap, ◌∙◌, subst, true, some, ◌++◌, ℕ, ◌^◌, ◌<◌, arith, inl, inr, length,
  take, drop, take-append, drop-append, length-append, ltb-false, ==_refl, ◌-◌,
}
use context_fs.Base.Order.{Bytes, bytes_ord, same_refl}
use context_fs.Base.Result.{codes}
use context_fs.OrdMap.{find, insert}
use context_fs.OrdMap.Laws.{find-insert}
use context_fs.OrdMap.Every.{find-All}
use context_fs.WorkingTree.{Hash, zero_hash}
use context_fs.Codec.{le_bytes, from_le, length-le_bytes, from_le-le_bytes}
use context_fs.ObjectStore.{
  ObjectStore, Objects, StoredFile, no_error, set_last_error, Answers, write_object, write_blob,
  strip_tag, read_object, read_blob, blob_payload,
}
use context_fs.ObjectStore.Outcome.{
  Written, adopted, adopted_late, published, failed, failed_late, write_object_lem,
}
use context_fs.ObjectStore.Integrity.{IsNamed, IsIntact, set_last_error-IsIntact}

find-insert_same : (h : Hash) (f : StoredFile) (m : Objects) → find h (insert h f m) ≡ some f
find-insert_same h f m = find-insert h h f m ∙ (rw (same_refl h))

-- No other content has the hash of this one.
unfoldable pub IsUnique : (Bytes → Hash) → Bytes → Type 0
IsUnique blake3 x = (y : Bytes) → blake3 y ≡ blake3 x → y ≡ x

module _ (blake3 : Bytes → Hash) where
  -- a successful write leaves a file with the content, refreshed at one of its two times
  pub Written-stored :
      {hash : Hash} {content : Bytes} {first second : ℕ} {before late : ObjectStore}
      {out : Hash × ObjectStore}
      → IsUnique blake3 content
      → blake3 content ≡ hash
      → IsIntact blake3 before
      → IsIntact blake3 late
      → Written hash content first second before late out
      → out.0 ≢ zero_hash
      → (now : ℕ) × (find out.0 out.1.objects ≡ some (record { content = content; mtime = now }))
        × ((now ≡ first) ⊎ (now ≡ second))
  unfolding IsIntact IsUnique
  Written-stored {hash = h} {content = content} {first = first} unique e v w (adopted f p) ok =
      let equal : f.content ≡ content =
        unique f.content (find-All (IsNamed blake3) h f _ v p ∙ sym e) in
      (
        first,
        find-insert_same h _ _ ∙ ap (λ c. some (record { content = c; mtime = first })) equal,
        inl refl,
      )
  Written-stored {hash = h} {content = content} {second = second} unique e v w (adopted_late f p)
        ok =
      let equal : f.content ≡ content =
        unique f.content (find-All (IsNamed blake3) h f _ w p ∙ sym e) in
      (
        second,
        find-insert_same h _ _ ∙ ap (λ c. some (record { content = c; mtime = second })) equal,
        inr refl,
      )
  Written-stored {second = second} unique e v w (published p) ok =
      (second, find-insert_same _ _ _, inr refl)
  Written-stored unique e v w (failed _) ok = absurd (ok refl)
  Written-stored unique e v w (failed_late _) ok = absurd (ok refl)

strip_tag-append : (tag body : Bytes) → strip_tag tag (tag ++ body) ≡ some body
unfolding strip_tag
strip_tag-append tag body = rw (
  ltb-false (length (tag ++ body)) (length tag) (omega (arith, length-append tag body)),
  take-append tag body,
  same_refl tag,
  drop-append tag body,
)

payload_of :
    (header content : Bytes)
    → length header ≡ 8
    → from_le header ≡ length content
    → blob_payload (header ++ content) ≡ some content
unfolding blob_payload
payload_of header content e g =
    let front = subst (λ n. take n (header ++ content) ≡ header) e (take-append header content) in
    let back = subst (λ n. drop n (header ++ content) ≡ content) e (drop-append header content) in
    let long =
      ltb-false (length (header ++ content)) 8 (omega (arith, length-append header content, e)) in
    let size : length (header ++ content) - 8 ≡ length content =
      omega (arith, length-append header content, e) in
    rw (long, front, g, size, ==_refl (length content), back)

blob_payload-append :
    (content : Bytes)
    → length content < 2 ^ 64
    → blob_payload (le_bytes 8 (length content) ++ content) ≡ some content
unfolding blob_payload
blob_payload-append content h =
    payload_of (le_bytes 8 (length content)) content (length-le_bytes 8 (length content))
      (from_le-le_bytes 8 (length content) (omega (arith, h)))

module _ (blake3 : Bytes → Hash) where
  -- What a successful write stores is what a read with the same tag returns, also when the object was
  -- there before or appeared meanwhile.
  pub read_object-write_object :
      (tag body : Bytes) (a : Answers) (others : ObjectStore → ObjectStore) (st : ObjectStore)
      → IsUnique blake3 (tag ++ body)
      → IsIntact blake3 st
      → ((s : ObjectStore) → IsIntact blake3 s → IsIntact blake3 (others s))
      → (write_object blake3 tag body a others st).0 ≢ zero_hash
      → read_object
          (write_object blake3 tag body a others st).0
          tag
          true
          (write_object blake3 tag body a others st).1
        ≡ some body
  unfolding read_object
  read_object-write_object tag body a others st unique v keep success =
      let start = set_last_error-IsIntact blake3 st no_error v in
      let (now, found, _) =
        Written-stored blake3 unique refl start (keep (set_last_error st no_error) start)
          (write_object_lem blake3 tag body a others st) success in
      rw found (strip_tag-append tag body)

  -- A blob that was written with success reads back as it was given.
  pub read_blob-write_blob :
      (content : Bytes) (a : Answers) (others : ObjectStore → ObjectStore) (st : ObjectStore)
      → IsUnique blake3 (codes "blob" ++ (le_bytes 8 (length content) ++ content))
      → IsIntact blake3 st
      → ((s : ObjectStore) → IsIntact blake3 s → IsIntact blake3 (others s))
      → length content < 2 ^ 64
      → (write_blob blake3 content a others st).0 ≢ zero_hash
      → read_blob
          (write_blob blake3 content a others st).0
          true
          (write_blob blake3 content a others st).1
        ≡ some content
  unfolding read_blob write_blob
  read_blob-write_blob content a others st unique v keep h success =
      rw
        (read_object-write_object (codes "blob") (le_bytes 8 (length content) ++ content) a others
          st unique v keep success)
        (blob_payload-append content h)
