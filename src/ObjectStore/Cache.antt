-- ===== src/ObjectStore/Cache.antt =====
-- Blob views and the cache of blob sizes in cas/object_store.cpp.
use context_fs.Base.{
  ◌≡◌, refl, ap, ◌∙◌, Bool, true, false, Option, none, some, [], All, ℕ, ◌+◌, ◌-◌, ◌^◌, arith,
  Bool-cases, inl, inr, if◌then◌else◌, leb, ltb, Option-cases, length, take, drop, length-drop,
  ◌==◌, ==_iff, ltb-false, ==_refl,
}
use context_fs.Base.Order.{Bytes, bytes_ord, same}
use context_fs.Base.Result.{codes}
use context_fs.OrdMap.{OrdMap, find}
use context_fs.OrdMap.Every.{All-insert, find-All}
use context_fs.WorkingTree.{Hash}
use context_fs.Codec.{from_le}
use context_fs.ObjectStore.{
  ObjectStore, Objects, StoredFile, strip_tag, blob_payload, set_last_error,
}
use context_fs.ObjectStore.Views.{
  View, opened, not_opened, view_of, view_file, ViewAnswers, open_blob, remember_size,
  blob_payload_size, size_cache_cap,
}

-- the file that a blob's size was read from
abbrev pub IsBlobSize : Objects → Hash × ℕ → Type 0
IsBlobSize objects (h, n) =
    (f : StoredFile) × (find h objects ≡ some f) × (view_of f.content ≡ opened n)

unfoldable pub CacheIsValid : ObjectStore → Type 0
CacheIsValid st = All (IsBlobSize st.objects) st.size_cache

-- a view that opens is of a file whose contents pass the checks
view_file-opened :
    (a : ViewAnswers) (o : Option StoredFile) (n : ℕ)
    → view_file a o ≡ opened n
    → (f : StoredFile) × (o ≡ some f) × (view_of f.content ≡ opened n)
unfolding view_file
view_file-opened a none n = λ e. cc e
view_file-opened a (some f) n = elim (Option-cases a.open_error) [
  | inr (x, p) ↦ rw p (λ e. cc e)
  | inl p ↦ elim (Bool-cases a.seek_fails) [
    | inl q ↦ rw (p, q) (λ e. cc e)
    | inr q ↦ elim (Bool-cases a.read_fails) [
      | inl r ↦ rw (p, q, r) (λ e. cc e)
      | inr r ↦ rw (p, q, r) (λ e. (f, refl, e))
    ]
  ]
]

-- a size that is told, by a true cache or by the file, is the size in an intact blob file
pub blob_payload_size_view :
    (h : Hash) (a : ViewAnswers) (st : ObjectStore) (n : ℕ)
    → CacheIsValid st
    → (blob_payload_size h a st).0 ≡ opened n
    → (f : StoredFile) × (find h st.objects ≡ some f) × (view_of f.content ≡ opened n)
unfolding blob_payload_size open_blob CacheIsValid
blob_payload_size_view h a st n v = elim (Option-cases (find h st.size_cache)) [
  | inl e ↦ rw (e, blob_payload_size) (λ r. view_file-opened a (find h st.objects) n r)
  | inr (i, e) ↦
      rw (e, blob_payload_size)
        (λ r.
          let size : i ≡ n = ground (arith, r) in
          find-All (IsBlobSize st.objects) h n st.size_cache v (e ∙ ap some size))
]

All-if_empty :
    (objects : Objects) (m : OrdMap Hash ℕ) (b : Bool)
    → All (IsBlobSize objects) m
    → All (IsBlobSize objects) (if b then [] else m)
All-if_empty objects m true v = tt
All-if_empty objects m false v = v

remember_size-CacheIsValid :
    (h : Hash) (view : View) (st : ObjectStore)
    → CacheIsValid st
    → ((n : ℕ) → view ≡ opened n → IsBlobSize st.objects (h, n))
    → CacheIsValid (remember_size h view st)
unfolding remember_size CacheIsValid
remember_size-CacheIsValid h (not_opened e text) st v tells = v
remember_size-CacheIsValid h (opened n) st v tells =
    let cap = leb size_cache_cap (length st.size_cache) in
    All-insert (IsBlobSize st.objects) h n (if cap then [] else st.size_cache) (tells n refl)
      (All-if_empty st.objects st.size_cache cap v)

-- asking for a size keeps every cached size true.
pub blob_payload_size-CacheIsValid :
    (h : Hash) (a : ViewAnswers) (st : ObjectStore)
    → CacheIsValid st
    → CacheIsValid (blob_payload_size h a st).1
unfolding blob_payload_size open_blob CacheIsValid set_last_error
blob_payload_size-CacheIsValid h a st v = elim (Option-cases (find h st.size_cache)) [
  | inr (i, e) ↦ rw (e, blob_payload_size) v
  | inl e ↦
      let view = view_file a (find h st.objects) in
      rw (e, blob_payload_size)
        (remember_size-CacheIsValid h view (open_blob h a st).1 v
          (λ n. view_file-opened a (find h st.objects) n))
]

-- what a view accepts, a reader accepts, with the size that the view tells
pub view_of-read :
    (raw : Bytes) (n : ℕ)
    → view_of raw ≡ opened n
    → (content : Bytes) × (strip_tag (codes "blob") raw ≡ some (drop 4 raw))
      × (blob_payload (drop 4 raw) ≡ some content)
      × (length content ≡ n)
unfolding view_of strip_tag blob_payload
view_of-read raw n = elim (Bool-cases (ltb (length raw) 12)) [
  | inl p ↦ rw p (λ e. cc e)
  | inr p ↦ elim (Bool-cases (same (take 4 raw) (codes "blob"))) [
    | inr q ↦ rw (p, q) (λ e. cc e)
    | inl q ↦ elim (Bool-cases (ltb (2 ^ 63 - 1 - 12) (from_le (take 8 (drop 4 raw))))) [
      | inl r ↦ rw (p, q, r) (λ e. cc e)
      | inr r ↦ elim (Bool-cases (length raw == 12 + from_le (take 8 (drop 4 raw)))) [
        | inr s ↦ rw (p, q, r, s) (λ e. cc e)
        | inl s ↦
            let size : length raw ≡ 12 + from_le (take 8 (drop 4 raw)) =
              (==_iff (length raw) (12 + from_le (take 8 (drop 4 raw)))).0 s in
            let rest : length (drop 4 raw) ≡ 8 + from_le (take 8 (drop 4 raw)) =
              omega (arith, size, length-drop 4 raw) in
            let size_left : 8 + from_le (take 8 (drop 4 raw)) - 8 ≡ from_le (take 8 (drop 4 raw)) =
              omega arith in
            rw (p, q, r, s)
              (λ e.
                let told : from_le (take 8 (drop 4 raw)) ≡ n = cc e in
                (
                  drop 8 (drop 4 raw),
                  rw (ltb-false (length raw) 4 (omega (arith, size))) refl,
                  rw
                      (
                        rest,
                        ltb-false (8 + from_le (take 8 (drop 4 raw))) 8 (omega arith),
                        size_left,
                        ==_refl (from_le (take 8 (drop 4 raw))),
                      )
                      refl,
                  omega (arith, length-drop 8 (drop 4 raw), rest, told),
                ))
      ]
    ]
  ]
]
