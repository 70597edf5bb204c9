-- ===== src/ObjectStore/Integrity.antt =====
-- The contents of the object store of cas/object_store.cpp hash to their names.
use context_fs.Base.{◌≡◌, refl, All, ℕ}
use context_fs.Base.Order.{Bytes, bytes_ord}
use context_fs.OrdMap.Every.{All-insert, find-All}
use context_fs.WorkingTree.{Hash}
use context_fs.ObjectStore.{
  ObjectStore, StoredFile, StoreError, no_error, set_last_error, Answers, write_object,
}
use context_fs.ObjectStore.Outcome.{
  Written, adopted, adopted_late, published, failed, failed_late, write_object_lem,
}

module _ (blake3 : Bytes → Hash) where
  -- a file and its name
  abbrev pub IsNamed : Hash × StoredFile → Type 0
  IsNamed (h, f) = blake3 f.content ≡ h

  unfoldable pub IsIntact : ObjectStore → Type 0
  IsIntact st = All IsNamed st.objects

  pub set_last_error-IsIntact :
      (st : ObjectStore) (e : StoreError) → IsIntact st → IsIntact (set_last_error st e)
  unfolding IsIntact set_last_error
  set_last_error-IsIntact st e v = v

  Written-IsIntact :
      {hash : Hash} {content : Bytes} {first second : ℕ} {before late : ObjectStore}
      {out : Hash × ObjectStore}
      → blake3 content ≡ hash
      → IsIntact before
      → IsIntact late
      → Written hash content first second before late out
      → IsIntact out.1
  unfolding IsIntact set_last_error
  Written-IsIntact e v w (adopted f p) = All-insert IsNamed _ _ _ (find-All IsNamed _ f _ v p) v
  Written-IsIntact e v w (adopted_late f p) =
      All-insert IsNamed _ _ _ (find-All IsNamed _ f _ w p) w
  Written-IsIntact e v w (published p) = All-insert IsNamed _ _ _ e w
  Written-IsIntact e v w (failed _) = v
  Written-IsIntact e v w (failed_late _) = w

  -- Every object's contents hash to its name after a write, however it ends, if they did before and
  -- the other threads keep this.
  pub write_object-IsIntact :
      (tag body : Bytes) (a : Answers) (others : ObjectStore → ObjectStore) (st : ObjectStore)
      → IsIntact st
      → ((s : ObjectStore) → IsIntact s → IsIntact (others s))
      → IsIntact (write_object blake3 tag body a others st).1
  unfolding IsIntact set_last_error
  write_object-IsIntact tag body a others st v keep =
      Written-IsIntact refl v (keep (set_last_error st no_error) v)
        (write_object_lem blake3 tag body a others st)
