-- ===== src/ObjectStore/Outcome.antt =====
-- The ways in which a write of cas/object_store.cpp ends.
use context_fs.Base.{◌≡◌, none, some, ◌++◌, Option-cases, inl, inr, ℕ}
use context_fs.Base.Order.{Bytes, bytes_ord}
use context_fs.OrdMap.{find, insert}
use context_fs.WorkingTree.{Hash, zero_hash}
use context_fs.ObjectStore.{
  ObjectStore, StoredFile, StoreError, no_error, set_last_error, touch, Answers, publish,
  write_temporary, write_object,
}

abbrev pub touched_file : StoredFile → ℕ → StoredFile
touched_file f now = record f { mtime = now }

-- An existing file is refreshed, a new one is stored, or nothing is stored; after the first locked
-- block on what the others left.
pub data Written (hash : Hash) (content : Bytes) (first second : ℕ) (before late : ObjectStore)
    : Hash × ObjectStore → Type 0 where
  adopted :
      (f : StoredFile)
      → find hash before.objects ≡ some f
      → Written hash content first second before late
          (hash, record before { objects = insert hash (touched_file f first) before.objects })
  adopted_late :
      (f : StoredFile)
      → find hash late.objects ≡ some f
      → Written hash content first second before late
          (hash, record late { objects = insert hash (touched_file f second) late.objects })
  published :
      find hash late.objects ≡ none
      → Written hash content first second before late (
        hash,
        record late {
          objects = insert hash (record { content = content; mtime = second }) late.objects;
          pending = insert hash tt late.pending;
        },
      )
  failed :
      (e : StoreError)
      → Written hash content first second before late (zero_hash, set_last_error before e)
  failed_late :
      (e : StoreError)
      → Written hash content first second before late (zero_hash, set_last_error late e)

publish_lem :
    (hash : Hash) (content : Bytes) (first : ℕ) (a : Answers) (before late : ObjectStore)
    → Written hash content first a.second_time before late (publish hash content a late)
unfolding publish touch
publish_lem hash content first a before late = elim (Option-cases a.adopt_fault) [
  | inr (e, p) ↦ rw (p, publish, touch) (failed_late _)
  | inl p ↦ elim (Option-cases (find hash late.objects)) [
    | inr (f, q) ↦ rw (p, q, publish, touch) (adopted_late f q)
    | inl q ↦ elim (Option-cases a.rename_fault) [
      | inl r ↦ rw (p, q, r, publish, touch) (published q)
      | inr (e, r) ↦ rw (p, q, r, publish, touch) (failed_late _)
    ]
  ]
]

module _ (blake3 : Bytes → Hash) where
  pub write_object_lem :
      (tag body : Bytes) (a : Answers) (others : ObjectStore → ObjectStore) (st : ObjectStore)
      → Written
          (blake3 (tag ++ body))
          (tag ++ body)
          a.first_time
          a.second_time
          (set_last_error st no_error)
          (others (set_last_error st no_error))
          (write_object blake3 tag body a others st)
  unfolding write_object touch set_last_error
  write_object_lem tag body a others st =
      let hash = blake3 (tag ++ body) in
      let late = others (set_last_error st no_error) in
      elim (Option-cases a.refresh_fault) [
        | inr (e, p) ↦ rw (p, write_object, touch) (failed _)
        | inl p ↦ elim (Option-cases (find hash st.objects)) [
          | inr (f, q) ↦ rw (p, q, write_object, touch) (adopted f q)
          | inl q ↦ elim (Option-cases (write_temporary body a)) [
            | inr (e, r) ↦ rw (p, q, r, write_object, touch) (failed_late e)
            | inl r ↦
                rw (p, q, r, write_object, touch)
                  (publish_lem hash (tag ++ body) a.first_time a (set_last_error st no_error) late)
          ]
        ]
      ]
