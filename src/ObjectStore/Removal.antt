-- ===== src/ObjectStore/Removal.antt =====
-- Age-fenced removal in the object store of cas/object_store.cpp.
use Prim.Native.String.{String}
use context_fs.Base.{
  ◌≡◌, ◌≢◌, refl, Option, none, some, ◌++◌, ℕ, ◌<◌, ◌≤◌, arith, Bool-cases, inl, inr, leb,
  Option-cases,
}
use context_fs.Base.Order.{Bytes, bytes_ord}
use context_fs.OrdMap.{find, erase}
use context_fs.WorkingTree.{Hash, zero_hash}
use context_fs.ObjectStore.{
  ObjectStore, StoredFile, no_error, set_last_error, Answers, write_object, is_found,
}
use context_fs.ObjectStore.Pending.{
  RemoveFault, refusal, no_such_file, not_removed, removed, remove_object_if_older_than,
}
use context_fs.ObjectStore.Outcome.{write_object_lem}
use context_fs.ObjectStore.Integrity.{IsIntact, set_last_error-IsIntact}
use context_fs.ObjectStore.Reading.{IsUnique, Written-stored}

-- a file that is not older than the fence stays, whatever the operating system answers
fresh_stays :
    (h : Hash) (fence : ℕ) (stat_fault : Option String) (remove_fault : Option RemoveFault)
    (st : ObjectStore) (f : StoredFile)
    → find h st.objects ≡ some f
    → fence ≤ f.mtime
    → (remove_object_if_older_than h fence stat_fault remove_fault st).1 ≡ st
unfolding remove_object_if_older_than
fresh_stays h fence stat_fault remove_fault st f e l =
    elim (Bool-cases (is_found (find h st.pending))) [
      | inl p ↦ rw p
      | inr p ↦ elim (Option-cases stat_fault) [
        | inr (x, q) ↦ rw (p, q)
        | inl q ↦ rw (p, q, e) (ground (arith, l))
      ]
    ]

-- An object that was just written with success, by storing it or by adopting one that was there,
-- is not removed by a sweep whose fence is not later than the write.
pub remove_object-write_object :
    (blake3 : Bytes → Hash) (tag body : Bytes) (a : Answers) (others : ObjectStore → ObjectStore)
    (st : ObjectStore) (fence : ℕ) (stat_fault : Option String) (remove_fault : Option RemoveFault)
    → IsUnique blake3 (tag ++ body)
    → IsIntact blake3 st
    → ((s : ObjectStore) → IsIntact blake3 s → IsIntact blake3 (others s))
    → fence ≤ a.first_time
    → fence ≤ a.second_time
    → (write_object blake3 tag body a others st).0 ≢ zero_hash
    → (remove_object_if_older_than
        (write_object blake3 tag body a others st).0
        fence
        stat_fault
        remove_fault
        (write_object blake3 tag body a others st).1).1
      ≡ (write_object blake3 tag body a others st).1
remove_object-write_object blake3 tag body a others st fence stat_fault remove_fault unique v keep
      l₁ l₂ success =
    let start = set_last_error-IsIntact blake3 st no_error v in
    let (now, found, time) =
      Written-stored blake3 unique refl start (keep (set_last_error st no_error) start)
        (write_object_lem blake3 tag body a others st) success in
    let late : fence ≤ now = elim time [ inl t ↦ rw t l₁ | inr t ↦ rw t l₂ ] in
    fresh_stays _ fence stat_fault remove_fault _ _ found late

refusal_lem : (x : RemoveFault) → refusal x ≢ removed
refusal_lem no_such_file r = cc r
refusal_lem (not_removed e) r = cc r

-- An object is removed only if it is not pending and its file is older than the fence, and then it
-- alone goes.
pub remove_object_lem :
    (h : Hash) (fence : ℕ) (stat_fault : Option String) (remove_fault : Option RemoveFault)
    (st : ObjectStore)
    → (remove_object_if_older_than h fence stat_fault remove_fault st).0 ≡ removed
    → (f : StoredFile) × (find h st.objects ≡ some f)
      × (f.mtime < fence)
      × (find h st.pending ≡ none)
      × ((remove_object_if_older_than h fence stat_fault remove_fault st).1
          ≡ record st { objects = erase h st.objects })
unfolding remove_object_if_older_than
remove_object_lem h fence stat_fault remove_fault st = elim (Option-cases (find h st.pending)) [
  | inr (u, p) ↦ rw p (λ r. cc r)
  | inl p ↦ elim (Option-cases stat_fault) [
    | inr (x, q) ↦ rw (p, q) (λ r. cc r)
    | inl q ↦ elim (Option-cases (find h st.objects)) [
      | inl e ↦ rw (p, q, e) (λ r. cc r)
      | inr (f, e) ↦ elim (Bool-cases (leb fence f.mtime)) [
        | inl t ↦ rw (p, q, e, t) (λ r. cc r)
        | inr t ↦ elim (Option-cases remove_fault) [
          | inr (x, s) ↦ rw (p, q, e, t, s) (λ r. absurd (refusal_lem x r))
          | inl s ↦ rw (p, q, e, t, s) (λ r. (f, refl, ground (arith, t), refl, refl))
        ]
      ]
    ]
  ]
]
