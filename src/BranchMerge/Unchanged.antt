-- ===== src/BranchMerge/Unchanged.antt =====
-- Merging a side that did not change, in cas/branch_merge.cpp.
use context_fs.Base.{
  ◌≡◌, ◌≢◌, refl, true, Option, none, some, arith, ◌∙◌, sym, inl, inr, Bool-cases, ==_refl, ◌==◌, ℕ,
}
use context_fs.Base.Order.{Bytes, bytes_ord, same_refl, same_comm}
use context_fs.WorkingTree.{WorkingTree, EntryKind, blob, unnamed, lookup_raw, IsValid}
use context_fs.BranchMerge.{EntryState, same_kind, same_entry, merge_state, merge_trees}
use context_fs.BranchMerge.Result.{merge_trees-merge_state}

pub same_kind_refl : (k : EntryKind) → same_kind k k ≡ true
same_kind_refl blob = refl
same_kind_refl (unnamed n) = ==_refl n
same_kind_refl _ = refl

pub same_kind→eq : (k l : EntryKind) → same_kind k l ≡ true → k ≡ l
same_kind→eq k l h = ground (arith, h)

pub same_kind_comm : (k l : EntryKind) → same_kind k l ≡ same_kind l k
same_kind_comm k l = ground arith

pub same_entry_refl : (a : EntryState) → same_entry a a ≡ true
unfolding same_entry
same_entry_refl none = refl
same_entry_refl (some e) =
    rw (same_kind_refl e.kind, ==_refl e.mode, same_refl e.hash) (ground arith)

pub same_entry_comm : (a b : EntryState) → same_entry a b ≡ same_entry b a
unfolding same_entry
same_entry_comm none none = refl
same_entry_comm none (some y) = refl
same_entry_comm (some x) none = refl
same_entry_comm (some x) (some y) = elim (Bool-cases (same_kind x.kind y.kind)) [
  | inr n ↦ rw (n, same_kind_comm y.kind x.kind, n)
  | inl e ↦ rw (
    e,
    same_kind_comm y.kind x.kind,
    e,
    same_kind→eq x.kind y.kind e,
    same_comm x.hash y.hash,
    eq_comm x.mode y.mode,
  )
]
  where
    eq_comm : (m n : ℕ) → (m == n) ≡ (n == m)
    eq_comm m n = ground arith

-- With one side unchanged no path is in conflict.
unchanged_source :
    (b t : EntryState) → (r : EntryState) × (merge_state b b t ≡ some r) × (same_entry t r ≡ true)
unfolding merge_state
unchanged_source b t = elim (Bool-cases (same_entry b t)) [
  | inl e ↦ (b, rw (same_entry_refl b, e), rw (same_entry_comm t b) e)
  | inr e ↦ (t, rw (same_entry_refl b, e), same_entry_refl t)
]

-- Merging a source that did not change keeps the target: path by path the merged entry has its kind,
-- mode and contents, and no path is in conflict.
pub merge_trees_unchanged_source :
    (base target : WorkingTree)
    → IsValid base
    → IsValid target
    → (q : Bytes)
    → (merge_state (lookup_raw base q) (lookup_raw base q) (lookup_raw target q) ≢ none)
      × ((merge_trees base base target).ok ≡ true
          → same_entry (lookup_raw target q) (lookup_raw (merge_trees base base target).merged q)
            ≡ true)
merge_trees_unchanged_source base target vb vt q =
    let (r, e, s) = unchanged_source (lookup_raw base q) (lookup_raw target q) in
    (
      (λ n. cc),
      λ ok.
          let m = merge_trees-merge_state base base target vb vb vt q ok in
          rw (unwrap (sym e ∙ m)) at s,
    )
  where
    unwrap : {x y : EntryState} → ◌≡◌ {A = Option EntryState} (some x) (some y) → x ≡ y
    unwrap h = cc
