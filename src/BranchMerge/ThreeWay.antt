-- ===== src/BranchMerge/ThreeWay.antt =====
-- What the three-way merge of cas/branch_merge.cpp means for one path.
use context_fs.Base.{
  ◌≡◌, ◌≢◌, ==_refl, refl, true, false, Option, none, some, arith, ◌∙◌, sym, ap, subst, inl, inr,
  ◌⊎◌, Bool-cases, ◌==◌,
}
use context_fs.Base.Order.{Bytes, bytes_ord, same→eq, same_refl}
use context_fs.WorkingTree.{WorkingTree, EntryKind, is_deleted, tree, deleted, lookup_raw, IsValid}
use context_fs.BranchMerge.{
  EntryState, same_kind, is_tree_kind, same_entry, is_absent, same_merge_state,
  equivalent_merge_state, merge_state, merge_trees,
}
use context_fs.BranchMerge.Unchanged.{same_kind_refl, same_kind→eq}
use context_fs.BranchMerge.Result.{merge_trees-merge_state}

-- Nothing is there on either side, or entries of one kind and mode that are directories or have the
-- same contents.
abbrev pub IsSame : EntryState → EntryState → Type 0
IsSame none none = Unit {0}
IsSame none (some _) = ⊥
IsSame (some _) none = ⊥
IsSame (some a) (some b) =
    (a.kind ≡ b.kind) × (a.mode ≡ b.mode) × ((a.kind ≡ tree) ⊎ (a.hash ≡ b.hash))

-- no entry, or a whiteout
abbrev pub IsGone : EntryState → Type 0
IsGone none = Unit {0}
IsGone (some e) = e.kind ≡ deleted

-- One path in the base, the source, the target and the merged tree.
pub data Merged (b s t : EntryState) : EntryState → Type 0 where
  unchanged : IsSame b s → IsSame b t → Merged b s t b
  target_changed : IsSame b s → ¬ (IsSame b t) → Merged b s t t
  source_changed : ¬ (IsSame b s) → IsSame b t → Merged b s t s
  both_alike : ¬ (IsSame b s) → ¬ (IsSame b t) → IsSame s t → Merged b s t s
  both_gone_source :
      ¬ (IsSame b s) → ¬ (IsSame b t) → IsGone s → IsGone t → s ≢ none → Merged b s t s
  both_gone_target :
      ¬ (IsSame b s) → ¬ (IsSame b t) → IsGone s → IsGone t → s ≡ none → Merged b s t t

same_kind_at : (k l : EntryKind) → k ≡ l → same_kind k l ≡ true
same_kind_at k l h = rw h (same_kind_refl l)

is_tree_kind→eq : (k : EntryKind) → is_tree_kind k ≡ true → k ≡ tree
is_tree_kind→eq k h = ground (arith, h)

is_deleted→eq : (k : EntryKind) → is_deleted k ≡ true → k ≡ deleted
is_deleted→eq k h = ground (arith, h)

same_entry-IsSame : (a b : EntryState) → same_entry a b ≡ true → IsSame a b
unfolding same_entry
same_entry-IsSame none none h = tt
same_entry-IsSame none (some b) h = cc
same_entry-IsSame (some a) none h = cc
same_entry-IsSame (some a) (some b) h = elim (Bool-cases (same_kind a.kind b.kind)) [
  | inl e ↦ elim (Bool-cases (a.mode == b.mode)) [
    | inl f ↦ elim (Bool-cases (is_tree_kind a.kind)) [
      | inl g ↦ (same_kind→eq a.kind b.kind e, ground (arith, f), inl (is_tree_kind→eq a.kind g))
      | inr g ↦ (
        same_kind→eq a.kind b.kind e,
        ground (arith, f),
        inr (same→eq a.hash b.hash (rw (e, f, g) at h)),
      )
    ]
    | inr f ↦ cc (rw (e, f) at h)
  ]
  | inr e ↦ cc (rw e at h)
]

IsSame→same_entry : (a b : EntryState) → IsSame a b → same_entry a b ≡ true
unfolding same_entry
IsSame→same_entry none none v = refl
IsSame→same_entry none (some b) v = absurd v
IsSame→same_entry (some a) none v = absurd v
IsSame→same_entry (some a) (some b) v = elim v.2 [
  | inl g ↦ rw (v.0, v.1, same_kind_refl b.kind, ==_refl b.mode, sym v.0 ∙ g)
  | inr g ↦ rw (v.0, v.1, g, same_kind_refl b.kind, ==_refl b.mode, same_refl b.hash) (ground arith)
]

is_absent→IsGone : (a : EntryState) → is_absent a ≡ true → IsGone a
unfolding is_absent
is_absent→IsGone none h = tt
is_absent→IsGone (some e) h = is_deleted→eq e.kind h

not-IsSame : (a b : EntryState) → same_entry a b ≡ false → ¬ (IsSame a b)
not-IsSame a b h v = cc (h, IsSame→same_entry a b v)

alike :
    (b s t : EntryState)
    → ¬ (IsSame b s)
    → ¬ (IsSame b t)
    → same_merge_state s t ≡ true
    → Merged b s t (equivalent_merge_state s t)
unfolding same_merge_state equivalent_merge_state is_absent
alike b none none n m h = both_gone_target n m tt tt refl
alike b none (some y) n m h = elim (Bool-cases (is_deleted y.kind)) [
  | inl e ↦ rw e (both_gone_target n m tt (is_deleted→eq y.kind e) refl)
  | inr e ↦ cc (rw (e, same_entry) at h)
]
alike b (some x) none n m h = elim (Bool-cases (is_deleted x.kind)) [
  | inl e ↦ rw e (both_gone_source n m (is_deleted→eq x.kind e) tt (λ q. cc))
  | inr e ↦ cc (rw (e, same_entry) at h)
]
alike b (some x) (some y) n m h = elim (Bool-cases (is_deleted x.kind)) [
  | inl e ↦ elim (Bool-cases (is_deleted y.kind)) [
    | inl f ↦
        rw e (both_gone_source n m (is_deleted→eq x.kind e) (is_deleted→eq y.kind f) (λ q. cc))
    | inr f ↦ rw e (both_alike n m (same_entry-IsSame (some x) (some y) (rw (e, f) at h)))
  ]
  | inr e ↦
      let v = same_entry-IsSame (some x) (some y) (rw e at h) in
      rw (e, sym (ap is_deleted v.0) ∙ e) (both_alike n m v)
]

some_state : {x y : EntryState} → ◌≡◌ {A = Option EntryState} (some x) (some y) → x ≡ y
some_state h = cc

-- the loop's body computes what its meaning says
merge_state-Merged : (b s t r : EntryState) → merge_state b s t ≡ some r → Merged b s t r
unfolding merge_state
merge_state-Merged b s t r h = elim (Bool-cases (same_entry b s)) [
  | inl e ↦ elim (Bool-cases (same_entry b t)) [
    | inl f ↦
        subst (Merged b s t) (some_state (rw (e, f) at h))
          (unchanged (same_entry-IsSame b s e) (same_entry-IsSame b t f))
    | inr f ↦
        subst (Merged b s t) (some_state (rw (e, f) at h))
          (target_changed (same_entry-IsSame b s e) (not-IsSame b t f))
  ]
  | inr e ↦ elim (Bool-cases (same_entry b t)) [
    | inl f ↦
        subst (Merged b s t) (some_state (rw (e, f) at h))
          (source_changed (not-IsSame b s e) (same_entry-IsSame b t f))
    | inr f ↦ elim (Bool-cases (same_merge_state s t)) [
      | inl g ↦
          subst (Merged b s t) (some_state (rw (e, f, g) at h))
            (alike b s t (not-IsSame b s e) (not-IsSame b t f) g)
      | inr g ↦ cc (rw (e, f, g) at h)
    ]
  ]
]

-- A merge that succeeds gives every path its three-way merge. A path that no side changed keeps the
-- base's state, and one that only one side changed gets that side's; where both changed, they agree
-- and the source's is taken, or it is gone on both and stays gone, as the source's whiteout if there
-- is an entry on the source and as the target's state if there is none. A side has changed a path
-- unless it has nothing there as the base, or an entry of the same kind and mode that is a directory
-- or has the same hash.
pub merge_trees_ok :
    (base source target : WorkingTree)
    → IsValid base
    → IsValid source
    → IsValid target
    → (q : Bytes) → (merge_trees base source target).ok ≡ true
    → Merged
        (lookup_raw base q)
        (lookup_raw source q)
        (lookup_raw target q)
        (lookup_raw (merge_trees base source target).merged q)
merge_trees_ok base source target vb vs vt q h =
    merge_state-Merged (lookup_raw base q) (lookup_raw source q) (lookup_raw target q)
      (lookup_raw (merge_trees base source target).merged q)
      (merge_trees-merge_state base source target vb vs vt q h)
