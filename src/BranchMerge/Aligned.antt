-- ===== src/BranchMerge/Aligned.antt =====
-- The merge of cas/branch_merge.cpp reads of a map of states only what the
-- conflict checks can tell apart.
use context_fs.Base.{
  ℕ, zero, suc, ◌≡◌, refl, true, Option, none, some, arith, ◌∙◌, sym, inl, inr, [], ◌∷◌, ◌++◌, List,
  Bool-cases, Option-cases, length,
}
use context_fs.Base.Order.{Bytes, bytes_ord, cmp_bytes, same, Ordering-cases}
use context_fs.OrdMap.{find, insert}
use context_fs.BranchMerge.{
  EntryState, States, same_entry, is_absent, is_tree, same_merge_state, merge_state, parent_path,
  not_tree_state, ancestor_conflict, path_conflict, detect, equivalent_merge_state,
}
use context_fs.BranchMerge.Structure.{detect-some, detect-none, detect-nil}
use context_fs.BranchMerge.Unchanged.{same_entry_comm, same_entry_refl, same_kind→eq}

-- Two states that the conflict checks cannot tell apart.
abbrev pub Alike : EntryState → EntryState → Type 0
Alike x y = (is_absent x ≡ is_absent y) × (is_tree x ≡ is_tree y) × (same_merge_state x y ≡ true)

abbrev pub AlikeIfAny : Option EntryState → Option EntryState → Type 0
AlikeIfAny none none = Unit {0}
AlikeIfAny (some x) (some y) = Alike x y
AlikeIfAny none (some y) = ⊥
AlikeIfAny (some x) none = ⊥

same_entry-Alike : (x y : EntryState) → same_entry x y ≡ true → Alike x y
unfolding same_entry same_merge_state is_absent
same_entry-Alike none none h = (refl, refl, refl)
same_entry-Alike none (some y) h = cc
same_entry-Alike (some x) none h = cc
same_entry-Alike (some x) (some y) h = ground (arith, h, same_kind→eq x.kind y.kind)

same_merge_state-Alike :
    (x y : EntryState)
    → same_merge_state x y ≡ true
    → Alike (equivalent_merge_state x y) (equivalent_merge_state y x)
unfolding same_entry same_merge_state is_absent equivalent_merge_state
same_merge_state-Alike none none h = (refl, refl, refl)
same_merge_state-Alike none (some y) h = ground (arith, h)
same_merge_state-Alike (some x) none h = ground (arith, h)
same_merge_state-Alike (some x) (some y) h =
    ground (arith, h, same_kind→eq x.kind y.kind, same_entry_comm (some x) (some y))

Alike-refl : (x : EntryState) → Alike x x
Alike-refl x = same_entry-Alike x x (same_entry_refl x)

same_merge_state_comm : (x y : EntryState) → same_merge_state x y ≡ same_merge_state y x
unfolding same_merge_state
same_merge_state_comm x y = rw (same_entry_comm x y) (ground arith)

-- Which side is the source does not matter at any path.
pub merge_state_swap : (b s t : EntryState) → AlikeIfAny (merge_state b s t) (merge_state b t s)
unfolding merge_state
merge_state_swap b s t = elim (Bool-cases (same_entry b s)) [
  | inl e ↦ elim (Bool-cases (same_entry b t)) [
    | inl f ↦ rw (e, f) (Alike-refl b)
    | inr f ↦ rw (e, f) (Alike-refl t)
  ]
  | inr e ↦ elim (Bool-cases (same_entry b t)) [
    | inl f ↦ rw (e, f) (Alike-refl s)
    | inr f ↦ elim (Bool-cases (same_merge_state s t)) [
      | inl g ↦ rw (e, f, g, sym (same_merge_state_comm s t) ∙ g) (same_merge_state-Alike s t g)
      | inr g ↦ rw (e, f, g, sym (same_merge_state_comm s t) ∙ g) tt
    ]
  ]
]

-- Two maps with the same keys and states that the checks cannot tell apart.
abbrev pub Aligned : States → States → Type 0
Aligned [] [] = Unit {0}
Aligned ((p, x) ∷ m) ((q, y) ∷ n) = (p ≡ q) × Alike x y × Aligned m n
Aligned [] (_ ∷ _) = ⊥
Aligned (_ ∷ _) [] = ⊥

pub Aligned-insert :
    (p : Bytes) (x y : EntryState) (m n : States)
    → Alike x y
    → Aligned m n
    → Aligned (insert p x m) (insert p y n)
unfolding insert
Aligned-insert p x y [] [] a al = (refl, a, tt)
Aligned-insert p x y [] (j ∷ n) a al = absurd al
Aligned-insert p x y (i ∷ m) [] a al = absurd al
Aligned-insert p x y ((i, u) ∷ m) ((j, v) ∷ n) a al = elim (Ordering-cases (cmp_bytes p j)) [
  | inl e ↦ rw (al.0, e, insert) (refl, a, al)
  | inr (inl e) ↦ rw (al.0, e, insert) (refl, a, al.2)
  | inr (inr e) ↦ rw (al.0, e, insert) (al.0, al.1, Aligned-insert p x y m n a al.2)
]

find-Aligned :
    (q : Bytes) (m n : States) → Aligned m n → not_tree_state (find q m) ≡ not_tree_state (find q n)
unfolding find
find-Aligned q [] [] al = refl
find-Aligned q [] (j ∷ n) al = absurd al
find-Aligned q (i ∷ m) [] al = absurd al
find-Aligned q ((i, u) ∷ m) ((j, v) ∷ n) al = elim (Bool-cases (same q j)) [
  | inl e ↦ rw (al.0, e, al.1.1)
  | inr e ↦ rw (al.0, e) (find-Aligned q m n al.2)
]

ancestor_conflict-Aligned :
    (f : ℕ) (m n : States) (a : Bytes)
    → Aligned m n
    → ancestor_conflict f m a ≡ ancestor_conflict f n a
unfolding ancestor_conflict
ancestor_conflict-Aligned zero m n a al = refl
ancestor_conflict-Aligned (suc f) m n [] al = refl
ancestor_conflict-Aligned (suc f) m n (c ∷ a) al =
    ground
      (arith, find-Aligned (c ∷ a) m n al, ancestor_conflict-Aligned f m n (parent_path (c ∷ a)) al)

path_conflict-Aligned :
    (m n : States) (p : Bytes) (x y : EntryState)
    → Aligned m n
    → Alike x y
    → path_conflict m p x ≡ path_conflict n p y
unfolding path_conflict
path_conflict-Aligned m n p x y al a =
    rw (a.0, ancestor_conflict-Aligned (length p) m n (parent_path p) al)

pub detect-Aligned :
    (m n r s : States) (cs : List Bytes) → Aligned m n → Aligned r s → detect m r cs ≡ detect n s cs
detect-Aligned m n [] [] cs al b = detect-nil m cs ∙ sym (detect-nil n cs)
detect-Aligned m n [] (j ∷ s) cs al b = absurd b
detect-Aligned m n (i ∷ r) [] cs al b = absurd b
detect-Aligned m n ((p, x) ∷ r) ((q, y) ∷ s) cs al b = elim (Option-cases (path_conflict n q y)) [
  | inl e ↦
      let e' : path_conflict m p x ≡ none = path_conflict-Aligned m n p x y al b.1 ∙ rw b.0 e in
      detect-none m r p x cs e' ∙ detect-Aligned m n r s cs al b.2 ∙ sym (detect-none n s q y cs e)
  | inr (a, e) ↦
      let e' : path_conflict m p x ≡ some a = path_conflict-Aligned m n p x y al b.1 ∙ rw b.0 e in
      detect-some m r p a x cs e'
      ∙ detect-Aligned m n r s (cs ++ a ∷ []) al b.2
      ∙ sym (detect-some n s q a y cs e)
]
