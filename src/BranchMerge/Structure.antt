-- ===== src/BranchMerge/Structure.antt =====
-- `parent_path` and the structural conflicts of cas/branch_merge.cpp.
use context_fs.Base.{
  ℕ, zero, suc, ◌≤◌, ◌<◌, ◌≡◌, ◌≢◌, refl, true, false, Option, none, some, arith, ◌∙◌, sym, inl,
  inr, ◌⊎◌, [], ◌∷◌, ◌++◌, List, Bool-cases, Option-cases, length, length-take, subst,
}
use context_fs.Base.Order.{Bytes, bytes_ord, same, same→eq}
use context_fs.OrdMap.{find}
use context_fs.WorkingTree.{is_empty}
use context_fs.BranchMerge.{
  EntryState, States, rfind_slash, parent_path, not_tree_state, ancestor_conflict, path_conflict,
  detect, is_absent,
}

rfind_slash-lt : (s : Bytes) (i : ℕ) → rfind_slash s ≡ some i → i < length s
unfolding rfind_slash
rfind_slash-lt [] i h = cc
rfind_slash-lt (c ∷ s) i h = elim (Option-cases (rfind_slash s)) [
  | inl e ↦ ground (arith, e)
  | inr (j, e) ↦ ground (arith, e, rfind_slash-lt s j e)
]

pub length-parent_path : (c : ℕ) (s : Bytes) → length (parent_path (c ∷ s)) ≤ length s
unfolding parent_path
length-parent_path c s = go (rfind_slash (c ∷ s)) refl
  where
    go : (o : Option ℕ) → rfind_slash (c ∷ s) ≡ o → length (parent_path (c ∷ s)) ≤ length s
    go none e = rw (e, parent_path) (omega arith)
    go (some zero) e = rw (e, parent_path) (omega arith)
    go (some (suc i)) e =
        rw (e, parent_path) (omega (arith, length-take i s, rfind_slash-lt (c ∷ s) (suc i) e))

parent_path-le : (p : Bytes) → length (parent_path p) ≤ length p
unfolding parent_path rfind_slash
parent_path-le [] = omega arith
parent_path-le (c ∷ s) = omega (arith, length-parent_path c s)

-- The directories above a path, nearest first, as the loop visits them.
pub data IsAncestor (a : Bytes) : Bytes → Type 0 where
  parent : {p : Bytes} → parent_path p ≡ a → a ≢ [] → IsAncestor a p
  above : {p r : Bytes} → parent_path p ≡ r → r ≢ [] → IsAncestor a r → IsAncestor a p

-- Fuel beyond the length of the path changes nothing.
pub ancestor_conflict_fuel :
    (f g : ℕ) (m : States) (a : Bytes)
    → length a ≤ f
    → length a ≤ g
    → ancestor_conflict f m a ≡ ancestor_conflict g m a
unfolding ancestor_conflict
ancestor_conflict_fuel zero zero m a h k = refl
ancestor_conflict_fuel zero (suc g) m [] h k = refl
ancestor_conflict_fuel zero (suc g) m (c ∷ a) h k = absurd (omega arith)
ancestor_conflict_fuel (suc f) zero m [] h k = refl
ancestor_conflict_fuel (suc f) zero m (c ∷ a) h k = absurd (omega arith)
ancestor_conflict_fuel (suc f) (suc g) m [] h k = refl
ancestor_conflict_fuel (suc f) (suc g) m (c ∷ a) h k = ground (
  arith,
  ancestor_conflict_fuel f g m (parent_path (c ∷ a)) (omega (arith, length-parent_path c a))
      (omega (arith, length-parent_path c a)),
)

-- If the loop finds nothing, the path it starts at and every ancestor of it is a tree, or is not in
-- the map.
no_ancestor_conflict :
    (f : ℕ) (m : States) (x a : Bytes)
    → length x ≤ f
    → x ≢ []
    → ancestor_conflict f m x ≡ none
    → (a ≡ x) ⊎ IsAncestor a x
    → not_tree_state (find a m) ≡ false
unfolding ancestor_conflict
no_ancestor_conflict zero m [] a h n e k = absurd (n refl)
no_ancestor_conflict zero m (c ∷ x) a h n e k = absurd (omega arith)
no_ancestor_conflict (suc f) m [] a h n e k = absurd (n refl)
no_ancestor_conflict (suc f) m (c ∷ x) a h n e k =
    let clear : not_tree_state (find (c ∷ x) m) ≡ false = ground (arith, e) in
    let rest : ancestor_conflict f m (parent_path (c ∷ x)) ≡ none = ground (arith, e, clear) in
    let shorter : length (parent_path (c ∷ x)) ≤ f = omega (arith, length-parent_path c x) in
    go clear rest shorter k (no_ancestor_conflict f m (parent_path (c ∷ x)) a shorter)
  where
    go :
        not_tree_state (find (c ∷ x) m) ≡ false
        → ancestor_conflict f m (parent_path (c ∷ x)) ≡ none
        → length (parent_path (c ∷ x)) ≤ f
        → (a ≡ c ∷ x) ⊎ IsAncestor a (c ∷ x)
        → (parent_path (c ∷ x) ≢ []
            → ancestor_conflict f m (parent_path (c ∷ x)) ≡ none
            → (a ≡ parent_path (c ∷ x)) ⊎ IsAncestor a (parent_path (c ∷ x))
            → not_tree_state (find a m) ≡ false)
        → not_tree_state (find a m) ≡ false
    go clear rest shorter (inl here) ih = rw here clear
    go clear rest shorter (inr (parent p q)) ih = ih (λ z. q (sym p ∙ z)) rest (inl (sym p))
    go clear rest shorter (inr (above p q r)) ih =
        ih (λ z. q (sym p ∙ z)) rest (inr (subst (IsAncestor a) (sym p) r))

-- A live path with no structural conflict has only trees above it.
pub path_conflict-none :
    (m : States) (path a : Bytes) (state : EntryState)
    → is_absent state ≡ false
    → path_conflict m path state ≡ none
    → IsAncestor a path
    → not_tree_state (find a m) ≡ false
unfolding path_conflict
path_conflict-none m path a state live h (parent p q) =
    no_ancestor_conflict (length path) m (parent_path path) a (parent_path-le path)
      (λ z. q (sym p ∙ z)) (ground (arith, h, live)) (inl (sym p))
path_conflict-none m path a state live h (above p q r) =
    no_ancestor_conflict (length path) m (parent_path path) a (parent_path-le path)
      (λ z. q (sym p ∙ z)) (ground (arith, h, live)) (inr (subst (IsAncestor a) (sym p) r))

pub detect-some :
    (m rest : States) (path x : Bytes) (state : EntryState) (cs : List Bytes)
    → path_conflict m path state ≡ some x
    → detect m ((path, state) ∷ rest) cs ≡ detect m rest (cs ++ x ∷ [])
unfolding detect
detect-some m rest path x state cs e = rw (e, detect)

pub detect-none :
    (m rest : States) (path : Bytes) (state : EntryState) (cs : List Bytes)
    → path_conflict m path state ≡ none
    → detect m ((path, state) ∷ rest) cs ≡ detect m rest cs
unfolding detect
detect-none m rest path state cs e = rw (e, detect)

append_not_empty {ℓ} : {A : Type ℓ} (xs : List A) (x : A) → is_empty (xs ++ x ∷ []) ≡ false
append_not_empty [] x = refl
append_not_empty (y ∷ xs) x = refl

pub detect-nil : (m : States) (cs : List Bytes) → detect m [] cs ≡ cs
unfolding detect
detect-nil m cs = refl

-- The list stays empty only if it was empty and no path has a structural conflict.
pub detect_empty :
    (m rest : States) (cs : List Bytes)
    → is_empty (detect m rest cs) ≡ true
    → (is_empty cs ≡ true)
      × ((q : Bytes) (state : EntryState)
          → find q rest ≡ some state
          → path_conflict m q state ≡ none)
unfolding find
detect_empty m [] cs h = (rw (detect-nil m cs) at h, λ q state f. cc)
detect_empty m ((p, x) ∷ rest) cs h = elim (Option-cases (path_conflict m p x)) [
  | inl e ↦
      let (empty, clear) = detect_empty m rest cs (rw (detect-none m rest p x cs e) at h) in
      (
        empty,
        λ q state f. elim (Bool-cases (same q p)) [
          | inl k ↦ let here : x ≡ state = ground (arith, k, f) in rw (same→eq q p k, ← here) e
          | inr k ↦ clear q state (ground (arith, k, f))
        ],
      )
  | inr (a, e) ↦
      let (empty, clear) =
        detect_empty m rest (cs ++ a ∷ []) (rw (detect-some m rest p a x cs e) at h) in
      cc (empty, append_not_empty cs a)
]
