-- ===== src/WorkingTree/Move.antt =====
-- The loop of `rename_dir` in cas/working_tree.cpp, over any list of entries to move.
use context_fs.Base.{
  ◌≡◌, refl, true, false, none, some, if◌then◌else◌, arith, Bool-cases, ◌∙◌, inl, inr, [], ◌∷◌,
}
use context_fs.Base.Order.{Bytes, bytes_ord, same, same→eq, same_refl}
use context_fs.OrdMap.{find, IsSorted}
use context_fs.OrdMap.Laws.{find_below}
use context_fs.WorkingTree.{
  WorkingTree, WorkingTreeEntry, EntryMap, is_some, live, lookup, remove, place, new_path, move_all,
}
use context_fs.WorkingTree.Lookup.{lookup-place, lookup-remove}

-- Of every key of the map.
abbrev pub Keys : (Bytes → Type 0) → EntryMap → Type 0
Keys P [] = Unit {0}
Keys P ((p, _) ∷ m) = P p × Keys P m

pub Keys-of_find :
    (P : Bytes → Type 0) (m : EntryMap) → ((q : Bytes) → is_some (find q m) ≡ true → P q) → Keys P m
unfolding find
Keys-of_find P [] h = tt
Keys-of_find P ((p, e) ∷ m) h =
    (h p (ground (arith, same_refl p)), Keys-of_find P m λ q k. h q (ground arith))

module _ (old new : Bytes) where
  step : WorkingTree → Bytes → WorkingTreeEntry → WorkingTree
  step w p e = place (remove w p) (new_path old new p) e

  lookup-step :
      (w : WorkingTree) (p q : Bytes) (e : WorkingTreeEntry)
      → lookup (step w p e) q ≡ (
          if same q (new_path old new p)
          then live (some e)
          else if same q p
          then none
          else lookup w q)
  unfolding step
  lookup-step w p q e = rw (lookup-place (remove w p) (new_path old new p) q e, lookup-remove w p q)

  move_all_cons :
      (p : Bytes) (e : WorkingTreeEntry) (m : EntryMap) (w : WorkingTree)
      → move_all old new ((p, e) ∷ m) w ≡ move_all old new m (step w p e)
  unfolding move_all step
  move_all_cons p e m w = refl

  move_all_nil : (w : WorkingTree) → move_all old new [] w ≡ w
  unfolding move_all
  move_all_nil w = refl

  -- no entry comes to `q`
  abbrev pub NotTo : Bytes → Bytes → Type 0
  NotTo q p = same q (new_path old new p) ≡ false

  -- no entry comes to `q`, and none leaves it
  abbrev pub Apart : Bytes → Bytes → Type 0
  Apart q p = (same q p ≡ false) × (same q (new_path old new p) ≡ false)

  pub move_untouched :
      (q : Bytes) (m : EntryMap) (w : WorkingTree)
      → Keys (Apart q) m
      → lookup (move_all old new m w) q ≡ lookup w q
  move_untouched q [] w h = rw (move_all_nil w)
  move_untouched q ((p, e) ∷ m) w h =
      rw (move_all_cons p e m w, move_untouched q m (step w p e) h.1)
        (rw (lookup-step w p q e, h.0.1, h.0.0))

  pub move_emptied :
      (q : Bytes) (m : EntryMap) (w : WorkingTree)
      → Keys (NotTo q) m
      → lookup w q ≡ none
      → lookup (move_all old new m w) q ≡ none
  move_emptied q [] w h k = rw (move_all_nil w) k
  move_emptied q ((p, e) ∷ m) w h k =
      rw (move_all_cons p e m w)
        (move_emptied q m (step w p e) h.1 (rw (lookup-step w p q e, h.0, k) (ground arith)))

  pub move_source :
      (q : Bytes) (m : EntryMap) (w : WorkingTree)
      → Keys (NotTo q) m
      → is_some (find q m) ≡ true
      → lookup (move_all old new m w) q ≡ none
  unfolding find
  move_source q [] w h f = cc
  move_source q ((p, e) ∷ m) w h f = rw (move_all_cons p e m w) (elim (Bool-cases (same q p)) [
    | inl here ↦ move_emptied q m (step w p e) h.1 (rw (lookup-step w p q e, h.0, here))
    | inr there ↦ move_source q m (step w p e) h.1 (ground (arith, there))
  ])

  -- `t` is no source, and of the destinations only that of `p`
  abbrev pub Only : Bytes → Bytes → Bytes → Type 0
  Only p t i = (same t i ≡ false) × (same p i ≡ false → same t (new_path old new i) ≡ false)

  others : (p t : Bytes) (m : EntryMap) → find p m ≡ none → Keys (Only p t) m → Keys (Apart t) m
  unfolding find
  others p t [] f h = tt
  others p t ((i, e) ∷ m) f h =
      let miss : same p i ≡ false = ground arith in
      ((h.0.0, h.0.1 miss), others p t m (ground (arith, miss)) h.1)

  pub move_destination :
      (p : Bytes) (e : WorkingTreeEntry) (m : EntryMap) (w : WorkingTree)
      → IsSorted m
      → Keys (Only p (new_path old new p)) m
      → find p m ≡ some e
      → lookup (move_all old new m w) (new_path old new p) ≡ live (some e)
  unfolding find
  move_destination p e [] w s h f = cc
  move_destination p e ((i, x) ∷ m) w s h f =
      rw (move_all_cons i x m w) (elim (Bool-cases (same p i)) [
        | inl here ↦
            let same_key = same→eq p i here in
            move_untouched (new_path old new p) m (step w i x)
              (others p (new_path old new p) m (rw same_key (find_below i m s.0 s.1)) h.1)
            ∙ rw
                (lookup-step w i (new_path old new p) x, ← same_key, same_refl (new_path old new p))
                (ground (arith, here))
        | inr there ↦ move_destination p e m (step w i x) s.1 h.1 (ground (arith, there))
      ])
