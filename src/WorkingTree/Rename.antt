-- ===== src/WorkingTree/Rename.antt =====
-- `rename_dir` of cas/working_tree.cpp: the whole subtree moves, tombstones included.
use context_fs.Base.{
  ◌≡◌, Bool, true, false, none, some, if◌then◌else◌, arith, Bool-cases, ap, ◌∙◌, sym, inl, inr, [],
  ◌++◌, Option-cases, not,
}
use context_fs.Base.Order.{Bytes, bytes_ord, same, same→eq, same_comm, eq→same}
use context_fs.OrdMap.{find, insert, IsSorted}
use context_fs.OrdMap.Laws.{find-insert, insert-IsSorted}
use context_fs.WorkingTree.{
  WorkingTree, WorkingTreeEntry, is_some, lookup, lookup_raw, base_or_empty, overlay, prefix_range,
  starts_with, with_slash, to_move, new_path, rename_dir, IsValid,
}
use context_fs.WorkingTree.Paths.{
  within, IsPlain, IsDisjoint, within_disjoint, append_cancel, new_path-append, within_split,
  within-append,
}
use context_fs.WorkingTree.Fold.{find-overlay, overlay-IsSorted}
use context_fs.WorkingTree.Prefix.{prefix_range-IsSorted}
use context_fs.WorkingTree.Listing.{find_ranges}
use context_fs.WorkingTree.Lookup.{lookup_lem}
use context_fs.WorkingTree.Move.{
  Keys-of_find, NotTo, Apart, Only, move_untouched, move_emptied, move_source, move_destination,
}

under_lem :
    (w : WorkingTree) (scan q : Bytes)
    → IsValid w
    → find q (
        overlay (overlay [] (prefix_range scan (base_or_empty w.base))) (prefix_range scan w.delta))
      ≡ (if starts_with q scan then lookup_raw w q else none)
unfolding find
under_lem w scan q v =
    rw
      (
        find-overlay q (overlay [] (prefix_range scan (base_or_empty w.base)))
            (prefix_range scan w.delta) (prefix_range-IsSorted scan w.delta v.1),
        find-overlay q [] (prefix_range scan (base_or_empty w.base))
            (prefix_range-IsSorted scan (base_or_empty w.base) v.0),
      )
      (ground (arith, find_ranges w scan q v))

to_move-none :
    (w : WorkingTree) (old : Bytes)
    → lookup_raw w old ≡ none
    → to_move w old
      ≡ overlay
          (overlay [] (prefix_range (with_slash old) (base_or_empty w.base)))
          (prefix_range (with_slash old) w.delta)
unfolding to_move
to_move-none w old e = rw (e, to_move)

to_move-some :
    (w : WorkingTree) (old : Bytes) (x : WorkingTreeEntry)
    → lookup_raw w old ≡ some x
    → to_move w old
      ≡ insert old x (
          overlay
            (overlay [] (prefix_range (with_slash old) (base_or_empty w.base)))
            (prefix_range (with_slash old) w.delta))
unfolding to_move
to_move-some w old x e = rw (e, to_move)

-- The entries to move are those that the raw view has at or under the directory.
pub find-to_move :
    (w : WorkingTree) (old q : Bytes)
    → IsValid w
    → find q (to_move w old) ≡ (if within old q then lookup_raw w q else none)
find-to_move w old q v = elim (Option-cases (lookup_raw w old)) [
  | inl e ↦
      rw (to_move-none w old e, under_lem w (with_slash old) q v) (ground (arith, e, same→eq q old))
  | inr (x, e) ↦
      rw (to_move-some w old x e, find-insert q old x _, under_lem w (with_slash old) q v)
        (ground (arith, e, same→eq q old))
]

pub to_move-IsSorted : (w : WorkingTree) (old : Bytes) → IsSorted (to_move w old)
to_move-IsSorted w old =
    let under =
      overlay-IsSorted (overlay [] (prefix_range (with_slash old) (base_or_empty w.base)))
        (prefix_range (with_slash old) w.delta)
        (overlay-IsSorted [] (prefix_range (with_slash old) (base_or_empty w.base)) tt) in
    elim (Option-cases (lookup_raw w old)) [
      | inl e ↦ rw (to_move-none w old e) under
      | inr (x, e) ↦ rw (to_move-some w old x e) (insert-IsSorted old x _ under)
    ]

-- What the file system's rename guarantees: neither path ends in a slash or lies in the other.
pub record IsRename (old new : Bytes) : Type 0 where
  pub plain_old : IsPlain old
  pub plain_new : IsPlain new
  pub disjoint : IsDisjoint old new

module _ (w : WorkingTree) (old new : Bytes) (valid : IsValid w) (ren : IsRename old new) where
  moved_within : (p : Bytes) → is_some (find p (to_move w old)) ≡ true → within old p ≡ true
  moved_within p h = ground (arith, find-to_move w old p valid)

  -- where a moved path goes
  lands :
      (p : Bytes)
      → within old p ≡ true
      → (r : Bytes) × (p ≡ old ++ r) × (new_path old new p ≡ new ++ r)
  lands p h =
      let (r, e) = within_split old p ren.plain_old h in (r, e, rw e (new_path-append old new r))

  lands_within : (p : Bytes) → within old p ≡ true → within new (new_path old new p) ≡ true
  lands_within p h =
      let (r, e, n) = lands p h in
      rw n (within-append old new r ren.plain_old ren.plain_new (rw e at h))

  not-IsSame : (q t : Bytes) (b : Bytes → Bool) → b q ≡ true → b t ≡ false → same q t ≡ false
  not-IsSame q t b h k = elim (Bool-cases (same q t)) [
    | inr n ↦ n
    | inl e ↦ cc (ap b (same→eq q t e), h, k)
  ]

  outside : (p : Bytes) → within new p ≡ true → within old p ≡ false
  outside p h =
      within_disjoint new old p ren.plain_new ren.plain_old (ren.disjoint.1, ren.disjoint.0) h

  -- destinations are no sources
  not_to : (q p : Bytes) → within old q ≡ true → within old p ≡ true → NotTo old new q p
  not_to q p h k = not-IsSame q (new_path old new p) (within old) h (outside _ (lands_within p k))

  apart :
      (q p : Bytes)
      → within old q ≡ false
      → within old p ≡ true
      → same q (new_path old new p) ≡ false
      → Apart old new q p
  apart q p h k d = (
    elim (Bool-cases (same q p)) [ inr n ↦ n | inl e ↦ cc (ap (within old) (same→eq q p e), h, k) ],
    d,
  )

  -- Nothing is left at or under the old directory.
  pub rename_dir_source : (q : Bytes) → within old q ≡ true → lookup (rename_dir w old new) q ≡ none
  unfolding rename_dir
  rename_dir_source q h =
      let keys =
        Keys-of_find (NotTo old new q) (to_move w old) (λ p k. not_to q p h (moved_within p k)) in
      elim (Option-cases (lookup_raw w q)) [
        | inl e ↦ move_emptied old new q (to_move w old) w keys (rw (lookup_lem w q, e))
        | inr (x, e) ↦
            move_source old new q (to_move w old) w keys (rw (find-to_move w old q valid, h, e))
      ]

  -- Paths outside both directories are untouched.
  pub rename_dir_other :
      (q : Bytes)
      → within old q ≡ false
      → within new q ≡ false
      → lookup (rename_dir w old new) q ≡ lookup w q
  unfolding rename_dir
  rename_dir_other q h k = move_untouched old new q (to_move w old) w (
      Keys-of_find (Apart old new q) (to_move w old) λ p f.
        let wp = moved_within p f in
        apart q p h wp (
          rw (same_comm q (new_path old new p))
            (not-IsSame (new_path old new p) q (within new) (lands_within p wp) k)))

  counterpart_ne :
      (r p : Bytes)
      → within old p ≡ true
      → same (old ++ r) p ≡ false
      → same (new ++ r) (new_path old new p) ≡ false
  counterpart_ne r p h n = elim (Bool-cases (same (new ++ r) (new_path old new p))) [
    | inr d ↦ d
    | inl e ↦
        let (t, ep, en) = lands p h in
        let rt : r ≡ t = append_cancel new r t (same→eq (new ++ r) (new_path old new p) e ∙ en) in
        cc (eq→same (old ++ r) p (rw rt (sym ep)), n)
  ]

  missing_ne :
      (r p : Bytes)
      → lookup_raw w (old ++ r) ≡ none
      → is_some (find p (to_move w old)) ≡ true
      → same (old ++ r) p ≡ false
  missing_ne r p e f = elim (Bool-cases (same (old ++ r) p)) [
    | inr d ↦ d
    | inl k ↦
        let same_key = same→eq (old ++ r) p k in
        cc (f, rw (moved_within p f, rw same_key at e) at (ap is_some (find-to_move w old p valid)))
  ]

  -- A path under the new directory shows what its counterpart held, a whiteout as nothing; where the
  -- old directory had no entry, what was there stays.
  pub rename_dir_target :
      (r : Bytes)
      → within old (old ++ r) ≡ true
      → lookup (rename_dir w old new) (new ++ r)
        ≡ (if is_some (lookup_raw w (old ++ r)) then lookup w (old ++ r) else lookup w (new ++ r))
  unfolding rename_dir
  rename_dir_target r h =
      let moved = to_move w old in
      let inside = within-append old new r ren.plain_old ren.plain_new h in
      elim (Option-cases (lookup_raw w (old ++ r))) [
        | inr (x, e) ↦
            let at : new_path old new (old ++ r) ≡ new ++ r = new_path-append old new r in
            let keys = Keys-of_find (Only old new (old ++ r) (new ++ r)) moved λ p f.
              let wp = moved_within p f in
              (
                not-IsSame (new ++ r) p (λ q. not (within old q)) (rw (outside (new ++ r) inside))
                    (rw wp),
                counterpart_ne r p wp,
              ) in
            rw (e, lookup_lem w (old ++ r), e)
              (rw at at (
                move_destination old new (old ++ r) x moved w (to_move-IsSorted w old) (rw at keys)
                  (rw (find-to_move w old (old ++ r) valid, h, e))))
        | inl e ↦ rw e (
            move_untouched old new (new ++ r) moved w (
              Keys-of_find (Apart old new (new ++ r)) moved λ p f.
                let wp = moved_within p f in
                apart (new ++ r) p (outside (new ++ r) inside) wp
                  (counterpart_ne r p wp (missing_ne r p e f))))
      ]

-- A directory rename moves the whole subtree: the old directory is empty, each entry stands at its
-- counterpart under the new one, and no other path changes.
pub rename_dir_lem :
    (w : WorkingTree) (old new : Bytes)
    → IsValid w
    → IsRename old new
    → ((q : Bytes) → within old q ≡ true → lookup (rename_dir w old new) q ≡ none)
      × ((r : Bytes)
          → within old (old ++ r) ≡ true
          → lookup (rename_dir w old new) (new ++ r) ≡ (
              if is_some (lookup_raw w (old ++ r))
              then lookup w (old ++ r)
              else lookup w (new ++ r)))
      × ((q : Bytes)
          → within old q ≡ false
          → within new q ≡ false
          → lookup (rename_dir w old new) q ≡ lookup w q)
rename_dir_lem w old new valid ren = (
  rename_dir_source w old new valid ren,
  rename_dir_target w old new valid ren,
  rename_dir_other w old new valid ren,
)
