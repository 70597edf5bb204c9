-- ===== src/WorkingTree/Lookup.antt =====
-- What `lookup` sees after each update of cas/working_tree.cpp.
use context_fs.Base.{
  ◌≡◌, refl, true, false, ◌&&◌, not, none, some, if◌then◌else◌, arith, Bool-cases, Option-cases,
  inl, inr, [], ◌∷◌,
}
use context_fs.Base.Order.{Bytes, bytes_ord, same, same→eq, same_refl}
use context_fs.OrdMap.{find}
use context_fs.OrdMap.Laws.{find-insert, find-erase}
use context_fs.WorkingTree.{
  WorkingTree, WorkingTreeEntry, EntryMap, is_deleted, is_empty, is_some, base_find, or_base,
  lookup_raw, live, lookup, insert_entry, shows_through, remove, whiteout, place, rename_entry,
}

-- The fast path for an empty overlay changes nothing.
pub lookup_raw_lem :
    (w : WorkingTree) (q : Bytes) → lookup_raw w q ≡ or_base (find q w.delta) (base_find w.base q)
unfolding lookup_raw
lookup_raw_lem w q = go w.delta
  where
    go :
        (d : EntryMap)
        → or_base (if is_empty d then none else find q d) (base_find w.base q)
          ≡ or_base (find q d) (base_find w.base q)
    go [] = unfold find in refl
    go (x ∷ d) = refl

pub lookup_raw-insert :
    (w : WorkingTree) (p q : Bytes) (e : WorkingTreeEntry)
    → lookup_raw (insert_entry w p e) q ≡ (if same q p then some e else lookup_raw w q)
unfolding insert_entry
lookup_raw-insert w p q e =
    ground
      (arith, lookup_raw_lem w q, lookup_raw_lem (insert_entry w p e) q, find-insert q p e w.delta)

-- `remove` hides the path and changes no other, whether it leaves a whiteout or erases.
pub lookup-remove :
    (w : WorkingTree) (p q : Bytes)
    → lookup (remove w p) q ≡ (if same q p then none else lookup w q)
unfolding remove lookup
lookup-remove w p q = ground (
  arith,
  lookup_raw_lem w q,
  lookup_raw_lem (remove w p) q,
  find-insert q p whiteout w.delta,
  find-erase q p w.delta,
  same→eq q p,
)

-- Past `remove`, a path that would show through has a whiteout, and any other is out of the overlay
-- once the base is authoritative; before that every removed path has a whiteout.
pub lookup_raw-remove :
    (w : WorkingTree) (p : Bytes)
    → lookup_raw (remove w p) p ≡ (
        if w.base_authoritative && not (shows_through w p)
        then base_find w.base p
        else some whiteout)
unfolding remove shows_through
lookup_raw-remove w p = ground (
  arith,
  lookup_raw_lem (remove w p) p,
  find-insert p p whiteout w.delta,
  find-erase p p w.delta,
  same_refl p,
)

pub lookup-insert_entry :
    (w : WorkingTree) (p q : Bytes) (e : WorkingTreeEntry)
    → lookup (insert_entry w p e) q ≡ (if same q p then live (some e) else lookup w q)
unfolding lookup insert_entry
lookup-insert_entry w p q e =
    ground
      (arith, lookup_raw_lem w q, lookup_raw_lem (insert_entry w p e) q, find-insert q p e w.delta)

place_deleted :
    (w : WorkingTree) (p : Bytes) (e : WorkingTreeEntry)
    → is_deleted e.kind ≡ true
    → place w p e ≡ remove w p
unfolding place
place_deleted w p e h = rw h

place_other :
    (w : WorkingTree) (p : Bytes) (e : WorkingTreeEntry)
    → is_deleted e.kind ≡ false
    → place w p e ≡ insert_entry w p e
unfolding place insert_entry
place_other w p e h = rw h

pub lookup-place :
    (w : WorkingTree) (p q : Bytes) (e : WorkingTreeEntry)
    → lookup (place w p e) q ≡ (if same q p then live (some e) else lookup w q)
lookup-place w p q e = elim (Bool-cases (is_deleted e.kind)) [
  | inl d ↦ rw (place_deleted w p e d, lookup-remove w p q, d)
  | inr d ↦ rw (place_other w p e d, lookup-insert_entry w p q e)
]

rename_entry_found :
    (w : WorkingTree) (old new : Bytes) (x : WorkingTreeEntry)
    → lookup_raw w old ≡ some x
    → rename_entry w old new ≡ place (remove w old) new x
unfolding rename_entry
rename_entry_found w old new x e = rw (e, rename_entry)

rename_entry_missing :
    (w : WorkingTree) (old new : Bytes) → lookup_raw w old ≡ none → rename_entry w old new ≡ w
unfolding rename_entry
rename_entry_missing w old new e = rw (e, rename_entry)

pub lookup_lem : (w : WorkingTree) (q : Bytes) → lookup w q ≡ live (lookup_raw w q)
unfolding lookup
lookup_lem w q = refl

-- A rename moves what the old path holds, a whiteout included, and leaves the old path empty; an
-- unknown old path changes nothing.
pub lookup-rename_entry :
    (w : WorkingTree) (old new q : Bytes)
    → lookup (rename_entry w old new) q ≡ (
        if is_some (lookup_raw w old)
        then (if same q new then lookup w old else if same q old then none else lookup w q)
        else lookup w q)
lookup-rename_entry w old new q = elim (Option-cases (lookup_raw w old)) [
  | inl e ↦ rw (e, rename_entry_missing w old new e)
  | inr (x, e) ↦ rw (
    e,
    rename_entry_found w old new x e,
    lookup-place (remove w old) new q x,
    lookup-remove w old q,
    lookup_lem w old,
    e,
  )
]
