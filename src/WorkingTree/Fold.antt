-- ===== src/WorkingTree/Fold.antt =====
-- `fold_into_base` of cas/working_tree.cpp, and the updates that replace the base.
use context_fs.Base.{◌≡◌, refl, true, Option, none, some, arith, sym, ap, ◌∙◌, [], ◌∷◌}
use context_fs.Base.Order.{Bytes, bytes_ord, cmp_bytes_eq}
use context_fs.OrdMap.{find, insert, IsSorted}
use context_fs.OrdMap.Laws.{find-insert, find_below, insert-IsSorted}
use context_fs.OrdMap.Sorted.{ext}
use context_fs.WorkingTree.{
  WorkingTree, EntryMap, base_or_empty, or_base, lookup_raw, merge, for_each_including_deleted,
  overlay, folded, fold_into_base, IsValid,
}
use context_fs.WorkingTree.Lookup.{lookup_raw_lem}
use context_fs.WorkingTree.Iterate.{find-merge, merge-IsSorted, find-for_each_including_deleted}

pub find-overlay :
    (q : Bytes) (b d : EntryMap) → IsSorted d → find q (overlay b d) ≡ or_base (find q d) (find q b)
unfolding overlay find
find-overlay q b [] s = refl
find-overlay q b ((k, v) ∷ d) s = ground (
  arith,
  find-overlay q (insert k v b) d s.1,
  find-insert q k v b,
  find_below k d s.0 s.1,
  cmp_bytes_eq q k,
)

pub overlay-IsSorted : (b d : EntryMap) → IsSorted b → IsSorted (overlay b d)
unfolding overlay
overlay-IsSorted b [] s = s
overlay-IsSorted b ((k, v) ∷ d) s = overlay-IsSorted (insert k v b) d (insert-IsSorted k v b s)

-- Inserting the overlay entry by entry gives the map that the two-pointer merge walks through.
pub overlay-merge : (b d : EntryMap) → IsSorted b → IsSorted d → overlay b d ≡ merge b d
overlay-merge b d s t =
    ext (overlay b d) (merge b d) (overlay-IsSorted b d s) (merge-IsSorted b d s t)
      λ q. find-overlay q b d t ∙ sym (find-merge q b d s t)

folded-merge :
    (b : Option EntryMap) (d : EntryMap)
    → IsSorted (base_or_empty b)
    → IsSorted d
    → folded b d ≡ merge (base_or_empty b) d
unfolding folded merge
folded-merge none d s t = refl
folded-merge (some []) d s t = refl
folded-merge (some (x ∷ b)) d s t = overlay-merge (x ∷ b) d s t

fold_base :
    (w : WorkingTree) (q : Bytes) → lookup_raw (fold_into_base w) q ≡ find q (folded w.base w.delta)
unfolding fold_into_base find
fold_base w q = lookup_raw_lem (fold_into_base w) q

fold_lookup :
    (w : WorkingTree) (q : Bytes) → IsValid w → lookup_raw (fold_into_base w) q ≡ lookup_raw w q
unfolding for_each_including_deleted
fold_lookup w q v =
    fold_base w q
    ∙ ap (find q) (folded-merge w.base w.delta v.0 v.1)
    ∙ find-for_each_including_deleted w q v

-- Folding publishes the merged view as an authoritative base with an empty overlay, and no lookup
-- changes.
pub fold_into_base_lem :
    (w : WorkingTree)
    → IsValid w
    → ((fold_into_base w).base ≡ some (for_each_including_deleted w))
      × ((fold_into_base w).delta ≡ [])
      × ((fold_into_base w).base_authoritative ≡ true)
      × IsValid (fold_into_base w)
      × ((q : Bytes) → lookup_raw (fold_into_base w) q ≡ lookup_raw w q)
unfolding fold_into_base for_each_including_deleted
fold_into_base_lem w v =
    let e = folded-merge w.base w.delta v.0 v.1 in
    (
      ap some e,
      refl,
      refl,
      (rw e (merge-IsSorted (base_or_empty w.base) w.delta v.0 v.1), tt),
      λ q. fold_lookup w q v,
    )
