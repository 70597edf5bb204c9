-- ===== src/Tests/Trees.antt =====
-- The working tree of cas/working_tree.cpp at small trees.
use context_fs.Base.{
  ◌≡◌, refl, true, false, none, some, [], ◌∷◌, ◌++◌, if◌then◌else◌, ◌&&◌, not, drop, length,
}
use context_fs.Base.Order.{Bytes, bytes_ord}
use context_fs.OrdMap.{find, insert, erase, IsSorted}
use context_fs.WorkingTree.{
  WorkingTree, lookup, lookup_raw, is_some, rename_dir, for_each, for_each_including_deleted,
  list_dir, fold_into_base, starts_with, with_slash, has_slash, IsValid,
}
use context_fs.Tests.Data.{file_a, dir_d, file_x, dir_e, file_of, a_dir}
use context_fs.WorkingTree.Paths.{within}
use context_fs.WorkingTree.Iterate.{for_each-lookup}
use context_fs.WorkingTree.Listing.{list_dir_lem}
use context_fs.WorkingTree.Fold.{fold_into_base_lem}
use context_fs.WorkingTree.Rename.{IsRename, rename_dir_lem}

-- a base with one file and a directory, and an overlay with a file in it
abbrev small : WorkingTree
small = record {
  base = some ((file_a, (file_of 1)) ∷ (dir_d, a_dir) ∷ []);
  delta = (file_x, (file_of 1)) ∷ [];
  source_origin_paths = [];
  base_authoritative = true;
}

small-IsValid : IsValid small
small-IsValid = ((refl, (tt, tt)), (tt, tt))

for_each-lookup_example :
    IsSorted (for_each small) × ((q : Bytes) → find q (for_each small) ≡ lookup small q)
for_each-lookup_example = for_each-lookup small small-IsValid

list_dir_example :
    IsSorted (list_dir small dir_d)
    × ((q : Bytes)
        → find q (list_dir small dir_d) ≡ (
            if starts_with q (with_slash dir_d)
              && not (has_slash (drop (length (with_slash dir_d)) q))
            then lookup small q
            else none))
list_dir_example = list_dir_lem small dir_d small-IsValid

list_dir_run : list_dir small dir_d ≡ (file_x, (file_of 1)) ∷ []
unfolding list_dir
list_dir_run = refl

fold_into_base_example :
    ((fold_into_base small).base ≡ some (for_each_including_deleted small))
    × ((fold_into_base small).delta ≡ [])
    × ((fold_into_base small).base_authoritative ≡ true)
    × IsValid (fold_into_base small)
    × ((q : Bytes) → lookup_raw (fold_into_base small) q ≡ lookup_raw small q)
fold_into_base_example = fold_into_base_lem small small-IsValid

d_to_e : IsRename dir_d dir_e
unfolding starts_with with_slash
d_to_e = record { plain_old = refl; plain_new = refl; disjoint = (refl, refl) }

rename_dir_example :
    ((q : Bytes) → within dir_d q ≡ true → lookup (rename_dir small dir_d dir_e) q ≡ none)
    × ((r : Bytes)
        → within dir_d (dir_d ++ r) ≡ true
        → lookup (rename_dir small dir_d dir_e) (dir_e ++ r) ≡ (
            if is_some (lookup_raw small (dir_d ++ r))
            then lookup small (dir_d ++ r)
            else lookup small (dir_e ++ r)))
    × ((q : Bytes)
        → within dir_d q ≡ false
        → within dir_e q ≡ false
        → lookup (rename_dir small dir_d dir_e) q ≡ lookup small q)
rename_dir_example = rename_dir_lem small dir_d dir_e small-IsValid d_to_e

rename_dir_run :
    lookup (rename_dir small dir_d dir_e) (dir_e ++ b'/' ∷ b'x' ∷ []) ≡ some (file_of 1)
unfolding rename_dir lookup find insert erase
rename_dir_run = refl
