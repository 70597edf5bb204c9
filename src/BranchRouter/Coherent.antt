-- ===== src/BranchRouter/Coherent.antt =====
-- The cache of paths in cas/branch_router.cpp agrees with the registrations.
use context_fs.Base.{
  ◌≡◌, refl, ℕ, Bool, true, false, [], ◌++◌, ◌==◌, All, length, leb, Bool-cases, Option-cases, inl,
  inr, if◌then◌else◌,
}
use context_fs.Base.Order.{Bytes, bytes_ord, nat_ord}
use context_fs.OrdMap.{OrdMap, find}
use context_fs.OrdMap.Every.{All-insert}
use context_fs.BranchRouter.{
  BranchRouter, PathEntry, Answers, cgroup_root, cgroup_path, cgroup_path_ids,
  branch_for_cgroup_ids, fence_cache_store, keep_fenced, memoize, resolve_miss, resolve, accepts,
  fast_path, is_nil, path_cache_cap,
}

-- the walk from the leaf's number finds the memoized branch
abbrev pub IsMemo : (Bytes → ℕ) → OrdMap ℕ ℕ → Bytes × PathEntry → Type 0
IsMemo cgroup_id m (path, e) =
    e.branch_id
    ≡ branch_for_cgroup_ids (cgroup_path_ids cgroup_id (cgroup_root ++ path) e.leaf_cgroup_id) m

unfoldable pub IsCoherent : (Bytes → ℕ) → BranchRouter → Type 0
IsCoherent cgroup_id r = All (IsMemo cgroup_id r.cgroup_branch_map) r.path_branch_cache

-- the branch that the registrations give to the answers' cgroup
abbrev pub route : Answers → BranchRouter → ℕ
route a r =
    branch_for_cgroup_ids
      (cgroup_path_ids a.cgroup_id (cgroup_path a) (a.cgroup_id (cgroup_path a)))
      r.cgroup_branch_map

keep_fenced-IsCoherent :
    (pid : ℕ) (a : Answers) (b : ℕ) (r : BranchRouter)
    → IsCoherent a.cgroup_id r
    → IsCoherent a.cgroup_id (keep_fenced pid a b r)
unfolding keep_fenced fence_cache_store IsCoherent
keep_fenced-IsCoherent pid a b r v = elim (Option-cases a.fence) [
  | inl e ↦ rw e v
  | inr ((g, o), e) ↦ elim (Option-cases o) [ inl f ↦ rw (e, f) v | inr (h, f) ↦ rw (e, f) v ]
]

All-if_empty :
    (cgroup_id : Bytes → ℕ) (m : OrdMap ℕ ℕ) (full : Bool) (cache : OrdMap Bytes PathEntry)
    → All (IsMemo cgroup_id m) cache
    → All (IsMemo cgroup_id m) (if full then [] else cache)
All-if_empty cgroup_id m true cache v = tt
All-if_empty cgroup_id m false cache v = v

memoize-IsCoherent :
    (cgroup_id : Bytes → ℕ) (path : Bytes) (leaf b : ℕ) (r : BranchRouter)
    → IsMemo cgroup_id r.cgroup_branch_map (path, record { leaf_cgroup_id = leaf; branch_id = b })
    → IsCoherent cgroup_id r
    → IsCoherent cgroup_id (memoize path leaf b r)
unfolding memoize IsCoherent
memoize-IsCoherent cgroup_id path leaf b r e v =
    let full = leb path_cache_cap (length r.path_branch_cache) in
    All-insert (IsMemo cgroup_id r.cgroup_branch_map) path _
      (if full then [] else r.path_branch_cache) e
      (All-if_empty cgroup_id r.cgroup_branch_map full r.path_branch_cache v)

resolve_miss-IsCoherent :
    (pid : ℕ) (a : Answers) (miss : ℕ) (r : BranchRouter)
    → IsCoherent a.cgroup_id r
    → IsCoherent a.cgroup_id (resolve_miss pid a miss r).1
unfolding resolve_miss
resolve_miss-IsCoherent pid a miss r v = elim (Bool-cases (r.generation == miss)) [
  | inl e ↦ rw e (
      keep_fenced-IsCoherent pid a (route a r) _ (
        memoize-IsCoherent a.cgroup_id a.cgroup (a.cgroup_id (cgroup_path a)) (route a r) r refl v))
  | inr e ↦ rw e v
]

-- a call of `resolve` keeps the cache coherent, if what other threads do in between does
pub resolve-IsCoherent :
    (pid : ℕ) (a : Answers) (before_lookup before_walk : BranchRouter → BranchRouter)
    (r : BranchRouter)
    → IsCoherent a.cgroup_id r
    → ((s : BranchRouter) → IsCoherent a.cgroup_id s → IsCoherent a.cgroup_id (before_lookup s))
    → ((s : BranchRouter) → IsCoherent a.cgroup_id s → IsCoherent a.cgroup_id (before_walk s))
    → IsCoherent a.cgroup_id (resolve pid a before_lookup before_walk r).1
unfolding resolve
resolve-IsCoherent pid a before_lookup before_walk r v keep₁ keep₂ =
    elim (Option-cases (fast_path pid a r)) [
      | inr (b, e) ↦ rw (e, resolve) v
      | inl e ↦ elim (Bool-cases (is_nil a.cgroup)) [
        | inl f ↦ rw (e, f, resolve) v
        | inr f ↦
            let leaf = if r.revalidate_leaf then a.cgroup_id (cgroup_path a) else 0 in
            let hit =
              accepts r.revalidate_leaf leaf (find a.cgroup (before_lookup r).path_branch_cache) in
            elim (Option-cases hit) [
              | inr (b, g) ↦
                  rw (e, f, g, resolve)
                    (keep_fenced-IsCoherent pid a b (before_lookup r) (keep₁ r v))
              | inl g ↦
                  rw (e, f, g, resolve)
                    (resolve_miss-IsCoherent pid a (before_lookup r).generation
                      (before_walk (before_lookup r)) (keep₂ (before_lookup r) (keep₁ r v)))
            ]
      ]
    ]
