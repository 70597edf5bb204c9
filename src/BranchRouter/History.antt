-- ===== src/BranchRouter/History.antt =====
-- The routers that calls of cas/branch_router.cpp lead to, while the file system renumbers
-- directories, from a new one.
use context_fs.Base.{◌≡◌, ℕ, Bool, [], ◌∷◌, ◌++◌, All, arith, Option}
use context_fs.Base.Order.{Bytes, bytes_ord, nat_ord}
use context_fs.OrdMap.{OrdMap}
use context_fs.BranchRouter.{
  BranchRouter, PathEntry, cgroup_root, cgroup_path_ids, new_router, register_cgroup,
  unregister_cgroup, evict_cgroup_id, invalidate_branch, set_leaf_revalidation, resolve,
}
use context_fs.BranchRouter.Coherent.{IsMemo, IsCoherent, resolve-IsCoherent}

-- Finished calls, of any thread, while every directory keeps its number. What other threads do within
-- a call of `resolve` is such calls again.
pub data Calls (cgroup_id : Bytes → ℕ) : BranchRouter → BranchRouter → Type 0 where
  done : {r : BranchRouter} → Calls cgroup_id r r
  register :
      {r s : BranchRouter} (path : Bytes) (branch_id : ℕ)
      → Calls cgroup_id r s
      → Calls cgroup_id r (register_cgroup (cgroup_id path) branch_id s).1
  unregister :
      {r s : BranchRouter} (path : Bytes)
      → Calls cgroup_id r s
      → Calls cgroup_id r (unregister_cgroup (cgroup_id path) s).1
  evict :
      {r s : BranchRouter} (id : ℕ) → Calls cgroup_id r s → Calls cgroup_id r (evict_cgroup_id id s)
  invalidate :
      {r s : BranchRouter} (branch_id : ℕ)
      → Calls cgroup_id r s
      → Calls cgroup_id r (invalidate_branch branch_id s)
  revalidate :
      {r s : BranchRouter} (on : Bool)
      → Calls cgroup_id r s
      → Calls cgroup_id r (set_leaf_revalidation on s)
  resolved :
      {r s : BranchRouter} (pid : ℕ) (fence : Option (ℕ × Option ℕ)) (cgroup : Bytes)
      (before_lookup before_walk : BranchRouter → BranchRouter)
      → ((t : BranchRouter) → Calls cgroup_id t (before_lookup t))
      → ((t : BranchRouter) → Calls cgroup_id t (before_walk t))
      → Calls cgroup_id r s
      → Calls cgroup_id r
          (resolve pid
            (record { fence = fence; cgroup = cgroup; cgroup_id = cgroup_id })
            before_lookup
            before_walk
            s).1

-- The directories above the cached paths have the same numbers.
abbrev pub SameAbove : (Bytes → ℕ) → (Bytes → ℕ) → OrdMap Bytes PathEntry → Type 0
SameAbove cgroup_id cgroup_id' [] = Unit {0}
SameAbove cgroup_id cgroup_id' ((path, _) ∷ cache) =
    ((leaf : ℕ)
      → cgroup_path_ids cgroup_id' (cgroup_root ++ path) leaf
        ≡ cgroup_path_ids cgroup_id (cgroup_root ++ path) leaf)
    × SameAbove cgroup_id cgroup_id' cache

-- A router's life: directories get other numbers between calls, either with an eviction, or when
-- they are above no cached path.
pub data History : (Bytes → ℕ) → BranchRouter → Type 0 where
  start : {cgroup_id : Bytes → ℕ} → History cgroup_id new_router
  calls :
      {cgroup_id : Bytes → ℕ} {r s : BranchRouter}
      → History cgroup_id r
      → Calls cgroup_id r s
      → History cgroup_id s
  evicted :
      {cgroup_id cgroup_id' : Bytes → ℕ} {r : BranchRouter} (id : ℕ)
      → History cgroup_id r
      → History cgroup_id' (evict_cgroup_id id r)
  renumbered :
      {cgroup_id cgroup_id' : Bytes → ℕ} {r : BranchRouter}
      → History cgroup_id r
      → SameAbove cgroup_id cgroup_id' r.path_branch_cache
      → History cgroup_id' r

unregister_cgroup-IsCoherent :
    (cgroup_id : Bytes → ℕ) (id : ℕ) (r : BranchRouter)
    → IsCoherent cgroup_id r
    → IsCoherent cgroup_id (unregister_cgroup id r).1
unfolding unregister_cgroup IsCoherent
unregister_cgroup-IsCoherent cgroup_id id r v = ground arith

register_cgroup-IsCoherent :
    (cgroup_id : Bytes → ℕ) (id b : ℕ) (r : BranchRouter)
    → IsCoherent cgroup_id r
    → IsCoherent cgroup_id (register_cgroup id b r).1
unfolding register_cgroup IsCoherent
register_cgroup-IsCoherent cgroup_id id b r v = ground arith

Calls-IsCoherent :
    (cgroup_id : Bytes → ℕ) {r s : BranchRouter}
    → Calls cgroup_id r s
    → IsCoherent cgroup_id r
    → IsCoherent cgroup_id s
unfolding evict_cgroup_id invalidate_branch set_leaf_revalidation IsCoherent
Calls-IsCoherent n Calls.done v = v
Calls-IsCoherent n (Calls.register {s = s} path b c) v =
    register_cgroup-IsCoherent n (n path) b s (Calls-IsCoherent n c v)
Calls-IsCoherent n (Calls.unregister {s = s} path c) v =
    unregister_cgroup-IsCoherent n (n path) s (Calls-IsCoherent n c v)
Calls-IsCoherent n (Calls.evict id c) v = tt
Calls-IsCoherent n (Calls.invalidate b c) v = tt
Calls-IsCoherent n (Calls.revalidate on c) v = Calls-IsCoherent n c v
Calls-IsCoherent n (Calls.resolved {s = s} pid fence cgroup f g kf kg c) v =
    resolve-IsCoherent pid (record { fence = fence; cgroup = cgroup; cgroup_id = n }) f g s
      (Calls-IsCoherent n c v) (λ t. Calls-IsCoherent n (kf t)) (λ t. Calls-IsCoherent n (kg t))

SameAbove-IsMemo :
    (n n' : Bytes → ℕ) (m : OrdMap ℕ ℕ) (cache : OrdMap Bytes PathEntry)
    → SameAbove n n' cache
    → All (IsMemo n m) cache
    → All (IsMemo n' m) cache
SameAbove-IsMemo n n' m [] k v = tt
SameAbove-IsMemo n n' m ((path, e) ∷ cache) k v =
    (rw (k.0 e.leaf_cgroup_id) v.0, SameAbove-IsMemo n n' m cache k.1 v.1)

-- however the router came about, its cache of paths agrees with its registrations
pub History-IsCoherent :
    {cgroup_id : Bytes → ℕ} {r : BranchRouter} → History cgroup_id r → IsCoherent cgroup_id r
unfolding IsCoherent new_router evict_cgroup_id
History-IsCoherent History.start = tt
History-IsCoherent (History.calls {cgroup_id = n} h c) = Calls-IsCoherent n c (History-IsCoherent h)
History-IsCoherent (History.evicted id h) = tt
History-IsCoherent (History.renumbered {cgroup_id = n} {cgroup_id' = n'} {r = r} h k) =
    SameAbove-IsMemo n n' r.cgroup_branch_map r.path_branch_cache k (History-IsCoherent h)

pub Calls-History :
    {cgroup_id : Bytes → ℕ} {r s : BranchRouter}
    → History cgroup_id r
    → Calls cgroup_id r s
    → IsCoherent cgroup_id s
Calls-History {cgroup_id = n} h c = Calls-IsCoherent n c (History-IsCoherent h)
