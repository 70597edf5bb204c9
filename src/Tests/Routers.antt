-- ===== src/Tests/Routers.antt =====
-- The branch router on two cgroups.
use context_fs.Base.{◌≡◌, ◌≢◌, refl, ◌⊎◌, true, none, [], ◌∷◌, arith, ℕ, if◌then◌else◌}
use context_fs.Base.Order.{Bytes, bytes_ord, nat_ord, same}
use context_fs.Base.Result.{codes}
use context_fs.OrdMap.{find, insert}
use context_fs.BranchRouter.{
  BranchRouter, Answers, cgroup_path, cgroup_path_ids, walk, parent_cgroup, last_slash,
  branch_for_cgroup_ids, register_cgroup, invalidate_branch, resolve, fast_path, new_router,
  resolve_miss, memoize,
}
use context_fs.BranchRouter.Coherent.{route}
use context_fs.BranchRouter.History.{History, Calls}
use context_fs.BranchRouter.Routing.{
  resolve_lem, resolve-register_cgroup, resolve-invalidate_branch,
}
use context_fs.BranchRouter.Rounds.{walk_fuel}

-- the numbers of two directories
abbrev numbers : Bytes → ℕ
numbers path =
    if same path (codes "/sys/fs/cgroup/a")
    then 7
    else if same path (codes "/sys/fs/cgroup/a/b")
    then 8
    else 0

-- a process in the inner one
abbrev inner : Answers
inner = record { fence = none; cgroup = codes "/a/b"; cgroup_id = numbers }

-- the outer one is registered for branch 3, and a lookup is memoized
abbrev small_router : BranchRouter
small_router = record {
  cgroup_branch_map = (7, 3) ∷ [];
  path_branch_cache = (codes "/a/b", record { leaf_cgroup_id = 8; branch_id = 3 }) ∷ [];
  pid_fence_cache = [];
  generation = 1;
  revalidate_leaf = true;
}

abbrev nothing_else : BranchRouter → BranchRouter
nothing_else r = r

program : Unit {0}
unfolding cgroup_path_ids walk parent_cgroup last_slash branch_for_cgroup_ids resolve fast_path find
program = tt

resolves_to_outer : (resolve 41 inner nothing_else nothing_else small_router).0 ≡ 3
unfolding program
resolves_to_outer = refl

-- the small router is reached by a registration and a lookup
small_router-History : History numbers small_router
unfolding program register_cgroup new_router resolve_miss memoize insert
small_router-History = History.calls History.start (
    Calls.resolved 41 none (codes "/a/b") nothing_else nothing_else (λ t. Calls.done)
      (λ t. Calls.done) (Calls.register (codes "/sys/fs/cgroup/a") 3 Calls.done))

no_fence : fast_path 41 inner small_router ≡ none
unfolding program
no_fence = refl

resolve_example :
    ((resolve 41 inner nothing_else nothing_else small_router).0 ≡ route inner small_router)
    ⊎ ((resolve 41 inner nothing_else nothing_else small_router).0 ≡ route inner small_router)
resolve_example =
    resolve_lem 41 inner nothing_else nothing_else small_router small_router-History
      (λ t. Calls.done) refl refl no_fence

resolve-register_cgroup_example :
    (resolve 41 inner
      (λ s. s)
      (λ s. s)
      (register_cgroup (numbers (cgroup_path inner)) 5 small_router).1).0
    ≡ 5
resolve-register_cgroup_example = resolve-register_cgroup 41 inner 5 small_router refl refl

three_is_not_zero : ◌≢◌ {A = ℕ} 3 0
three_is_not_zero e = let clash : 3 ≡ 0 = e in omega (arith, clash)

resolve-invalidate_branch_example :
    (resolve 41 inner (λ s. s) (λ s. s) (invalidate_branch 3 small_router)).0 ≢ 3
resolve-invalidate_branch_example =
    resolve-invalidate_branch 41 inner 3 small_router three_is_not_zero

walk_fuel_example :
    walk numbers 40 8 (codes "/sys/fs/cgroup/a/b")
    ≡ cgroup_path_ids numbers (codes "/sys/fs/cgroup/a/b") 8
walk_fuel_example = walk_fuel numbers 40 8 (codes "/sys/fs/cgroup/a/b") (omega arith) (omega arith)
