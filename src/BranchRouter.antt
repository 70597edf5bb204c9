-- ===== src/BranchRouter.antt =====
-- cas/branch_router.h and branch_router.cpp: the branch that a process works on, by its cgroup. What
-- /proc, the file system and the fence answer during a call is an argument. A call locks the mutex
-- for some of its blocks, and what other threads do between two of them is an argument as well.
pub mod Coherent
pub mod History
pub mod Routing
pub mod Rounds
use context_fs.Base.{
  ℕ, zero, suc, ◌+◌, ◌%◌, ◌^◌, Bool, true, false, ◌&&◌, ◌||◌, not, Option, none, some, List, [],
  ◌∷◌, ◌++◌, length, take, ltb, leb, ◌==◌, if◌then◌else◌,
}
use context_fs.Base.Order.{Bytes, bytes_ord, nat_ord, same}
use context_fs.Base.Result.{codes}
use context_fs.OrdMap.{OrdMap, find, insert, erase}

pub record PathEntry : Type 0 where
  pub leaf_cgroup_id : ℕ
  pub branch_id : ℕ

pub record FenceEntry : Type 0 where
  pub branch_id : ℕ
  pub generation : ℕ

-- the registered cgroups, and the two caches
pub record BranchRouter : Type 0 where
  pub cgroup_branch_map : OrdMap ℕ ℕ
  pub path_branch_cache : OrdMap Bytes PathEntry
  pub pid_fence_cache : OrdMap ℕ FenceEntry
  pub generation : ℕ
  pub revalidate_leaf : Bool

unfoldable pub new_router : BranchRouter
new_router = record {
  cgroup_branch_map = [];
  path_branch_cache = [];
  pid_fence_cache = [];
  generation = 0;
  revalidate_leaf = true;
}

abbrev pub path_cache_cap : ℕ
path_cache_cap = 1024

abbrev pub fence_cache_cap : ℕ
fence_cache_cap = 4096

unfoldable pub fence_cache_store : ℕ → ℕ → ℕ → BranchRouter → BranchRouter
fence_cache_store pid branch_id gen r =
    let cache = if leb fence_cache_cap (length r.pid_fence_cache) then [] else r.pid_fence_cache in
    record r {
      pid_fence_cache = insert pid (record { branch_id = branch_id; generation = gen }) cache;
    }

-- the registrations changed: a new generation, and empty caches
abbrev pub changed : OrdMap ℕ ℕ → BranchRouter → BranchRouter
changed m r = record r {
  cgroup_branch_map = m;
  generation = (r.generation + 1) % 2 ^ 64;
  path_branch_cache = [];
  pid_fence_cache = [];
}

-- `cg_id` is what the path's inode number is found to be, 0 for no directory
unfoldable pub register_cgroup : ℕ → ℕ → BranchRouter → Bool × BranchRouter
register_cgroup cg_id branch_id r =
    if cg_id == 0
    then (false, r)
    else (true, changed (insert cg_id branch_id r.cgroup_branch_map) r)

abbrev pub is_some {ℓ} : {A : Type ℓ} → Option A → Bool
is_some none = false
is_some (some _) = true

unfoldable pub unregister_cgroup : ℕ → BranchRouter → Bool × BranchRouter
unregister_cgroup cg_id r =
    if cg_id == 0
    then (false, r)
    else if is_some (find cg_id r.cgroup_branch_map)
    then (true, changed (erase cg_id r.cgroup_branch_map) r)
    else (false, record r { path_branch_cache = []; pid_fence_cache = [] })

unfoldable pub evict_cgroup_id : ℕ → BranchRouter → BranchRouter
evict_cgroup_id cg_id r = changed (erase cg_id r.cgroup_branch_map) r

unfoldable pub set_leaf_revalidation : Bool → BranchRouter → BranchRouter
set_leaf_revalidation on r = record r { revalidate_leaf = on }

-- the loop of `invalidate_branch`
unfoldable pub drop_branch : ℕ → OrdMap ℕ ℕ → OrdMap ℕ ℕ
drop_branch branch_id [] = []
drop_branch branch_id ((k, b) ∷ m) =
    let rest = drop_branch branch_id m in if b == branch_id then rest else (k, b) ∷ rest

unfoldable pub invalidate_branch : ℕ → BranchRouter → BranchRouter
unfolding drop_branch
invalidate_branch branch_id r = changed (drop_branch branch_id r.cgroup_branch_map) r

unfoldable pub has_branch : ℕ → OrdMap ℕ ℕ → Bool
has_branch branch_id [] = false
has_branch branch_id ((_, b) ∷ m) =
    let rest = has_branch branch_id m in if b == branch_id then true else rest

unfoldable pub has_cgroup_for_branch : ℕ → BranchRouter → Bool
has_cgroup_for_branch branch_id r = has_branch branch_id r.cgroup_branch_map

-- `find_last_of('/')`
unfoldable pub last_slash : Bytes → Option ℕ
last_slash [] = none
last_slash (c ∷ s) = elim (last_slash s) [
  | some i ↦ some (suc i)
  | none ↦ if c == b'/' then some 0 else none
]

abbrev pub cgroup_root : Bytes
cgroup_root = codes "/sys/fs/cgroup"

-- the path of the next round, unless the loop breaks
unfoldable pub parent_cgroup : Bytes → Option Bytes
unfolding last_slash
parent_cgroup path = if same path cgroup_root then none else elim (last_slash path) [
  | none ↦ none
  | some slash ↦ if leb slash 14 then none else some (take slash path)
]

-- `cgroup_id` is the inode number of a directory, 0 for none.
module _ (cgroup_id : Bytes → ℕ) where
  -- the rounds of the loop, `id` being the number of `path`
  unfoldable pub walk : ℕ → ℕ → Bytes → List ℕ
  unfolding parent_cgroup
  walk zero id path = []
  walk (suc f) id path = elim (parent_cgroup path) [
    | none ↦ if id == 0 then [] else id ∷ []
    | some p ↦ let rest = walk f (cgroup_id p) p in if id == 0 then rest else id ∷ rest
  ]

  unfoldable pub cgroup_path_ids : Bytes → ℕ → List ℕ
  unfolding walk
  cgroup_path_ids path leaf_cgroup_id = walk (length path) leaf_cgroup_id path

unfoldable pub branch_for_cgroup_ids : List ℕ → OrdMap ℕ ℕ → ℕ
branch_for_cgroup_ids [] m = 0
branch_for_cgroup_ids (id ∷ ids) m = elim (find id m) [
  | some b ↦ b
  | none ↦ branch_for_cgroup_ids ids m
]

-- What the fence, /proc and the file system answer during one call. `fence` is `none` without a
-- fence; else it has the first generation, and the one sampled behind a successful `fence_track`.
pub record Answers : Type 0 where
  pub fence : Option (ℕ × Option ℕ)
  pub cgroup : Bytes
  pub cgroup_id : Bytes → ℕ

abbrev pub cgroup_path : Answers → Bytes
cgroup_path a = cgroup_root ++ a.cgroup

abbrev pub same_generation : ℕ → Option FenceEntry → Option ℕ
same_generation gen none = none
same_generation gen (some e) = if e.generation == gen then some e.branch_id else none

unfoldable pub fast_path : ℕ → Answers → BranchRouter → Option ℕ
fast_path pid a r = elim a.fence [
  | none ↦ none
  | some (gen, _) ↦ same_generation gen (find pid r.pid_fence_cache)
]

-- the fence cache is written if the process is tracked
unfoldable pub keep_fenced : ℕ → Answers → ℕ → BranchRouter → BranchRouter
unfolding fence_cache_store
keep_fenced pid a branch_id r = elim a.fence [
  | none ↦ r
  | some (_, none) ↦ r
  | some (_, some gen) ↦ fence_cache_store pid branch_id gen r
]

-- a memoized entry, whose leaf still has its number if that is to be checked
abbrev pub accepts : Bool → ℕ → Option PathEntry → Option ℕ
accepts check_leaf leaf none = none
accepts check_leaf leaf (some e) =
    if not check_leaf || (e.leaf_cgroup_id == leaf) then some e.branch_id else none

unfoldable pub memoize : Bytes → ℕ → ℕ → BranchRouter → BranchRouter
memoize path leaf branch_id r =
    let cache =
      if leb path_cache_cap (length r.path_branch_cache) then [] else r.path_branch_cache in
    record r {
      path_branch_cache =
          insert path (record { leaf_cgroup_id = leaf; branch_id = branch_id }) cache;
    }

abbrev pub is_nil : Bytes → Bool
is_nil [] = true
is_nil (_ ∷ _) = false

-- the walk and the last locked block, `miss` being the generation at the miss
unfoldable pub resolve_miss : ℕ → Answers → ℕ → BranchRouter → ℕ × BranchRouter
unfolding cgroup_path_ids branch_for_cgroup_ids memoize keep_fenced
resolve_miss pid a miss r =
    let leaf = a.cgroup_id (cgroup_path a) in
    let branch_id =
      branch_for_cgroup_ids (cgroup_path_ids a.cgroup_id (cgroup_path a) leaf)
        r.cgroup_branch_map in
    if r.generation == miss
    then (branch_id, keep_fenced pid a branch_id (memoize a.cgroup leaf branch_id r))
    else (branch_id, r)

unfoldable pub resolve :
    ℕ
    → Answers
    → (BranchRouter → BranchRouter)
    → (BranchRouter → BranchRouter)
    → BranchRouter
    → ℕ × BranchRouter
unfolding fast_path resolve_miss keep_fenced
resolve pid a before_lookup before_walk r = elim (fast_path pid a r) [
  | some b ↦ (b, r)
  | none ↦
      if is_nil a.cgroup
      then (0, r)
      else let r₁ = before_lookup r in
        let leaf = if r.revalidate_leaf then a.cgroup_id (cgroup_path a) else 0 in
        elim (accepts r.revalidate_leaf leaf (find a.cgroup r₁.path_branch_cache)) [
          | some b ↦ (b, keep_fenced pid a b r₁)
          | none ↦ resolve_miss pid a r₁.generation (before_walk r₁)
        ]
]
