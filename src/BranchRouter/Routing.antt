-- ===== src/BranchRouter/Routing.antt =====
-- What BranchRouter::resolve of cas/branch_router.cpp answers.
use context_fs.Base.{
  ◌≡◌, ◌≢◌, refl, sym, ◌∙◌, ap, subst, ℕ, zero, suc, ◌≤◌, true, false, Option, none, some, List, [],
  ◌∷◌, ◌==◌, All, length, Bool-cases, Option-cases, inl, inr, arith, if◌then◌else◌, ◌⊎◌, ==_iff,
}
use context_fs.Base.Order.{Bytes, bytes_ord, nat_ord, same_refl}
use context_fs.OrdMap.{OrdMap, find, insert}
use context_fs.OrdMap.Laws.{find-insert}
use context_fs.OrdMap.Every.{find-All}
use context_fs.BranchRouter.{
  BranchRouter, PathEntry, Answers, cgroup_path, cgroup_path_ids, parent_cgroup, walk,
  branch_for_cgroup_ids, changed, register_cgroup, invalidate_branch, drop_branch, resolve_miss,
  resolve, accepts, fast_path, is_nil,
}
use context_fs.BranchRouter.History.{Calls, History, Calls-History}
use context_fs.BranchRouter.Coherent.{IsMemo, IsCoherent, route}

accepts_checked :
    (leaf : ℕ) (o : Option PathEntry) (b : ℕ)
    → accepts true leaf o ≡ some b
    → (o ≡ some (record { leaf_cgroup_id = leaf; branch_id = b }))
accepts_checked leaf none b = λ e. cc e
accepts_checked leaf (some x) b = elim (Bool-cases (x.leaf_cgroup_id == leaf)) [
  | inl t ↦ rw t (λ e.
      let same_leaf : x.leaf_cgroup_id ≡ leaf = (==_iff x.leaf_cgroup_id leaf).0 t in
      let same_branch : x.branch_id ≡ b = cc e in
      ap (λ l. some (record { leaf_cgroup_id = l; branch_id = x.branch_id })) same_leaf
      ∙ ap (λ c. some (record { leaf_cgroup_id = leaf; branch_id = c })) same_branch)
  | inr t ↦ rw t (λ e. cc e)
]

resolve_miss_answer :
    (pid : ℕ) (a : Answers) (miss : ℕ) (r : BranchRouter)
    → (resolve_miss pid a miss r).0 ≡ route a r
unfolding resolve_miss
resolve_miss_answer pid a miss r = elim (Bool-cases (r.generation == miss)) [
  | inl e ↦ rw e refl
  | inr e ↦ rw e refl
]

-- Take any router that calls lead to from a new one. A process in a cgroup, whose answer is not taken
-- from the fence cache, gets the branch that the walk over its cgroup's ancestors finds among the
-- registrations, at the lookup or at the walk: the answer is not a stale entry of the cache of paths.
-- The leaf is to be checked, every directory keeps its number during a call, and a directory gets
-- another number between calls only together with an eviction or when it is above no cached path. The
-- calls may be of several threads, others between the locked blocks of `resolve`.
pub resolve_lem :
    (pid : ℕ) (a : Answers) (before_lookup before_walk : BranchRouter → BranchRouter)
    (r : BranchRouter)
    → History a.cgroup_id r
    → ((t : BranchRouter) → Calls a.cgroup_id t (before_lookup t))
    → r.revalidate_leaf ≡ true
    → is_nil a.cgroup ≡ false
    → fast_path pid a r ≡ none
    → ((resolve pid a before_lookup before_walk r).0 ≡ route a (before_lookup r))
      ⊎ ((resolve pid a before_lookup before_walk r).0 ≡ route a (before_walk (before_lookup r)))
unfolding resolve IsCoherent
resolve_lem pid a before_lookup before_walk r history others check some_cgroup slow =
    let v = Calls-History history (others r) in
    let leaf = a.cgroup_id (cgroup_path a) in
    let cached = find a.cgroup (before_lookup r).path_branch_cache in
    elim (Option-cases (accepts r.revalidate_leaf (if r.revalidate_leaf then leaf else 0) cached)) [
      | inr (b, g) ↦
          let checked = subst (λ c. accepts c (if c then leaf else 0) cached ≡ some b) check g in
          let entry =
            find-All (IsMemo a.cgroup_id (before_lookup r).cgroup_branch_map) a.cgroup _ _ v
              (accepts_checked leaf cached b checked) in
          rw (slow, some_cgroup, g, resolve) (inl entry)
      | inl g ↦
          rw (slow, some_cgroup, g, resolve)
            (inr (
              resolve_miss_answer pid a (before_lookup r).generation
                (before_walk (before_lookup r))))
    ]

fast_path_emptied :
    (pid : ℕ) (a : Answers) (r : BranchRouter) → r.pid_fence_cache ≡ [] → fast_path pid a r ≡ none
unfolding fast_path find
fast_path_emptied pid a r e = elim (Option-cases a.fence) [
  | inl f ↦ rw f refl
  | inr ((gen, t), f) ↦ rw (f, e) refl
]

-- with empty caches the answer is that of the walk
resolve_emptied :
    (pid : ℕ) (a : Answers) (r : BranchRouter)
    → r.pid_fence_cache ≡ []
    → r.path_branch_cache ≡ []
    → is_nil a.cgroup ≡ false
    → (resolve pid a (λ s. s) (λ s. s) r).0 ≡ route a r
unfolding resolve find
resolve_emptied pid a r e f some_cgroup =
    rw (fast_path_emptied pid a r e, some_cgroup, f, resolve)
      (resolve_miss_answer pid a r.generation r)

walk_first :
    (cgroup_id : Bytes → ℕ) (f id : ℕ) (path : Bytes) (m : OrdMap ℕ ℕ) (b : ℕ)
    → 1 ≤ f
    → (id == 0) ≡ false
    → find id m ≡ some b
    → branch_for_cgroup_ids (walk cgroup_id f id path) m ≡ b
unfolding walk branch_for_cgroup_ids
walk_first cgroup_id zero id path m b l e g = absurd (omega arith)
walk_first cgroup_id (suc f) id path m b l e g = elim (Option-cases (parent_cgroup path)) [
  | inl h ↦ rw (h, walk, e) (rw (g, branch_for_cgroup_ids) refl)
  | inr (p, h) ↦ rw (h, walk, e) (rw (g, branch_for_cgroup_ids) refl)
]

-- A process in a cgroup that was just registered, and is a directory, is routed to its branch.
pub resolve-register_cgroup :
    (pid : ℕ) (a : Answers) (branch_id : ℕ) (r : BranchRouter)
    → is_nil a.cgroup ≡ false
    → (a.cgroup_id (cgroup_path a) == 0) ≡ false
    → (resolve pid a
        (λ s. s)
        (λ s. s)
        (register_cgroup (a.cgroup_id (cgroup_path a)) branch_id r).1).0
      ≡ branch_id
unfolding register_cgroup cgroup_path_ids
resolve-register_cgroup pid a branch_id r some_cgroup directory =
    let id = a.cgroup_id (cgroup_path a) in
    let registered = changed (insert id branch_id r.cgroup_branch_map) r in
    rw (directory, register_cgroup)
      (resolve_emptied pid a registered refl refl some_cgroup
        ∙ walk_first a.cgroup_id (length (cgroup_path a)) id (cgroup_path a)
            registered.cgroup_branch_map branch_id (omega arith) directory
            (find-insert id id branch_id r.cgroup_branch_map ∙ rw (same_refl id) refl))

drop_branch-All :
    (branch_id : ℕ) (m : OrdMap ℕ ℕ) → All (λ (k, b). b ≢ branch_id) (drop_branch branch_id m)
unfolding drop_branch
drop_branch-All branch_id [] = tt
drop_branch-All branch_id ((k, b) ∷ m) = elim (Bool-cases (b == branch_id)) [
  | inl e ↦ rw e (drop_branch-All branch_id m)
  | inr e ↦ rw e (λ q. ground (arith, e, q), drop_branch-All branch_id m)
]

branch_for_cgroup_ids_avoids :
    (branch_id : ℕ) (ids : List ℕ) (m : OrdMap ℕ ℕ)
    → All (λ (k, b). b ≢ branch_id) m
    → branch_id ≢ 0
    → branch_for_cgroup_ids ids m ≢ branch_id
unfolding branch_for_cgroup_ids
branch_for_cgroup_ids_avoids branch_id [] m v nonzero = λ e. nonzero (sym e)
branch_for_cgroup_ids_avoids branch_id (id ∷ ids) m v nonzero = elim (Option-cases (find id m)) [
  | inl e ↦ rw (e, branch_for_cgroup_ids) (branch_for_cgroup_ids_avoids branch_id ids m v nonzero)
  | inr (b, e) ↦ rw (e, branch_for_cgroup_ids) (find-All (λ (k, c). c ≢ branch_id) id b m v e)
]

-- Once a branch, whose number is not 0, is invalidated no process is routed to it, whatever its cgroup
-- is and whatever the caches held, while no other thread acts in between.
pub resolve-invalidate_branch :
    (pid : ℕ) (a : Answers) (branch_id : ℕ) (r : BranchRouter)
    → branch_id ≢ 0
    → (resolve pid a (λ s. s) (λ s. s) (invalidate_branch branch_id r)).0 ≢ branch_id
unfolding invalidate_branch resolve
resolve-invalidate_branch pid a branch_id r nonzero =
    let left = drop_branch branch_id r.cgroup_branch_map in
    elim (Bool-cases (is_nil a.cgroup)) [
      | inl e ↦
          rw (fast_path_emptied pid a (changed left r) refl, e, resolve) (λ q. nonzero (sym q))
      | inr e ↦
          subst (λ b. b ≢ branch_id) (sym (resolve_emptied pid a (changed left r) refl refl e))
            (branch_for_cgroup_ids_avoids branch_id
              (cgroup_path_ids a.cgroup_id (cgroup_path a) (a.cgroup_id (cgroup_path a))) left
              (drop_branch-All branch_id r.cgroup_branch_map) nonzero)
    ]
