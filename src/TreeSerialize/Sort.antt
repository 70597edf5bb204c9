-- ===== src/TreeSerialize/Sort.antt =====
-- The order in which cas/tree_serialize.cpp writes the entries of a directory.
use mathlib.Core.List.{Perm}
use mathlib.Core.List.Perm
use context_fs.Base.{
  suc, ◌≡◌, refl, ap, ◌∙◌, List, [], ◌∷◌, length, All, arith, Bool-cases, inl, inr, true, false,
}
use context_fs.Base.Order.{bytes_ord, below, Ord}
use context_fs.TreeSerialize.{Child, insert_child, sort_children}

-- No name is below an earlier one.
abbrev pub IsAscending : List Child → Type 0
IsAscending [] = Unit {0}
IsAscending (c ∷ cs) = All (λ d. below d.0 c.0 ≡ false) cs × IsAscending cs

module _ (P : Child → Type 0) where
  All-insert_child : (c : Child) (cs : List Child) → P c → All P cs → All P (insert_child c cs)
  unfolding insert_child
  All-insert_child c [] v vs = (v, tt)
  All-insert_child c (d ∷ ds) v vs = elim (Bool-cases (below d.0 c.0)) [
    | inl e ↦ rw (e, insert_child) (vs.0, All-insert_child c ds v vs.1)
    | inr e ↦ rw (e, insert_child) (v, vs)
  ]

  pub All-sort_children : (cs : List Child) → All P cs → All P (sort_children cs)
  unfolding sort_children
  All-sort_children [] v = tt
  All-sort_children (c ∷ cs) v =
      All-insert_child c (sort_children cs) v.0 (All-sort_children cs v.1)

length-insert_child : (c : Child) (cs : List Child) → length (insert_child c cs) ≡ suc (length cs)
unfolding insert_child
length-insert_child c [] = refl
length-insert_child c (d ∷ ds) = ground (arith, length-insert_child c ds)

pub length-sort_children : (cs : List Child) → length (sort_children cs) ≡ length cs
unfolding sort_children
length-sort_children [] = refl
length-sort_children (c ∷ cs) =
    length-insert_child c (sort_children cs) ∙ ap suc (length-sort_children cs)

insert_child-perm : (c : Child) (cs : List Child) → Perm (insert_child c cs) (c ∷ cs)
unfolding insert_child
insert_child-perm c [] = Perm.rfl
insert_child-perm c (d ∷ ds) = elim (Bool-cases (below d.0 c.0)) [
  | inl e ↦
      rw (e, insert_child) (Perm.trans (Perm.cons d (insert_child-perm c ds)) (Perm.swap c d ds))
  | inr e ↦ rw (e, insert_child) Perm.rfl
]

pub sort_children-perm : (cs : List Child) → Perm (sort_children cs) cs
unfolding sort_children
sort_children-perm [] = Perm.rfl
sort_children-perm (c ∷ cs) =
    Perm.trans (insert_child-perm c (sort_children cs)) (Perm.cons c (sort_children-perm cs))

module _ {ℓ} {K : Type ℓ} ⦃o : Ord K⦄ where
  below_asym : (a b : K) → below a b ≡ true → below b a ≡ false
  below_asym a b h = ground (arith, o.cmp_flip a b)

  not_below_trans : (a b c : K) → below b a ≡ false → below c b ≡ false → below c a ≡ false
  not_below_trans a b c h k = ground (arith, o.cmp_flip c b, o.cmp_eq c b, o.cmp_trans b c a)

All-not_below :
    (c d : Child) (ds : List Child)
    → below d.0 c.0 ≡ false
    → All (λ e. below e.0 d.0 ≡ false) ds
    → All (λ e. below e.0 c.0 ≡ false) ds
All-not_below c d [] h v = tt
All-not_below c d (e ∷ ds) h v = (not_below_trans c.0 d.0 e.0 h v.0, All-not_below c d ds h v.1)

insert_child-IsAscending :
    (c : Child) (cs : List Child) → IsAscending cs → IsAscending (insert_child c cs)
unfolding insert_child
insert_child-IsAscending c [] s = (tt, tt)
insert_child-IsAscending c (d ∷ ds) s = elim (Bool-cases (below d.0 c.0)) [
  | inl e ↦
      rw (e, insert_child)
        (
          All-insert_child (λ e. below e.0 d.0 ≡ false) c ds (below_asym d.0 c.0 e) s.0,
          insert_child-IsAscending c ds s.1,
        )
  | inr e ↦ rw (e, insert_child) ((e, All-not_below c d ds e s.0), s)
]

pub sort_children-IsAscending : (cs : List Child) → IsAscending (sort_children cs)
unfolding sort_children
sort_children-IsAscending [] = tt
sort_children-IsAscending (c ∷ cs) =
    insert_child-IsAscending c (sort_children cs) (sort_children-IsAscending cs)
