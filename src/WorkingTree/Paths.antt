-- ===== src/WorkingTree/Paths.antt =====
-- Prefixes of paths, for cas/working_tree.cpp.
use context_fs.Base.{
  ◌≡◌, refl, Bool, true, false, if◌then◌else◌, arith, ◌∙◌, sym, inl, inr, [], ◌∷◌, ◌++◌,
  drop-append, append-nil, append_assoc, ==_refl, Bool-cases,
}
use context_fs.Base.Order.{Bytes, bytes_ord, same, same→eq, same_refl}
use context_fs.WorkingTree.{starts_with, with_slash, slash, new_path}

pub starts_with_self : (s t : Bytes) → starts_with (s ++ t) s ≡ true
unfolding starts_with
starts_with_self [] t = refl
starts_with_self (a ∷ s) t = ground (arith, starts_with_self s t, ==_refl a)

pub starts_with_cancel : (s t u : Bytes) → starts_with (s ++ t) (s ++ u) ≡ starts_with t u
unfolding starts_with
starts_with_cancel [] t u = refl
starts_with_cancel (a ∷ s) t u = ground (arith, starts_with_cancel s t u, ==_refl a)

pub starts_with_append : (s t p : Bytes) → starts_with s p ≡ true → starts_with (s ++ t) p ≡ true
unfolding starts_with
starts_with_append s t [] h = refl
starts_with_append [] t (b ∷ p) h = cc
starts_with_append (a ∷ s) t (b ∷ p) h = ground (arith, starts_with_append s t p)

-- of two prefixes of one string one is a prefix of the other
pub prefixes_nest :
    (s p r : Bytes)
    → starts_with s p ≡ true
    → starts_with s r ≡ true
    → starts_with p r ≡ false
    → starts_with r p ≡ true
unfolding starts_with
prefixes_nest s p [] h k n = cc
prefixes_nest s [] (b ∷ r) h k n = refl
prefixes_nest [] (a ∷ p) (b ∷ r) h k n = cc
prefixes_nest (c ∷ s) (a ∷ p) (b ∷ r) h k n = ground (arith, prefixes_nest s p r)

pub starts_with_split : (s p : Bytes) → starts_with s p ≡ true → (r : Bytes) × (s ≡ p ++ r)
unfolding starts_with
starts_with_split s [] h = (s, refl)
starts_with_split [] (b ∷ p) h = cc
starts_with_split (a ∷ s) (b ∷ p) h =
    let (r, e) = starts_with_split s p (ground arith) in (r, ground (arith, e))

-- the directory itself, and everything under it
abbrev pub within : Bytes → Bytes → Bool
within dir q = if same q dir then true else starts_with q (with_slash dir)

-- The path does not end in a slash, so `with_slash` adds one.
abbrev pub IsPlain : Bytes → Type 0
IsPlain dir = with_slash dir ≡ dir ++ slash ∷ []

within-slash :
    (dir q : Bytes)
    → IsPlain dir
    → within dir q ≡ true
    → starts_with (q ++ slash ∷ []) (with_slash dir) ≡ true
within-slash dir q plain h = elim (Bool-cases (same q dir)) [
  | inl e ↦
      rw (plain, same→eq q dir e)
        (rw (starts_with_cancel dir (slash ∷ []) (slash ∷ [])) (unfold starts_with in refl))
  | inr n ↦ starts_with_append q (slash ∷ []) (with_slash dir) (ground (arith, n))
]

-- Neither directory lies in the other.
abbrev pub IsDisjoint : Bytes → Bytes → Type 0
IsDisjoint a b =
    (starts_with (with_slash a) (with_slash b) ≡ false)
    × (starts_with (with_slash b) (with_slash a) ≡ false)

pub within_disjoint :
    (a b q : Bytes)
    → IsPlain a
    → IsPlain b
    → IsDisjoint a b
    → within a q ≡ true
    → within b q ≡ false
within_disjoint a b q pa pb d h = elim (Bool-cases (within b q)) [
  | inr k ↦ k
  | inl k ↦ cc (
    prefixes_nest (q ++ slash ∷ []) (with_slash a) (with_slash b) (within-slash a q pa h)
        (within-slash b q pb k) d.0,
    d.1,
  )
]

append_self : (s r : Bytes) → s ++ r ≡ s → r ≡ []
append_self [] r h = h
append_self (a ∷ s) r h = append_self s r (ground arith)

pub append_cancel : (s r t : Bytes) → s ++ r ≡ s ++ t → r ≡ t
append_cancel [] r t h = h
append_cancel (a ∷ s) r t h = append_cancel s r t (ground arith)

pub new_path-append : (old new r : Bytes) → new_path old new (old ++ r) ≡ new ++ r
unfolding new_path
new_path-append old new r = elim (Bool-cases (same (old ++ r) old)) [
  | inl e ↦
      let empty : r ≡ [] = append_self old r (same→eq (old ++ r) old e) in
      rw (e, new_path) (rw empty (sym (append-nil new)))
  | inr n ↦ rw (n, new_path) (rw (drop-append old r))
]

pub within_split :
    (dir q : Bytes) → IsPlain dir → within dir q ≡ true → (r : Bytes) × (q ≡ dir ++ r)
within_split dir q plain h = elim (Bool-cases (same q dir)) [
  | inl e ↦ ([], rw (append-nil dir) (same→eq q dir e))
  | inr n ↦
      let under : starts_with q (with_slash dir) ≡ true = ground (arith, n) in
      let (r, e) = starts_with_split q (dir ++ slash ∷ []) (rw plain at under) in
      (slash ∷ r, e ∙ append_assoc dir (slash ∷ []) r)
]

-- A path under the one directory has its counterpart under the other.
pub within-append :
    (a b r : Bytes) → IsPlain a → IsPlain b → within a (a ++ r) ≡ true → within b (b ++ r) ≡ true
within-append a b r pa pb h = elim (Bool-cases (same (a ++ r) a)) [
  | inl e ↦
      let empty : r ≡ [] = append_self a r (same→eq (a ++ r) a e) in
      rw (empty, append-nil b, same_refl b)
  | inr n ↦
      let under : starts_with (a ++ r) (with_slash a) ≡ true = ground (arith, n) in
      let tail : starts_with r (slash ∷ []) ≡ true =
        sym (starts_with_cancel a r (slash ∷ [])) ∙ (rw pa at under) in
      let moved : starts_with (b ++ r) (with_slash b) ≡ true =
        rw (pb, starts_with_cancel b r (slash ∷ [])) tail in
      ground (arith, moved)
]
