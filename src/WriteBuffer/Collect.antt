-- ===== src/WriteBuffer/Collect.antt =====
-- The ranges that one write of cas/write_buffer.cpp merges: the loop that collects them, and the
-- search for the first.
use context_fs.Base.{
  ℕ, ◌+◌, ◌-◌, ◌<◌, ◌≤◌, ◌≡◌, refl, ◌∙◌, true, false, some, [], ◌∷◌, length, All, ltb,
  if◌then◌else◌, arith, Bool-cases, inl, inr,
}
use context_fs.Base.Order.{Bytes}
use context_fs.WriteBuffer.{Ranges, Collected, collect}
use context_fs.WriteBuffer.Copy.{in_range, get_in}
use context_fs.WriteBuffer.Overlay.{
  overlay_at, Beyond, IsSpaced, or_byte, EndsBy, in_range_within, in_range_above,
}

-- what the loop leaves, for ranges from `m` on and a write that ends at `e`
pub record IsCollected (e : ℕ) (m : Ranges) (c : Collected) : Type 0 where
  pub grows : e ≤ c.merge_end
  pub whole : (p : ℕ) → overlay_at m p ≡ or_byte (overlay_at c.taken p) (overlay_at c.rest p)
  pub beyond : Beyond c.merge_end c.rest
  pub spaced_taken : IsSpaced c.taken
  pub spaced_rest : IsSpaced c.rest
  pub fits : All (EndsBy c.merge_end) c.taken
  pub covers : (p : ℕ) → e ≤ p → p < c.merge_end → (b : ℕ) × (overlay_at c.taken p ≡ some b)

Beyond-taken : (x e : ℕ) (m : Ranges) → Beyond x m → Beyond x (collect e m).taken
unfolding collect
Beyond-taken x e [] h = tt
Beyond-taken x e ((k, d) ∷ m) h = elim (Bool-cases (ltb e k)) [ inl t ↦ rw t tt | inr t ↦ rw t h ]

collect_skip :
    (e k : ℕ) (d : Bytes) (m : Ranges)
    → ltb e k ≡ true
    → collect e ((k, d) ∷ m)
      ≡ record { taken = []; rest = (k, d) ∷ m; merge_end = e; old_dirty = 0 }
unfolding collect
collect_skip e k d m t = rw t

collect_take :
    (e k : ℕ) (d : Bytes) (m : Ranges)
    → ltb e k ≡ false
    → collect e ((k, d) ∷ m) ≡ (
        let c = collect (if ltb e (k + length d) then k + length d else e) m in
        record {
          taken = (k, d) ∷ c.taken;
          rest = c.rest;
          merge_end = c.merge_end;
          old_dirty = length d + c.old_dirty;
        })
unfolding collect
collect_take e k d m t = rw t

overlay_at_in :
    (k : ℕ) (d : Bytes) (m : Ranges) (p : ℕ)
    → k ≤ p
    → p < k + length d
    → (b : ℕ) × (overlay_at ((k, d) ∷ m) p ≡ some b)
unfolding overlay_at
overlay_at_in k d m p l r =
    let (b, g) = get_in d (p - k) (omega (arith, l, r)) in (b, rw (in_range_within k d p l r, g))

overlay_at_past :
    (k : ℕ) (d : Bytes) (m : Ranges) (p : ℕ)
    → k + length d ≤ p
    → overlay_at ((k, d) ∷ m) p ≡ overlay_at m p
unfolding overlay_at
overlay_at_past k d m p h = rw (in_range_above k d p h)

overlay_at_cons :
    (k : ℕ) (d : Bytes) (m t r : Ranges) (p : ℕ)
    → overlay_at m p ≡ or_byte (overlay_at t p) (overlay_at r p)
    → overlay_at ((k, d) ∷ m) p ≡ or_byte (overlay_at ((k, d) ∷ t) p) (overlay_at r p)
unfolding overlay_at
overlay_at_cons k d m t r p h = elim (Bool-cases (in_range k d p)) [
  | inl e ↦ let (b, g) = get_in d (p - k) (ground (arith, e)) in rw (e, g)
  | inr e ↦ rw e h
]

covers_cons :
    (k : ℕ) (d : Bytes) (t : Ranges) (e' p : ℕ)
    → k ≤ p
    → (e' ≤ p → (b : ℕ) × (overlay_at t p ≡ some b))
    → (k + length d ≤ p → e' ≤ p)
    → (b : ℕ) × (overlay_at ((k, d) ∷ t) p ≡ some b)
covers_cons k d t e' p l f g = elim (Bool-cases (ltb p (k + length d))) [
  | inl s ↦ overlay_at_in k d t p l (ground (arith, s))
  | inr s ↦
      let past : k + length d ≤ p = ground (arith, s) in
      let (b, q) = f (g past) in (b, overlay_at_past k d t p past ∙ q)
]

pub collect_lem : (e : ℕ) (m : Ranges) → IsSpaced m → IsCollected e m (collect e m)
unfolding overlay_at
collect_lem e [] v =
    unfold collect in
    record {
      grows = omega arith;
      whole = λ p. refl;
      beyond = tt;
      spaced_taken = tt;
      spaced_rest = tt;
      fits = tt;
      covers = λ p l r. ground (arith, l, r);
    }
collect_lem e ((k, d) ∷ m) v = elim (Bool-cases (ltb e k)) [
  | inl t ↦ rw (collect_skip e k d m t) (record {
    grows = omega arith;
    whole = λ p. refl;
    beyond = ground (arith, t);
    spaced_taken = tt;
    spaced_rest = v;
    fits = tt;
    covers = λ p l r. ground (arith, l, r);
  })
  | inr t ↦
      let e' = if ltb e (k + length d) then k + length d else e in
      let c = collect e' m in
      let i = collect_lem e' m v.1.1 in
      let l₁ : e ≤ e' = ground arith in
      let l₂ : k + length d ≤ e' = ground arith in
      rw (collect_take e k d m t) (record {
        grows = omega (arith, i.grows, l₁);
        whole = λ p. overlay_at_cons k d m c.taken c.rest p (i.whole p);
        beyond = i.beyond;
        spaced_taken = (v.0, (Beyond-taken (k + length d) e' m v.1.0, i.spaced_taken));
        spaced_rest = i.spaced_rest;
        fits = (omega (arith, i.grows, l₂), i.fits);
        covers = λ p l r.
            covers_cons k d c.taken e' p (ground (arith, t, l)) (λ h. i.covers p h r)
              (λ h. ground (arith, l, h));
      })
]
