-- ===== src/WriteBuffer/Merged.antt =====
-- The buffer that a write of cas/write_buffer.cpp builds from the ranges it replaces.
use context_fs.Base.{
  ℕ, ◌+◌, ◌-◌, ◌<◌, ◌≤◌, ◌≡◌, refl, ap, ◌∙◌, false, some, [], ◌∷◌, ◌++◌, length, get_elem?, ltb,
  if◌then◌else◌, arith, Bool-cases, inl, inr, replicate, length-replicate,
}
use context_fs.Base.Order.{Bytes}
use context_fs.WriteBuffer.{Ranges, Collected, copy_at, copy_ranges, merged_bytes}
use context_fs.WriteBuffer.Copy.{
  in_range, get_in, get-copy_at_in, get-copy_at_below, get-copy_at_above, length-copy_at,
  length-copy_ranges,
}
use context_fs.WriteBuffer.Overlay.{
  overlay_at, Beyond, IsSpaced, or_byte, in_range_within, in_range_below, in_range_above,
  overlay_at_before, overlay_at-append,
}

-- no range starts before
abbrev pub NotBefore : ℕ → Ranges → Type 0
NotBefore s [] = Unit {0}
NotBefore s ((k, _) ∷ _) = s ≤ k

pub NotBefore-Beyond : (s q : ℕ) (m : Ranges) → NotBefore s m → q < s → Beyond q m
NotBefore-Beyond s q [] n h = tt
NotBefore-Beyond s q ((k, d) ∷ m) n h = omega (arith, n, h)

pub Beyond-NotBefore : (s e : ℕ) (m : Ranges) → Beyond e m → s ≤ e → NotBefore s m
Beyond-NotBefore s e [] b h = tt
Beyond-NotBefore s e ((k, d) ∷ m) b h = omega (arith, b, h)

pub get-copy_ranges :
    (s : ℕ) (m : Ranges) (buf : Bytes) (q : ℕ)
    → IsSpaced m
    → NotBefore s m
    → s ≤ q
    → q - s < length buf
    → get_elem? (copy_ranges s m buf) (q - s) ≡ or_byte (overlay_at m q) (get_elem? buf (q - s))
unfolding copy_ranges overlay_at
get-copy_ranges s [] buf q v n l h = refl
get-copy_ranges s ((k, d) ∷ m) buf q v n l h =
    let buf' = copy_at (k - s) d buf in
    let rest =
      get-copy_ranges s m buf' q v.1.1
        (Beyond-NotBefore s (k + length d) m v.1.0 (omega (arith, n))) l
        (rw (length-copy_at (k - s) d buf) h) in
    elim (Bool-cases (ltb q k)) [
      | inl e ↦
          let below : q < k = ground (arith, e) in
          rw (in_range_below k d q below) (
            rest
            ∙ ap (or_byte (overlay_at m q))
                (get-copy_at_below (k - s) d buf (q - s) (omega (arith, below, l, n))))
      | inr e ↦
          let from : k ≤ q = ground (arith, e) in
          elim (Bool-cases (ltb q (k + length d))) [
            | inl f ↦
                let to : q < k + length d = ground (arith, f) in
                let (b, g) = get_in d (q - k) (omega (arith, from, to)) in
                let shift : q - s - (k - s) ≡ q - k = omega (arith, n, from, l) in
                let copied =
                  get-copy_at_in (k - s) d buf (q - s) h (omega (arith, n, from))
                    (omega (arith, to, n, from)) in
                rw (in_range_within k d q from to, g)
                  (rest
                    ∙ (ap (λ o. or_byte o (get_elem? buf' (q - s)))
                          (overlay_at_before m (k + length d) q v.1.1 v.1.0 (omega (arith, to)))
                        ∙ (copied ∙ (ap (get_elem? d) shift ∙ g))))
            | inr f ↦
                let past : k + length d ≤ q = ground (arith, f) in
                rw (in_range_above k d q past) (
                  rest
                  ∙ ap (or_byte (overlay_at m q))
                      (get-copy_at_above (k - s) d buf (q - s) (omega (arith, past, n, l))))
          ]
    ]

pub length-merged_bytes :
    (s offset : ℕ) (d : Bytes) (c : Collected)
    → length (merged_bytes s offset d c) ≡ c.merge_end - s
unfolding merged_bytes
length-merged_bytes s offset d c =
    let zeros : Bytes = replicate (c.merge_end - s) 0 in
    length-copy_at (offset - s) d (copy_ranges s c.taken zeros)
    ∙ (length-copy_ranges s c.taken zeros ∙ length-replicate {A = ℕ} (c.merge_end - s) 0)

-- the merged buffer has the new bytes, and else those of the ranges that it replaces
pub get-merged_bytes :
    (s offset : ℕ) (d : Bytes) (c : Collected) (q : ℕ)
    → IsSpaced c.taken
    → NotBefore s c.taken
    → s ≤ offset
    → s ≤ q
    → q < c.merge_end
    → (in_range offset d q ≡ false → (b : ℕ) × (overlay_at c.taken q ≡ some b))
    → get_elem? (merged_bytes s offset d c) (q - s)
      ≡ (if in_range offset d q then get_elem? d (q - offset) else overlay_at c.taken q)
unfolding merged_bytes
get-merged_bytes s offset d c q v n l₁ l₂ h covered =
    let zeros : Bytes = replicate (c.merge_end - s) 0 in
    let old : Bytes = copy_ranges s c.taken zeros in
    let room : q - s < length old =
      rw (length-copy_ranges s c.taken zeros, length-replicate {A = ℕ} (c.merge_end - s) 0)
        (omega (arith, h, l₂)) in
    let kept =
      get-copy_ranges s c.taken zeros q v n l₂
        (rw (length-replicate {A = ℕ} (c.merge_end - s) 0) (omega (arith, h, l₂))) in
    elim (Bool-cases (in_range offset d q)) [
      | inl e ↦
          let shift : q - s - (offset - s) ≡ q - offset = ground (arith, e, l₁, l₂) in
          rw e (
            get-copy_at_in (offset - s) d old (q - s) room (ground (arith, e, l₁, l₂))
              (ground (arith, e, l₁, l₂))
            ∙ ap (get_elem? d) shift)
      | inr e ↦
          let (_, t) = covered e in
          let old_byte : get_elem? old (q - s) ≡ overlay_at c.taken q = kept ∙ (rw t) in
          rw e (elim (Bool-cases (ltb q offset)) [
            | inl f ↦
                get-copy_at_below (offset - s) d old (q - s) (ground (arith, f, l₁, l₂)) ∙ old_byte
            | inr f ↦
                get-copy_at_above (offset - s) d old (q - s) (ground (arith, e, f, l₁, l₂))
                ∙ old_byte
          ])
    ]

-- bytes of the ranges around a merged one
pub overlay_at_spliced :
    (before rest : Ranges) (s : ℕ) (d : Bytes) (q : ℕ)
    → overlay_at (before ++ (s, d) ∷ rest) q
      ≡ or_byte
          (overlay_at before q)
          (if in_range s d q then get_elem? d (q - s) else overlay_at rest q)
overlay_at_spliced before rest s d q =
    overlay_at-append before ((s, d) ∷ rest) q ∙ (unfold overlay_at in refl)
