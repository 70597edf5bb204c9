-- ===== src/WriteBuffer/Within.antt =====
-- No range of a write buffer, in cas/write_buffer.cpp, ends past the effective size.
use context_fs.Base.{
  ℕ, ◌+◌, ◌-◌, ◌<◌, ◌≤◌, ◌≡◌, refl, ap, ◌∙◌, sym, none, some, Option, [], ◌∷◌, length, ltb, leb,
  if◌then◌else◌, arith, Bool-cases, Option-cases, inl, inr, All,
}
use context_fs.Base.Order.{Bytes}
use context_fs.WriteBuffer.{
  WriteBuffer, Ranges, last_end, effective_size, extend_size, splice, write,
}
use context_fs.WriteBuffer.Copy.{in_range, get_in}
use context_fs.WriteBuffer.Overlay.{
  overlay_at, IsSpaced, EndsBy, Beyond, in_range_within, in_range_above, overlay_at_before,
}
use context_fs.WriteBuffer.Write.{overlay_at-write, extend_size-overlay}
use context_fs.WriteBuffer.Truncate.{truncate, overlay_at-truncate}
use context_fs.WriteBuffer.Regrow.{truncate-IsSpaced}
use context_fs.WriteBuffer.ReadWrite.{last_end_first, last_end-overlay_at}

-- the overlay ends by the size that is set, if one is
unfoldable pub IsWithin : WriteBuffer → Type 0
IsWithin w = (s : ℕ) → w.size_override ≡ some s → last_end w.overlay ≤ s

-- a byte of the overlay lies behind what the overlay is beyond
below_byte : (e q b : ℕ) (m : Ranges) → IsSpaced m → Beyond e m → overlay_at m q ≡ some b → e ≤ q
below_byte e q b m v l g = elim (Bool-cases (leb q e)) [
  | inl t ↦ cc (sym (overlay_at_before m e q v l (ground (arith, t))) ∙ g)
  | inr t ↦ ground (arith, t)
]

-- what bounds every byte of the overlay bounds its last end
last_end_bound :
    (m : Ranges) (e : ℕ)
    → IsSpaced m
    → ((q b : ℕ) → overlay_at m q ≡ some b → q < e)
    → last_end m ≤ e
unfolding last_end overlay_at
last_end_bound [] e v h = omega arith
last_end_bound ((k, d) ∷ []) e v h =
    let q = k + length d - 1 in
    let (b, g) = get_in d (q - k) (omega (arith, v.0)) in
    let last = h q b (rw (in_range_within k d q (omega (arith, v.0)) (omega (arith, v.0))) g) in
    omega (arith, last)
last_end_bound ((k, d) ∷ r ∷ m) e v h = last_end_bound (r ∷ m) e v.1.1 (λ q b g.
    h q b (rw (in_range_above k d q (below_byte (k + length d) q b (r ∷ m) v.1.1 v.1.0 g)) g))

last_end-EndsBy : (m : Ranges) (e : ℕ) → IsSpaced m → last_end m ≤ e → All (EndsBy e) m
unfolding last_end
last_end-EndsBy [] e v h = tt
last_end-EndsBy ((k, d) ∷ []) e v h = (h, tt)
last_end-EndsBy ((k, d) ∷ r ∷ m) e v h =
    (omega (arith, last_end_first k d (r ∷ m) v, h), last_end-EndsBy (r ∷ m) e v.1.1 h)

-- within the size that is set, every range ends by the effective size
pub IsWithin-EndsBy :
    (w : WriteBuffer) (size : ℕ)
    → IsSpaced w.overlay
    → IsWithin w
    → All (EndsBy (effective_size w size)) w.overlay
unfolding effective_size IsWithin
IsWithin-EndsBy w size v h = elim (Option-cases w.size_override) [
  | inl e ↦ rw e (last_end-EndsBy w.overlay _ v (ground arith))
  | inr (s, e) ↦ rw e (last_end-EndsBy w.overlay s v (h s e))
]

truncated_byte :
    (n s q b : ℕ) (o : Option ℕ) → some n ≡ some s → (if ltb q n then o else none) ≡ some b → q < s
truncated_byte n s q b o e = elim (Bool-cases (ltb q n)) [
  | inl t ↦ rw t (λ g. let same_size : n ≡ s = cc e in ground (arith, t, same_size))
  | inr t ↦ rw t (λ g. cc g)
]

pub truncate-IsWithin : (w : WriteBuffer) (n : ℕ) → IsSpaced w.overlay → IsWithin (truncate w n)
unfolding IsWithin truncate
truncate-IsWithin w n v s e =
    last_end_bound (truncate w n).overlay s (truncate-IsSpaced w n v) (λ q b g.
      truncated_byte n s q b (overlay_at w.overlay q) e (sym (overlay_at-truncate w n q v) ∙ g))

written_byte :
    (w : WriteBuffer) (offset : ℕ) (d : Bytes) (e q b : ℕ)
    → IsSpaced w.overlay
    → offset + length d ≤ e
    → last_end w.overlay ≤ e
    → overlay_at (write w offset d).overlay q ≡ some b
    → q < e
written_byte w offset d e q b v l₁ l₂ g = elim (Bool-cases (in_range offset d q)) [
  | inl t ↦ ground (arith, t, l₁)
  | inr t ↦
      let old : overlay_at w.overlay q ≡ some b =
        sym (overlay_at-write w offset d q v ∙ rw t refl) ∙ g in
      omega (arith, last_end-overlay_at w.overlay q b v old, l₂)
]

-- a bound of the old overlay and of the new bytes bounds the new overlay
last_end-write :
    (w : WriteBuffer) (offset : ℕ) (d : Bytes) (e : ℕ)
    → IsSpaced w.overlay
    → IsSpaced (write w offset d).overlay
    → offset + length d ≤ e
    → last_end w.overlay ≤ e
    → last_end (write w offset d).overlay ≤ e
last_end-write w offset d e v v' l₁ l₂ =
    last_end_bound (write w offset d).overlay e v'
      (λ q b g. written_byte w offset d e q b v l₁ l₂ g)

last_end_unset :
    (w : WriteBuffer) (size : ℕ)
    → w.size_override ≡ none
    → last_end w.overlay ≤ effective_size w size
unfolding effective_size
last_end_unset w size e = rw e (ground arith)

extend_size-IsWithin :
    (w : WriteBuffer) (n low : ℕ)
    → ((e : ℕ) → n ≤ e → low ≤ e → last_end w.overlay ≤ e)
    → ((s : ℕ) → w.size_override ≡ some s → low ≤ s)
    → IsWithin (extend_size w n)
unfolding IsWithin extend_size effective_size
extend_size-IsWithin w n low bound set = elim (Option-cases w.size_override) [
  | inl o ↦ elim (Bool-cases (ltb (effective_size w w.base_size) n)) [
    | inl t ↦
        let short : effective_size w w.base_size < n = ground (arith, t) in
        rw (t, extend_size)
          (λ s e.
            let set_size : n ≡ s = cc e in
            omega (arith, last_end_unset w w.base_size o, short, set_size))
    | inr t ↦ rw (t, extend_size) (λ s e. cc (sym o ∙ e))
  ]
  | inr (s, o) ↦ elim (Bool-cases (ltb s n)) [
    | inl t ↦
        rw (o, t)
          (λ s' e.
            let set_size : n ≡ s' = cc e in
            let grown : s < n = ground (arith, t) in
            omega (arith, bound n (omega arith) (omega (arith, set s o, grown)), set_size))
    | inr t ↦
        rw (o, t)
          (λ s' e.
            let set_size : s ≡ s' = cc e in
            let enough : n ≤ s = ground (arith, t) in
            omega (arith, bound s enough (set s o), set_size))
  ]
]

-- Writing keeps the overlay within the size.
pub write-IsWithin :
    (w : WriteBuffer) (offset : ℕ) (d : Bytes)
    → IsSpaced w.overlay
    → IsSpaced (write w offset d).overlay
    → IsWithin w
    → IsWithin (write w offset d)
unfolding IsWithin write
write-IsWithin w offset [] v v' h = h
write-IsWithin w offset (x ∷ d) v v' h =
    let n = offset + length (x ∷ d) in
    let w' = splice w offset (x ∷ d) in
    let same_overlay = ap last_end (extend_size-overlay w' n) in
    extend_size-IsWithin w' n (last_end w.overlay)
      (λ e l₁ l₂. omega (arith, last_end-write w offset (x ∷ d) e v v' l₁ l₂, same_overlay)) h
