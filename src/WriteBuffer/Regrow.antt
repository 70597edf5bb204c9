-- ===== src/WriteBuffer/Regrow.antt =====
-- Shrinking and extending a file through cas/write_buffer.cpp.
use context_fs.Base.{
  ℕ, ◌+◌, ◌-◌, ◌<◌, ◌≤◌, ◌≡◌, refl, ap, ◌∙◌, sym, none, [], ◌∷◌, length, get_elem?, length-take,
  ltb, arith, Bool-cases, inl, inr, All,
}
use context_fs.Base.Order.{Bytes}
use context_fs.WriteBuffer.{WriteBuffer, Ranges, base_byte, effective_size, read}
use context_fs.WriteBuffer.Overlay.{overlay_at, Beyond, IsSpaced}
use context_fs.WriteBuffer.Read.{byte_at, read_lem}
use context_fs.WriteBuffer.ReadWrite.{bytes_ext}
use context_fs.WriteBuffer.Truncate.{
  keep_below, trim_last, truncate, StartsBelow, keep_below-StartsBelow, keep_below-IsSpaced,
  overlay_at-truncate,
}

Beyond-trim_last : (e n : ℕ) (m : Ranges) → Beyond e m → Beyond e (trim_last n m)
unfolding trim_last
Beyond-trim_last e n [] b = tt
Beyond-trim_last e n ((k, d) ∷ []) b = elim (Bool-cases (ltb n (k + length d))) [
  | inl t ↦ rw t b
  | inr t ↦ rw t b
]
Beyond-trim_last e n ((k, d) ∷ r ∷ m) b = b

trim_last-IsSpaced :
    (n : ℕ) (m : Ranges) → IsSpaced m → All (StartsBelow n) m → IsSpaced (trim_last n m)
unfolding trim_last
trim_last-IsSpaced n [] v b = tt
trim_last-IsSpaced n ((k, d) ∷ []) v b = elim (Bool-cases (ltb n (k + length d))) [
  | inl t ↦ rw t (omega (arith, length-take (n - k) d, v.0, b.0), (tt, tt))
  | inr t ↦ rw t v
]
trim_last-IsSpaced n ((k, d) ∷ r ∷ m) v b =
    (v.0, (Beyond-trim_last (k + length d) n (r ∷ m) v.1.0, trim_last-IsSpaced n (r ∷ m) v.1.1 b.1))

pub truncate-IsSpaced :
    (w : WriteBuffer) (n : ℕ) → IsSpaced w.overlay → IsSpaced (truncate w n).overlay
unfolding truncate
truncate-IsSpaced w n v =
    trim_last-IsSpaced n (keep_below n w.overlay) (keep_below-IsSpaced n w.overlay v)
      (keep_below-StartsBelow n w.overlay)

effective_size-truncate : (w : WriteBuffer) (n size : ℕ) → effective_size (truncate w n) size ≡ n
unfolding effective_size truncate
effective_size-truncate w n size = refl

regrown_overlay :
    (w : WriteBuffer) (n m q : ℕ)
    → IsSpaced w.overlay
    → n ≤ q
    → overlay_at (truncate (truncate w n) m).overlay q ≡ none
regrown_overlay w n m q v l =
    let cut : overlay_at (truncate w n).overlay q ≡ none =
      overlay_at-truncate w n q v ∙ ground (arith, l) in
    overlay_at-truncate (truncate w n) m q (truncate-IsSpaced w n v)
    ∙ (rw cut (elim (Bool-cases (ltb q m)) [ inl e ↦ rw e | inr e ↦ rw e ]))

-- After shrinking to `n` and extending to `m`, reading a byte between the two sizes returns the byte
-- of the base blob there, the one that the shrinking cut off.
pub read-truncate-truncate :
    (w : WriteBuffer) (n m q : ℕ) (base : Bytes)
    → IsSpaced w.overlay
    → n ≤ q
    → q < m
    → read (truncate (truncate w n) m) q 1 base ≡ base_byte (get_elem? base q) ∷ []
read-truncate-truncate w n m q base v l r =
    let w' = truncate (truncate w n) m in
    let (size, bytes) =
      read_lem w' q 1 base (truncate-IsSpaced (truncate w n) m (truncate-IsSpaced w n v)) in
    let full : length (read w' q 1 base) ≡ 1 =
      omega (arith, size, effective_size-truncate (truncate w n) m (length base), r) in
    bytes_ext (read w' q 1 base) (base_byte (get_elem? base q) ∷ []) full (λ i l'.
      let first : i ≡ 0 = omega (arith, l', full) in
      let shift : q - q ≡ 0 = omega arith in
      rw first (
        ap (get_elem? (read w' q 1 base)) (sym shift)
        ∙ (bytes q (omega arith) (omega (arith, full))
            ∙ (unfold byte_at in rw (regrown_overlay w n m q v l)))))
