-- ===== src/WriteBuffer/ReadWrite.antt =====
-- Reading back what was written, in cas/write_buffer.cpp.
use context_fs.Base.{
  ℕ, suc, ◌+◌, ◌-◌, ◌<◌, ◌≤◌, ◌≡◌, refl, ap, ◌∙◌, sym, some, [], ◌∷◌, length, get_elem?, ltb, arith,
  Bool-cases, inl, inr, Option-cases,
}
use context_fs.Base.Order.{Bytes}
use context_fs.WriteBuffer.{
  WriteBuffer, Ranges, last_end, effective_size, extend_size, splice, write, read,
}
use context_fs.WriteBuffer.Copy.{in_range, get_in}
use context_fs.WriteBuffer.Overlay.{overlay_at, IsSpaced, in_range_within}
use context_fs.WriteBuffer.Write.{overlay_at-write, extend_size-overlay}
use context_fs.WriteBuffer.Invariant.{IsValid, write-IsValid}
use context_fs.WriteBuffer.Read.{byte_at, read_lem}

pub last_end_first :
    (k : ℕ) (d : Bytes) (n : Ranges) → IsSpaced ((k, d) ∷ n) → k + length d ≤ last_end ((k, d) ∷ n)
unfolding last_end
last_end_first k d [] v = omega arith
last_end_first k d ((j, e) ∷ n) v = omega (arith, last_end_first j e n v.1.1, v.1.0)

-- no byte of the overlay lies past the last end
pub last_end-overlay_at :
    (m : Ranges) (q b : ℕ) → IsSpaced m → overlay_at m q ≡ some b → q < last_end m
unfolding overlay_at last_end
last_end-overlay_at [] q b v h = cc h
last_end-overlay_at ((k, d) ∷ []) q b v h = ground (arith, h)
last_end-overlay_at ((k, d) ∷ (j, f) ∷ m) q b v h = elim (Bool-cases (in_range k d q)) [
  | inl e ↦ ground (arith, e, v.1.0, last_end_first j f m v.1.1)
  | inr e ↦ last_end-overlay_at ((j, f) ∷ m) q b v.1.1 (rw e at h)
]

effective_size-extend_size :
    (w : WriteBuffer) (n size : ℕ)
    → n ≤ last_end w.overlay
    → n ≤ effective_size (extend_size w n) size
unfolding effective_size extend_size
effective_size-extend_size w n size h = elim (Bool-cases (ltb (effective_size w w.base_size) n)) [
  | inl e ↦ rw e (omega arith)
  | inr e ↦ rw e (elim (Option-cases w.size_override) [
    | inl f ↦ rw f (ground (arith, h))
    | inr (s, f) ↦ rw f (ground (arith, rw f at e))
  ])
]

-- the overlay reaches the end of what was written
write_reaches :
    (w : WriteBuffer) (offset x : ℕ) (d : Bytes)
    → IsValid w
    → offset + length (x ∷ d) ≤ last_end (write w offset (x ∷ d)).overlay
write_reaches w offset x d v =
    let q = offset + length d in
    let (b, g) = get_in (x ∷ d) (q - offset) (omega arith) in
    let shown = overlay_at-write w offset (x ∷ d) q v.spaced in
    let last =
      last_end-overlay_at (write w offset (x ∷ d)).overlay q b
        (write-IsValid w offset (x ∷ d) v).spaced
        (shown ∙ rw (in_range_within offset (x ∷ d) q (omega arith) (omega arith)) g) in
    omega (arith, last)

-- After a write of some bytes the effective size reaches their end, whatever the base size.
pub effective_size-write :
    (w : WriteBuffer) (offset : ℕ) (d : Bytes) (size : ℕ)
    → 0 < length d
    → IsValid w
    → offset + length d ≤ effective_size (write w offset d) size
unfolding write
effective_size-write w offset [] size some_data v = ground (arith, some_data)
effective_size-write w offset (x ∷ d) size some_data v =
    let n = offset + length (x ∷ d) in
    let w' = splice w offset (x ∷ d) in
    effective_size-extend_size w' n size
      (omega (arith, write_reaches w offset x d v, ap last_end (extend_size-overlay w' n)))

pub bytes_ext :
    (xs ys : Bytes)
    → length xs ≡ length ys
    → ((i : ℕ) → i < length xs → get_elem? xs i ≡ get_elem? ys i)
    → xs ≡ ys
bytes_ext [] [] e h = refl
bytes_ext [] (y ∷ ys) e h = ground (arith, e)
bytes_ext (x ∷ xs) [] e h = ground (arith, e)
bytes_ext (x ∷ xs) (y ∷ ys) e h =
    let heads : x ≡ y = ground (arith, h 0 (omega arith)) in
    let tails = bytes_ext xs ys (omega (arith, e)) (λ i l. h (suc i) (omega (arith, l))) in
    rw (heads, tails)

byte_at-write :
    (w : WriteBuffer) (offset : ℕ) (d base : Bytes) (q b : ℕ)
    → IsSpaced w.overlay
    → offset ≤ q
    → q < offset + length d
    → get_elem? d (q - offset) ≡ some b
    → byte_at (write w offset d) base q ≡ b
unfolding byte_at
byte_at-write w offset d base q b v l r g =
    let shown : overlay_at (write w offset d).overlay q ≡ some b =
      overlay_at-write w offset d q v ∙ rw (in_range_within offset d q l r) g in
    rw shown

-- Reading at the place of the last write returns what was written, whatever the base blob and the
-- earlier writes were.
pub read-write :
    (w : WriteBuffer) (offset : ℕ) (d base : Bytes)
    → IsValid w
    → read (write w offset d) offset (length d) base ≡ d
read-write w offset d base v =
    let w' = write w offset d in
    let (size, bytes) = read_lem w' offset (length d) base (write-IsValid w offset d v).spaced in
    let full : length (read w' offset (length d) base) ≡ length d =
      elim (Bool-cases (ltb 0 (length d))) [
        | inl e ↦
            let more = effective_size-write w offset d (length base) (ground (arith, e)) v in
            omega (arith, size, more)
        | inr e ↦ ground (arith, e, size)
      ] in
    bytes_ext (read w' offset (length d) base) d full (λ i l.
      let q = offset + i in
      let shift : q - offset ≡ i = omega arith in
      let (b, g) = get_in d i (omega (arith, l, full)) in
      let written =
        byte_at-write w offset d base q b v.spaced (omega arith) (omega (arith, l, full))
          (ap (get_elem? d) shift ∙ g) in
      ap (get_elem? (read w' offset (length d) base)) (sym shift)
      ∙ (bytes q (omega arith) (omega (arith, l)) ∙ (ap some written ∙ sym g)))
