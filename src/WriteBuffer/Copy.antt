-- ===== src/WriteBuffer/Copy.antt =====
-- Buffers byte by byte, for the copies of cas/write_buffer.cpp.
use context_fs.Base.{
  ℕ, zero, suc, ◌+◌, ◌-◌, ◌<◌, ◌≤◌, ◌≡◌, refl, ap, ◌∙◌, Bool, ◌&&◌, some, [], ◌∷◌, length,
  get_elem?, replicate, ltb, leb, arith,
}
use context_fs.Base.Order.{Bytes}
use context_fs.WriteBuffer.{copy_at, copy_ranges, Ranges}

-- the position lies in the range
abbrev pub in_range : ℕ → Bytes → ℕ → Bool
in_range k d p = leb k p && ltb p (k + length d)

pub length-copy_at : (i : ℕ) (d buf : Bytes) → length (copy_at i d buf) ≡ length buf
unfolding copy_at
length-copy_at i [] buf = refl
length-copy_at i (x ∷ d) [] = refl
length-copy_at zero (x ∷ d) (y ∷ buf) = ap suc (length-copy_at zero d buf)
length-copy_at (suc i) (x ∷ d) (y ∷ buf) = ap suc (length-copy_at i (x ∷ d) buf)

pub length-copy_ranges :
    (start : ℕ) (m : Ranges) (buf : Bytes) → length (copy_ranges start m buf) ≡ length buf
unfolding copy_ranges
length-copy_ranges start [] buf = refl
length-copy_ranges start ((k, d) ∷ m) buf =
    length-copy_ranges start m (copy_at (k - start) d buf) ∙ length-copy_at (k - start) d buf

pub get-copy_at_in :
    (i : ℕ) (d buf : Bytes) (p : ℕ)
    → p < length buf
    → i ≤ p
    → p < i + length d
    → get_elem? (copy_at i d buf) p ≡ get_elem? d (p - i)
unfolding copy_at
get-copy_at_in i [] buf p h l r = ground (arith, h, l, r)
get-copy_at_in i (x ∷ d) [] p h l r = ground (arith, h)
get-copy_at_in zero (x ∷ d) (y ∷ buf) zero h l r = refl
get-copy_at_in zero (x ∷ d) (y ∷ buf) (suc p) h l r =
    let shift : suc p - 0 ≡ suc (p - 0) = omega arith in
    rw shift (get-copy_at_in zero d buf p (omega (arith, h)) (omega arith) (omega (arith, r)))
get-copy_at_in (suc i) (x ∷ d) (y ∷ buf) zero h l r = ground (arith, l)
get-copy_at_in (suc i) (x ∷ d) (y ∷ buf) (suc p) h l r =
    let shift : suc p - suc i ≡ p - i = omega arith in
    rw shift
      (get-copy_at_in i (x ∷ d) buf p (omega (arith, h)) (omega (arith, l)) (omega (arith, r)))

pub get-copy_at_below :
    (i : ℕ) (d buf : Bytes) (p : ℕ) → p < i → get_elem? (copy_at i d buf) p ≡ get_elem? buf p
unfolding copy_at
get-copy_at_below i [] buf p h = refl
get-copy_at_below i (x ∷ d) [] p h = refl
get-copy_at_below zero (x ∷ d) (y ∷ buf) p h = ground (arith, h)
get-copy_at_below (suc i) (x ∷ d) (y ∷ buf) zero h = refl
get-copy_at_below (suc i) (x ∷ d) (y ∷ buf) (suc p) h =
    get-copy_at_below i (x ∷ d) buf p (omega (arith, h))

pub get-copy_at_above :
    (i : ℕ) (d buf : Bytes) (p : ℕ)
    → i + length d ≤ p
    → get_elem? (copy_at i d buf) p ≡ get_elem? buf p
unfolding copy_at
get-copy_at_above i [] buf p h = refl
get-copy_at_above i (x ∷ d) [] p h = refl
get-copy_at_above zero (x ∷ d) (y ∷ buf) zero h = ground (arith, h)
get-copy_at_above zero (x ∷ d) (y ∷ buf) (suc p) h =
    get-copy_at_above zero d buf p (omega (arith, h))
get-copy_at_above (suc i) (x ∷ d) (y ∷ buf) zero h = ground (arith, h)
get-copy_at_above (suc i) (x ∷ d) (y ∷ buf) (suc p) h =
    get-copy_at_above i (x ∷ d) buf p (omega (arith, h))

pub get-replicate : (n p : ℕ) → p < n → get_elem? {A = ℕ} (replicate n 0) p ≡ some 0
get-replicate zero p h = ground (arith, h)
get-replicate (suc n) zero h = refl
get-replicate (suc n) (suc p) h = get-replicate n p (omega (arith, h))

pub get_in : (d : Bytes) (p : ℕ) → p < length d → (b : ℕ) × (get_elem? d p ≡ some b)
get_in [] p h = ground (arith, h)
get_in (x ∷ d) zero h = (x, refl)
get_in (x ∷ d) (suc p) h = get_in d p (omega (arith, h))
