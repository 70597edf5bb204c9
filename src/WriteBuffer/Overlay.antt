-- ===== src/WriteBuffer/Overlay.antt =====
-- The overlay of cas/write_buffer.cpp as a map from positions to bytes.
use context_fs.Base.{
  ℕ, ◌+◌, ◌-◌, ◌<◌, ◌≤◌, ◌≡◌, refl, true, false, Option, none, some, [], ◌∷◌, ◌++◌, length,
  get_elem?, All, if◌then◌else◌, arith, Bool-cases, inl, inr,
}
use context_fs.Base.Order.{Bytes}
use context_fs.WriteBuffer.{Ranges}
use context_fs.WriteBuffer.Copy.{in_range, get_in}

unfoldable pub overlay_at : Ranges → ℕ → Option ℕ
overlay_at [] p = none
overlay_at ((k, d) ∷ m) p = if in_range k d p then get_elem? d (p - k) else overlay_at m p

-- the next range starts after a gap
abbrev pub Beyond : ℕ → Ranges → Type 0
Beyond e [] = Unit {0}
Beyond e ((k, _) ∷ _) = e < k

-- Ranges are not empty, and there is a gap between any two.
abbrev pub IsSpaced : Ranges → Type 0
IsSpaced [] = Unit {0}
IsSpaced ((k, d) ∷ m) = (0 < length d) × (Beyond (k + length d) m × IsSpaced m)

abbrev pub or_byte : Option ℕ → Option ℕ → Option ℕ
or_byte none b = b
or_byte (some x) b = some x

pub Beyond-weaken : (a b : ℕ) (m : Ranges) → a ≤ b → Beyond b m → Beyond a m
Beyond-weaken a b [] h v = tt
Beyond-weaken a b ((k, d) ∷ m) h v = omega (arith, h, v)

pub in_range_within : (k : ℕ) (d : Bytes) (p : ℕ) → k ≤ p → p < k + length d → in_range k d p ≡ true
in_range_within k d p l r = ground (arith, l, r)

pub in_range_below : (k : ℕ) (d : Bytes) (p : ℕ) → p < k → in_range k d p ≡ false
in_range_below k d p h = ground (arith, h)

pub in_range_above : (k : ℕ) (d : Bytes) (p : ℕ) → k + length d ≤ p → in_range k d p ≡ false
in_range_above k d p h = ground (arith, h)

-- before the first range there is nothing
pub overlay_at_before :
    (m : Ranges) (e p : ℕ) → IsSpaced m → Beyond e m → p ≤ e → overlay_at m p ≡ none
unfolding overlay_at
overlay_at_before [] e p v b h = refl
overlay_at_before ((k, d) ∷ m) e p v b h =
    rw (in_range_below k d p (omega (arith, b, h)))
      (overlay_at_before m (k + length d) p v.1.1 v.1.0 (omega (arith, b, h)))

-- past the ends there is nothing
abbrev pub EndsBy : ℕ → ℕ × Bytes → Type 0
EndsBy e (k, d) = k + length d ≤ e

pub overlay_at_after : (m : Ranges) (e p : ℕ) → All (EndsBy e) m → e ≤ p → overlay_at m p ≡ none
unfolding overlay_at
overlay_at_after [] e p v h = refl
overlay_at_after ((k, d) ∷ m) e p v h =
    rw (in_range_above k d p (omega (arith, v.0, h))) (overlay_at_after m e p v.1 h)

pub overlay_at-append :
    (m n : Ranges) (p : ℕ) → overlay_at (m ++ n) p ≡ or_byte (overlay_at m p) (overlay_at n p)
unfolding overlay_at
overlay_at-append [] n p = refl
overlay_at-append ((k, d) ∷ m) n p = elim (Bool-cases (in_range k d p)) [
  | inl e ↦ let (b, g) = get_in d (p - k) (ground (arith, e)) in rw (e, g)
  | inr e ↦ rw e (overlay_at-append m n p)
]
