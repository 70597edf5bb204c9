-- ===== src/WriteBuffer/Truncate.antt =====
-- Truncation in cas/write_buffer.cpp, and what the file shows afterwards.
use context_fs.Base.{
  ℕ, ◌+◌, ◌-◌, ◌<◌, ◌≤◌, ◌≡◌, refl, ◌∙◌, sym, none, some, [], ◌∷◌, length, take, length-take, ltb,
  if◌then◌else◌, arith, Bool-cases, inl, inr, All,
}
use context_fs.Base.Order.{Bytes}
use context_fs.WriteBuffer.{WriteBuffer, Ranges}
use context_fs.WriteBuffer.Overlay.{
  overlay_at, Beyond, IsSpaced, in_range_within, in_range_below, in_range_above, overlay_at_before,
}
use context_fs.WriteBuffer.Read.{get-take}

-- the ranges below `lower_bound(new_size)`
unfoldable pub keep_below : ℕ → Ranges → Ranges
keep_below n [] = []
keep_below n ((k, d) ∷ m) = let kept = keep_below n m in if ltb k n then (k, d) ∷ kept else []

-- the counter, from which the size of each erased range is taken
unfoldable pub erase_dirty : ℕ → Ranges → ℕ → ℕ
erase_dirty n [] dirty = dirty
erase_dirty n ((k, d) ∷ m) dirty = erase_dirty n m (if ltb k n then dirty else dirty - length d)

-- the last range ends by the new size
unfoldable pub trim_last : ℕ → Ranges → Ranges
trim_last n [] = []
trim_last n ((k, d) ∷ []) = if ltb n (k + length d) then (k, take (n - k) d) ∷ [] else (k, d) ∷ []
trim_last n ((k, d) ∷ r ∷ m) = (k, d) ∷ trim_last n (r ∷ m)

unfoldable pub trim_dirty : ℕ → Ranges → ℕ → ℕ
trim_dirty n [] dirty = dirty
trim_dirty n ((k, d) ∷ []) dirty =
    if ltb n (k + length d) then dirty - length d + length (take (n - k) d) else dirty
trim_dirty n ((k, d) ∷ r ∷ m) dirty = trim_dirty n (r ∷ m) dirty

unfoldable pub truncate : WriteBuffer → ℕ → WriteBuffer
unfolding keep_below erase_dirty trim_last trim_dirty
truncate w new_size =
    let kept = keep_below new_size w.overlay in
    record w {
      overlay = trim_last new_size kept;
      size_override = some new_size;
      dirty_bytes = trim_dirty new_size kept (erase_dirty new_size w.overlay w.dirty_bytes);
    }

abbrev pub StartsBelow : ℕ → ℕ × Bytes → Type 0
StartsBelow n (k, d) = k < n

pub keep_below-StartsBelow : (n : ℕ) (m : Ranges) → All (StartsBelow n) (keep_below n m)
unfolding keep_below
keep_below-StartsBelow n [] = tt
keep_below-StartsBelow n ((k, d) ∷ m) = elim (Bool-cases (ltb k n)) [
  | inl e ↦ rw e (ground (arith, e), keep_below-StartsBelow n m)
  | inr e ↦ rw e tt
]

Beyond-keep_below : (e n : ℕ) (m : Ranges) → Beyond e m → Beyond e (keep_below n m)
unfolding keep_below
Beyond-keep_below e n [] b = tt
Beyond-keep_below e n ((k, d) ∷ m) b = elim (Bool-cases (ltb k n)) [
  | inl t ↦ rw t b
  | inr t ↦ rw t tt
]

pub keep_below-IsSpaced : (n : ℕ) (m : Ranges) → IsSpaced m → IsSpaced (keep_below n m)
unfolding keep_below
keep_below-IsSpaced n [] v = tt
keep_below-IsSpaced n ((k, d) ∷ m) v = elim (Bool-cases (ltb k n)) [
  | inl t ↦ rw t (v.0, (Beyond-keep_below (k + length d) n m v.1.0, keep_below-IsSpaced n m v.1.1))
  | inr t ↦ rw t tt
]

keep_below_lem :
    (n : ℕ) (m : Ranges) (q : ℕ)
    → IsSpaced m
    → q < n
    → overlay_at (keep_below n m) q ≡ overlay_at m q
unfolding keep_below overlay_at
keep_below_lem n [] q v h = refl
keep_below_lem n ((k, d) ∷ m) q v h = elim (Bool-cases (ltb k n)) [
  | inl e ↦ rw (e, keep_below_lem n m q v.1.1 h)
  | inr e ↦
      let below : q < k = ground (arith, e, h) in
      rw (e, in_range_below k d q below)
        (sym (overlay_at_before m (k + length d) q v.1.1 v.1.0 (omega (arith, below))))
]

trim_last_below :
    (n : ℕ) (m : Ranges) (q : ℕ) → q < n → overlay_at (trim_last n m) q ≡ overlay_at m q
unfolding trim_last overlay_at
trim_last_below n [] q h = refl
trim_last_below n ((k, d) ∷ []) q h = elim (Bool-cases (ltb n (k + length d))) [
  | inl e ↦
      let size = length-take (n - k) d in
      rw e (elim (Bool-cases (ltb q k)) [
        | inl f ↦
            let below : q < k = ground (arith, f) in
            rw (in_range_below k (take (n - k) d) q below, in_range_below k d q below)
        | inr f ↦
            let from : k ≤ q = ground (arith, f) in
            let to : q < k + length d = ground (arith, e, h) in
            rw
              (
                in_range_within k (take (n - k) d) q from (omega (arith, size, to, h, from)),
                in_range_within k d q from to,
              )
              (get-take (n - k) d (q - k) (omega (arith, h, from)))
      ])
  | inr e ↦ rw e
]
trim_last_below n ((k, d) ∷ r ∷ m) q h = rw (trim_last_below n (r ∷ m) q h)

trim_last_above :
    (n : ℕ) (m : Ranges) (q : ℕ)
    → IsSpaced m
    → All (StartsBelow n) m
    → n ≤ q
    → overlay_at (trim_last n m) q ≡ none
unfolding trim_last overlay_at
trim_last_above n [] q v b h = refl
trim_last_above n ((k, d) ∷ []) q v b h = elim (Bool-cases (ltb n (k + length d))) [
  | inl e ↦
      rw (e, in_range_above k (take (n - k) d) q (omega (arith, length-take (n - k) d, h, b.0)))
  | inr e ↦ rw (e, in_range_above k d q (ground (arith, e, h)))
]
trim_last_above n ((k, d) ∷ (j, f) ∷ m) q v b h =
    rw (in_range_above k d q (omega (arith, v.1.0, b.1.0, h)))
      (trim_last_above n ((j, f) ∷ m) q v.1.1 b.1 h)

-- Truncation keeps the overlay's bytes below the new size and removes all others.
pub overlay_at-truncate :
    (w : WriteBuffer) (n q : ℕ)
    → IsSpaced w.overlay
    → overlay_at (truncate w n).overlay q ≡ (if ltb q n then overlay_at w.overlay q else none)
unfolding truncate
overlay_at-truncate w n q v =
    let kept = keep_below n w.overlay in
    elim (Bool-cases (ltb q n)) [
      | inl e ↦
          let below : q < n = ground (arith, e) in
          rw e (trim_last_below n kept q below ∙ keep_below_lem n w.overlay q v below)
      | inr e ↦ rw e (
          trim_last_above n kept q (keep_below-IsSpaced n w.overlay v)
            (keep_below-StartsBelow n w.overlay) (ground (arith, e)))
    ]
