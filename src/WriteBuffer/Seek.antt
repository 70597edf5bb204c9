-- ===== src/WriteBuffer/Seek.antt =====
-- Where one write of cas/write_buffer.cpp begins to merge.
use context_fs.Base.{
  ℕ, ◌+◌, ◌<◌, ◌≤◌, ◌≡◌, refl, ap, true, false, [], ◌∷◌, ◌++◌, length, All, ltb, arith, Bool-cases,
  inl, inr,
}
use context_fs.Base.Order.{Bytes}
use context_fs.WriteBuffer.{Ranges, seek, starts_above, start_of}
use context_fs.WriteBuffer.Overlay.{Beyond, IsSpaced, Beyond-weaken}

abbrev pub EndsBelow : ℕ → ℕ × Bytes → Type 0
EndsBelow e (k, d) = k + length d < e

-- a range that starts by the offset reaches it
abbrev pub Reaches : ℕ → Ranges → Type 0
Reaches offset [] = Unit {0}
Reaches offset ((k, d) ∷ _) = k ≤ offset → offset ≤ k + length d

pub record IsSought (offset : ℕ) (m : Ranges) (before from : Ranges) : Type 0 where
  pub whole : before ++ from ≡ m
  pub below : All (EndsBelow (start_of offset from)) before
  pub reaches : Reaches offset from

starts_above_lem :
    (offset : ℕ) (m : Ranges)
    → starts_above offset m ≡ true
    → (start_of offset m ≡ offset) × Reaches offset m
unfolding starts_above start_of
starts_above_lem offset [] h = (refl, tt)
starts_above_lem offset ((k, d) ∷ m) h = (ground (arith, h), λ l. ground (arith, h, l))

pub start_of_le : (offset : ℕ) (m : Ranges) → start_of offset m ≤ offset
unfolding start_of
start_of_le offset [] = omega arith
start_of_le offset ((k, d) ∷ m) = ground arith

start_of-Beyond : (x offset : ℕ) (m : Ranges) → Beyond x m → x < offset → x < start_of offset m
unfolding start_of
start_of-Beyond x offset [] b h = h
start_of-Beyond x offset ((k, d) ∷ m) b h = ground (arith, b, h)

start_of-seek :
    (x offset : ℕ) (m : Ranges)
    → IsSpaced m
    → Beyond x m
    → x < offset
    → x < start_of offset (seek offset m).1
unfolding seek
start_of-seek x offset [] v b h = start_of-Beyond x offset [] tt h
start_of-seek x offset ((k, d) ∷ m) v b h =
    let next = Beyond-weaken x (k + length d) m (omega (arith, b)) v.1.0 in
    elim (Bool-cases (ltb offset k)) [
      | inl e ↦ rw e (start_of-Beyond x offset ((k, d) ∷ m) b h)
      | inr e ↦ elim (Bool-cases (starts_above offset m)) [
        | inl f ↦ elim (Bool-cases (ltb (k + length d) offset)) [
          | inl g ↦ rw (e, f, g) (start_of-Beyond x offset m next h)
          | inr g ↦ rw (e, f, g) (start_of-Beyond x offset ((k, d) ∷ m) b h)
        ]
        | inr f ↦ rw (e, f) (start_of-seek x offset m v.1.1 next h)
      ]
    ]

below_offset : (x offset : ℕ) (m : Ranges) → Beyond x m → starts_above offset m ≡ false → x < offset
unfolding starts_above
below_offset x offset [] b h = cc h
below_offset x offset ((k, d) ∷ m) b h = ground (arith, b, h)

pub seek_lem :
    (offset : ℕ) (m : Ranges) → IsSpaced m → IsSought offset m (seek offset m).0 (seek offset m).1
unfolding seek
seek_lem offset [] v = record { whole = refl; below = tt; reaches = tt }
seek_lem offset ((k, d) ∷ m) v = elim (Bool-cases (ltb offset k)) [
  | inl e ↦ rw e (record { whole = refl; below = tt; reaches = λ l. ground (arith, e, l) })
  | inr e ↦ elim (Bool-cases (starts_above offset m)) [
    | inl f ↦ elim (Bool-cases (ltb (k + length d) offset)) [
      | inl g ↦
          let (s, r) = starts_above_lem offset m f in
          rw (e, f, g)
            (record { whole = refl; below = (rw s (ground (arith, g)), tt); reaches = r })
      | inr g ↦ rw (e, f, g) (record { whole = refl; below = tt; reaches = λ l. ground (arith, g) })
    ]
    | inr f ↦
        let i = seek_lem offset m v.1.1 in
        rw (e, f)
          (record {
            whole = ap (λ r. (k, d) ∷ r) i.whole;
            below = (
              start_of-seek (k + length d) offset m v.1.1 v.1.0
                  (below_offset (k + length d) offset m v.1.0 f),
              i.below,
            );
            reaches = i.reaches;
          })
  ]
]
