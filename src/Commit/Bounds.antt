-- ===== src/Commit/Bounds.antt =====
-- Where the reader of cas/commit.cpp stays inside its buffer. The size check multiplies the parent
-- count by 32 in 32 bits, so it says nothing about counts from 2^27 on.
use context_fs.Base.{
  ℕ, zero, suc, ◌+◌, ◌*◌, ◌%◌, ◌^◌, ◌≤◌, ◌<◌, ◌≡◌, ◌≢◌, refl, List, [], ◌∷◌, length, take, drop,
  length-drop, arith, leb, inl, inr, Bool-cases,
}
use context_fs.Base.Order.{Bytes}
use context_fs.WorkingTree.{Hash}
use context_fs.Codec.{
  parsed, out_of_bounds, from_le, grab_enough, grab_short, grab_int_enough, require-cases,
  require_ok,
}
use context_fs.Commit.{read_parents, parents_size, read_fields, deserialize_commit}

-- the parent count that a buffer names
abbrev pub parent_count : Bytes → ℕ
parent_count body = from_le (take 4 (drop 32 body))

read_parents_enough :
    (n : ℕ) (s : Bytes)
    → 32 * n ≤ length s
    → (ps : List Hash) × (r : Bytes) × (read_parents n s ≡ parsed (ps, r))
      × (length r + 32 * n ≡ length s)
unfolding read_parents
read_parents_enough zero s h = ([], s, refl, omega arith)
read_parents_enough (suc n) s h =
    let (ps, r, e, l) = read_parents_enough n (drop 32 s) (omega (arith, length-drop 32 s)) in
    (take 32 s ∷ ps, r, rw (grab_enough 32 s (omega arith), e), omega (arith, length-drop 32 s))

read_parents_short : (n : ℕ) (s : Bytes) → length s < 32 * n → read_parents n s ≡ out_of_bounds
unfolding read_parents
read_parents_short zero s h = absurd (omega arith)
read_parents_short (suc n) s h = elim (Bool-cases (leb 32 (length s))) [
  | inl e ↦
      let enough : 32 ≤ length s = ground (arith, e) in
      rw (
        grab_enough 32 s enough,
        read_parents_short n (drop 32 s) (omega (arith, length-drop 32 s)),
      )
  | inr e ↦ rw (grab_short 32 s (ground (arith, e)))
]

read_fields_in_bounds :
    (t : Hash) (ps : List Hash) (s : Bytes) → 22 ≤ length s → read_fields t ps s ≢ out_of_bounds
unfolding read_fields
read_fields_in_bounds t ps s room =
    let s₁ = drop 8 s in
    let s₂ = drop 8 s₁ in
    let s₃ = drop 2 s₂ in
    let ll = from_le (take 2 s₂) in
    let l₁ = length-drop 8 s in
    let l₂ = length-drop 8 s₁ in
    rw
      (
        grab_int_enough 8 s (omega arith),
        grab_int_enough 8 s₁ (omega (arith, l₁)),
        grab_int_enough 2 s₂ (omega (arith, l₁, l₂)),
      )
      (elim (require-cases (ll + 4) s₃) [
        | inr e ↦ rw e (λ p. cc)
        | inl (fits, e) ↦
            rw
              (
                e,
                grab_enough ll s₃ (omega arith),
                grab_int_enough 4 (drop ll s₃) (omega (arith, length-drop ll s₃)),
              )
              (λ p. cc)
      ])

-- With fewer than 2^27 parents named, no read passes the end of the buffer, whatever it holds.
pub deserialize_commit_in_bounds :
    (body : Bytes) → parent_count body < 2 ^ 27 → deserialize_commit body ≢ out_of_bounds
unfolding deserialize_commit parents_size
deserialize_commit_in_bounds body few = elim (require-cases 36 body) [
  | inr e ↦ rw e (λ p. cc)
  | inl (room, e) ↦
      let s₁ = drop 32 body in
      let s₂ = drop 4 s₁ in
      let l₁ = length-drop 32 body in
      let l₂ = length-drop 4 s₁ in
      rw (e, grab_enough 32 body (omega arith), grab_int_enough 4 s₁ (omega (arith, l₁)))
        (elim (require-cases (parent_count body * 32 % 2 ^ 32 + 22) s₂) [
          | inr e₂ ↦ rw e₂ (λ p. cc)
          | inl (room₂, e₂) ↦
              let (ps, r, e₃, l₃) = read_parents_enough (parent_count body) s₂ (omega arith) in
              rw (e₂, e₃) (read_fields_in_bounds (take 32 body) ps r (omega arith))
        ])
]

-- A buffer of at least 58 bytes whose parent count is a multiple of 2^27, and larger than the buffer
-- can hold, passes the size check, and the parents are read past its end.
pub deserialize_commit_overflow :
    (body : Bytes) (k : ℕ)
    → parent_count body ≡ k * 2 ^ 27
    → 58 ≤ length body
    → length body < 36 + 32 * parent_count body
    → deserialize_commit body ≡ out_of_bounds
unfolding deserialize_commit parents_size
deserialize_commit_overflow body k count room short =
    let s₁ = drop 32 body in
    let s₂ = drop 4 s₁ in
    let l₁ = length-drop 32 body in
    let l₂ = length-drop 4 s₁ in
    rw (
      require_ok 36 body (omega arith),
      grab_enough 32 body (omega arith),
      grab_int_enough 4 s₁ (omega (arith, l₁)),
      require_ok (parent_count body * 32 % 2 ^ 32 + 22) s₂ (omega arith),
      read_parents_short (parent_count body) s₂ (omega arith),
    )
