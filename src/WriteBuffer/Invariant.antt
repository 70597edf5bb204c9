-- ===== src/WriteBuffer/Invariant.antt =====
-- The class invariant of cas/write_buffer.cpp.
use context_fs.Base.{
  ℕ, ◌+◌, ◌<◌, ◌≡◌, refl, ap, ◌∙◌, sym, subst, [], ◌∷◌, ◌++◌, length, All, ltb, if◌then◌else◌,
  arith, Bool-cases, inl, inr,
}
use context_fs.Base.Order.{Bytes}
use context_fs.WriteBuffer.{
  WriteBuffer, Ranges, collect, seek, start_of, merged_bytes, extend_size, effective_size, splice,
  write,
}
use context_fs.WriteBuffer.Overlay.{IsSpaced}
use context_fs.WriteBuffer.Collect.{collect_lem}
use context_fs.WriteBuffer.Seek.{EndsBelow, seek_lem, start_of_le}
use context_fs.WriteBuffer.Merged.{length-merged_bytes}
use context_fs.WriteBuffer.Write.{IsSpaced-append}

unfoldable pub total : Ranges → ℕ
total [] = 0
total ((_, d) ∷ m) = length d + total m

-- the ranges are apart, and the counter of dirty bytes is their size
pub record IsValid (w : WriteBuffer) : Type 0 where
  pub spaced : IsSpaced w.overlay
  pub counted : w.dirty_bytes ≡ total w.overlay

total-append : (m n : Ranges) → total (m ++ n) ≡ total m + total n
unfolding total
total-append [] n = omega arith
total-append ((k, d) ∷ m) n = omega (arith, total-append m n)

total-collect :
    (e : ℕ) (m : Ranges) → total m ≡ total (collect e m).taken + total (collect e m).rest
unfolding total collect
total-collect e [] = omega arith
total-collect e ((k, d) ∷ m) = elim (Bool-cases (ltb e k)) [
  | inl t ↦ rw t (omega arith)
  | inr t ↦ rw t (omega (arith, total-collect (if ltb e (k + length d) then k + length d else e) m))
]

old_dirty-collect : (e : ℕ) (m : Ranges) → (collect e m).old_dirty ≡ total (collect e m).taken
unfolding total collect
old_dirty-collect e [] = refl
old_dirty-collect e ((k, d) ∷ m) = elim (Bool-cases (ltb e k)) [
  | inl t ↦ rw t
  | inr t ↦ rw t (
      ap (λ n. length d + n)
        (old_dirty-collect (if ltb e (k + length d) then k + length d else e) m))
]

IsSpaced-prefix : (m n : Ranges) → IsSpaced (m ++ n) → IsSpaced m
IsSpaced-prefix [] n v = tt
IsSpaced-prefix ((j, e) ∷ []) n v = (v.0, (tt, tt))
IsSpaced-prefix ((j, e) ∷ (i, f) ∷ m) n v = (v.0, (v.1.0, IsSpaced-prefix ((i, f) ∷ m) n v.1.1))

-- ranges that end below the next ones stand before them
IsSpaced-join :
    (m n : Ranges) (k : ℕ) (d : Bytes)
    → IsSpaced m
    → All (EndsBelow k) m
    → IsSpaced ((k, d) ∷ n)
    → IsSpaced (m ++ (k, d) ∷ n)
IsSpaced-join [] n k d v b s = s
IsSpaced-join ((j, e) ∷ []) n k d v b s = (v.0, (b.0, s))
IsSpaced-join ((j, e) ∷ (i, f) ∷ m) n k d v b s =
    (v.0, (v.1.0, IsSpaced-join ((i, f) ∷ m) n k d v.1.1 b.1 s))

extend_size-IsValid : (w : WriteBuffer) (n : ℕ) → IsValid w → IsValid (extend_size w n)
unfolding extend_size
extend_size-IsValid w n v = elim (Bool-cases (ltb (effective_size w w.base_size) n)) [
  | inl e ↦ rw e (record { spaced = v.spaced; counted = v.counted })
  | inr e ↦ rw e v
]

splice-IsValid :
    (w : WriteBuffer) (offset : ℕ) (d : Bytes)
    → 0 < length d
    → IsValid w
    → IsValid (splice w offset d)
unfolding splice total
splice-IsValid w offset d some_data v =
    let before = (seek offset w.overlay).0 in
    let from = (seek offset w.overlay).1 in
    let s = start_of offset from in
    let e = offset + length d in
    let c = collect e from in
    let merged = merged_bytes s offset d c in
    let sought = seek_lem offset w.overlay v.spaced in
    let all_spaced = subst IsSpaced (sym sought.whole) v.spaced in
    let gathered = collect_lem e from (IsSpaced-append before from all_spaced) in
    let size = length-merged_bytes s offset d c in
    let lo = start_of_le offset from in
    let merged_end : s + length merged ≡ c.merge_end = omega (arith, size, lo, gathered.grows) in
    let counted : w.dirty_bytes ≡ total before + total from =
      v.counted ∙ (ap total (sym sought.whole) ∙ total-append before from) in
    record {
      spaced =
          IsSpaced-join before c.rest s merged (IsSpaced-prefix before from all_spaced) sought.below
            (
              omega (arith, size, lo, gathered.grows, some_data),
              (rw merged_end gathered.beyond, gathered.spaced_rest),
            );
      counted =
          rw (total-append before ((s, merged) ∷ c.rest))
            (omega (arith, counted, total-collect e from, old_dirty-collect e from));
    }

-- Writing keeps the ranges non-empty and apart, and the counter equal to their total size.
pub write-IsValid :
    (w : WriteBuffer) (offset : ℕ) (d : Bytes) → IsValid w → IsValid (write w offset d)
unfolding write
write-IsValid w offset [] v = v
write-IsValid w offset (x ∷ d) v =
    extend_size-IsValid (splice w offset (x ∷ d)) (offset + length (x ∷ d))
      (splice-IsValid w offset (x ∷ d) (omega arith) v)
