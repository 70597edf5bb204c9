-- ===== src/WriteBuffer/Write.antt =====
-- What a write of cas/write_buffer.cpp changes.
use context_fs.Base.{
  ℕ, ◌+◌, ◌-◌, ◌<◌, ◌≤◌, ◌≡◌, refl, ap, ◌∙◌, sym, subst, true, false, Option, none, some, [], ◌∷◌,
  ◌++◌, length, get_elem?, All, ltb, if◌then◌else◌, arith, Bool-cases, inl, inr,
}
use context_fs.Base.Order.{Bytes}
use context_fs.WriteBuffer.{
  WriteBuffer, Ranges, Collected, collect, seek, start_of, merged_bytes, extend_size, splice, write,
}
use context_fs.WriteBuffer.Copy.{in_range, get_in}
use context_fs.WriteBuffer.Overlay.{
  overlay_at, IsSpaced, or_byte, EndsBy, in_range_within, in_range_below, in_range_above,
  overlay_at_before, overlay_at_after, overlay_at-append,
}
use context_fs.WriteBuffer.Collect.{IsCollected, collect_lem}
use context_fs.WriteBuffer.Seek.{EndsBelow, Reaches, IsSought, seek_lem, start_of_le}
use context_fs.WriteBuffer.Merged.{
  NotBefore, NotBefore-Beyond, get-merged_bytes, length-merged_bytes, overlay_at_spliced,
}

pub IsSpaced-append : (m n : Ranges) → IsSpaced (m ++ n) → IsSpaced n
IsSpaced-append [] n v = v
IsSpaced-append ((k, d) ∷ m) n v = IsSpaced-append m n v.1.1

start_of-NotBefore : (offset : ℕ) (m : Ranges) → NotBefore (start_of offset m) m
unfolding start_of
start_of-NotBefore offset [] = tt
start_of-NotBefore offset ((k, d) ∷ m) = ground arith

NotBefore-taken : (s e : ℕ) (m : Ranges) → NotBefore s m → NotBefore s (collect e m).taken
unfolding collect
NotBefore-taken s e [] h = tt
NotBefore-taken s e ((k, d) ∷ m) h = elim (Bool-cases (ltb e k)) [
  | inl t ↦ rw t tt
  | inr t ↦ rw t h
]

-- a range that reaches the offset covers what it has below
head_covers :
    (offset q : ℕ) (m : Ranges)
    → Reaches offset m
    → start_of offset m ≤ q
    → q < offset
    → (b : ℕ) × (overlay_at m q ≡ some b)
unfolding overlay_at start_of
head_covers offset q [] r l h = ground (arith, l, h)
head_covers offset q ((k, d) ∷ m) r l h =
    let from : k ≤ q = ground (arith, l, h) in
    let to : q < k + length d = omega (arith, r (omega (arith, from, h)), h) in
    let (b, g) = get_in d (q - k) (omega (arith, from, to)) in
    (b, rw (in_range_within k d q from to, g))

in_range_nil : (k p : ℕ) → in_range k [] p ≡ false
in_range_nil k p = ground arith

or_none : (x : Option ℕ) → or_byte x none ≡ x
or_none none = refl
or_none (some b) = refl

EndsBelow-EndsBy : (s : ℕ) (m : Ranges) → All (EndsBelow s) m → All (EndsBy s) m
EndsBelow-EndsBy s [] v = tt
EndsBelow-EndsBy s ((k, d) ∷ m) v = (omega (arith, v.0), EndsBelow-EndsBy s m v.1)

module _ (offset : ℕ) (d : Bytes) (m : Ranges) (v : IsSpaced m) where
  abbrev before : Ranges
  before = (seek offset m).0

  abbrev from : Ranges
  from = (seek offset m).1

  abbrev first : ℕ
  first = start_of offset from

  abbrev collected : Collected
  collected = collect (offset + length d) from

  sought : IsSought offset m before from
  sought = seek_lem offset m v

  from-IsSpaced : IsSpaced from
  from-IsSpaced = IsSpaced-append before from (subst IsSpaced (sym sought.whole) v)

  gathered : IsCollected (offset + length d) from collected
  gathered = collect_lem (offset + length d) from from-IsSpaced

  old_bytes :
      (q : ℕ)
      → overlay_at m q
        ≡ or_byte
            (overlay_at before q)
            (or_byte (overlay_at collected.taken q) (overlay_at collected.rest q))
  old_bytes q =
      ap (λ x. overlay_at x q) (sym sought.whole)
      ∙ (overlay_at-append before from q ∙ ap (or_byte (overlay_at before q)) (gathered.whole q))

  covered :
      (q : ℕ)
      → first ≤ q
      → q < collected.merge_end
      → in_range offset d q ≡ false
      → (b : ℕ) × (overlay_at collected.taken q ≡ some b)
  covered q l h e = elim (Bool-cases (ltb q offset)) [
    | inl f ↦
        let (b, g) = head_covers offset q from sought.reaches l (ground (arith, f)) in
        let free =
          overlay_at_before collected.rest collected.merge_end q gathered.spaced_rest
            gathered.beyond (omega (arith, h)) in
        (
          b,
          sym (or_none (overlay_at collected.taken q))
              ∙ (ap (or_byte (overlay_at collected.taken q)) (sym free)
                  ∙ (sym (gathered.whole q) ∙ g)),
        )
    | inr f ↦ gathered.covers q (ground (arith, e, f)) h
  ]

  abbrev merged : Bytes
  merged = merged_bytes first offset d collected

  lo : first ≤ offset
  lo = start_of_le offset from

  taken-NotBefore : NotBefore first collected.taken
  taken-NotBefore = NotBefore-taken first (offset + length d) from (start_of-NotBefore offset from)

  merged_end : first + length merged ≡ collected.merge_end
  merged_end = omega (arith, length-merged_bytes first offset d collected, lo, gathered.grows)

  before_free : (q : ℕ) → first ≤ q → overlay_at before q ≡ none
  before_free q l = overlay_at_after before first q (EndsBelow-EndsBy first before sought.below) l

  rest_free : (q : ℕ) → q ≤ collected.merge_end → overlay_at collected.rest q ≡ none
  rest_free q h =
      overlay_at_before collected.rest collected.merge_end q gathered.spaced_rest gathered.beyond h

  bytes_below :
      (q : ℕ)
      → q < first
      → overlay_at (before ++ (first, merged) ∷ collected.rest) q ≡ overlay_at m q
  bytes_below q h =
      let near : q ≤ collected.merge_end = omega (arith, h, lo, gathered.grows) in
      let none_taken =
        overlay_at_before collected.taken q q gathered.spaced_taken
          (NotBefore-Beyond first q collected.taken taken-NotBefore h) (omega arith) in
      overlay_at_spliced before collected.rest first merged q
      ∙ (rw (in_range_below first merged q h, old_bytes q, none_taken, rest_free q near))

  bytes_above :
      (q : ℕ)
      → collected.merge_end ≤ q
      → overlay_at (before ++ (first, merged) ∷ collected.rest) q ≡ overlay_at m q
  bytes_above q h =
      let past : first + length merged ≤ q = omega (arith, merged_end, h) in
      let none_taken = overlay_at_after collected.taken collected.merge_end q gathered.fits h in
      overlay_at_spliced before collected.rest first merged q
      ∙ (rw (in_range_above first merged q past, old_bytes q, none_taken))

  bytes_within :
      (q : ℕ)
      → first ≤ q
      → q < collected.merge_end
      → overlay_at (before ++ (first, merged) ∷ collected.rest) q
        ≡ (if in_range offset d q then get_elem? d (q - offset) else overlay_at m q)
  bytes_within q l h =
      let inside : in_range first merged q ≡ true =
        in_range_within first merged q l (omega (arith, merged_end, h)) in
      let got =
        get-merged_bytes first offset d collected q gathered.spaced_taken taken-NotBefore lo l h
          (covered q l h) in
      overlay_at_spliced before collected.rest first merged q
      ∙ (rw (inside, before_free q l)
          (got ∙ elim (Bool-cases (in_range offset d q)) [
            | inl e ↦ rw e
            | inr e ↦ let (b, g) = covered q l h e in rw (e, old_bytes q, before_free q l, g)
          ]))

  -- the bytes after the splice
  new_bytes :
      (q : ℕ)
      → overlay_at (before ++ (first, merged) ∷ collected.rest) q
        ≡ (if in_range offset d q then get_elem? d (q - offset) else overlay_at m q)
  new_bytes q = elim (Bool-cases (ltb q first)) [
    | inl e ↦
        let below : q < first = ground (arith, e) in
        rw (in_range_below offset d q (omega (arith, below, lo))) (bytes_below q below)
    | inr e ↦ elim (Bool-cases (ltb q collected.merge_end)) [
      | inl f ↦ bytes_within q (ground (arith, e)) (ground (arith, f))
      | inr f ↦
          let above : collected.merge_end ≤ q = ground (arith, f) in
          rw (in_range_above offset d q (omega (arith, above, gathered.grows)))
            (bytes_above q above)
    ]
  ]

pub extend_size-overlay : (w : WriteBuffer) (n : ℕ) → (extend_size w n).overlay ≡ w.overlay
unfolding extend_size
extend_size-overlay w n = ground arith

-- After a write the new bytes stand at their positions, and every other position keeps what the
-- overlay had there, whichever ranges were merged.
pub overlay_at-write :
    (w : WriteBuffer) (offset : ℕ) (d : Bytes) (q : ℕ)
    → IsSpaced w.overlay
    → overlay_at (write w offset d).overlay q
      ≡ (if in_range offset d q then get_elem? d (q - offset) else overlay_at w.overlay q)
unfolding write splice
overlay_at-write w offset [] q v = rw (in_range_nil offset q)
overlay_at-write w offset (x ∷ d) q v =
    ap (λ m. overlay_at m q)
      (extend_size-overlay (splice w offset (x ∷ d)) (offset + length (x ∷ d)))
    ∙ new_bytes offset (x ∷ d) w.overlay v q
