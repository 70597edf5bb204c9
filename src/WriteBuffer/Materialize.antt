-- ===== src/WriteBuffer/Materialize.antt =====
-- The whole contents of an open file in cas/write_buffer.cpp.
use context_fs.Base.{
  ℕ, zero, suc, ◌+◌, ◌-◌, ◌<◌, ◌≤◌, ◌^◌, ◌≡◌, refl, ap, ◌∙◌, sym, subst, min, false, Option, none,
  some, [], ◌∷◌, length, get_elem?, take, length-take, replicate, length-replicate, ltb,
  if◌then◌else◌, arith, Bool-cases, inl, inr, All, ltb-false,
}
use context_fs.Base.Order.{Bytes}
use context_fs.WriteBuffer.{
  WriteBuffer, Ranges, copy_at, copy_ranges, base_byte, effective_size, read,
}
use context_fs.WriteBuffer.Copy.{
  get-copy_at_in, get-copy_at_above, length-copy_at, length-copy_ranges, get-replicate, get_in,
}
use context_fs.WriteBuffer.Overlay.{overlay_at, IsSpaced, EndsBy, or_byte}
use context_fs.WriteBuffer.Merged.{NotBefore, get-copy_ranges}
use context_fs.WriteBuffer.Read.{byte_at, read_lem, get-take, or_some}
use context_fs.WriteBuffer.ReadWrite.{bytes_ext}

-- The bytes of a range that are copied: `eff - ov_off` wraps.
abbrev pub copy_len : ℕ → ℕ → Bytes → ℕ
copy_len eff k d = min (length d) (if ltb eff k then 2 ^ 64 + eff - k else eff - k)

-- a copy that passes the end of the buffer is `none`
abbrev pub copy_within : ℕ → ℕ → Bytes → Bytes → Option Bytes
copy_within eff k d buf =
    if ltb eff (k + copy_len eff k d)
    then none
    else some (copy_at k (take (copy_len eff k d) d) buf)

unfoldable pub copy_overlay : ℕ → Ranges → Bytes → Option Bytes
unfolding copy_at
copy_overlay eff [] buf = some buf
copy_overlay eff ((k, d) ∷ m) buf = elim (copy_within eff k d buf) [
  | none ↦ none
  | some buf' ↦ copy_overlay eff m buf'
]

unfoldable pub materialize : WriteBuffer → Bytes → Option Bytes
unfolding effective_size copy_overlay
materialize w base_data =
    let eff = effective_size w (length base_data) in
    copy_overlay eff w.overlay
      (copy_at 0 (take (min eff (length base_data)) base_data) (replicate eff 0))

unfoldable pub clear : WriteBuffer → WriteBuffer
clear w = record w { overlay = []; size_override = none; dirty_bytes = 0 }

take_all : (d : Bytes) (n : ℕ) → length d ≤ n → take n d ≡ d
take_all [] zero h = refl
take_all [] (suc n) h = refl
take_all (x ∷ d) zero h = ground (arith, h)
take_all (x ∷ d) (suc n) h = ap (λ t. x ∷ t) (take_all d n (omega (arith, h)))

-- ranges that end by the size are copied whole
copy_overlay-copy_ranges :
    (eff : ℕ) (m : Ranges) (buf : Bytes)
    → All (EndsBy eff) m
    → copy_overlay eff m buf ≡ some (copy_ranges 0 m buf)
unfolding copy_overlay copy_ranges
copy_overlay-copy_ranges eff [] buf v = refl
copy_overlay-copy_ranges eff ((k, d) ∷ m) buf v =
    let inside : ltb eff k ≡ false = ltb-false eff k (omega (arith, v.0)) in
    let whole : min (length d) (eff - k) ≡ length d = omega (arith, v.0) in
    let fits : ltb eff (k + length d) ≡ false = ltb-false eff (k + length d) v.0 in
    let start : k ≡ k - 0 = omega arith in
    rw (inside, whole, fits, take_all d (length d) (omega arith), copy_overlay)
      (copy_overlay-copy_ranges eff m (copy_at k d buf) v.1
        ∙ ap (λ i. some (copy_ranges 0 m (copy_at i d buf))) start)

get_past : (d : Bytes) (q : ℕ) → length d ≤ q → get_elem? d q ≡ none
get_past [] q h = refl
get_past (x ∷ d) zero h = ground (arith, h)
get_past (x ∷ d) (suc q) h = get_past d q (omega (arith, h))

-- the base data in a buffer of zeros
get-base :
    (eff : ℕ) (base : Bytes) (q : ℕ)
    → q < eff
    → get_elem? (copy_at 0 (take (min eff (length base)) base) (replicate eff 0)) q
      ≡ some (base_byte (get_elem? base q))
get-base eff base q h =
    let front = take (min eff (length base)) base in
    let zeros : Bytes = replicate eff 0 in
    let size = length-take (min eff (length base)) base in
    elim (Bool-cases (ltb q (length base))) [
      | inl e ↦
          let (b, g) = get_in base q (ground (arith, e)) in
          get-copy_at_in 0 front zeros q (rw (length-replicate {A = ℕ} eff 0) h) (omega arith)
            (ground (arith, e, h, size))
          ∙ (ap (get_elem? front) (omega arith)
              ∙ (get-take (min eff (length base)) base q (ground (arith, e, h)) ∙ rw g refl))
      | inr e ↦
          get-copy_at_above 0 front zeros q (ground (arith, e, size))
          ∙ (get-replicate eff q h ∙ rw (get_past base q (ground (arith, e))) refl)
    ]

from_zero : (m : Ranges) → NotBefore 0 m
from_zero [] = tt
from_zero ((k, d) ∷ m) = omega arith

get-copy_ranges_zero :
    (m : Ranges) (buf : Bytes) (q : ℕ)
    → IsSpaced m
    → q < length buf
    → get_elem? (copy_ranges 0 m buf) q ≡ or_byte (overlay_at m q) (get_elem? buf q)
get-copy_ranges_zero m buf q v h =
    let same_place : q - 0 ≡ q = omega arith in
    subst (λ j. get_elem? (copy_ranges 0 m buf) j ≡ or_byte (overlay_at m q) (get_elem? buf j))
      same_place (get-copy_ranges 0 m buf q v (from_zero m) (omega arith) (omega (arith, h)))

from_start : (xs : Bytes) (i : ℕ) (o : Option ℕ) → get_elem? xs (i - 0) ≡ o → get_elem? xs i ≡ o
from_start xs i o e = let same_place : i ≡ i - 0 = omega arith in ap (get_elem? xs) same_place ∙ e

-- if no range ends past the effective size, the file is written out inside its buffer, and the result
-- is what reading the whole file returns.
pub materialize-read :
    (w : WriteBuffer) (base : Bytes)
    → IsSpaced w.overlay
    → All (EndsBy (effective_size w (length base))) w.overlay
    → materialize w base ≡ some (read w 0 (effective_size w (length base)) base)
unfolding materialize byte_at
materialize-read w base v within =
    let eff = effective_size w (length base) in
    let start = copy_at 0 (take (min eff (length base)) base) (replicate eff 0) in
    let start_size : length start ≡ eff =
      length-copy_at 0 (take (min eff (length base)) base) (replicate eff 0)
      ∙ length-replicate {A = ℕ} eff 0 in
    let size = length-copy_ranges 0 w.overlay start ∙ start_size in
    let (read_size, shown) = read_lem w 0 eff base v in
    let all_read : length (read w 0 eff base) ≡ eff = omega (arith, read_size) in
    copy_overlay-copy_ranges eff w.overlay start within
    ∙ ap some (
        bytes_ext (copy_ranges 0 w.overlay start) (read w 0 eff base) (size ∙ sym all_read) (λ i h.
          let below : i < eff = omega (arith, h, size) in
          let room : i < length start = omega (arith, below, start_size) in
          get-copy_ranges_zero w.overlay start i v room
          ∙ (ap (or_byte (overlay_at w.overlay i)) (get-base eff base i below)
              ∙ (or_some (overlay_at w.overlay i) (base_byte (get_elem? base i))
                  ∙ sym (
                      from_start (read w 0 eff base) i _
                        (shown i (omega arith) (omega (arith, all_read, below))))))))
