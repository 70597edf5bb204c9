-- ===== src/WriteBuffer/Read.antt =====
-- What a read of cas/write_buffer.cpp returns.
use context_fs.Base.{
  ℕ, zero, suc, ◌+◌, ◌-◌, ◌<◌, ◌≤◌, ◌≡◌, refl, ap, ◌∙◌, min, max, false, ◌||◌, Option, none, some,
  [], ◌∷◌, length, get_elem?, take, drop, length-take, length-drop, ltb, leb, arith, Bool-cases,
  inl, inr,
}
use context_fs.Base.Order.{Bytes}
use context_fs.WriteBuffer.{
  WriteBuffer, Ranges, base_byte, base_bytes, read_range, read_ranges, read, effective_size,
}
use context_fs.WriteBuffer.Copy.{
  in_range, get_in, get-copy_at_in, get-copy_at_below, get-copy_at_above, length-copy_at,
}
use context_fs.WriteBuffer.Overlay.{overlay_at, IsSpaced, or_byte, overlay_at_before}

pub get-take : (n : ℕ) (d : Bytes) (i : ℕ) → i < n → get_elem? (take n d) i ≡ get_elem? d i
get-take zero d i h = ground (arith, h)
get-take (suc n) [] i h = refl
get-take (suc n) (x ∷ d) zero h = refl
get-take (suc n) (x ∷ d) (suc i) h = get-take n d i (omega (arith, h))

get-drop : (n : ℕ) (d : Bytes) (i j : ℕ) → n + i ≡ j → get_elem? (drop n d) i ≡ get_elem? d j
get-drop zero d i j e = ap (get_elem? d) (omega (arith, e))
get-drop (suc n) [] i j e = refl
get-drop (suc n) (x ∷ d) i zero e = ground (arith, e)
get-drop (suc n) (x ∷ d) i (suc j) e = get-drop n d i j (omega (arith, e))

get-base_bytes :
    (offset n : ℕ) (base : Bytes) (i q : ℕ)
    → i < n
    → offset + i ≡ q
    → get_elem? (base_bytes offset n base) i ≡ some (base_byte (get_elem? base q))
unfolding base_bytes
get-base_bytes offset zero base i q h e = ground (arith, h)
get-base_bytes offset (suc n) base zero q h e =
    ap (λ x. some (base_byte (get_elem? base x))) (omega (arith, e))
get-base_bytes offset (suc n) base (suc i) q h e =
    get-base_bytes (suc offset) n base i q (omega (arith, h)) (omega (arith, e))

length-base_bytes : (offset n : ℕ) (base : Bytes) → length (base_bytes offset n base) ≡ n
unfolding base_bytes
length-base_bytes offset zero base = refl
length-base_bytes offset (suc n) base = ap suc (length-base_bytes (suc offset) n base)

length-read_range :
    (offset req_end k : ℕ) (d buf : Bytes) → length (read_range offset req_end k d buf) ≡ length buf
unfolding read_range
length-read_range offset req_end k d buf =
    elim (Bool-cases (leb (k + length d) offset || leb req_end k)) [
      | inl e ↦ rw e
      | inr e ↦ rw e (length-copy_at _ _ buf)
    ]

length-read_ranges :
    (offset req_end : ℕ) (m : Ranges) (buf : Bytes)
    → length (read_ranges offset req_end m buf) ≡ length buf
unfolding read_ranges
length-read_ranges offset req_end [] buf = refl
length-read_ranges offset req_end ((k, d) ∷ m) buf =
    length-read_ranges offset req_end m (read_range offset req_end k d buf)
    ∙ length-read_range offset req_end k d buf

-- one range decides the bytes that it covers, and no other
get-read_range_in :
    (offset req_end k : ℕ) (d buf : Bytes) (q : ℕ)
    → length buf ≡ req_end - offset
    → offset ≤ q
    → q < req_end
    → k ≤ q
    → q < k + length d
    → get_elem? (read_range offset req_end k d buf) (q - offset) ≡ get_elem? d (q - k)
unfolding read_range
get-read_range_in offset req_end k d buf q size l r from to =
    let i = max k offset - offset in
    let n = min (k + length d) req_end - max k offset in
    let tail = drop (max k offset - k) d in
    let part = take n tail in
    let part_size : length part ≡ n =
      length-take n tail ∙ omega (arith, length-drop (max k offset - k) d, from, to, l, r) in
    let test : (leb (k + length d) offset || leb req_end k) ≡ false =
      ground (arith, l, r, from, to) in
    rw test (
      get-copy_at_in i part buf (q - offset) (omega (arith, size, l, r)) (omega (arith, from, l))
        (omega (arith, part_size, from, to, l, r))
      ∙ (get-take n tail (q - offset - i) (omega (arith, from, to, l, r))
          ∙ get-drop (max k offset - k) d (q - offset - i) (q - k) (omega (arith, from, l))))

get-read_range_out :
    (offset req_end k : ℕ) (d buf : Bytes) (q : ℕ)
    → offset ≤ q
    → q < req_end
    → in_range k d q ≡ false
    → get_elem? (read_range offset req_end k d buf) (q - offset) ≡ get_elem? buf (q - offset)
unfolding read_range
get-read_range_out offset req_end k d buf q l r out =
    let i = max k offset - offset in
    let n = min (k + length d) req_end - max k offset in
    let tail = drop (max k offset - k) d in
    let part = take n tail in
    elim (Bool-cases (leb (k + length d) offset || leb req_end k)) [
      | inl e ↦ rw e
      | inr e ↦ rw e (elim (Bool-cases (ltb q k)) [
        | inl f ↦ get-copy_at_below i part buf (q - offset) (ground (arith, f, l))
        | inr f ↦
            let past : k + length d ≤ q = ground (arith, f, out) in
            let reaches : offset < k + length d = ground (arith, e) in
            get-copy_at_above i part buf (q - offset)
              (omega (arith, past, reaches, length-take n tail, l))
      ])
    ]

get-read_ranges :
    (offset req_end : ℕ) (m : Ranges) (buf : Bytes) (q : ℕ)
    → IsSpaced m
    → length buf ≡ req_end - offset
    → offset ≤ q
    → q < req_end
    → get_elem? (read_ranges offset req_end m buf) (q - offset)
      ≡ or_byte (overlay_at m q) (get_elem? buf (q - offset))
unfolding read_ranges overlay_at
get-read_ranges offset req_end [] buf q v size l r = refl
get-read_ranges offset req_end ((k, d) ∷ m) buf q v size l r =
    let buf' = read_range offset req_end k d buf in
    let rest =
      get-read_ranges offset req_end m buf' q v.1.1
        (length-read_range offset req_end k d buf ∙ size) l r in
    elim (Bool-cases (in_range k d q)) [
      | inl e ↦
          let from : k ≤ q = ground (arith, e) in
          let to : q < k + length d = ground (arith, e) in
          let (b, g) = get_in d (q - k) (omega (arith, from, to)) in
          rw (e, g)
            (rest
              ∙ rw (overlay_at_before m (k + length d) q v.1.1 v.1.0 (omega (arith, to)))
                  (get-read_range_in offset req_end k d buf q size l r from to ∙ g))
      | inr e ↦
          rw e (
            rest
            ∙ ap (or_byte (overlay_at m q)) (get-read_range_out offset req_end k d buf q l r e))
    ]

-- the byte that a file shows
unfoldable pub byte_at : WriteBuffer → Bytes → ℕ → ℕ
byte_at w base q =
    base_byte (or_byte (overlay_at w.overlay q) (some (base_byte (get_elem? base q))))

pub or_some : (x : Option ℕ) (b : ℕ) → or_byte x (some b) ≡ some (base_byte (or_byte x (some b)))
or_some none b = refl
or_some (some x) b = refl

-- A read returns the bytes from the offset up to the length asked for or the effective size,
-- whichever comes first, and each is the overlay's byte, else the base's, else zero.
pub read_lem :
    (w : WriteBuffer) (offset len : ℕ) (base : Bytes)
    → IsSpaced w.overlay
    → (length (read w offset len base) ≡ min len (effective_size w (length base) - offset))
      × ((q : ℕ)
          → offset ≤ q
          → q < offset + length (read w offset len base)
          → get_elem? (read w offset len base) (q - offset) ≡ some (byte_at w base q))
unfolding read byte_at
read_lem w offset len base v =
    let eff = effective_size w (length base) in
    let avail = min len (eff - offset) in
    let start = base_bytes offset avail base in
    let start_size : length start ≡ offset + avail - offset =
      length-base_bytes offset avail base ∙ omega arith in
    let size =
      length-read_ranges offset (offset + avail) w.overlay start
      ∙ length-base_bytes offset avail base in
    elim (Bool-cases (leb eff offset)) [
      | inl e ↦ rw e (ground (arith, e), λ q l r. ground (arith, l, r))
      | inr e ↦ rw e (
        size,
        λ q l r.
            let r' : q < offset + avail = omega (arith, r, size) in
            get-read_ranges offset (offset + avail) w.overlay start q v start_size l r'
            ∙ rw
                (get-base_bytes offset avail base (q - offset) q (omega (arith, l, r'))
                  (omega (arith, l)))
                (or_some (overlay_at w.overlay q) (base_byte (get_elem? base q))),
      )
    ]
