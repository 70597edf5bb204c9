-- ===== src/TreeSerialize/Bounds.antt =====
-- The reader of cas/tree_serialize.cpp on any buffer.
use context_fs.Base.{
  ℕ, zero, suc, ◌+◌, ◌≡◌, ◌≢◌, refl, List, ◌∷◌, take, drop, length-drop, arith, inl, inr, ◌⊎◌,
}
use context_fs.Base.Order.{Bytes}
use context_fs.Codec.{
  Parse, parsed, rejected, out_of_bounds, ◌>>=◌, from_le, grab_enough, grab_int_enough,
  require-cases,
}
use context_fs.TreeSerialize.{
  Child, read_child, read_children, kind_of_byte, deserialize_tree_entries,
}

-- one entry is read inside the buffer, or refused
read_child-cases :
    (s : Bytes)
    → ((c : Child) × (r : Bytes) × (read_child s ≡ parsed (c, r))) ⊎ (read_child s ≡ rejected)
unfolding read_child
read_child-cases s = elim (require-cases 2 s) [
  | inr e ↦ inr (rw e)
  | inl (room, e) ↦
      let len = from_le (take 2 s) in
      let s₁ = drop 2 s in
      elim (require-cases (len + 37) s₁) [
        | inr f ↦ inr (rw (e, grab_int_enough 2 s room, f))
        | inl (fits, f) ↦
            let s₂ = drop len s₁ in
            let s₃ = drop 4 s₂ in
            let s₄ = drop 1 s₃ in
            let l₂ = length-drop len s₁ in
            let l₃ = length-drop 4 s₂ in
            let l₄ = length-drop 1 s₃ in
            inl (
              (
                take len s₁,
                record {
                  kind = kind_of_byte (from_le (take 1 s₃));
                  hash = take 32 s₄;
                  mode = from_le (take 4 s₂);
                },
              ),
              drop 32 s₄,
              rw (
                e,
                grab_int_enough 2 s room,
                f,
                grab_enough len s₁ (omega arith),
                grab_int_enough 4 s₂ (omega (arith, l₂)),
                grab_int_enough 1 s₃ (omega (arith, l₂, l₃)),
                grab_enough 32 s₄ (omega (arith, l₂, l₃, l₄)),
              ),
            )
      ]
]

read_children_in_bounds : (n : ℕ) (s : Bytes) → read_children n s ≢ out_of_bounds
unfolding read_children
read_children_in_bounds zero s = λ p. cc
read_children_in_bounds (suc n) s = elim (read_child-cases s) [
  | inr e ↦ rw e (λ p. cc)
  | inl (c, r, e) ↦ rw e (rest c (read_children n r) (read_children_in_bounds n r))
]
  where
    rest :
        (c : Child) (p : Parse (List Child))
        → p ≢ out_of_bounds
        → (p >>= λ cs. parsed (c ∷ cs)) ≢ out_of_bounds
    rest c (parsed cs) h = λ q. cc
    rest c rejected h = λ q. cc
    rest c out_of_bounds h = absurd (h refl)

-- Whatever a tree object holds, reading it never passes the end of the buffer.
pub deserialize_tree_entries_in_bounds :
    (body : Bytes) → deserialize_tree_entries body ≢ out_of_bounds
unfolding deserialize_tree_entries
deserialize_tree_entries_in_bounds body = elim (require-cases 4 body) [
  | inr e ↦ rw e (λ p. cc)
  | inl (room, e) ↦
      rw (e, grab_int_enough 4 body room)
        (read_children_in_bounds (from_le (take 4 body)) (drop 4 body))
]
