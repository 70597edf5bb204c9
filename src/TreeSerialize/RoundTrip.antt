-- ===== src/TreeSerialize/RoundTrip.antt =====
-- What cas/tree_serialize.cpp writes for a directory reads back, in the order of the names.
use context_fs.Base.{
  ◌+◌, ◌%◌, ◌^◌, ◌<◌, ◌≡◌, refl, List, [], ◌∷◌, ◌++◌, length, All, arith, length-append,
  append_assoc, take_all,
}
use context_fs.Base.Order.{Bytes, bytes_ord}
use context_fs.Codec.{le_bytes, parsed, grab-append, grab_int-le_bytes, length_ints, require_ok}
use context_fs.TreeSerialize.{
  Child, sort_children, kind_byte, kind_of_byte, write_child, write_children,
  serialize_tree_entries, read_child, read_children, deserialize_tree_entries,
}
use context_fs.TreeSerialize.Sort.{
  IsAscending, All-sort_children, length-sort_children, sort_children-perm,
  sort_children-IsAscending,
}
use mathlib.Core.List.{Perm}

-- The fields fit their types in the program, and the name fits its length field.
pub record IsChild (c : Child) : Type 0 where
  pub name : length c.0 < 2 ^ 16
  pub mode : c.1.mode < 2 ^ 32
  pub kind : kind_byte c.1.kind < 256
  pub named : kind_of_byte (kind_byte c.1.kind) ≡ c.1.kind
  pub hash : length c.1.hash ≡ 32

read_child-write_child :
    (c : Child) (rest : Bytes) → IsChild c → read_child (write_child c ++ rest) ≡ parsed (c, rest)
unfolding read_child write_child
read_child-write_child (name, e) rest v =
    let small : length name % 2 ^ 16 ≡ length name = omega (arith, v.name) in
    let s₄ = e.hash ++ rest in
    let s₃ = le_bytes 1 (kind_byte e.kind) ++ s₄ in
    let s₂ = le_bytes 4 e.mode ++ s₃ in
    let s₁ = name ++ s₂ in
    rw (
      small,
      take_all name,
      append_assoc (le_bytes 2 (length name))
          (name ++ (le_bytes 4 e.mode ++ (le_bytes 1 (kind_byte e.kind) ++ e.hash))) rest,
      append_assoc name (le_bytes 4 e.mode ++ (le_bytes 1 (kind_byte e.kind) ++ e.hash)) rest,
      append_assoc (le_bytes 4 e.mode) (le_bytes 1 (kind_byte e.kind) ++ e.hash) rest,
      append_assoc (le_bytes 1 (kind_byte e.kind)) e.hash rest,
      require_ok 2 (le_bytes 2 (length name) ++ s₁) (omega (arith, length_ints 2 (length name) s₁)),
      grab_int-le_bytes 2 (length name) s₁ v.name,
      require_ok (length name + 37) s₁ (
          omega (
            arith,
            length-append name s₂,
            length_ints 4 e.mode s₃,
            length_ints 1 (kind_byte e.kind) s₄,
            length-append e.hash rest,
            v.hash,
          )),
      grab-append (length name) name s₂ refl,
      grab_int-le_bytes 4 e.mode s₃ v.mode,
      grab_int-le_bytes 1 (kind_byte e.kind) s₄ v.kind,
      grab-append 32 e.hash rest v.hash,
      v.named,
    )

read_children-write_children :
    (cs : List Child) (rest : Bytes)
    → All IsChild cs
    → read_children (length cs) (write_children cs ++ rest) ≡ parsed cs
unfolding read_children write_children
read_children-write_children [] rest v = refl
read_children-write_children (c ∷ cs) rest v = rw (
  append_assoc (write_child c) (write_children cs) rest,
  read_child-write_child c (write_children cs ++ rest) v.0,
  read_children-write_children cs rest v.1,
)

-- A directory of fitting entries reads back as the same entries in the order of their names: a
-- permutation of them in which no name is below an earlier one. Bytes behind them are not looked at.
pub deserialize-serialize_tree_entries :
    (cs : List Child) (rest : Bytes)
    → All IsChild cs
    → length cs < 2 ^ 32
    → (cs' : List Child) × (deserialize_tree_entries (serialize_tree_entries cs ++ rest)
        ≡ parsed cs')
      × Perm cs' cs
      × IsAscending cs'
unfolding deserialize_tree_entries serialize_tree_entries
deserialize-serialize_tree_entries cs rest v few =
    let sorted = sort_children cs in
    let small : length sorted % 2 ^ 32 ≡ length sorted = omega (arith, length-sort_children cs) in
    let body = write_children sorted ++ rest in
    (
      sorted,
      rw (
        small,
        append_assoc (le_bytes 4 (length sorted)) (write_children sorted) rest,
        require_ok 4 (le_bytes 4 (length sorted) ++ body)
            (omega (arith, length_ints 4 (length sorted) body)),
        grab_int-le_bytes 4 (length sorted) body (omega (arith, length-sort_children cs)),
        read_children-write_children sorted rest (All-sort_children IsChild cs v),
      ),
      sort_children-perm cs,
      sort_children-IsAscending cs,
    )
