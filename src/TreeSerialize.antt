-- ===== src/TreeSerialize.antt =====
-- cas/tree_serialize.cpp: the serialized form of one directory.
pub mod Sort
pub mod RoundTrip
pub mod Bounds
use context_fs.Base.{
  ℕ, zero, suc, ◌+◌, ◌%◌, ◌^◌, Bool, true, false, List, [], ◌∷◌, ◌++◌, length, take, ◌==◌,
  if◌then◌else◌,
}
use context_fs.Base.Order.{Bytes, bytes_ord, below}
use context_fs.WorkingTree.{
  Hash, EntryKind, blob, tree, symlink, deleted, unnamed, WorkingTreeEntry,
}
use context_fs.Codec.{le_bytes, Parse, parsed, ◌>>=◌, ◌>>◌, require, grab, grab_int}

abbrev pub Child : Type 0
Child = Bytes × WorkingTreeEntry

-- `std::sort` by name; the names in one directory are distinct
unfoldable pub insert_child : Child → List Child → List Child
insert_child c [] = c ∷ []
insert_child c (d ∷ ds) = if below d.0 c.0 then d ∷ insert_child c ds else c ∷ d ∷ ds

unfoldable pub sort_children : List Child → List Child
unfolding insert_child
sort_children [] = []
sort_children (c ∷ cs) = insert_child c (sort_children cs)

-- `static_cast<uint8_t>(entry.kind)`
unfoldable pub kind_byte : EntryKind → ℕ
kind_byte blob = 0
kind_byte tree = 1
kind_byte symlink = 2
kind_byte deleted = 3
kind_byte (unnamed n) = n

-- `static_cast<EntryKind>(body[pos])`
unfoldable pub kind_of_byte : ℕ → EntryKind
kind_of_byte n =
    if n == 0
    then blob
    else if n == 1
    then tree
    else if n == 2
    then symlink
    else if n == 3
    then deleted
    else unnamed n

-- The name's length is cast to 16 bits, and so many bytes of it are written.
unfoldable pub write_child : Child → Bytes
write_child (name, e) =
    let name_len = length name % 2 ^ 16 in
    le_bytes 2 name_len
    ++ (take name_len name ++ (le_bytes 4 e.mode ++ (le_bytes 1 (kind_byte e.kind) ++ e.hash)))

unfoldable pub write_children : List Child → Bytes
write_children [] = []
write_children (c ∷ cs) = write_child c ++ write_children cs

unfoldable pub serialize_tree_entries : List Child → Bytes
serialize_tree_entries children =
    let sorted = sort_children children in
    le_bytes 4 (length sorted % 2 ^ 32) ++ write_children sorted

unfoldable pub read_child : Bytes → Parse (Child × Bytes)
read_child s = do
  require 2 s
  (name_len, s₁) ← grab_int 2 s
  require (name_len + 37) s₁
  (name, s₂) ← grab name_len s₁
  (mode, s₃) ← grab_int 4 s₂
  (kind, s₄) ← grab_int 1 s₃
  (hash, s₅) ← grab 32 s₄
  parsed ((name, record { kind = kind_of_byte kind; hash = hash; mode = mode }), s₅)

unfoldable pub read_children : ℕ → Bytes → Parse (List Child)
read_children zero s = parsed []
read_children (suc n) s =
    read_child s >>= λ (c, rest). read_children n rest >>= λ cs. parsed (c ∷ cs)

unfoldable pub deserialize_tree_entries : Bytes → Parse (List Child)
deserialize_tree_entries body = do
  require 4 body
  (count, s) ← grab_int 4 body
  read_children count s
