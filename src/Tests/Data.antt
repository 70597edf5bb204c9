-- ===== src/Tests/Data.antt =====
-- Paths and entries that the tests share.
use context_fs.Base.{ℕ, [], ◌∷◌, replicate}
use context_fs.Base.Order.{Bytes}
use context_fs.WorkingTree.{WorkingTreeEntry, blob, tree}

-- `/a`
abbrev pub file_a : Bytes
file_a = b'/' ∷ b'a' ∷ []

-- `/d`
abbrev pub dir_d : Bytes
dir_d = b'/' ∷ b'd' ∷ []

-- `/d/x`
abbrev pub file_x : Bytes
file_x = b'/' ∷ b'd' ∷ b'/' ∷ b'x' ∷ []

-- `/e`
abbrev pub dir_e : Bytes
dir_e = b'/' ∷ b'e' ∷ []

abbrev pub file_of : ℕ → WorkingTreeEntry
file_of n = record { kind = blob; hash = replicate 32 n; mode = 33188 }

abbrev pub a_dir : WorkingTreeEntry
a_dir = record { kind = tree; hash = replicate 32 0; mode = 16877 }
