-- ===== src/Tests/Buffers.antt =====
-- The write buffer of cas/write_buffer.cpp on a small file.
use context_fs.Base.{
  some, List, ℕ, ltb, ◌+◌, ◌-◌, ◌<◌, ◌≤◌, ◌≡◌, refl, min, none, some, [], ◌∷◌, length, get_elem?,
  replicate, arith, if◌then◌else◌,
}
use context_fs.Base.Order.{Bytes}
use context_fs.WriteBuffer.{WriteBuffer, new_buffer, effective_size, write, read}
use context_fs.WriteBuffer.Copy.{in_range}
use context_fs.WriteBuffer.Overlay.{IsSpaced, overlay_at}
use context_fs.WriteBuffer.Write.{overlay_at-write}
use context_fs.WriteBuffer.Invariant.{IsValid, total, write-IsValid}
use context_fs.WriteBuffer.Read.{byte_at, read_lem}
use context_fs.WriteBuffer.Truncate.{truncate, overlay_at-truncate}
use context_fs.WriteBuffer.Materialize.{materialize}
use context_fs.WriteBuffer.History.{Edit, writing, truncating, edits, materialize-edits}
use context_fs.WriteBuffer.Regrow.{read-truncate-truncate}
use context_fs.WriteBuffer.ReadWrite.{read-write}

abbrev base_data : Bytes
base_data = 1 ∷ 2 ∷ 3 ∷ []

-- one byte at 1, and two bytes at 5
abbrev edited_file : WriteBuffer
edited_file = record {
  base_blob = replicate 32 0;
  base_size = 3;
  overlay = (1, 9 ∷ []) ∷ (5, 8 ∷ 8 ∷ []) ∷ [];
  size_override = none;
  dirty_bytes = 3;
}

abbrev bridge : Bytes
bridge = 4 ∷ 5 ∷ 6 ∷ []

edited_file-IsSpaced : IsSpaced edited_file.overlay
edited_file-IsSpaced = (omega arith, (omega arith, (omega arith, (tt, tt))))

edited_file-IsValid : IsValid edited_file
unfolding total
edited_file-IsValid = record { spaced = edited_file-IsSpaced; counted = refl }

-- the write joins the two ranges
program : Unit {0}
unfolding write effective_size read edits new_buffer materialize truncate
program = tt

merged_overlay : (write edited_file 2 bridge).overlay ≡ (1, 9 ∷ 4 ∷ 5 ∷ 6 ∷ 8 ∷ 8 ∷ []) ∷ []
unfolding program
merged_overlay = refl

reads_through : read edited_file 0 10 base_data ≡ 1 ∷ 9 ∷ 3 ∷ 0 ∷ 0 ∷ 8 ∷ 8 ∷ []
unfolding program
reads_through = refl

read-write_example : read (write edited_file 2 bridge) 2 3 base_data ≡ bridge
read-write_example = read-write edited_file 2 bridge base_data edited_file-IsValid

overlay_at-write_example :
    overlay_at (write edited_file 2 bridge).overlay 3
    ≡ (if in_range 2 bridge 3 then get_elem? bridge (3 - 2) else overlay_at edited_file.overlay 3)
overlay_at-write_example = overlay_at-write edited_file 2 bridge 3 edited_file-IsSpaced

write-IsValid_example : IsValid (write edited_file 2 bridge)
write-IsValid_example = write-IsValid edited_file 2 bridge edited_file-IsValid

read_example :
    (length (read edited_file 0 10 base_data)
      ≡ min 10 (effective_size edited_file (length base_data) - 0))
    × ((q : ℕ)
        → 0 ≤ q
        → q < 0 + length (read edited_file 0 10 base_data)
        → get_elem? (read edited_file 0 10 base_data) (q - 0)
          ≡ some (byte_at edited_file base_data q))
read_example = read_lem edited_file 0 10 base_data edited_file-IsSpaced

overlay_at-truncate_example :
    overlay_at (truncate edited_file 6).overlay 5
    ≡ (if ltb 5 6 then overlay_at edited_file.overlay 5 else none)
overlay_at-truncate_example = overlay_at-truncate edited_file 6 5 edited_file-IsSpaced

read-truncate-truncate_example : read (truncate (truncate edited_file 1) 4) 2 1 base_data ≡ 3 ∷ []
read-truncate-truncate_example =
    read-truncate-truncate edited_file 1 4 2 base_data edited_file-IsSpaced (omega arith)
      (omega arith)

-- a shrinking between two writes
abbrev history : List Edit
history = writing 1 (9 ∷ 9 ∷ 9 ∷ []) ∷ truncating 3 ∷ writing 5 (8 ∷ []) ∷ []

written_out :
    materialize (edits history (new_buffer (replicate 32 0) 3)) base_data
    ≡ some (1 ∷ 9 ∷ 9 ∷ 0 ∷ 0 ∷ 8 ∷ [])
unfolding program
written_out = refl

materialize-edits_example :
    materialize (edits history (new_buffer (replicate 32 0) 3)) base_data
    ≡ some (
        read
          (edits history (new_buffer (replicate 32 0) 3))
          0
          (effective_size (edits history (new_buffer (replicate 32 0) 3)) (length base_data))
          base_data)
materialize-edits_example = materialize-edits (replicate 32 0) 3 history base_data
