-- ===== src/WriteBuffer/History.antt =====
-- Histories of an open file in cas/write_buffer.cpp.
use context_fs.Base.{◌≡◌, refl, sym, ◌∙◌, subst, ℕ, ◌+◌, arith, some, List, [], ◌∷◌, length}
use context_fs.Base.Order.{Bytes}
use context_fs.WorkingTree.{Hash}
use context_fs.WriteBuffer.{WriteBuffer, new_buffer, effective_size, last_end, splice, write, read}
use context_fs.WriteBuffer.Overlay.{IsSpaced}
use context_fs.WriteBuffer.Write.{extend_size-overlay}
use context_fs.WriteBuffer.Truncate.{truncate}
use context_fs.WriteBuffer.Regrow.{truncate-IsSpaced}
use context_fs.WriteBuffer.Invariant.{IsValid, total, write-IsValid}
use context_fs.WriteBuffer.Materialize.{materialize, clear, materialize-read}
use context_fs.WriteBuffer.Within.{IsWithin, IsWithin-EndsBy, write-IsWithin, truncate-IsWithin}

-- the calls that change a buffer
pub data Edit : Type 0 where
  writing : ℕ → Bytes → Edit
  truncating : ℕ → Edit
  clearing : Edit

unfoldable pub edit : Edit → WriteBuffer → WriteBuffer
unfolding write truncate clear
edit (writing offset new_data) w = write w offset new_data
edit (truncating new_size) w = truncate w new_size
edit clearing w = clear w

unfoldable pub edits : List Edit → WriteBuffer → WriteBuffer
unfolding edit
edits [] w = w
edits (e ∷ es) w = edits es (edit e w)

-- what each history keeps: the ranges are apart and within the size
record IsSound (w : WriteBuffer) : Type 0 where
  spaced : IsSpaced w.overlay
  within : IsWithin w

-- the ranges do not depend on the counter of dirty bytes
abbrev recount : WriteBuffer → WriteBuffer
recount w = record w { dirty_bytes = total w.overlay }

recount-IsValid : (w : WriteBuffer) → IsSpaced w.overlay → IsValid (recount w)
recount-IsValid w v = record { spaced = v; counted = refl }

overlay-recount :
    (w : WriteBuffer) (offset : ℕ) (d : Bytes)
    → (write (recount w) offset d).overlay ≡ (write w offset d).overlay
unfolding write splice
overlay-recount w offset [] = refl
overlay-recount w offset (x ∷ d) =
    let n = offset + length (x ∷ d) in
    extend_size-overlay (splice (recount w) offset (x ∷ d)) n
    ∙ sym (extend_size-overlay (splice w offset (x ∷ d)) n)

write-IsSpaced :
    (w : WriteBuffer) (offset : ℕ) (d : Bytes)
    → IsSpaced w.overlay
    → IsSpaced (write w offset d).overlay
write-IsSpaced w offset d v =
    subst IsSpaced (overlay-recount w offset d)
      (write-IsValid (recount w) offset d (recount-IsValid w v)).spaced

edit-IsSound : (e : Edit) (w : WriteBuffer) → IsSound w → IsSound (edit e w)
unfolding edit clear IsWithin last_end
edit-IsSound (writing offset d) w v =
    let apart = write-IsSpaced w offset d v.spaced in
    record { spaced = apart; within = write-IsWithin w offset d v.spaced apart v.within }
edit-IsSound (truncating n) w v = record {
  spaced = truncate-IsSpaced w n v.spaced;
  within = truncate-IsWithin w n v.spaced;
}
edit-IsSound clearing w v = record { spaced = tt; within = λ s e. omega arith }

edits-IsSound : (es : List Edit) (w : WriteBuffer) → IsSound w → IsSound (edits es w)
unfolding edits
edits-IsSound [] w v = v
edits-IsSound (e ∷ es) w v = edits-IsSound es (edit e w) (edit-IsSound e w v)

new_buffer-IsSound : (h : Hash) (size : ℕ) → IsSound (new_buffer h size)
unfolding new_buffer IsWithin last_end
new_buffer-IsSound h size = record { spaced = tt; within = λ s e. omega arith }

-- Whatever was written, truncated and cleared since a file was opened, writing it out stays inside
-- its buffer and gives what reading the whole file gives.
pub materialize-edits :
    (h : Hash) (size : ℕ) (es : List Edit) (base : Bytes)
    → materialize (edits es (new_buffer h size)) base
      ≡ some (
          read
            (edits es (new_buffer h size))
            0
            (effective_size (edits es (new_buffer h size)) (length base))
            base)
materialize-edits h size es base =
    let w = edits es (new_buffer h size) in
    let sound = edits-IsSound es (new_buffer h size) (new_buffer-IsSound h size) in
    materialize-read w base sound.spaced (IsWithin-EndsBy w (length base) sound.spaced sound.within)
