-- ===== src/WriteBuffer.antt =====
-- cas/write_buffer.h and write_buffer.cpp: the bytes written to an open file, over the blob that it
-- was opened with. Offsets and sizes are below 2^63, as `off_t` bounds them, so that no sum wraps.
pub mod Copy
pub mod Overlay
pub mod Collect
pub mod Seek
pub mod Merged
pub mod Write
pub mod Invariant
pub mod Read
pub mod ReadWrite
pub mod Truncate
pub mod Regrow
pub mod Materialize
pub mod Within
pub mod History
use context_fs.Base.{
  ℕ, zero, suc, ◌+◌, ◌-◌, ◌*◌, ◌<◌, ◌≤◌, min, max, Bool, true, false, ◌&&◌, ◌||◌, Option, none,
  some, List, [], ◌∷◌, ◌++◌, length, get_elem?, take, drop, replicate, ltb, leb, if◌then◌else◌,
}
use context_fs.Base.Order.{Bytes}
use context_fs.OrdMap.{OrdMap}
use context_fs.WorkingTree.{Hash}

abbrev pub Ranges : Type 0
Ranges = OrdMap ℕ Bytes

pub record WriteBuffer : Type 0 where
  pub base_blob : Hash
  pub base_size : ℕ
  pub overlay : Ranges
  pub size_override : Option ℕ
  pub dirty_bytes : ℕ

unfoldable pub new_buffer : Hash → ℕ → WriteBuffer
new_buffer base_blob base_size = record {
  base_blob = base_blob;
  base_size = base_size;
  overlay = [];
  size_override = none;
  dirty_bytes = 0;
}

-- `memcpy(buf + i, data, ...)`, of which what would fall outside the buffer is left out
unfoldable pub copy_at : ℕ → Bytes → Bytes → Bytes
copy_at i [] buf = buf
copy_at i (x ∷ new_data) [] = []
copy_at zero (x ∷ new_data) (y ∷ buf) = x ∷ copy_at zero new_data buf
copy_at (suc i) (x ∷ new_data) (y ∷ buf) = y ∷ copy_at i (x ∷ new_data) buf

-- `upper_bound(offset)` is the first range
unfoldable pub starts_above : ℕ → Ranges → Bool
starts_above offset [] = true
starts_above offset ((k, _) ∷ m) = ltb offset k

-- The ranges before the iterator, and those from it on: `upper_bound(offset)`, or the range before
-- it unless that one ends below the offset.
unfoldable pub seek : ℕ → Ranges → Ranges × Ranges
unfolding starts_above
seek offset [] = ([], [])
seek offset ((k, d) ∷ m) =
    let (before, from) = seek offset m in
    if ltb offset k
    then ([], (k, d) ∷ m)
    else if starts_above offset m
    then (if ltb (k + length d) offset then ((k, d) ∷ [], m) else ([], (k, d) ∷ m))
    else ((k, d) ∷ before, from)

unfoldable pub start_of : ℕ → Ranges → ℕ
start_of offset [] = offset
start_of offset ((k, _) ∷ _) = if ltb k offset then k else offset

pub record Collected : Type 0 where
  pub taken : Ranges
  pub rest : Ranges
  pub merge_end : ℕ
  pub old_dirty : ℕ

-- the loop that collects the ranges to merge
unfoldable pub collect : ℕ → Ranges → Collected
collect merge_end [] = record { taken = []; rest = []; merge_end = merge_end; old_dirty = 0 }
collect merge_end ((k, d) ∷ m) =
    let e_end = k + length d in
    let c = collect (if ltb merge_end e_end then e_end else merge_end) m in
    if ltb merge_end k
    then record { taken = []; rest = (k, d) ∷ m; merge_end = merge_end; old_dirty = 0 }
    else record {
      taken = (k, d) ∷ c.taken;
      rest = c.rest;
      merge_end = c.merge_end;
      old_dirty = length d + c.old_dirty;
    }

unfoldable pub copy_ranges : ℕ → Ranges → Bytes → Bytes
unfolding copy_at
copy_ranges start [] buf = buf
copy_ranges start ((k, d) ∷ m) buf = copy_ranges start m (copy_at (k - start) d buf)

-- the end of the last range
unfoldable pub last_end : Ranges → ℕ
last_end [] = 0
last_end ((k, d) ∷ []) = k + length d
last_end (_ ∷ r ∷ m) = last_end (r ∷ m)

unfoldable pub effective_size : WriteBuffer → ℕ → ℕ
unfolding last_end
effective_size w base_size = elim w.size_override [
  | some size ↦ size
  | none ↦ if ltb base_size (last_end w.overlay) then last_end w.overlay else base_size
]

-- the merged buffer
unfoldable pub merged_bytes : ℕ → ℕ → Bytes → Collected → Bytes
unfolding copy_ranges
merged_bytes start offset new_data c =
    copy_at (offset - start) new_data
      (copy_ranges start c.taken (replicate (c.merge_end - start) 0))

-- the end of a write past the effective size becomes the size
unfoldable pub extend_size : WriteBuffer → ℕ → WriteBuffer
unfolding effective_size
extend_size w new_end =
    if ltb (effective_size w w.base_size) new_end
    then record w { size_override = some new_end }
    else w

-- The merged range stands where the ranges that it replaces stood.
unfoldable pub splice : WriteBuffer → ℕ → Bytes → WriteBuffer
unfolding seek start_of collect merged_bytes
splice w offset new_data =
    let (before, from) = seek offset w.overlay in
    let start = start_of offset from in
    let c = collect (offset + length new_data) from in
    let merged = merged_bytes start offset new_data c in
    record w {
      overlay = before ++ (start, merged) ∷ c.rest;
      dirty_bytes = w.dirty_bytes - c.old_dirty + length merged;
    }

unfoldable pub write : WriteBuffer → ℕ → Bytes → WriteBuffer
unfolding splice extend_size
write w offset [] = w
write w offset (x ∷ new_data) =
    extend_size (splice w offset (x ∷ new_data)) (offset + length (x ∷ new_data))

abbrev pub base_byte : Option ℕ → ℕ
base_byte none = 0
base_byte (some b) = b

-- base data, and zeros past its end
unfoldable pub base_bytes : ℕ → ℕ → Bytes → Bytes
base_bytes offset zero base = []
base_bytes offset (suc n) base = base_byte (get_elem? base offset) ∷ base_bytes (suc offset) n base

-- the part of a range that was asked for
unfoldable pub read_range : ℕ → ℕ → ℕ → Bytes → Bytes → Bytes
unfolding copy_at
read_range offset req_end k d buf =
    let copy_start = max k offset in
    let copy_end = min (k + length d) req_end in
    if leb (k + length d) offset || leb req_end k
    then buf
    else copy_at (copy_start - offset) (take (copy_end - copy_start) (drop (copy_start - k) d)) buf

unfoldable pub read_ranges : ℕ → ℕ → Ranges → Bytes → Bytes
unfolding read_range
read_ranges offset req_end [] buf = buf
read_ranges offset req_end ((k, d) ∷ m) buf =
    read_ranges offset req_end m (read_range offset req_end k d buf)

-- what `read` leaves in the caller's buffer, as long as the count it returns
unfoldable pub read : WriteBuffer → ℕ → ℕ → Bytes → Bytes
unfolding effective_size read_ranges base_bytes
read w offset len base_data =
    let eff = effective_size w (length base_data) in
    let avail = min len (eff - offset) in
    if leb eff offset
    then []
    else read_ranges offset (offset + avail) w.overlay (base_bytes offset avail base_data)

abbrev pub max_bytes : ℕ
max_bytes = 64 * 1024 * 1024

unfoldable pub over_cap : WriteBuffer → Bool
over_cap w = leb max_bytes w.dirty_bytes

abbrev pub is_set : Option ℕ → Bool
is_set none = false
is_set (some _) = true

unfoldable pub is_dirty : WriteBuffer → Bool
is_dirty w = ltb 0 w.dirty_bytes || is_set w.size_override
