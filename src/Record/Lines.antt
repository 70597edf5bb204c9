-- ===== src/Record/Lines.antt =====
-- A field that was written is the line that is read.
use Prim.Native.String.{String}
use context_fs.Base.{
  ℕ, ◌≡◌, refl, ap, ◌∙◌, Bool, true, false, some, [], ◌∷◌, ◌++◌, All, ◌==◌, if◌then◌else◌,
  append_assoc, Bool-cases, inl, inr, ==_refl, length, ltb-false, length-append, take-append,
  drop-append, arith,
}
use context_fs.Base.Order.{Bytes, bytes_ord, same_refl}
use context_fs.Base.Result.{Result, ok, codes}
use context_fs.Record.{newline, field, split_lines, split_first, read_line, read_lines, read_record}

-- the character does not occur
abbrev pub LacksChar : ℕ → Bytes → Type 0
LacksChar sep s = All (λ (c : ℕ). (c == sep) ≡ false) s

pub LacksChar-append :
    (sep : ℕ) (xs ys : Bytes) → LacksChar sep xs → LacksChar sep ys → LacksChar sep (xs ++ ys)
LacksChar-append sep [] ys v w = w
LacksChar-append sep (x ∷ xs) ys v w = (v.0, LacksChar-append sep xs ys v.1 w)

split_lines-append :
    (l rest : Bytes)
    → LacksChar newline l
    → split_lines (l ++ newline ∷ rest) ≡ l ∷ split_lines rest
unfolding split_lines
split_lines-append [] rest v = refl
split_lines-append (c ∷ l) rest v = rw (v.0, split_lines-append l rest v.1)

pub split_first-append :
    (sep : ℕ) (k v : Bytes) → LacksChar sep k → split_first sep (k ++ sep ∷ v) ≡ some (k, v)
unfolding split_first
split_first-append sep [] v w = rw (==_refl sep)
split_first-append sep (c ∷ k) v w = rw (w.0, split_first-append sep k v w.1)

abbrev pub lacks : ℕ → Bytes → Bool
lacks sep [] = true
lacks sep (c ∷ s) = if c == sep then false else lacks sep s

pub lacks-LacksChar : (sep : ℕ) (s : Bytes) → lacks sep s ≡ true → LacksChar sep s
lacks-LacksChar sep [] h = tt
lacks-LacksChar sep (c ∷ s) h = elim (Bool-cases (c == sep)) [
  | inl e ↦ cc (rw e at h)
  | inr e ↦ (e, lacks-LacksChar sep s (rw e at h))
]

-- A key has neither a line break nor a separator; both tests compute at a literal.
abbrev pub IsKey : String → Type 0
IsKey key = (lacks newline (codes key) ≡ true) × (lacks b'=' (codes key) ≡ true)

field_end :
    (xs value rest : Bytes)
    → (xs ++ b'=' ∷ (value ++ newline ∷ [])) ++ rest ≡ (xs ++ b'=' ∷ value) ++ newline ∷ rest
field_end xs value rest = simp append_assoc

pub split_lines-field :
    (key : String) (value rest : Bytes)
    → IsKey key
    → LacksChar newline value
    → split_lines (field key value ++ rest) ≡ (codes key ++ b'=' ∷ value) ∷ split_lines rest
split_lines-field key value rest k v =
    ap split_lines (field_end (codes key) value rest)
    ∙ split_lines-append (codes key ++ b'=' ∷ value) rest (
        LacksChar-append newline (codes key) (b'=' ∷ value)
          (lacks-LacksChar newline (codes key) k.0) (refl, v))

module _ {S : Type 0} (assign_field : S → Bytes → Bytes → Result S) where
  read_line_split :
      (state : S) (l key value : Bytes)
      → split_first b'=' l ≡ some (key, value)
      → read_line assign_field state l ≡ assign_field state key value
  unfolding read_line
  read_line_split state [] key value e = unfold split_first in cc e
  read_line_split state (c ∷ l) key value e = rw (e, read_line)

  read_line-field :
      (state : S) (key : String) (value : Bytes)
      → IsKey key
      → read_line assign_field state (codes key ++ b'=' ∷ value)
        ≡ assign_field state (codes key) value
  read_line-field state key value k =
      read_line_split state (codes key ++ b'=' ∷ value) (codes key) value
        (split_first-append b'=' (codes key) value (lacks-LacksChar b'=' (codes key) k.1))

  -- a field that was written sets what `assign_field` makes of it
  pub read_field :
      (state next : S) (key : String) (value rest : Bytes)
      → IsKey key
      → LacksChar newline value
      → assign_field state (codes key) value ≡ ok next
      → read_lines assign_field state (split_lines (field key value ++ rest))
        ≡ read_lines assign_field next (split_lines rest)
  unfolding read_lines
  read_field state next key value rest k v e =
      rw (split_lines-field key value rest k v, read_line-field state key value k, e)

  -- behind the header the lines are read
  pub read_record-append :
      (empty short wrong : String) (h : ℕ) (hs : Bytes) (state : S) (rest : Bytes)
      → read_record assign_field empty short wrong (h ∷ hs) state ((h ∷ hs) ++ rest)
        ≡ read_lines assign_field state (split_lines rest)
  unfolding read_record
  read_record-append empty short wrong h hs state rest =
      let header = h ∷ hs in
      rw (
        ltb-false (length (header ++ rest)) (length header)
            (omega (arith, length-append header rest)),
        take-append header rest,
        same_refl header,
        drop-append header rest,
      )
