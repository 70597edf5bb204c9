-- ===== src/Record/Invariant.antt =====
-- What every field keeps, a whole record has.
use Prim.Native.String.{String}
use context_fs.Base.{List, [], ◌∷◌, Bool-cases, Option-cases, inl, inr, length, take, drop, ltb}
use context_fs.Base.Order.{Bytes, bytes_ord, same}
use context_fs.Base.Result.{Result, AllOk, returns, fails, AllOk->>=}
use context_fs.Record.{split_first, split_lines, read_line, read_lines, read_record}

module _ {S : Type 0} (assign_field : S → Bytes → Bytes → Result S) (P : S → Type 0)
    (keeps : (state : S) (key value : Bytes)
      → P state
      → AllOk P (assign_field state key value)) where
  read_line-AllOk : (state : S) (l : Bytes) → P state → AllOk P (read_line assign_field state l)
  unfolding read_line
  read_line-AllOk state [] p = returns p
  read_line-AllOk state (c ∷ l) p = elim (Option-cases (split_first b'=' (c ∷ l))) [
    | inl e ↦ rw (e, read_line) fails
    | inr ((key, value), e) ↦ rw (e, read_line) (keeps state key value p)
  ]

  read_lines-AllOk :
      (state : S) (ls : List Bytes) → P state → AllOk P (read_lines assign_field state ls)
  unfolding read_lines
  read_lines-AllOk state [] p = returns p
  read_lines-AllOk state (l ∷ ls) p =
      AllOk->>= _ (read_line-AllOk state l p) (λ next q. read_lines-AllOk next ls q)

  pub read_record-AllOk :
      (empty short wrong : String) (header : Bytes) (state : S) (body : Bytes)
      → P state
      → AllOk P (read_record assign_field empty short wrong header state body)
  unfolding read_record
  read_record-AllOk empty short wrong header state [] p = fails
  read_record-AllOk empty short wrong header state (c ∷ s) p =
      elim (Bool-cases (ltb (length (c ∷ s)) (length header))) [
        | inl e ↦ rw e fails
        | inr e ↦ elim (Bool-cases (same (take (length header) (c ∷ s)) header)) [
          | inl f ↦
              rw (e, f) (read_lines-AllOk state (split_lines (drop (length header) (c ∷ s))) p)
          | inr f ↦ rw (e, f) fails
        ]
      ]
