-- ===== src/Record.antt =====
-- The line format that the records of cas/runtime_state.cpp and cas/agent_state.cpp share: lines
-- `key=value`, with decimal integers. The two files have their own copies of this code.
pub mod Lines
pub mod Decimal
pub mod Values
pub mod Invariant
use Prim.Native.String.{String}
use context_fs.Base.{
  ℕ, zero, suc, ◌+◌, ◌-◌, ◌*◌, ◌/◌, ◌%◌, ◌^◌, Bool, true, false, ◌&&◌, ◌||◌, not, Option, none,
  some, List, [], ◌∷◌, ◌++◌, length, take, drop, ltb, leb, ◌==◌, if◌then◌else◌,
}
use context_fs.Base.Order.{Bytes, bytes_ord, same}
use context_fs.Base.Result.{Result, ok, err, ◌>>=◌, codes}
use context_fs.Text.{percent_encode, percent_decode, Decoded, decoded, truncated, invalid_digit}

-- `percent_decode` with its error
abbrev pub decode_result : Decoded → Result Bytes
decode_result (decoded s) = ok s
decode_result truncated = err "percent-decode: truncated escape"
decode_result invalid_digit = err "percent-decode: invalid hex digit"

unfoldable pub decode : Bytes → Result Bytes
decode value = decode_result (percent_decode value)

-- `std::to_string` of a number below 10^20, which every 64-bit number is
unfoldable pub digits : ℕ → ℕ → Bytes
digits zero n = []
digits (suc f) n =
    let front = digits f (n / 10) in
    if ltb n 10 then (b'0' + n) ∷ [] else front ++ (b'0' + n % 10) ∷ []

unfoldable pub to_decimal : ℕ → Bytes
unfolding digits
to_decimal n = digits 20 n

abbrev pub is_digit : ℕ → Bool
is_digit c = leb b'0' c && leb c b'9'

unfoldable pub all_digits : Bytes → Bool
all_digits [] = true
all_digits (c ∷ s) = if is_digit c then all_digits s else false

-- the value that `strtoull` reads from digits
unfoldable pub decimal_value : ℕ → Bytes → ℕ
decimal_value n [] = n
decimal_value n (c ∷ s) = decimal_value (10 * n + (c - b'0')) s

-- `strtoull` sets `errno` for a value that does not fit
unfoldable pub parse_u64 : Bytes → Result ℕ
unfolding all_digits decimal_value
parse_u64 [] = err "empty integer field"
parse_u64 (c ∷ s) =
    if not (all_digits (c ∷ s))
    then err "non-digit in integer field"
    else if leb (2 ^ 64) (decimal_value 0 (c ∷ s))
    then err "integer field parse failed"
    else ok (decimal_value 0 (c ∷ s))

unfoldable pub parse_u32 : Bytes → Result ℕ
unfolding parse_u64
parse_u32 s =
    parse_u64 s >>= λ v. if ltb (2 ^ 32 - 1) v then err "integer field out of u32 range" else ok v

abbrev pub newline : ℕ
newline = 10

-- a key, `=`, a value and the line break, as the writers append them
abbrev pub field : String → Bytes → Bytes
field key value = codes key ++ b'=' ∷ (value ++ newline ∷ [])

abbrev pub cons_first : ℕ → List Bytes → List Bytes
cons_first c [] = (c ∷ []) ∷ []
cons_first c (l ∷ ls) = (c ∷ l) ∷ ls

-- the lines that the reader's loop visits; a last line may lack its break
unfoldable pub split_lines : Bytes → List Bytes
split_lines [] = []
split_lines (c ∷ s) =
    let rest = split_lines s in if c == newline then [] ∷ rest else cons_first c rest

abbrev pub put_first : ℕ → Option (Bytes × Bytes) → Option (Bytes × Bytes)
put_first c none = none
put_first c (some (k, v)) = some (c ∷ k, v)

-- the parts of a text before and after the first separator
unfoldable pub split_first : ℕ → Bytes → Option (Bytes × Bytes)
split_first sep [] = none
split_first sep (c ∷ s) =
    let rest = split_first sep s in if c == sep then some ([], s) else put_first c rest

module _ {S : Type 0} (assign_field : S → Bytes → Bytes → Result S) where
  -- the body of the reader's loop
  unfoldable pub read_line : S → Bytes → Result S
  read_line state [] = ok state
  read_line state (c ∷ line) = elim (split_first b'=' (c ∷ line)) [
    | none ↦ err "line missing '=' separator"
    | some (key, value) ↦ assign_field state key value
  ]

  unfoldable pub read_lines : S → List Bytes → Result S
  unfolding read_line
  read_lines state [] = ok state
  read_lines state (l ∷ ls) = read_line state l >>= λ state'. read_lines state' ls

  -- the reader around its loop, with the messages of the three refusals
  unfoldable pub read_record : String → String → String → Bytes → S → Bytes → Result S
  unfolding read_lines
  read_record empty short wrong header state [] = err empty
  read_record empty short wrong header state (c ∷ s) =
      let body = c ∷ s in
      if ltb (length body) (length header)
      then err short
      else if same (take (length header) body) header
      then read_lines state (split_lines (drop (length header) body))
      else err wrong
