-- ===== src/Text.antt =====
-- Textual forms: object ids in hexadecimal (cas/hash.h), the percent encoding of the runtime state
-- records (cas/runtime_state.cpp) and branch names (cas/branch_name.cpp).
pub mod Hex
pub mod Percent
pub mod Names
use context_fs.Base.{
  ℕ, zero, suc, ◌+◌, ◌-◌, ◌*◌, ◌/◌, ◌%◌, Bool, true, false, ◌&&◌, ◌||◌, not, Option, none, some,
  List, [], ◌∷◌, ◌++◌, length, ltb, leb, ◌==◌, if◌then◌else◌,
}
use context_fs.Base.Order.{Bytes, bytes_ord, same}
use context_fs.WorkingTree.{Hash}

-- the lower-case digit that `%02x` prints
unfoldable pub hex_digit : ℕ → ℕ
hex_digit n = if ltb n 10 then b'0' + n else 87 + n

-- the value of a digit of either case
unfoldable pub hex_value : ℕ → Option ℕ
hex_value c =
    if leb b'0' c && leb c b'9'
    then some (c - b'0')
    else if leb b'a' c && leb c b'f'
    then some (c - 87)
    else if leb b'A' c && leb c b'F'
    then some (c - 55)
    else none

unfoldable pub hash_to_hex : Hash → Bytes
hash_to_hex [] = []
hash_to_hex (b ∷ h) = hex_digit (b / 16) ∷ hex_digit (b % 16) ∷ hash_to_hex h

abbrev pub is_some_value : Option ℕ → Bool
is_some_value none = false
is_some_value (some _) = true

unfoldable pub all_hex : Bytes → Bool
all_hex [] = true
all_hex (c ∷ s) = if is_some_value (hex_value c) then all_hex s else false

unfoldable pub is_hex_hash : Bytes → Bool
is_hex_hash hex = if length hex == 64 then all_hex hex else false

-- a pair of digits is a byte
unfoldable pub byte_of : Option ℕ → Option ℕ → Option ℕ
byte_of (some hi) (some lo) = some (16 * hi + lo)
byte_of (some hi) none = none
byte_of none lo = none

abbrev pub cons_byte : Option ℕ → Option Bytes → Option Bytes
cons_byte none s = none
cons_byte (some b) none = none
cons_byte (some b) (some s) = some (b ∷ s)

-- `hex_to_hash` on digits alone, where each `%2x` reads one pair
unfoldable pub read_hex : Bytes → Option Bytes
read_hex [] = some []
read_hex (c ∷ []) = none
read_hex (c ∷ d ∷ s) = cons_byte (byte_of (hex_value c) (hex_value d)) (read_hex s)

unfoldable pub hex_to_hash_strict : Bytes → Option Hash
unfolding is_hex_hash read_hex
hex_to_hash_strict hex = if is_hex_hash hex then read_hex hex else none

abbrev pub percent : ℕ
percent = b'%'

-- the cases of the switch
unfoldable pub encode_char : ℕ → Bytes
encode_char c =
    if c == percent
    then percent ∷ b'2' ∷ b'5' ∷ []
    else if c == 10
    then percent ∷ b'0' ∷ b'A' ∷ []
    else if c == 13
    then percent ∷ b'0' ∷ b'D' ∷ []
    else if c == b'='
    then percent ∷ b'3' ∷ b'D' ∷ []
    else if c == b'|'
    then percent ∷ b'7' ∷ b'C' ∷ []
    else if c == b' '
    then percent ∷ b'2' ∷ b'0' ∷ []
    else c ∷ []

unfoldable pub percent_encode : Bytes → Bytes
unfolding encode_char
percent_encode [] = []
percent_encode (c ∷ s) = encode_char c ++ percent_encode s

pub data Decoded : Type 0 where
  decoded : Bytes → Decoded
  truncated invalid_digit : Decoded

abbrev pub and_then : ℕ → Decoded → Decoded
and_then c (decoded s) = decoded (c ∷ s)
and_then c truncated = truncated
and_then c invalid_digit = invalid_digit

-- the escape's value before the rest
abbrev pub escape : Option ℕ → Decoded → Decoded
escape none d = invalid_digit
escape (some b) d = and_then b d

unfoldable pub percent_decode : Bytes → Decoded
unfolding byte_of hex_value
percent_decode [] = decoded []
percent_decode (c ∷ []) = if c == percent then truncated else decoded (c ∷ [])
percent_decode (c ∷ a ∷ []) =
    let rest = percent_decode (a ∷ []) in if c == percent then truncated else and_then c rest
percent_decode (c ∷ a ∷ b ∷ s) =
    let escaped = escape (byte_of (hex_value a) (hex_value b)) (percent_decode s) in
    let plain = and_then c (percent_decode (a ∷ b ∷ s)) in if c == percent then escaped else plain

-- `std::isalnum` of the C locale
unfoldable pub is_alnum : ℕ → Bool
is_alnum c =
    (leb b'0' c && leb c b'9') || ((leb b'a' c && leb c b'z') || (leb b'A' c && leb c b'Z'))

unfoldable pub name_chars : Bytes → Bool
unfolding is_alnum
name_chars [] = true
name_chars (c ∷ s) = if is_alnum c || (c == b'-' || c == b'_') then name_chars s else false

abbrev pub reserved : List Bytes
reserved =
    (b'm' ∷ b'a' ∷ b'i' ∷ b'n' ∷ [])
    ∷ (b'H' ∷ b'E' ∷ b'A' ∷ b'D' ∷ [])
    ∷ (b'F' ∷ b'E' ∷ b'T' ∷ b'C' ∷ b'H' ∷ b'_' ∷ b'H' ∷ b'E' ∷ b'A' ∷ b'D' ∷ [])
    ∷ (b'O' ∷ b'R' ∷ b'I' ∷ b'G' ∷ b'_' ∷ b'H' ∷ b'E' ∷ b'A' ∷ b'D' ∷ [])
    ∷ (b'M' ∷ b'E' ∷ b'R' ∷ b'G' ∷ b'E' ∷ b'_' ∷ b'H' ∷ b'E' ∷ b'A' ∷ b'D' ∷ [])
    ∷ (b'r' ∷ b'e' ∷ b'f' ∷ b's' ∷ [])
    ∷ (b'o' ∷ b'b' ∷ b'j' ∷ b'e' ∷ b'c' ∷ b't' ∷ b's' ∷ [])
    ∷ (b't' ∷ b'm' ∷ b'p' ∷ [])
    ∷ (b't' ∷ b'e' ∷ b'l' ∷ b'e' ∷ b'm' ∷ b'e' ∷ b't' ∷ b'r' ∷ b'y' ∷ [])
    ∷ []

unfoldable pub is_reserved : Bytes → List Bytes → Bool
is_reserved name [] = false
is_reserved name (r ∷ rs) = if same name r then true else is_reserved name rs

unfoldable pub is_valid_branch_name : Bytes → Bool
unfolding name_chars is_reserved
is_valid_branch_name [] = false
is_valid_branch_name (c ∷ s) =
    if ltb 64 (length (c ∷ s))
    then false
    else if name_chars (c ∷ s)
    then not (is_reserved (c ∷ s) reserved)
    else false
