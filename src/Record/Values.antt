-- ===== src/Record/Values.antt =====
-- The values of the records, as far as both formats use them.
use context_fs.Base.{ℕ, ◌/◌, ◌%◌, ◌<◌, ◌≡◌, false, [], ◌∷◌, All, ◌==◌, arith}
use context_fs.Base.Order.{Bytes, bytes_ord}
use context_fs.Base.Result.{ok}
use context_fs.WorkingTree.{Hash}
use context_fs.Text.{hash_to_hex, hex_digit, percent_encode}
use context_fs.Text.Percent.{separates, percent_encode_framed, percent_decode-percent_encode}
use context_fs.Record.{decode, newline}
use context_fs.Record.Lines.{LacksChar}

pub decode-percent_encode : (s : Bytes) → decode (percent_encode s) ≡ ok s
unfolding decode
decode-percent_encode s = rw (percent_decode-percent_encode s)

pub lacks_newline : (s : Bytes) → All (λ c. separates c ≡ false) s → LacksChar newline s
unfolding separates
lacks_newline [] v = tt
lacks_newline (c ∷ s) v = (ground (arith, v.0), lacks_newline s v.1)

pub LacksChar-percent_encode : (s : Bytes) → LacksChar newline (percent_encode s)
LacksChar-percent_encode s = lacks_newline (percent_encode s) (percent_encode_framed s)

pub hex_digit_plain :
    (n : ℕ) → n < 16 → ((hex_digit n == newline) ≡ false) × ((hex_digit n == 0) ≡ false)
unfolding hex_digit
hex_digit_plain n h = ground (arith, h)

pub LacksChar-hash_to_hex : (h : Hash) → All (λ b. b < 256) h → LacksChar newline (hash_to_hex h)
unfolding hash_to_hex
LacksChar-hash_to_hex [] v = tt
LacksChar-hash_to_hex (b ∷ h) v = (
  (hex_digit_plain (b / 16) (omega (arith, v.0))).0,
  ((hex_digit_plain (b % 16) (omega arith)).0, LacksChar-hash_to_hex h v.1),
)
