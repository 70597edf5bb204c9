-- ===== src/RuntimeState/Fields.antt =====
-- The values of a runtime state record, printed and read back.
use context_fs.Base.{
  ℕ, ◌+◌, ◌*◌, ◌/◌, ◌%◌, ◌<◌, ◌≡◌, refl, ap, ◌∙◌, sym, Bool, true, false, Option, some, [], ◌∷◌,
  ◌++◌, All, length, ltb, ltb-false, if◌then◌else◌, arith,
}
use context_fs.Base.Order.{Bytes, bytes_ord}
use context_fs.Base.Result.{ok, codes}
use context_fs.WorkingTree.{Hash}
use context_fs.Text.{hash_to_hex, hex_digit, hex_value, percent_encode}
use context_fs.Text.Hex.{IsHash, hex_value-hex_digit, length-hash_to_hex}
use context_fs.Text.Percent.{separates, percent_encode_framed}
use context_fs.Record.{newline}
use context_fs.Record.Lines.{LacksChar, LacksChar-append, split_first-append}
use context_fs.Record.Values.{decode-percent_encode, LacksChar-percent_encode, hex_digit_plain}
use context_fs.RuntimeState.{
  ResourceWarning, bar, parse_flag, parse_warning, warning_value, c_string, scan_bytes, hex_to_hash,
}

-- `%2x` on two digits reads their value
unfoldable pub ScansDigits : (Bytes → Option ℕ) → Type 0
ScansDigits scan =
    (a b hi lo : ℕ) (rest : Bytes)
    → hex_value a ≡ some hi
    → hex_value b ≡ some lo
    → scan (a ∷ b ∷ rest) ≡ some (16 * hi + lo)

lacks_bar : (s : Bytes) → All (λ c. separates c ≡ false) s → LacksChar bar s
unfolding separates
lacks_bar [] v = tt
lacks_bar (c ∷ s) v = (ground (arith, v.0), lacks_bar s v.1)

c_string-hash_to_hex : (h : Hash) → All (λ b. b < 256) h → c_string (hash_to_hex h) ≡ hash_to_hex h
unfolding c_string hash_to_hex
c_string-hash_to_hex [] v = refl
c_string-hash_to_hex (b ∷ h) v = rw (
  (hex_digit_plain (b / 16) (omega (arith, v.0))).1,
  (hex_digit_plain (b % 16) (omega arith)).1,
  c_string-hash_to_hex h v.1,
)

module _ (scan : Bytes → Option ℕ) (scans : ScansDigits scan) where
  scan_bytes-hash_to_hex :
      (h : Hash) → All (λ b. b < 256) h → scan_bytes scan (length h) (hash_to_hex h) ≡ some h
  unfolding scan_bytes hash_to_hex ScansDigits
  scan_bytes-hash_to_hex [] v = refl
  scan_bytes-hash_to_hex (b ∷ h) v =
      rw
        (
          scans (hex_digit (b / 16)) (hex_digit (b % 16)) (b / 16) (b % 16) (hash_to_hex h)
              (hex_value-hex_digit (b / 16) (omega (arith, v.0)))
              (hex_value-hex_digit (b % 16) (omega arith)),
          scan_bytes-hash_to_hex h v.1,
        )
        (ap (λ n. some (n ∷ h)) (omega (arith, v.0)))

  pub hex_to_hash-hash_to_hex : (h : Hash) → IsHash h → hex_to_hash scan (hash_to_hex h) ≡ some h
  unfolding hex_to_hash
  hex_to_hash-hash_to_hex h v =
      let long : ltb (length (hash_to_hex h)) 64 ≡ false =
        ltb-false (length (hash_to_hex h)) 64 (omega (arith, length-hash_to_hex h, v.size)) in
      rw (c_string-hash_to_hex h v.bytes, long)
        (ap (λ n. scan_bytes scan n (hash_to_hex h)) (sym v.size)
          ∙ scan_bytes-hash_to_hex h v.bytes)

abbrev flag_text : Bool → Bytes
flag_text b = codes (if b then "1" else "0")

parse_flag-flag_text : (b : Bool) → parse_flag (flag_text b) ≡ ok b
unfolding parse_flag
parse_flag-flag_text true = refl
parse_flag-flag_text false = refl

flag_text_lacks_bar : (b : Bool) → LacksChar bar (flag_text b)
flag_text_lacks_bar true = (refl, tt)
flag_text_lacks_bar false = (refl, tt)

flag_text_lacks_newline : (b : Bool) → LacksChar newline (flag_text b)
flag_text_lacks_newline true = (refl, tt)
flag_text_lacks_newline false = (refl, tt)

pub LacksChar-warning_value : (w : ResourceWarning) → LacksChar newline (warning_value w)
unfolding warning_value
LacksChar-warning_value w =
    LacksChar-append newline (percent_encode w.kind) _ (LacksChar-percent_encode w.kind) (
      refl,
      LacksChar-append newline (flag_text w.blocker) (bar ∷ percent_encode w.description)
          (flag_text_lacks_newline w.blocker) (refl, LacksChar-percent_encode w.description),
    )

-- A warning survives printing and parsing, whatever texts it holds.
pub parse_warning-warning_value : (w : ResourceWarning) → parse_warning (warning_value w) ≡ ok w
unfolding parse_warning warning_value
parse_warning-warning_value w =
    let behind = flag_text w.blocker ++ bar ∷ percent_encode w.description in
    rw (
      split_first-append bar (percent_encode w.kind) behind
          (lacks_bar (percent_encode w.kind) (percent_encode_framed w.kind)),
      split_first-append bar (flag_text w.blocker) (percent_encode w.description)
          (flag_text_lacks_bar w.blocker),
      decode-percent_encode w.kind,
      parse_flag-flag_text w.blocker,
      decode-percent_encode w.description,
      parse_warning,
    )
