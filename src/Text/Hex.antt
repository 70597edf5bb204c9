-- ===== src/Text/Hex.antt =====
-- Object ids print and read back, cas/hash.h.
use context_fs.Base.{
  ℕ, ◌*◌, ◌/◌, ◌%◌, ◌<◌, ◌≡◌, refl, ap, true, some, [], ◌∷◌, length, All, ◌==◌, arith, ==_iff,
}
use context_fs.WorkingTree.{Hash}
use context_fs.Text.{
  hex_digit, hex_value, hash_to_hex, all_hex, byte_of, read_hex, hex_to_hash_strict,
}

pub hex_value-hex_digit : (n : ℕ) → n < 16 → hex_value (hex_digit n) ≡ some n
unfolding hex_value hex_digit
hex_value-hex_digit n h = ground arith

-- 32 bytes
pub record IsHash (h : Hash) : Type 0 where
  pub size : length h ≡ 32
  pub bytes : All (λ b. b < 256) h

pub length-hash_to_hex : (h : Hash) → length (hash_to_hex h) ≡ 2 * length h
unfolding hash_to_hex
length-hash_to_hex [] = refl
length-hash_to_hex (b ∷ h) = omega (arith, length-hash_to_hex h)

all_hex-hash_to_hex : (h : Hash) → All (λ b. b < 256) h → all_hex (hash_to_hex h) ≡ true
unfolding all_hex hash_to_hex
all_hex-hash_to_hex [] v = refl
all_hex-hash_to_hex (b ∷ h) v = rw (
  hex_value-hex_digit (b / 16) (omega (arith, v.0)),
  hex_value-hex_digit (b % 16) (omega arith),
  all_hex-hash_to_hex h v.1,
)

read_hex-hash_to_hex : (h : Hash) → All (λ b. b < 256) h → read_hex (hash_to_hex h) ≡ some h
unfolding read_hex hash_to_hex byte_of
read_hex-hash_to_hex [] v = refl
read_hex-hash_to_hex (b ∷ h) v =
    rw
      (
        hex_value-hex_digit (b / 16) (omega (arith, v.0)),
        hex_value-hex_digit (b % 16) (omega arith),
        read_hex-hash_to_hex h v.1,
      )
      (ap (λ n. some (n ∷ h)) (omega arith))

-- An object id survives printing in hexadecimal and strict parsing, so no two ids print alike.
pub hex_to_hash_strict-hash_to_hex :
    (h : Hash) → IsHash h → hex_to_hash_strict (hash_to_hex h) ≡ some h
unfolding hex_to_hash_strict
hex_to_hash_strict-hash_to_hex h v =
    let full : (length (hash_to_hex h) == 64) ≡ true =
      (==_iff (length (hash_to_hex h)) 64).1 (omega (arith, length-hash_to_hex h, v.size)) in
    rw (full, all_hex-hash_to_hex h v.bytes, read_hex-hash_to_hex h v.bytes)
