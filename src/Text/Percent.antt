-- ===== src/Text/Percent.antt =====
-- The percent encoding of cas/runtime_state.cpp.
use context_fs.Base.{
  ℕ, ◌≡◌, refl, Bool, false, some, [], ◌∷◌, ◌++◌, All, ◌==◌, Bool-cases, inl, inr, ==_iff, ◌⊎◌,
  ◌||◌,
}
use context_fs.Base.Order.{Bytes}
use context_fs.Text.{
  percent, encode_char, percent_encode, decoded, and_then, percent_decode, hex_value, byte_of,
}

-- an escape decodes to its byte, and the rest is decoded behind it
decode_escape :
    (a b v : ℕ) (s : Bytes)
    → byte_of (hex_value a) (hex_value b) ≡ some v
    → percent_decode (percent ∷ a ∷ b ∷ s) ≡ and_then v (percent_decode s)
unfolding percent_decode
decode_escape a b v s e = rw e

decode_plain :
    (c : ℕ) (s : Bytes)
    → (c == percent) ≡ false
    → percent_decode (c ∷ s) ≡ and_then c (percent_decode s)
unfolding percent_decode
decode_plain c [] h = rw h
decode_plain c (a ∷ []) h = rw h
decode_plain c (a ∷ b ∷ s) h = rw h

-- the characters that end a line, a key or a field of a record
unfoldable pub separates : ℕ → Bool
separates c = (c == 10 || c == 13) || ((c == b'=' || c == b'|') || c == b' ')

-- a character that the encoding escapes, with the two digits it prints
record IsEscaped (c a b : ℕ) : Type 0 where
  pub printed : encode_char c ≡ percent ∷ a ∷ b ∷ []
  pub read : byte_of (hex_value a) (hex_value b) ≡ some c
  pub framed_first : separates a ≡ false
  pub framed_second : separates b ≡ false

-- a character that stands for itself
record IsPlain (c : ℕ) : Type 0 where
  pub printed : encode_char c ≡ c ∷ []
  pub other : (c == percent) ≡ false
  pub framed : separates c ≡ false

encode_char-cases : (c : ℕ) → ((a : ℕ) × (b : ℕ) × IsEscaped c a b) ⊎ IsPlain c
unfolding encode_char hex_value byte_of separates
encode_char-cases c = elim (Bool-cases (c == percent)) [
  | inl e ↦ rw ((==_iff c (percent)).0 e) (
      inl (
        b'2',
        b'5',
        record { printed = refl; read = refl; framed_first = refl; framed_second = refl },
      ))
  | inr e0 ↦ elim (Bool-cases (c == 10)) [
    | inl e ↦ rw ((==_iff c (10)).0 e) (
        inl (
          b'0',
          b'A',
          record { printed = refl; read = refl; framed_first = refl; framed_second = refl },
        ))
    | inr e1 ↦ elim (Bool-cases (c == 13)) [
      | inl e ↦ rw ((==_iff c (13)).0 e) (
          inl (
            b'0',
            b'D',
            record { printed = refl; read = refl; framed_first = refl; framed_second = refl },
          ))
      | inr e2 ↦ elim (Bool-cases (c == b'=')) [
        | inl e ↦ rw ((==_iff c (b'=')).0 e) (
            inl (
              b'3',
              b'D',
              record { printed = refl; read = refl; framed_first = refl; framed_second = refl },
            ))
        | inr e3 ↦ elim (Bool-cases (c == b'|')) [
          | inl e ↦ rw ((==_iff c (b'|')).0 e) (
              inl (
                b'7',
                b'C',
                record { printed = refl; read = refl; framed_first = refl; framed_second = refl },
              ))
          | inr e4 ↦ elim (Bool-cases (c == b' ')) [
            | inl e ↦ rw ((==_iff c (b' ')).0 e) (
                inl (
                  b'2',
                  b'0',
                  record { printed = refl; read = refl; framed_first = refl; framed_second = refl },
                ))
            | inr e5 ↦ inr (record {
              printed = rw (e0, e1, e2, e3, e4, e5);
              other = e0;
              framed = rw (e1, e2, e3, e4, e5);
            })
          ]
        ]
      ]
    ]
  ]
]

decode-encode_char :
    (c : ℕ) (s : Bytes) → percent_decode (encode_char c ++ s) ≡ and_then c (percent_decode s)
decode-encode_char c s = elim (encode_char-cases c) [
  | inl (a, b, v) ↦ rw v.printed (decode_escape a b c s v.read)
  | inr v ↦ rw v.printed (decode_plain c s v.other)
]

-- The encoded text has no line break, `=`, `|` or space, whatever it encodes.
pub percent_encode_framed : (s : Bytes) → All (λ c. separates c ≡ false) (percent_encode s)
unfolding percent_encode
percent_encode_framed [] = tt
percent_encode_framed (c ∷ s) = elim (encode_char-cases c) [
  | inl (a, b, v) ↦
      rw v.printed
        (unfold separates in refl, (v.framed_first, (v.framed_second, percent_encode_framed s)))
  | inr v ↦ rw v.printed (v.framed, percent_encode_framed s)
]

-- Any text survives encoding and decoding.
pub percent_decode-percent_encode : (s : Bytes) → percent_decode (percent_encode s) ≡ decoded s
unfolding percent_encode
percent_decode-percent_encode [] = unfold percent_decode in refl
percent_decode-percent_encode (c ∷ s) =
    rw (decode-encode_char c (percent_encode s), percent_decode-percent_encode s)
