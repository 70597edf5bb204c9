-- ===== src/Text/Names.antt =====
-- cas/branch_name.cpp: the names that a branch may have.
use context_fs.Base.{
  ℕ, ◌≤◌, ◌≡◌, ◌≢◌, sym, refl, Bool, true, false, ◌||◌, List, [], ◌∷◌, length, All, ◌==◌, ltb,
  arith, Bool-cases, inl, inr, ◌↔◌, ◌⊎◌,
}
use context_fs.Base.Order.{Bytes, bytes_ord, same, same→eq, same_refl}
use context_fs.Text.{is_alnum, name_chars, reserved, is_reserved, is_valid_branch_name}

-- an ASCII digit, upper case letter or lower case letter, a dash or an underscore
abbrev pub IsNameChar : ℕ → Type 0
IsNameChar c =
    ((48 ≤ c) × (c ≤ 57)) ⊎ ((65 ≤ c) × (c ≤ 90)) ⊎ ((97 ≤ c) × (c ≤ 122)) ⊎ (c ≡ 45) ⊎ (c ≡ 95)

-- main, HEAD, FETCH_HEAD, ORIG_HEAD, MERGE_HEAD, refs, objects, tmp and telemetry
abbrev pub kept_names : List Bytes
kept_names =
    (109 ∷ 97 ∷ 105 ∷ 110 ∷ [])
    ∷ (72 ∷ 69 ∷ 65 ∷ 68 ∷ [])
    ∷ (70 ∷ 69 ∷ 84 ∷ 67 ∷ 72 ∷ 95 ∷ 72 ∷ 69 ∷ 65 ∷ 68 ∷ [])
    ∷ (79 ∷ 82 ∷ 73 ∷ 71 ∷ 95 ∷ 72 ∷ 69 ∷ 65 ∷ 68 ∷ [])
    ∷ (77 ∷ 69 ∷ 82 ∷ 71 ∷ 69 ∷ 95 ∷ 72 ∷ 69 ∷ 65 ∷ 68 ∷ [])
    ∷ (114 ∷ 101 ∷ 102 ∷ 115 ∷ [])
    ∷ (111 ∷ 98 ∷ 106 ∷ 101 ∷ 99 ∷ 116 ∷ 115 ∷ [])
    ∷ (116 ∷ 109 ∷ 112 ∷ [])
    ∷ (116 ∷ 101 ∷ 108 ∷ 101 ∷ 109 ∷ 101 ∷ 116 ∷ 114 ∷ 121 ∷ [])
    ∷ []

-- what a branch name promises
pub record IsBranchName (s : Bytes) : Type 0 where
  pub nonempty : 1 ≤ length s
  pub short : length s ≤ 64
  pub chars : All IsNameChar s
  pub free : All (λ r. r ≢ s) kept_names

-- the test that the code makes of one character
name_char : ℕ → Bool
unfolding is_alnum
name_char c = is_alnum c || (c == b'-' || c == b'_')

name_char-true : (c : ℕ) → name_char c ≡ true → IsNameChar c
unfolding name_char is_alnum
name_char-true c h = ground (arith, h)

name_char-false : (c : ℕ) → name_char c ≡ false → IsNameChar c → ◌≡◌ {A = Bool} true false
unfolding name_char is_alnum
name_char-false c h v = ground (arith, h, v)

name_chars-All : (s : Bytes) → (name_chars s ≡ true) ↔ All IsNameChar s
unfolding name_chars name_char
name_chars-All [] = ((λ _. tt), λ _. refl)
name_chars-All (c ∷ s) = elim (Bool-cases (name_char c)) [
  | inl e ↦ (
    (λ h. (name_char-true c e, (name_chars-All s).0 (rw e at h))),
    λ v. rw e ((name_chars-All s).1 v.1),
  )
  | inr e ↦ ((λ h. cc (e, h)), λ v. cc (name_char-false c e v.0))
]

is_reserved-All : (s : Bytes) (rs : List Bytes) → (is_reserved s rs ≡ false) ↔ All (λ r. r ≢ s) rs
unfolding is_reserved
is_reserved-All s [] = ((λ _. tt), λ _. refl)
is_reserved-All s (r ∷ rs) = elim (Bool-cases (same s r)) [
  | inl e ↦ ((rw e (λ h. cc h)), λ v. ground (arith, v.0 (sym (same→eq s r e))))
  | inr e ↦ (
    (λ h. ((λ p. cc (same_refl s, p, e)), (is_reserved-All s rs).0 (rw e at h))),
    λ v. rw e ((is_reserved-All s rs).1 v.1),
  )
]

-- A name is accepted exactly when it has 1 to 64 bytes, each an ASCII letter or digit, a dash or an
-- underscore, and is none of main, HEAD, FETCH_HEAD, ORIG_HEAD, MERGE_HEAD, refs, objects, tmp and
-- telemetry.
pub is_valid_branch_name_lem : (s : Bytes) → (is_valid_branch_name s ≡ true) ↔ IsBranchName s
unfolding is_valid_branch_name
is_valid_branch_name_lem [] = ((λ h. cc h), λ v. ground (arith, v.nonempty))
is_valid_branch_name_lem (c ∷ s) = elim (Bool-cases (ltb 64 (length (c ∷ s)))) [
  | inl e ↦ ((λ h. cc (rw e at h)), λ v. ground (arith, e, v.short))
  | inr e ↦ elim (Bool-cases (name_chars (c ∷ s))) [
    | inl f ↦ elim (Bool-cases (is_reserved (c ∷ s) reserved)) [
      | inl g ↦
          ((λ h. cc (rw (e, f, g) at h)), λ v. cc (g, (is_reserved-All (c ∷ s) reserved).1 v.free))
      | inr g ↦ (
        (λ h. record {
          nonempty = omega arith;
          short = ground (arith, e);
          chars = (name_chars-All (c ∷ s)).0 f;
          free = (is_reserved-All (c ∷ s) reserved).0 g;
        }),
        λ v. rw (e, f, g),
      )
    ]
    | inr f ↦ ((λ h. cc (rw (e, f) at h)), λ v. cc (f, (name_chars-All (c ∷ s)).1 v.chars))
  ]
]
