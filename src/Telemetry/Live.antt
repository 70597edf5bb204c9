-- ===== src/Telemetry/Live.antt =====
-- Which backends of cas/telemetry_registry.cpp are registered and which are started, across the
-- updates of their states.
use context_fs.Base.{
  ◌≡◌, refl, ℕ, Bool, true, false, ◌&&◌, ◌||◌, Option, none, some, List, [], ◌∷◌, ◌==◌,
  if◌then◌else◌, Bool-cases, inl, inr, arith,
}
use context_fs.Telemetry.{
  BackendState, Status, state_for, set_state, should_stop, reset_states, configured_snapshot,
}

abbrev pub is_some {ℓ} : {A : Type ℓ} → Option A → Bool
is_some none = false
is_some (some _) = true

abbrev pub is_registered : ℕ → List BackendState → Bool
is_registered q ss = is_some (state_for q ss)

abbrev pub is_live : ℕ → List BackendState → Bool
is_live q ss = should_stop (state_for q ss)

abbrev pub mem : ℕ → List ℕ → Bool
mem q [] = false
mem q (b ∷ bs) = let rest = mem q bs in if b == q then true else rest

pub is_registered-set_state :
    (q b : ℕ) (x : Bool) (y : Status) (ss : List BackendState)
    → is_registered q (set_state b x y ss) ≡ is_registered q ss
unfolding set_state state_for
is_registered-set_state q b x y [] = refl
is_registered-set_state q b x y (s ∷ ss) = elim (Bool-cases (s.backend == b)) [
  | inl e ↦ elim (Bool-cases (s.backend == q)) [ inl f ↦ rw (e, f) refl | inr f ↦ rw (e, f) refl ]
  | inr e ↦ elim (Bool-cases (s.backend == q)) [
    | inl f ↦ rw (e, f) refl
    | inr f ↦ rw (e, f) (is_registered-set_state q b x y ss)
  ]
]

pub is_live-set_state :
    (q b : ℕ) (x : Bool) (y : Status) (ss : List BackendState)
    → is_live q (set_state b x y ss) ≡ (if b == q then is_registered q ss && x else is_live q ss)
unfolding set_state state_for
is_live-set_state q b x y [] = ground arith
is_live-set_state q b x y (s ∷ ss) = elim (Bool-cases (s.backend == b)) [
  | inl e ↦ elim (Bool-cases (s.backend == q)) [
    | inl f ↦ let both : (b == q) ≡ true = ground (arith, e, f) in rw (e, f, both) refl
    | inr f ↦ let apart : (b == q) ≡ false = ground (arith, e, f) in rw (e, f, apart) refl
  ]
  | inr e ↦ elim (Bool-cases (s.backend == q)) [
    | inl f ↦ let apart : (b == q) ≡ false = ground (arith, e, f) in rw (e, f, apart) refl
    | inr f ↦ rw (e, f) (is_live-set_state q b x y ss)
  ]
]

pub is_registered-reset_states :
    (q : ℕ) (ss : List BackendState) → is_registered q (reset_states ss) ≡ is_registered q ss
unfolding reset_states state_for
is_registered-reset_states q [] = refl
is_registered-reset_states q (s ∷ ss) = elim (Bool-cases (s.backend == q)) [
  | inl e ↦ rw e refl
  | inr e ↦ rw e (is_registered-reset_states q ss)
]

pub is_live-reset_states : (q : ℕ) (ss : List BackendState) → is_live q (reset_states ss) ≡ false
unfolding reset_states state_for
is_live-reset_states q [] = refl
is_live-reset_states q (s ∷ ss) = elim (Bool-cases (s.backend == q)) [
  | inl e ↦ rw e refl
  | inr e ↦ rw e (is_live-reset_states q ss)
]

-- a registered backend is on one of the two sides
pub is_registered-mem :
    (q : ℕ) (ss : List BackendState)
    → is_registered q ss ≡ true
    → (mem q (configured_snapshot true ss) || mem q (configured_snapshot false ss)) ≡ true
unfolding state_for configured_snapshot
is_registered-mem q [] = λ e. e
is_registered-mem q (s ∷ ss) = elim (Bool-cases (s.backend == q)) [
  | inl e ↦ elim (Bool-cases s.is_source) [
    | inl f ↦ rw (e, f) (λ h. ground (arith, e))
    | inr f ↦ rw (e, f) (λ h. ground (arith, e))
  ]
  | inr e ↦ elim (Bool-cases s.is_source) [
    | inl f ↦ rw (e, f) (λ h. ground (arith, e, is_registered-mem q ss h))
    | inr f ↦ rw (e, f) (λ h. ground (arith, e, is_registered-mem q ss h))
  ]
]
