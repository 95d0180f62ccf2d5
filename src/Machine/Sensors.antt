-- ===== src/Machine/Sensors.antt =====
-- The check of the sensor path (`validateSensorSequence` of lib/machine-state.ts).
use re_loop.Base.{
  ℕ, ◌≤◌, ◌≡◌, ◌↔◌, refl, false, none, some, List, [], ◌∷◌, arith, ltb, Bool-cases, Option-cases,
  inl, inr,
}
use re_loop.Machine.Session.{
  SensorStep, expected_index, SensorSequencePayload, walk, validate_sensor_sequence,
}

-- The indices of the expected steps, in the order they came.
abbrev pub indices : List SensorStep → List ℕ
indices [] = []
indices (s ∷ l) = elim (expected_index s) [ none ↦ indices l | some i ↦ i ∷ indices l ]

-- No index is below the one before it, nor the first below `last`.
abbrev pub Ascends : ℕ → List ℕ → Type 0
Ascends last [] = Unit
Ascends last (i ∷ l) = (last ≤ i) × Ascends i l

indices_other :
    (s : SensorStep) (l : List SensorStep) → expected_index s ≡ none → indices (s ∷ l) ≡ indices l
indices_other s l e = rw (e, indices) refl

indices_known :
    (s : SensorStep) (l : List SensorStep) (i : ℕ)
    → expected_index s ≡ some i
    → indices (s ∷ l) ≡ i ∷ indices l
indices_known s l i e = rw (e, indices) refl

walk-Ascends : (last : ℕ) (l : List SensorStep) → (walk last l ≡ none) ↔ Ascends last (indices l)
unfolding walk
walk-Ascends last [] = (λ h. tt, λ h. refl)
walk-Ascends last (s ∷ l) = elim (Option-cases (expected_index s)) [
  | inl other ↦ rw (indices_other s l other, other, walk) (walk-Ascends last l)
  | inr (i, known) ↦ elim (Bool-cases (ltb i last)) [
    | inl back ↦
        rw (indices_known s l i known, known, walk, back)
          (λ h. absurd (ground arith), λ h. absurd (ground arith))
    | inr forward ↦
        rw (indices_known s l i known, known, walk, forward)
          (λ h. (ground arith, (walk-Ascends i l).0 h), λ h. (walk-Ascends i l).1 h.1)
  ]
]

-- A payload is free of anomalies exactly when none of its three flags is set and the expected steps
-- in it come forward only; steps may be missing or repeated, and others are ignored.
pub validate_iff-Ascends :
    (p : SensorSequencePayload)
    → (validate_sensor_sequence (some p) ≡ none) ↔ (
        (p.reverse_motion_seen ≡ false)
        × (p.retrieval_attempt_seen ≡ false)
        × (p.impossible_sequence_seen ≡ false)
        × Ascends 0 (indices p.steps))
unfolding validate_sensor_sequence
validate_iff-Ascends p = (
  λ h.
      let walked : walk 0 p.steps ≡ none = ground arith in
      (ground arith, ground arith, ground arith, (walk-Ascends 0 p.steps).0 walked),
  λ h. let walked = (walk-Ascends 0 p.steps).1 h.3 in ground arith,
)
