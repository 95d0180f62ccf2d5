-- ===== src/Guard/SingleUse.antt =====
-- A code of the second factor is accepted once (`isFreshStep` and the writes of lib/mfa.ts).
use re_loop.Base.{
  if◌then◌else◌, Bool-cases, is_some, Outcome, ok, err, ℕ, ◌<◌, ◌≡◌, refl, ◌⊎◌, inl, inr, Bool,
  true, false, not, ◌&&◌, Option, none, some, List, [], ◌∷◌, arith,
}
use re_loop.Store.{
  Text, Failure, http_error, account_inactive, current_code_required, wrong_proof, wrong_password,
}
use re_loop.Guard.Mfa.{
  UserRow, FactorEnv, given, with_step, with_pending, check_proof, begin_mfa_setup, EnableMfaResult,
  enabled, enable_mfa, disable_mfa, DisableMfaResult, disabled, cancel_mfa_setup, claim_step,
  is_fresh_step, confirm_pending,
}

-- What happens to one account. A login comes with whatever secret and step it claims, read as long ago
-- as it may be.
pub data MfaEvent : Type 0 where
  begin_event : Text → Text → Option Text → ℕ → MfaEvent
  enable_event : Text → ℕ → MfaEvent
  disable_event : Text → Text → ℕ → MfaEvent
  cancel_event : MfaEvent
  login_event : Text → ℕ → MfaEvent

-- The steps whose codes the active factor has had accepted, the latest first.
pub record Enrolment : Type 0 where
  pub user : UserRow
  pub accepted : List ℕ

abbrev steps_of : Outcome Failure (Option (Option ℕ)) → List ℕ → List ℕ
steps_of (ok (some (some s))) l = s ∷ l
steps_of _ l = l

-- A new factor starts with the code that confirmed it.
abbrev first_step : UserRow → List ℕ
first_step user = elim user.totp_last_used_step [ none ↦ [] | some s ↦ s ∷ [] ]

abbrev after_enable : Enrolment → EnableMfaResult × UserRow → Enrolment
after_enable a (enabled _, u) = record { user = u; accepted = first_step u }
after_enable a (_, u) = record a { user = u }

abbrev after_disable : Enrolment → DisableMfaResult × UserRow → Enrolment
after_disable a (disabled, u) = record { user = u; accepted = [] }
after_disable a (_, u) = record a { user = u }

abbrev after_claim : Enrolment → ℕ → Bool × UserRow → Enrolment
after_claim a step (true, u) = record { user = u; accepted = step ∷ a.accepted }
after_claim a step (false, u) = record a { user = u }

-- A refusal is rolled back.
abbrev kept_or : {R : Type 0} → Enrolment → (R → Enrolment) → Outcome Failure R → Enrolment
kept_or a f (err e) = a
kept_or a f (ok r) = f r

unfoldable pub mfa_event : FactorEnv → MfaEvent → Enrolment → Enrolment
mfa_event env (begin_event sealed password code now) a =
    kept_or a
      (λ r. record {
        user = r.1;
        accepted = steps_of (check_proof env a.user password code now) a.accepted;
      })
      (begin_mfa_setup env sealed password code now a.user)
mfa_event env (enable_event code now) a =
    kept_or a (after_enable a) (enable_mfa env code now a.user)
mfa_event env (disable_event password code now) a =
    kept_or a (after_disable a) (disable_mfa env password code now a.user)
mfa_event env cancel_event a = record a { user = (cancel_mfa_setup a.user).1 }
mfa_event env (login_event stored step) a = after_claim a step (claim_step stored step a.user)

unfoldable pub mfa_events : FactorEnv → List MfaEvent → Enrolment → Enrolment
mfa_events env [] a = a
mfa_events env (e ∷ l) a = mfa_events env l (mfa_event env e a)

abbrev Above : ℕ → List ℕ → Type 0
Above s [] = Unit
Above s (t ∷ l) = t < s

abbrev pub Descending : List ℕ → Type 0
Descending [] = Unit
Descending (s ∷ l) = Above s l × Descending l

-- The row remembers the latest of the accepted steps.
abbrev Remembers : Option ℕ → List ℕ → Type 0
Remembers last [] = Unit
Remembers last (s ∷ l) = last ≡ some s

abbrev Kept : Enrolment → Type 0
Kept a = Remembers a.user.totp_last_used_step a.accepted × Descending a.accepted

fresh-Above :
    (s : ℕ) (last : Option ℕ) (l : List ℕ)
    → is_fresh_step (some s) last ≡ true
    → Remembers last l
    → Above s l
unfolding is_fresh_step
fresh-Above s last [] fresh remembers = tt
fresh-Above s none (t ∷ l) fresh remembers = cc
fresh-Above s (some u) (t ∷ l) fresh remembers = ground arith

-- A proof that checked a code found a fresh step, and without the second factor there is none.
checked_is_fresh :
    (env : FactorEnv) (user : UserRow) (password : Text) (code : Option Text) (now s : ℕ)
    → check_proof env user password code now ≡ ok (some (some s))
    → is_fresh_step (some s) user.totp_last_used_step ≡ true
unfolding check_proof
checked_is_fresh env user password code now s checked = ground arith

claim-Kept :
    (a : Enrolment) (stored : Text) (step : ℕ)
    → Kept a
    → Kept (after_claim a step (claim_step stored step a.user))
unfolding claim_step
claim-Kept a stored step kept =
    ground (arith, fresh-Above step a.user.totp_last_used_step a.accepted)

cancel-Kept : (a : Enrolment) → Kept a → Kept (record a { user = (cancel_mfa_setup a.user).1 })
unfolding cancel_mfa_setup
cancel-Kept a kept = ground arith

Checked-cases :
    (o : Outcome Failure (Option (Option ℕ)))
    → ((e : Failure) × (o ≡ err e)) ⊎ ((o ≡ ok none) ⊎ ((x : Option ℕ) × (o ≡ ok (some x))))
Checked-cases (err e) = inl (e, refl)
Checked-cases (ok none) = inr (inl refl)
Checked-cases (ok (some x)) = inr (inr (x, refl))

disable-Kept :
    (env : FactorEnv) (a : Enrolment) (password code : Text) (now : ℕ)
    → Kept a
    → Kept (kept_or a (after_disable a) (disable_mfa env password code now a.user))
unfolding disable_mfa
disable-Kept env a password code now kept = elim (Bool-cases a.user.is_active) [
  | inr blocked ↦ rw (blocked, disable_mfa) kept
  | inl live ↦ elim (Bool-cases a.user.mfa_enabled) [
    | inr off ↦ rw (live, off, disable_mfa) kept
    | inl on ↦ elim (Checked-cases (check_proof env a.user password (some code) now)) [
      | inl (e, failed) ↦ rw (live, on, failed, disable_mfa) kept
      | inr (inl wrong) ↦ rw (live, on, wrong, disable_mfa) kept
      | inr (inr (x, right)) ↦ rw (live, on, right, disable_mfa) (tt, tt)
    ]
  ]
]

enable-Kept :
    (env : FactorEnv) (a : Enrolment) (code : Text) (now : ℕ)
    → Kept a
    → Kept (kept_or a (after_enable a) (enable_mfa env code now a.user))
unfolding enable_mfa confirm_pending
enable-Kept env a code now kept = ground arith

-- A setup that starts: its proof had this step, and the row keeps it.
begin_cases :
    (env : FactorEnv) (sealed password : Text) (code : Option Text) (now : ℕ) (user : UserRow)
    → ((e : Failure) × (begin_mfa_setup env sealed password code now user ≡ err e))
      ⊎ ((x : Option ℕ) × (check_proof env user password code now ≡ ok (some x))
          × (begin_mfa_setup env sealed password code now user
              ≡ ok (user.mfa_enabled, with_step x (with_pending sealed now user))))
unfolding begin_mfa_setup check_proof
begin_cases env sealed password code now user = elim (Bool-cases user.is_active) [
  | inr blocked ↦ inl (http_error 403 account_inactive, rw (blocked, begin_mfa_setup) refl)
  | inl live ↦ elim (Bool-cases (user.mfa_enabled && not (is_some (given code)))) [
    | inl missing ↦
        inl (http_error 422 current_code_required, rw (live, missing, begin_mfa_setup) refl)
    | inr present ↦ elim (Checked-cases (check_proof env user password code now)) [
      | inl (e, failed) ↦ inl (e, rw (live, present, failed, begin_mfa_setup) refl)
      | inr (inl wrong) ↦ inl (
        http_error 400 (if user.mfa_enabled then wrong_proof else wrong_password),
        rw (live, present, wrong, begin_mfa_setup) refl,
      )
      | inr (inr (x, right)) ↦ inr (x, right, rw (live, present, right, begin_mfa_setup) refl)
    ]
  ]
]

begin-Kept :
    (env : FactorEnv) (a : Enrolment) (sealed password : Text) (code : Option Text) (now : ℕ)
    → Kept a
    → Kept (mfa_event env (begin_event sealed password code now) a)
unfolding mfa_event
begin-Kept env a sealed password code now kept =
    elim (begin_cases env sealed password code now a.user) [
      | inl (e, refused) ↦ rw (refused, mfa_event) kept
      | inr (none, checked, started) ↦ rw (started, checked, mfa_event) kept
      | inr (some s, checked, started) ↦
          let fresh = checked_is_fresh env a.user password code now s checked in
          let above = fresh-Above s _ a.accepted fresh kept.0 in
          rw (started, checked, mfa_event) (refl, (above, kept.1))
    ]

mfa_event-Kept :
    (env : FactorEnv) (e : MfaEvent) (a : Enrolment) → Kept a → Kept (mfa_event env e a)
unfolding mfa_event
mfa_event-Kept env (begin_event sealed password code now) a kept =
    begin-Kept env a sealed password code now kept
mfa_event-Kept env (enable_event code now) a kept = enable-Kept env a code now kept
mfa_event-Kept env (disable_event password code now) a kept =
    disable-Kept env a password code now kept
mfa_event-Kept env cancel_event a kept = cancel-Kept a kept
mfa_event-Kept env (login_event stored step) a kept = claim-Kept a stored step kept

mfa_events-Kept :
    (env : FactorEnv) (l : List MfaEvent) (a : Enrolment) → Kept a → Kept (mfa_events env l a)
unfolding mfa_events
mfa_events-Kept env [] a kept = kept
mfa_events-Kept env (e ∷ l) a kept =
    mfa_events-Kept env l (mfa_event env e a) (mfa_event-Kept env e a kept)

-- Whatever happens to an account, in whatever order and however late a login claims its step: the
-- steps of the codes that its active factor has had accepted, since it was set up or since the history
-- began, ascend strictly, so that no code is accepted twice.
pub accepted-Descending :
    (env : FactorEnv) (l : List MfaEvent) (user : UserRow)
    → Descending (mfa_events env l (record { user = user; accepted = [] })).accepted
accepted-Descending env l user = (mfa_events-Kept env l _ (tt, tt)).1
