-- ===== src/Wallet/Transition/Rules.antt =====
-- The rule table of `transitionRedemption` of lib/wallet-service.ts, and the guards before a change.
use re_loop.Base.{
  ℕ, Bool, true, false, not, ◌&&◌, ◌||◌, Option, none, some, List, [], ◌∷◌, any_of, ◌==◌,
  if◌then◌else◌, Outcome, ok, err, ◌>>=◌, ◌>>◌, throw_if, or_throw,
}
use re_loop.Store.{
  Text, text_eq, Failure, http_error, redemption_not_found, redemption_status_changed,
  redemption_invalid_transition, redemption_owner_changed, redemption_replay_reference_conflict,
  redemption_replay_note_conflict, not_your_redemption, action_not_allowed, role_denied,
}
use re_loop.Pickup.{Role, user, superadmin, role_ordinal}
use re_loop.Wallet.Rows.{
  Redemption, RedemptionStatus, requested, approved, processing, success, failed, reversed_status,
  redemption_ordinal, WalletDb,
}
use re_loop.Wallet.Reserve.{find_redemption, RedeemOutcome, success_outcome, failed_outcome}
use re_loop.Wallet.Request.{CurrentUser}

pub data RedemptionAction : Type 0 where
  approve process succeed fail cancel : RedemptionAction

pub data DestinationMode : Type 0 where
  required recorded unneeded : DestinationMode

pub record TransitionRule : Type 0 where
  pub from : List RedemptionStatus
  pub target : RedemptionStatus
  -- `none` holds the reserve
  pub reserve : Option RedeemOutcome
  pub destination : DestinationMode

unfoldable pub transitions : RedemptionAction → TransitionRule
transitions approve = record {
  from = requested ∷ [];
  target = approved;
  reserve = none;
  destination = unneeded;
}
transitions process = record {
  from = approved ∷ [];
  target = processing;
  reserve = none;
  destination = required;
}
transitions succeed = record {
  from = processing ∷ [];
  target = success;
  reserve = some success_outcome;
  destination = recorded;
}
transitions fail = record {
  from = requested ∷ approved ∷ processing ∷ [];
  target = failed;
  reserve = some failed_outcome;
  destination = unneeded;
}
transitions cancel = record {
  from = requested ∷ [];
  target = reversed_status;
  reserve = some failed_outcome;
  destination = unneeded;
}

pub record TransitionInput : Type 0 where
  pub action : RedemptionAction
  pub note : Option Text
  pub provider_reference : Option Text

abbrev pub status_eq : RedemptionStatus → RedemptionStatus → Bool
status_eq a b = redemption_ordinal a == redemption_ordinal b

abbrev pub includes_redemption : List RedemptionStatus → RedemptionStatus → Bool
includes_redemption l s = any_of (λ x. status_eq x s) l

abbrev pub terminal_statuses : List RedemptionStatus
terminal_statuses = success ∷ failed ∷ reversed_status ∷ []

abbrev pub is_role : Role → CurrentUser → Bool
is_role r actor = role_ordinal actor.role == role_ordinal r

abbrev is_cancel : RedemptionAction → Bool
is_cancel cancel = true
is_cancel _ = false

abbrev pub is_success : RedemptionAction → Bool
is_success succeed = true
is_success _ = false

abbrev pub is_fail : RedemptionAction → Bool
is_fail fail = true
is_fail _ = false

unfoldable pub assert_may_transition : CurrentUser → RedemptionAction → Outcome Failure (Unit {0})
assert_may_transition actor action =
    if is_role superadmin actor || (is_role user actor && is_cancel action)
    then ok tt
    else err (http_error 403 (if is_role user actor then action_not_allowed else role_denied))

abbrev pub not_from : RedemptionStatus → Failure
not_from s = http_error 409 (
    if includes_redemption terminal_statuses s
    then redemption_status_changed
    else redemption_invalid_transition)

abbrev owner_changed : Option ℕ → Redemption → Bool
owner_changed none r = false
owner_changed (some o) r = not (r.user_id == o)

-- `lockRedemptionForChange`: the request, for its owner or an operator. One transaction sees one owner.
unfoldable pub lock_redemption_for_change :
    CurrentUser → ℕ → Option ℕ → WalletDb → Outcome Failure Redemption
lock_redemption_for_change actor i expected db = do
  r ← or_throw (find_redemption i db) (http_error 404 redemption_not_found)
  throw_if (is_role user actor && not (r.user_id == actor.id)) (http_error 403 not_your_redemption)
  throw_if (owner_changed expected r) (http_error 409 redemption_owner_changed)
  ok r

abbrev pub text_opt_eq : Text → Option Text → Bool
text_opt_eq a none = false
text_opt_eq a (some b) = text_eq a b

-- A repeat that carries something else than what is recorded.
abbrev differs_from : Option Text → Option Text → Bool
differs_from none stored = false
differs_from (some t) stored = not (text_opt_eq t stored)

unfoldable pub assert_identical_replay : Redemption → TransitionInput → Outcome Failure (Unit {0})
assert_identical_replay r input = do
  throw_if (differs_from input.provider_reference r.provider_reference)
      (http_error 409 redemption_replay_reference_conflict)
  throw_if (differs_from input.note r.note) (http_error 409 redemption_replay_note_conflict)

abbrev pub has_own_proof : Redemption → Bool
has_own_proof r = elim r.manual_transfer_proof [ none ↦ false | some p ↦ p.folder == r.id ]

-- A value that is not given keeps what is stored.
abbrev pub keep : Option Text → Option Text → Option Text
keep none stored = stored
keep (some t) stored = some t

abbrev pub operator_of : CurrentUser → Option ℕ → Option ℕ
operator_of actor stored = if is_role superadmin actor then some actor.id else stored
