-- ===== src/Store/Keys.antt =====
-- Business keys (lib/ledger.ts, lib/reward-funding.ts): each builder is a constructor, and two keys
-- are equal when builder and parts are. Texts are lists of UTF-16 code units.
use re_loop.Base.{ℕ, ◌≡◌, refl, Bool, true, false, ◌&&◌, List, [], ◌∷◌, ◌==◌, arith}

abbrev pub Text : Type 0
Text = List ℕ

unfoldable pub text_eq : Text → Text → Bool
text_eq [] [] = true
text_eq [] (b ∷ s) = false
text_eq (a ∷ r) [] = false
text_eq (a ∷ r) (b ∷ s) = (a == b) && text_eq r s

pub text_eq_refl : (s : Text) → text_eq s s ≡ true
unfolding text_eq
text_eq_refl [] = refl
text_eq_refl (a ∷ s) = ground (arith, text_eq_refl s)

pub text_eq_sound : (r s : Text) → text_eq r s ≡ true → r ≡ s
unfolding text_eq
text_eq_sound [] [] h = refl
text_eq_sound [] (b ∷ s) h = ground arith
text_eq_sound (a ∷ r) [] h = ground arith
text_eq_sound (a ∷ r) (b ∷ s) h = ground (arith, text_eq_sound r s)

pub data Key : Type 0 where
  deposit_item_earn_key redemption_reserve_key : ℕ → Key
  session_admission_key trip_issuance_key : ℕ → Key
  session_close_watermark_key session_review_close_key : ℕ → Key
  review_decision_key fraud_hold_key trip_return_key : ℕ → Key
  payout_funding_key : ℕ → ℕ → Key
  funding_cash_key funding_correction_key : Text → Key

abbrev tag : Key → ℕ
tag (deposit_item_earn_key _) = 0
tag (redemption_reserve_key _) = 1
tag (session_admission_key _) = 2
tag (trip_issuance_key _) = 3
tag (session_close_watermark_key _) = 4
tag (session_review_close_key _) = 5
tag (review_decision_key _) = 6
tag (fraud_hold_key _) = 7
tag (trip_return_key _) = 8
tag (payout_funding_key _ _) = 9
tag (funding_cash_key _) = 10
tag (funding_correction_key _) = 11

abbrev subject : Key → ℕ
subject (deposit_item_earn_key n) = n
subject (redemption_reserve_key n) = n
subject (session_admission_key n) = n
subject (trip_issuance_key n) = n
subject (session_close_watermark_key n) = n
subject (session_review_close_key n) = n
subject (review_decision_key n) = n
subject (fraud_hold_key n) = n
subject (trip_return_key n) = n
subject (payout_funding_key n _) = n
subject (funding_cash_key _) = 0
subject (funding_correction_key _) = 0

abbrev account_part : Key → ℕ
account_part (payout_funding_key _ a) = a
account_part _ = 0

abbrev reference_part : Key → Text
reference_part (funding_cash_key t) = t
reference_part (funding_correction_key t) = t
reference_part _ = []

unfoldable pub key_eq : Key → Key → Bool
key_eq a b =
    (tag a == tag b)
    && ((subject a == subject b)
        && ((account_part a == account_part b) && text_eq (reference_part a) (reference_part b)))

pub key_eq_refl : (k : Key) → key_eq k k ≡ true
unfolding key_eq
key_eq_refl k = ground (arith, text_eq_refl (reference_part k))
