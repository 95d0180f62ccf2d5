-- ===== src/Wallet/Settled.antt =====
-- A payout request that is over stays as it is, through any history of wallet operations
-- (lib/wallet-service.ts, lib/reward-credit.ts).
use re_loop.Base.{◌==◌, find_row, ℕ, ◌≡◌, ap, ◌∙◌, inl, inr, Bool, true, Option, some}
use re_loop.Store.{Source, Text}
use re_loop.Funding.{Admitted}
use re_loop.Wallet.Rows.{Redemption, WalletDb}
use re_loop.Wallet.Reserve.{find_redemption}
use re_loop.Wallet.Transition.{terminal_statuses, includes_redemption}
use re_loop.Wallet.Credit.{CreditRewardInput, EffectOutcome}
use re_loop.Wallet.Backing.{AllBacked}
use re_loop.Wallet.Crediting.{effect-Written, Written}
use re_loop.Wallet.History.{
  Step, requests, transits, flags, attaches, credits, Reach, start, next, requests_stay-AllBacked,
}
use re_loop.Wallet.Standing.{transition-stays, flag-stays, attach-stays, request-stays}

module _ (encrypt : Text → Text) (admitted : Source → Option Admitted) (cutover : Option ℕ)
    (is_erased : ℕ → Bool) where
  step-stays :
      (i : ℕ) (r : Redemption) {db db' : WalletDb}
      → AllBacked db
      → find_redemption i db ≡ some r
      → includes_redemption terminal_statuses r.status ≡ true
      → Step encrypt admitted cutover is_erased db db'
      → find_redemption i db' ≡ some r
  step-stays i r a found over (requests actor input {db = db} e) =
      request-stays encrypt i r actor input db a found e
  step-stays i r a found over (transits actor j input {db = db} e) =
      transition-stays encrypt i r actor j input db a found over e
  step-stays i r a found over (flags actor j note {db = db} e) =
      flag-stays encrypt i r actor j note db found over e
  step-stays i r a found over (attaches actor j path expected {db = db} e) =
      attach-stays encrypt i r actor j path expected db found over e
  step-stays i r {db} {db'} a found over (credits input {o = o} e) =
      ap (find_row (λ x. x.id == i))
        (effect_rows input o db db' (effect-Written admitted cutover is_erased input db e))
      ∙ found
    where
      effect_rows :
          (input : CreditRewardInput) (o : EffectOutcome) (d d' : WalletDb)
          → Written admitted cutover is_erased input d o d'
          → d'.redemptions ≡ d.redemptions
      effect_rows input o d d' (inl (_, _, same, _)) = same
      effect_rows input o d d' (inr (_, _, _, same, _)) = same

  -- A payout request that has succeeded, failed or been reversed stays exactly as it is, through any
  -- history of requests, transitions, reconciliation flags, proof uploads and reward effects that
  -- begins with a database in which every payout request is backed.
  pub settled_for_good :
      {first db : WalletDb} (i : ℕ) (r : Redemption)
      → AllBacked first
      → find_redemption i first ≡ some r
      → includes_redemption terminal_statuses r.status ≡ true
      → Reach encrypt admitted cutover is_erased first db
      → find_redemption i db ≡ some r
  settled_for_good i r a found over start = found
  settled_for_good i r a found over (next before step) =
      step-stays i r (requests_stay-AllBacked encrypt admitted cutover is_erased a before)
        (settled_for_good i r a found over before) over step
