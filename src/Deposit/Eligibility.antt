-- ===== src/Deposit/Eligibility.antt =====
-- `isCampaignEligible` of lib/campaign.ts. Lower-casing a text is a parameter.
use re_loop.Base.{
  ℕ, Bool, false, ◌||◌, Option, none, some, List, [], ◌∷◌, ltb, ◌==◌, if◌then◌else◌, any_of,
}
use re_loop.Store.{Text, text_eq}

pub data CampaignStatus : Type 0 where
  draft_campaign active_campaign paused_campaign ended_campaign : CampaignStatus

pub data Visibility : Type 0 where
  public_campaign private_campaign : Visibility

pub record EligibilityRules : Type 0 where
  pub visibility : Visibility
  pub domains : Option (List Text)
  pub status : CampaignStatus
  pub start_at : Option ℕ
  pub end_at : Option ℕ

pub data Ineligible : Type 0 where
  campaign_inactive campaign_not_started campaign_ended private_no_domains : Ineligible
  email_domain_mismatch : Ineligible

-- `text.endsWith(suffix)`
unfoldable pub ends_with : Text → Text → Bool
unfolding text_eq
ends_with [] suffix = text_eq [] suffix
ends_with (c ∷ l) suffix = text_eq (c ∷ l) suffix || ends_with l suffix

abbrev at_sign : ℕ
at_sign = b'@'

abbrev starts_with_at : Text → Bool
starts_with_at [] = false
starts_with_at (c ∷ l) = c == at_sign

unfoldable pub domain_suffix : (Text → Text) → Text → Text
domain_suffix lower d = if starts_with_at d then lower d else at_sign ∷ lower d

abbrev starts_later : Option ℕ → ℕ → Bool
starts_later none now = false
starts_later (some at) now = ltb now at

abbrev ended : Option ℕ → ℕ → Bool
ended none now = false
ended (some at) now = ltb at now

-- The reason for which the user is not eligible; `none` when the user is.
unfoldable pub is_campaign_eligible :
    (Text → Text) → EligibilityRules → Text → ℕ → Option Ineligible
unfolding ends_with domain_suffix
is_campaign_eligible lower c email now = elim c.status [
  | draft_campaign ↦ some campaign_inactive
  | paused_campaign ↦ some campaign_inactive
  | ended_campaign ↦ some campaign_inactive
  | active_campaign ↦
      if starts_later c.start_at now
      then some campaign_not_started
      else if ended c.end_at now
      then some campaign_ended
      else elim c.visibility [
        | public_campaign ↦ none
        | private_campaign ↦ elim c.domains [
          | none ↦ some private_no_domains
          | some [] ↦ some private_no_domains
          | some (d ∷ l) ↦
              if any_of (λ s. ends_with (lower email) (domain_suffix lower s)) (d ∷ l)
              then none
              else some email_domain_mismatch
        ]
      ]
]
