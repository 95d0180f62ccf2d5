-- ===== src/Reward/Selection.antt =====
-- What the selection of a reward rate finds (`selectRewardRate` of lib/reward.ts).
use re_loop.Base.{
  ℕ, ◌≤◌, ◌<◌, ◌≡◌, refl, ◌⊎◌, inl, inr, Bool, true, false, Option, none, some, List, All, arith,
  where_rows, ◌∙◌, ap, Option-cases,
}
use re_loop.Store.{All-map}
use re_loop.Reward.Rates.{
  RewardRate, RateScope, usable_at, is_candidate, comes_before, newer, sort_rows, first_row,
  select_reward_rate, rate_priority, in_scope, in_rate_window, rate_window_contains,
}
use re_loop.Reward.Sorting.{Has, IsFirst, Has-where, where-All, sort-Has, sort-All, sort-IsFirst}

module _ (scope : RateScope) where
  -- The three scopes, from the narrowest.
  abbrev pub OfCampaign : RewardRate → Type 0
  OfCampaign r = (c : ℕ) × (scope.campaign_id ≡ some c) × (r.campaign_id ≡ some c)

  abbrev pub OfOrganization : RewardRate → Type 0
  OfOrganization r = (r.organization_id ≡ some scope.organization_id) × (r.campaign_id ≡ none)

  abbrev pub IsGlobal : RewardRate → Type 0
  IsGlobal r = (r.organization_id ≡ none) × (r.campaign_id ≡ none)

  abbrev pub EndsAfter : ℕ → Option ℕ → Type 0
  EndsAfter at none = Unit
  EndsAfter at (some to) = at < to

  -- The rate is for this material in one of the scopes, its window holds the instant, and it is
  -- active if the caller asks for that.
  pub record Applies (at : ℕ) (require_active : Bool) (r : RewardRate) : Type 0 where
    pub material : r.waste_type_id ≡ scope.waste_type_id
    pub asked : require_active ≡ true → r.enabled ≡ true
    pub begun : r.effective_from ≤ at
    pub open_end : EndsAfter at r.effective_to
    pub scoped : OfCampaign r ⊎ (OfOrganization r ⊎ IsGlobal r)

  -- `q` has no narrower scope than `r`, and is not newer in the same scope.
  abbrev pub Yields : RewardRate → RewardRate → Type 0
  Yields r q =
      (OfCampaign q → OfCampaign r × (q.effective_from ≤ r.effective_from))
      × (OfOrganization q
          → OfCampaign r ⊎ (OfOrganization r × (q.effective_from ≤ r.effective_from)))
      × (IsGlobal q
          → OfCampaign r
            ⊎ (OfOrganization r ⊎ (IsGlobal r × (q.effective_from ≤ r.effective_from))))

  abbrev pub Finds : ℕ → Bool → List RewardRate → Option RewardRate → Type 0
  Finds at active rates none = All (λ q. Applies at active q → ⊥) rates
  Finds at active rates (some r) =
      Has r rates × Applies at active r × All (λ q. Applies at active q → Yields r q) rates

  begun_of : (r : RewardRate) (at : ℕ) → rate_window_contains r at ≡ true → r.effective_from ≤ at
  unfolding rate_window_contains
  begun_of r at h = ground arith

  ends_after :
      (r : RewardRate) (at : ℕ) → rate_window_contains r at ≡ true → EndsAfter at r.effective_to
  unfolding rate_window_contains
  ends_after r at h = elim (Option-cases r.effective_to) [
    | inl e ↦ rw e tt
    | inr (t, e) ↦ rw e (ground arith)
  ]

  scoped_of :
      (r : RewardRate) → in_scope scope r ≡ true → OfCampaign r ⊎ (OfOrganization r ⊎ IsGlobal r)
  unfolding in_scope
  scoped_of r h = elim (Option-cases r.campaign_id) [
    | inl nc ↦ elim (Option-cases r.organization_id) [
      | inl shared ↦ inr (inr (shared, nc))
      | inr (o, eo) ↦ inr (inl (eo ∙ ap some (ground arith), nc))
    ]
    | inr (c, ec) ↦ elim (Option-cases scope.campaign_id) [
      | inl ns ↦ absurd (ground arith)
      | inr (s, es) ↦ inl (s, es, ec ∙ ap some (ground arith))
    ]
  ]

  candidate-Applies :
      (at : ℕ) (active : Bool) (r : RewardRate)
      → is_candidate scope at active r ≡ true
      → Applies at active r
  unfolding is_candidate
  candidate-Applies at active r h =
      let window : rate_window_contains r at ≡ true = window_of at active r h in
      record {
        material = ground arith;
        asked = λ a. asked_of at active r h a;
        begun = begun_of r at window;
        open_end = ends_after r at window;
        scoped = scoped_of r (ground arith);
      }
    where
      window_of :
          (at : ℕ) (active : Bool) (r : RewardRate)
          → is_candidate scope at active r ≡ true
          → rate_window_contains r at ≡ true
      window_of at active r h = ground arith

      asked_of :
          (at : ℕ) (active : Bool) (r : RewardRate)
          → is_candidate scope at active r ≡ true
          → active ≡ true
          → r.enabled ≡ true
      asked_of at active r h a = ground arith

  in_window :
      (at : ℕ) (active : Bool) (r : RewardRate)
      → Applies at active r
      → rate_window_contains r at ≡ true
  unfolding rate_window_contains
  in_window at active r a = elim (Option-cases r.effective_to) [
    | inl e ↦ rw e (ground (arith, a.begun))
    | inr (t, e) ↦ let later : at < t = rw e at a.open_end in rw e (ground (arith, a.begun))
  ]

  in_scope_of :
      (r : RewardRate) → OfCampaign r ⊎ (OfOrganization r ⊎ IsGlobal r) → in_scope scope r ≡ true
  unfolding in_scope
  in_scope_of r (inl (c, s, e)) = ground arith
  in_scope_of r (inr (inl (o, e))) = ground arith
  in_scope_of r (inr (inr (o, e))) = ground arith

  Applies-usable :
      (at : ℕ) (active : Bool) (r : RewardRate) → Applies at active r → usable_at active at r ≡ true
  unfolding usable_at in_rate_window
  Applies-usable at true r a = ground (arith, in_window at true r a, a.asked refl)
  Applies-usable at false r a = in_window at false r a

  Applies-candidate :
      (at : ℕ) (active : Bool) (r : RewardRate)
      → Applies at active r
      → is_candidate scope at active r ≡ true
  unfolding is_candidate
  Applies-candidate at active r a =
      ground (arith, a.material, Applies-usable at active r a, in_scope_of r a.scoped)

  campaign_first : (r : RewardRate) → OfCampaign r → rate_priority scope r ≡ 0
  unfolding rate_priority
  campaign_first r (c, s, e) = ground arith

  organization_second : (r : RewardRate) → OfOrganization r → rate_priority scope r ≡ 1
  unfolding rate_priority
  organization_second r (o, e) = ground arith

  global_third : (r : RewardRate) → IsGlobal r → rate_priority scope r ≡ 2
  unfolding rate_priority
  global_third r (o, e) = ground arith

  -- What the comparator says of two rates in scope.
  before-Yields :
      (r q : RewardRate)
      → OfCampaign r ⊎ (OfOrganization r ⊎ IsGlobal r)
      → comes_before scope q r ≡ false
      → Yields r q
  unfolding comes_before
  before-Yields r q (inl own) h = (
    (λ c. (own, ground (arith, campaign_first r own, campaign_first q c))),
    (λ o. inl own),
    (λ g. inl own),
  )
  before-Yields r q (inr (inl own)) h = (
    (λ c. absurd (ground (arith, organization_second r own, campaign_first q c))),
    (λ o. inr (own, ground (arith, organization_second r own, organization_second q o))),
    (λ g. inr (inl own)),
  )
  before-Yields r q (inr (inr own)) h = (
    (λ c. absurd (ground (arith, global_third r own, campaign_first q c))),
    (λ o. absurd (ground (arith, global_third r own, organization_second q o))),
    (λ g. inr (inr (own, ground (arith, global_third r own, global_third q g)))),
  )

  before_asym : (x y : RewardRate) → comes_before scope x y ≡ true → comes_before scope y x ≡ false
  unfolding comes_before
  before_asym x y h = ground arith

  before_cotrans :
      (x y z : RewardRate)
      → comes_before scope x y ≡ false
      → comes_before scope y z ≡ false
      → comes_before scope x z ≡ false
  unfolding comes_before
  before_cotrans x y z h k = ground arith

  abbrev queried : ℕ → Bool → List RewardRate → List RewardRate
  queried at active rates = where_rows (is_candidate scope at active) rates

  abbrev candidates : ℕ → Bool → List RewardRate → List RewardRate
  candidates at active rates =
      where_rows (usable_at active at) (sort_rows newer (queried at active rates))

  -- What holds of the candidates holds of each rate that applies.
  through :
      (P : RewardRate → Type 0) (at : ℕ) (active : Bool) (rates : List RewardRate)
      → All P (candidates at active rates)
      → All (λ q. Applies at active q → P q) rates
  through P at active rates h =
      All-map (λ q. is_candidate scope at active q ≡ true → usable_at active at q ≡ true → P q)
        (λ q. Applies at active q → P q) rates
        (λ q k a. k (Applies-candidate at active q a) (Applies-usable at active q a))
        (where-All (λ q. usable_at active at q ≡ true → P q) (is_candidate scope at active) rates
          (sort-All newer (λ q. usable_at active at q ≡ true → P q) (queried at active rates)
            (where-All P (usable_at active at) (sort_rows newer (queried at active rates)) h)))

  first-Finds :
      (at : ℕ) (active : Bool) (rates : List RewardRate) (o : Option RewardRate)
      → IsFirst (comes_before scope) (candidates at active rates) o
      → Finds at active rates o
  first-Finds at active rates none h = through (λ _. ⊥) at active rates h
  first-Finds at active rates (some r) (there, first) =
      let (sorted, usable) =
        Has-where (usable_at active at) r (sort_rows newer (queried at active rates)) there in
      let (listed, candidate) =
        Has-where (is_candidate scope at active) r rates
          (sort-Has newer r (queried at active rates) sorted) in
      let applies = candidate-Applies at active r candidate in
      (
        listed,
        applies,
        All-map (λ q. Applies at active q → comes_before scope q r ≡ false)
            (λ q. Applies at active q → Yields r q) rates
            (λ q k a. before-Yields r q applies.scoped (k a))
            (through (λ q. comes_before scope q r ≡ false) at active rates first),
      )

  -- The selected rate is in the table and applies, and every other that applies yields to it: a rate
  -- of the campaign comes before one of the organization, that before a global one, and the newest
  -- wins inside one scope. Where none is selected, no rate applies.
  pub select-Finds :
      (at : ℕ) (active : Bool) (rates : List RewardRate)
      → Finds at active rates (select_reward_rate scope at active rates)
  unfolding select_reward_rate
  select-Finds at active rates =
      first-Finds at active rates
        (first_row (sort_rows (comes_before scope) (candidates at active rates)))
        (sort-IsFirst (comes_before scope) before_asym before_cotrans (candidates at active rates))
