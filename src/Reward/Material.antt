-- ===== src/Reward/Material.antt =====
-- `verifyMaterial` of lib/reward-policy.ts. Trimming and lower-casing are parameters; a confidence and
-- the smallest that counts are numbers on one scale (millionths), since they are only compared.
use re_loop.Base.{
  ℕ, Bool, true, false, not, ◌&&◌, ◌||◌, Option, none, some, List, [], ◌∷◌, any_of, or_else, ltb,
  leb, ◌==◌, if◌then◌else◌,
}
use re_loop.Store.{Text, text_eq}

pub data MaterialPolicy : Type 0 where
  ai_required barcode_weight weight_only : MaterialPolicy

pub data MaterialReason : Type 0 where
  ai_match ai_type_mismatch ai_low_confidence ai_unavailable ai_taxonomy_missing : MaterialReason
  barcode_weight_read barcode_missing weight_only_window : MaterialReason

pub record MaterialInput : Type 0 where
  -- `none` for a policy that is missing or unknown
  pub policy : Option MaterialPolicy
  pub accepted_labels : List Text
  pub ai_label : Option Text
  pub ai_confidence : Option ℕ
  pub barcode_value : Option Text
  pub min_confidence : Option ℕ

pub record Verification : Type 0 where
  pub type_match : Bool
  pub reason : MaterialReason

abbrev pub ai_min_confidence : ℕ
ai_min_confidence = 500000

-- White space or a hyphen.
abbrev is_separator : ℕ → Bool
is_separator c =
    any_of (λ x. x == c)
      (9 ∷ 10 ∷ 11 ∷ 12 ∷ 13 ∷ 32 ∷ 45 ∷ 160 ∷ 5760 ∷ 8232 ∷ 8233 ∷ 8239 ∷ 8287 ∷ 12288 ∷ 65279
        ∷ [])
    || (leb 8192 c && leb c 8202)

-- Each run of separators becomes one underscore.
abbrev collapse : Bool → Text → Text
collapse inside [] = []
collapse inside (c ∷ t) =
    let after = collapse (is_separator c) t in
    if is_separator c then (if inside then after else 95 ∷ after) else c ∷ after

abbrev pub is_empty : Text → Bool
is_empty [] = true
is_empty (c ∷ t) = false

module _ (trim lower : Text → Text) where
  abbrev pub normalize_ai_label : Text → Text
  normalize_ai_label label = collapse false (lower (trim label))

  -- Whether the waste type's taxonomy has an entry at all, and has this one.
  abbrev pub has_taxonomy : List Text → Bool
  has_taxonomy labels = any_of (λ l. not (is_empty (normalize_ai_label l))) labels

  abbrev pub accepts : List Text → Text → Bool
  accepts labels label =
      any_of
        (λ l.
          not (is_empty (normalize_ai_label l))
          && text_eq (normalize_ai_label l) (normalize_ai_label label))
        labels

  -- `classifierReported`: the label and the confidence of a real classification.
  unfoldable pub classifier_reported : MaterialInput → Option (Text × ℕ)
  classifier_reported m = elim m.ai_label [
    | none ↦ none
    | some l ↦ elim m.ai_confidence [
      | none ↦ none
      | some c ↦ if not (is_empty (trim l)) && ltb 0 c then some (l, c) else none
    ]
  ]

  abbrev barcode_read : Option Text → Bool
  barcode_read none = false
  barcode_read (some t) = not (is_empty (trim t))

  -- The policy's own requirement, once no label holds the item.
  abbrev by_policy : MaterialPolicy → Bool → MaterialInput → Verification
  by_policy barcode_weight confirmed m =
      if barcode_read m.barcode_value
      then record { type_match = true; reason = barcode_weight_read }
      else record { type_match = false; reason = barcode_missing }
  by_policy _ confirmed m = record {
    type_match = true;
    reason = if confirmed then ai_match else weight_only_window;
  }

  abbrev is_ai_required : MaterialPolicy → Bool
  is_ai_required ai_required = true
  is_ai_required _ = false

  abbrev by_label : MaterialPolicy → Text × ℕ → MaterialInput → Verification
  by_label policy x m =
      if has_taxonomy m.accepted_labels
      then if ltb x.1 (or_else m.min_confidence ai_min_confidence)
        then record { type_match = false; reason = ai_low_confidence }
        else if not (accepts m.accepted_labels x.0)
        then record { type_match = false; reason = ai_type_mismatch }
        else by_policy policy true m
      else if is_ai_required policy
      then record { type_match = false; reason = ai_taxonomy_missing }
      else by_policy policy false m

  unfoldable pub verify_material : MaterialInput → Verification
  verify_material m =
      let policy = or_else m.policy ai_required in
      elim (classifier_reported m) [
        | some x ↦ by_label policy x m
        | none ↦
            if is_ai_required policy
            then record { type_match = false; reason = ai_unavailable }
            else by_policy policy false m
      ]
