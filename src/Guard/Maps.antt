-- ===== src/Guard/Maps.antt =====
-- A JavaScript `Map` with string keys: its entries in the order of insertion.
use re_loop.Base.{
  subst, if◌then◌else◌, Bool-cases, where_rows, ◌≡◌, refl, inl, inr, Bool, false, not, Option, none,
  some, List, [], ◌∷◌, arith,
}
use re_loop.Store.{Text, text_eq, text_eq_refl, text_eq_sound}

module _ {V : Type 0} where
  unfoldable pub lookup : Text → List (Text × V) → Option V
  lookup k [] = none
  lookup k (e ∷ m) = let rest = lookup k m in if text_eq k e.0 then some e.1 else rest

  -- `Map.set`: an existing key keeps its place.
  unfoldable pub set_entry : Text → V → List (Text × V) → List (Text × V)
  set_entry k v [] = (k, v) ∷ []
  set_entry k v (e ∷ m) =
      let rest = set_entry k v m in if text_eq k e.0 then (e.0, v) ∷ m else e ∷ rest

  -- The loop that deletes the entries that are over.
  unfoldable pub sweep : (V → Bool) → List (Text × V) → List (Text × V)
  sweep over m = where_rows (λ e. not (over e.1)) m

  pub lookup-set_entry :
      (k : Text) (v : V) (m : List (Text × V)) → lookup k (set_entry k v m) ≡ some v
  unfolding lookup set_entry
  lookup-set_entry k v [] = rw (text_eq_refl k) refl
  lookup-set_entry k v (e ∷ m) = elim (Bool-cases (text_eq k e.0)) [
    | inl here ↦ rw (here, here) refl
    | inr there ↦ rw (there, there) (lookup-set_entry k v m)
  ]

  pub lookup-set_entry_other :
      (k j : Text) (v : V) (m : List (Text × V))
      → text_eq k j ≡ false
      → lookup k (set_entry j v m) ≡ lookup k m
  unfolding lookup set_entry
  lookup-set_entry_other k j v [] apart = rw apart refl
  lookup-set_entry_other k j v (e ∷ m) apart = elim (Bool-cases (text_eq j e.0)) [
    | inl here ↦
        let apart_here : text_eq k e.0 ≡ false =
          subst (λ t. text_eq k t ≡ false) (text_eq_sound j e.0 here) apart in
        rw (here, apart_here) refl
    | inr there ↦ rw (there, lookup-set_entry_other k j v m apart) refl
  ]

  pub lookup-sweep :
      (over : V → Bool) (k : Text) (v : V) (m : List (Text × V))
      → over v ≡ false
      → lookup k m ≡ some v
      → lookup k (sweep over m) ≡ some v
  unfolding lookup sweep
  lookup-sweep over k v [] live found = found
  lookup-sweep over k v (e ∷ m) live found = ground (arith, lookup-sweep over k v m live)
