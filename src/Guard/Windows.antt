-- ===== src/Guard/Windows.antt =====
-- A window of the rate limiter lets the first checks through and no others (lib/rate-limit.ts).
use re_loop.Base.{
  leb, Bool-cases, Option-cases, All, ℕ, ◌+◌, ◌-◌, ◌≤◌, ◌<◌, min, ◌≡◌, refl, sym, ◌∙◌, subst, inl,
  inr, true, false, none, some, List, [], ◌∷◌, arith,
}
use re_loop.Store.{Text, text_eq, text_eq_refl, text_eq_sound}
use re_loop.Guard.Maps.{lookup, lookup-set_entry, lookup-set_entry_other, lookup-sweep}
use re_loop.Guard.RateLimit.{
  Window, Windows, open_window, check, sweep_windows, LimitEvent, check_event, sweep_event,
  run_limit_event, checks_of, allowed_of,
}

abbrev counted : Window → Window
counted w = record w { count = w.count + 1 }

check-open :
    (key : Text) (limit window_ms now : ℕ) (windows : Windows) (w : Window)
    → lookup key windows ≡ some w
    → now < w.reset_at
    → ((check key limit window_ms now windows).0.allowed ≡ leb (w.count + 1) limit)
      × (lookup key (check key limit window_ms now windows).1 ≡ some (counted w))
unfolding check
check-open key limit window_ms now windows w found early =
    let live : open_window now (lookup key windows) ≡ some w = rw found (ground arith) in
    rw (live, check) (refl, lookup-set_entry key (counted w) windows)

check-closed :
    (key : Text) (limit window_ms now : ℕ) (windows : Windows)
    → open_window now (lookup key windows) ≡ none
    → ((check key limit window_ms now windows).0.allowed ≡ true)
      × (lookup key (check key limit window_ms now windows).1
          ≡ some (record { count = 1; reset_at = now + window_ms }))
unfolding check
check-closed key limit window_ms now windows closed =
    rw (closed, check) (refl, lookup-set_entry key _ windows)

check-other :
    (k key : Text) (limit window_ms now : ℕ) (windows : Windows)
    → text_eq k key ≡ false
    → lookup k (check key limit window_ms now windows).1 ≡ lookup k windows
unfolding check
check-other k key limit window_ms now windows other =
    elim (Option-cases (open_window now (lookup key windows))) [
      | inl closed ↦ rw (closed, check) (lookup-set_entry_other k key _ windows other)
      | inr (w, live) ↦ rw (live, check) (lookup-set_entry_other k key _ windows other)
    ]

-- The event happens before the window ends, and a check of the key has the limit.
abbrev pub Within : Text → ℕ → ℕ → LimitEvent → Type 0
Within k limit end (check_event key l window_ms now) =
    (now < end) × (text_eq k key ≡ true → l ≡ limit)
Within k limit end (sweep_event now) = now < end

rest_of_window :
    (k : Text) (limit : ℕ) (w : Window) (events : List LimitEvent) (windows : Windows)
    → lookup k windows ≡ some w
    → All (Within k limit w.reset_at) events
    → allowed_of k events windows ≡ min (checks_of k events) (limit - w.count)
unfolding allowed_of checks_of run_limit_event sweep_windows
rest_of_window k limit w [] windows found within = omega arith
rest_of_window k limit w (sweep_event now ∷ l) windows found within =
    let kept = lookup-sweep (λ v. leb v.reset_at now) k w windows (ground arith) found in
    omega (arith, rest_of_window k limit w l (sweep_windows now windows) kept within.1)
rest_of_window k limit w (check_event key m window_ms now ∷ l) windows found within =
    elim (Bool-cases (text_eq k key)) [
      | inr other ↦
          let kept = check-other k key m window_ms now windows other ∙ found in
          ground (arith, rest_of_window k limit w l _ kept within.1)
      | inl same ↦
          let here = subst (λ t. lookup t windows ≡ some w) (text_eq_sound k key same) found in
          let (allowed, next) = check-open key m window_ms now windows w here within.0.0 in
          let next_k =
            subst (λ t. lookup t (check key m window_ms now windows).1 ≡ some (counted w))
              (sym (text_eq_sound k key same)) next in
          let rest = rest_of_window k limit (counted w) l _ next_k within.1 in
          let one_limit = within.0.1 same in ground (arith, rest, allowed, one_limit)
    ]

-- Where a key has no open window, a check opens one. Of it and the later checks of the key before the
-- window ends, all under one limit of at least one, the smaller of their number and the limit is allowed,
-- whatever is checked under other keys and swept in between.
pub window_allowance :
    (k : Text) (limit window_ms now : ℕ) (windows : Windows) (events : List LimitEvent)
    → 1 ≤ limit
    → open_window now (lookup k windows) ≡ none
    → All (Within k limit (now + window_ms)) events
    → allowed_of k (check_event k limit window_ms now ∷ events) windows
      ≡ min (checks_of k (check_event k limit window_ms now ∷ events)) limit
unfolding allowed_of checks_of run_limit_event
window_allowance k limit window_ms now windows events some_limit closed within =
    let (allowed, next) = check-closed k limit window_ms now windows closed in
    let rest = rest_of_window k limit _ events _ next within in
    rw (text_eq_refl k, allowed, rest) (ground arith)
