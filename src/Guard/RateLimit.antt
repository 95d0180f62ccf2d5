-- ===== src/Guard/RateLimit.antt =====
-- The rate limiter of one process (`MemoryRateLimitStore` of lib/rate-limit.ts).
use re_loop.Base.{
  leb, if◌then◌else◌, ℤ, pos, sub_ℕ, ℕ, ◌+◌, ◌-◌, Bool, true, false, ◌&&◌, Option, none, some, List,
  [], ◌∷◌,
}
use re_loop.Store.{Text, text_eq}
use re_loop.Guard.Maps.{lookup, set_entry, sweep}

pub record Window : Type 0 where
  pub count : ℕ
  pub reset_at : ℕ

pub record RateLimitResult : Type 0 where
  pub allowed : Bool
  pub remaining : ℤ
  pub reset_at : ℕ

abbrev pub Windows : Type 0
Windows = List (Text × Window)

-- `!entry || entry.resetAt <= now` fails.
abbrev pub open_window : ℕ → Option Window → Option Window
open_window now none = none
open_window now (some w) = if leb w.reset_at now then none else some w

unfoldable pub check : Text → ℕ → ℕ → ℕ → Windows → RateLimitResult × Windows
check key limit window_ms now windows = elim (open_window now (lookup key windows)) [
  | none ↦
      let w : Window = record { count = 1; reset_at = now + window_ms } in
      (
        record { allowed = true; remaining = sub_ℕ limit 1; reset_at = w.reset_at },
        set_entry key w windows,
      )
  | some w ↦
      let n = w.count + 1 in
      (
        record { allowed = leb n limit; remaining = pos (limit - n); reset_at = w.reset_at },
        set_entry key (record w { count = n }) windows,
      )
]

-- The timer's loop.
unfoldable pub sweep_windows : ℕ → Windows → Windows
sweep_windows now windows = sweep (λ w. leb w.reset_at now) windows

pub data LimitEvent : Type 0 where
  check_event : Text → ℕ → ℕ → ℕ → LimitEvent
  sweep_event : ℕ → LimitEvent

unfoldable pub run_limit_event : LimitEvent → Windows → Windows
run_limit_event (check_event key limit window_ms now) windows =
    (check key limit window_ms now windows).1
run_limit_event (sweep_event now) windows = sweep_windows now windows

-- How many checks of a key a run of events makes, and how many of them are allowed.
abbrev pub is_check_of : Text → LimitEvent → Bool
is_check_of k (check_event key limit window_ms now) = text_eq k key
is_check_of k (sweep_event now) = false

abbrev pub allowed_now : Text → LimitEvent → Windows → Bool
allowed_now k (check_event key limit window_ms now) windows =
    text_eq k key && (check key limit window_ms now windows).0.allowed
allowed_now k (sweep_event now) windows = false

unfoldable pub checks_of : Text → List LimitEvent → ℕ
checks_of k [] = 0
checks_of k (e ∷ l) = (if is_check_of k e then 1 else 0) + checks_of k l

unfoldable pub allowed_of : Text → List LimitEvent → Windows → ℕ
allowed_of k [] windows = 0
allowed_of k (e ∷ l) windows =
    (if allowed_now k e windows then 1 else 0) + allowed_of k l (run_limit_event e windows)
