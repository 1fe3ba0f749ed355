-- ===== src/Auth/Throttle.antt =====
-- internal/auth/throttle.go: failed attempts per account name. The mutex makes each method one step.
-- The channel of slots orders the verifications: Auth/Basic has `withVerificationSlot`, told whether the
-- slot came before the context ended.
pub mod Lockout
use edav.Base.{
  ℕ, suc, ◌+◌, ◌-◌, ◌*◌, ◌^◌, Bool, true, false, not, List, [], ◌∷◌, Option, none, some, ltb, leb,
  if◌then◌else◌, length,
}
use edav.Base.Bytes.{Bytes}
use edav.Base.Rows
use edav.Base.Table.{lookup, insert, delete}

abbrev pub max_failures : ℕ
max_failures = 8

-- Nanoseconds, as a `time.Duration`; an instant counts them from Go's zero time.
abbrev pub second : ℕ
second = 10 ^ 9

abbrev pub failure_window : ℕ
failure_window = 15 * 60 * second

abbrev pub max_throttle_key : ℕ
max_throttle_key = 4096

pub record FailureRecord : Type 0 where
  pub count : ℕ
  pub first : ℕ

pub record Throttle : Type 0 where
  pub failures : List (Bytes × FailureRecord)
  pub max : ℕ
  pub window : ℕ

unfoldable pub new_throttle : ℕ → ℕ → Throttle
new_throttle max window = record { failures = []; max = max; window = window }

-- `now.Sub(record.first) >= t.window`.
abbrev pub is_over : Throttle → FailureRecord → ℕ → Bool
is_over t r now = leb (r.first + t.window) now

-- `allow`: how long to wait, and whether an attempt may be made.
unfoldable pub allow : Throttle → Bytes → ℕ → Throttle × ℕ × Bool
allow t key now = elim (lookup key t.failures) [
  | none ↦ (t, 0, true)
  | some r ↦
      if is_over t r now
      then (record t { failures = delete key t.failures }, 0, true)
      else if ltb r.count t.max
      then (t, 0, true)
      else (t, r.first + t.window - now, false)
]

-- `sweepLocked`.
unfoldable pub sweep : Throttle → ℕ → Throttle
sweep t now =
    let live = Rows.delete (λ (e : Bytes × FailureRecord). is_over t e.1 now) t.failures in
    if leb max_throttle_key (length live)
    then record t { failures = [] }
    else record t { failures = live }

abbrev pub begin : Throttle → Bytes → ℕ → Throttle
begin t key now = record t { failures = insert key (record { count = 1; first = now }) t.failures }

-- The first failure of a window.
unfoldable pub start_window : Throttle → Bytes → ℕ → Throttle
start_window t key now =
    if leb max_throttle_key (length t.failures)
    then begin (sweep t now) key now
    else begin t key now

unfoldable pub fail : Throttle → Bytes → ℕ → Throttle
fail t key now = elim (lookup key t.failures) [
  | none ↦ start_window t key now
  | some r ↦
      if is_over t r now
      then start_window t key now
      else record t { failures = insert key (record r { count = r.count + 1 }) t.failures }
]

unfoldable pub succeed : Throttle → Bytes → Throttle
succeed t key = record t { failures = delete key t.failures }

unfoldable pub len : Throttle → ℕ
len t = length t.failures

-- `NewLoginThrottle`.
unfoldable pub new_login_throttle : Throttle
unfolding new_throttle
new_login_throttle = new_throttle max_failures failure_window
