-- ===== src/Auth/Throttle/Lockout.antt =====
-- When a name is locked, for how long, and how many names are remembered.
use edav.Base.{
  ℕ, ◌+◌, ◌≤◌, ◌<◌, true, false, List, [], ◌∷◌, none, some, ltb, leb, if◌then◌else◌, length, ◌≡◌,
  ◌≢◌, inl, inr, ◌∙◌, arith, Option-cases,
}
use edav.Base.Bytes.{Bytes, equal, equal_iff}
use edav.Base.Table.{lookup, lookup-insert, length-insert, length-insert_found, length-delete}
use edav.Auth.Throttle.{
  FailureRecord, Throttle, is_over, new_throttle, allow, sweep, start_window, fail, succeed,
  max_throttle_key,
}

-- Failures of one name, one after the other.
abbrev pub fail_all : Throttle → Bytes → List ℕ → Throttle
fail_all t key [] = t
fail_all t key (now ∷ nows) = fail_all (fail t key now) key nows

abbrev pub AllBefore : ℕ → List ℕ → Type 0
AllBefore limit [] = Unit
AllBefore limit (now ∷ nows) = (now < limit) × AllBefore limit nows

fail_again :
    (t : Throttle) (key : Bytes) (now : ℕ) {r : FailureRecord}
    → lookup key t.failures ≡ some r
    → now < r.first + t.window
    → (lookup key (fail t key now).failures ≡ some (record r { count = r.count + 1 }))
      × ((fail t key now).window ≡ t.window)
      × ((fail t key now).max ≡ t.max)
unfolding fail
fail_again t key now {r} h l =
    ground (
      arith,
      lookup-insert key key (record r { count = r.count + 1 }) t.failures,
      equal_iff key key,
    )

fail_all-lookup :
    (t : Throttle) (key : Bytes) (nows : List ℕ) {r : FailureRecord}
    → lookup key t.failures ≡ some r
    → AllBefore (r.first + t.window) nows
    → (lookup key (fail_all t key nows).failures
        ≡ some (record r { count = r.count + length nows }))
      × ((fail_all t key nows).window ≡ t.window)
      × ((fail_all t key nows).max ≡ t.max)
fail_all-lookup t key [] h l = ground arith
fail_all-lookup t key (now ∷ nows) {r} h l =
    let again = fail_again t key now h l.0 in
    let rest = fail_all-lookup (fail t key now) key nows again.0 (rw again.1 l.1) in
    ground (arith, again, rest)

start_window-lookup :
    (t : Throttle) (key : Bytes) (now : ℕ)
    → (lookup key (start_window t key now).failures ≡ some (record { count = 1; first = now }))
      × ((start_window t key now).window ≡ t.window)
      × ((start_window t key now).max ≡ t.max)
unfolding start_window sweep
start_window-lookup t key now = ground (
  arith,
  equal_iff key key,
  lookup-insert key key (record { count = 1; first = now }) t.failures,
  lookup-insert key key (record { count = 1; first = now }) (sweep t now).failures,
)

fail_first :
    (t : Throttle) (key : Bytes) (now : ℕ)
    → lookup key t.failures ≡ none
    → fail t key now ≡ start_window t key now
unfolding fail
fail_first t key now h = ground arith

allow-lookup :
    (t : Throttle) (key : Bytes) (now : ℕ) {r : FailureRecord}
    → lookup key t.failures ≡ some r
    → (allow t key now).2 ≡ (if is_over t r now then true else ltb r.count t.max)
unfolding allow
allow-lookup t key now h = ground arith

-- A name with no record that fails at `first`, and again at any later instants within the window, is
-- refused exactly until the window from the first failure is over, and only if it has failed as often
-- as the limit: later failures do not extend the window.
pub allow-fail_all :
    (t : Throttle) (key : Bytes) (first : ℕ) (nows : List ℕ) (now : ℕ)
    → lookup key t.failures ≡ none
    → AllBefore (first + t.window) nows
    → (allow (fail_all t key (first ∷ nows)) key now).2
      ≡ (if leb (first + t.window) now then true else ltb (1 + length nows) t.max)
allow-fail_all t key first nows now h l =
    let begun = rw (← fail_first t key first h) at (start_window-lookup t key first) in
    let all = fail_all-lookup (fail t key first) key nows begun.0 (rw begun.1 l) in
    allow-lookup (fail_all t key (first ∷ nows)) key now all.0 ∙ ground (arith, begun, all)

lookup-fail_ne :
    (t : Throttle) (key other : Bytes) (now : ℕ)
    → length t.failures < max_throttle_key
    → equal key other ≡ false
    → lookup other (fail t key now).failures ≡ lookup other t.failures
unfolding fail start_window
lookup-fail_ne t key other now l n = elim (Option-cases (lookup key t.failures)) [
  | inl e ↦ ground (arith, lookup-insert key other (record { count = 1; first = now }) t.failures)
  | inr (r, e) ↦ ground (
    arith,
    lookup-insert key other (record { count = 1; first = now }) t.failures,
    lookup-insert key other (record r { count = r.count + 1 }) t.failures,
  )
]

window-fail :
    (t : Throttle) (key : Bytes) (now : ℕ)
    → ((fail t key now).window ≡ t.window) × ((fail t key now).max ≡ t.max)
unfolding fail start_window sweep
window-fail t key now = ground arith

allow_congr :
    (t u : Throttle) (key : Bytes) (now : ℕ)
    → lookup key u.failures ≡ lookup key t.failures
    → u.window ≡ t.window
    → u.max ≡ t.max
    → ((allow u key now).1 ≡ (allow t key now).1) × ((allow u key now).2 ≡ (allow t key now).2)
unfolding allow
allow_congr t u key now h w m = ground arith

-- A failure of one name changes nothing for another, neither whether it may try nor how long it has to
-- wait, as long as fewer than 4096 names are remembered.
pub allow-fail_ne :
    (t : Throttle) (key other : Bytes) (now later : ℕ)
    → length t.failures < max_throttle_key
    → key ≢ other
    → ((allow (fail t key now) other later).1 ≡ (allow t other later).1)
      × ((allow (fail t key now) other later).2 ≡ (allow t other later).2)
allow-fail_ne t key other now later l n =
    let told = window-fail t key now in
    allow_congr t (fail t key now) other later
      (lookup-fail_ne t key other now l (ground (arith, equal_iff key other))) told.0 told.1

-- A refused name is told to wait for at least an instant and at most the window, and an attempt after
-- that wait is allowed.
pub allow_retry :
    (t : Throttle) (key : Bytes) (now : ℕ)
    → (allow t key now).2 ≡ false
    → (0 < (allow t key now).1)
      × ((allow t key (now + (allow t key now).1)).2 ≡ true)
      × ((allow t key now).0 ≡ t)
unfolding allow
allow_retry t key now h = ground arith

length-sweep : (t : Throttle) (now : ℕ) → length (sweep t now).failures < max_throttle_key
unfolding sweep
length-sweep t now = ground arith

length-start_window :
    (t : Throttle) (key : Bytes) (now : ℕ)
    → length (start_window t key now).failures ≤ max_throttle_key
unfolding start_window
length-start_window t key now =
    let fresh : FailureRecord = record { count = 1; first = now } in
    ground (
      arith,
      length-sweep t now,
      length-insert key fresh t.failures,
      length-insert key fresh (sweep t now).failures,
    )

length-fail :
    (t : Throttle) (key : Bytes) (now : ℕ)
    → length t.failures ≤ max_throttle_key
    → length (fail t key now).failures ≤ max_throttle_key
unfolding fail
length-fail t key now h = elim (Option-cases (lookup key t.failures)) [
  | inl e ↦ ground (arith, length-start_window t key now)
  | inr (r, e) ↦ ground (
    arith,
    length-start_window t key now,
    length-insert_found key (record r { count = r.count + 1 }) r t.failures e,
  )
]

length-allow :
    (t : Throttle) (key : Bytes) (now : ℕ) → length (allow t key now).0.failures ≤ length t.failures
unfolding allow
length-allow t key now = ground (arith, length-delete key t.failures)

length-succeed : (t : Throttle) (key : Bytes) → length (succeed t key).failures ≤ length t.failures
unfolding succeed
length-succeed t key = length-delete key t.failures

-- The calls that the middleware and the login form make, in any order.
pub data Call : Type 0 where
  asks fails : Bytes → ℕ → Call
  succeeds : Bytes → Call

abbrev pub called : Call → Throttle → Throttle
called (asks key now) t = (allow t key now).0
called (fails key now) t = fail t key now
called (succeeds key) t = succeed t key

abbrev pub after_calls : Throttle → List Call → Throttle
after_calls t [] = t
after_calls t (c ∷ cs) = after_calls (called c t) cs

length-called :
    (c : Call) (t : Throttle)
    → length t.failures ≤ max_throttle_key
    → length (called c t).failures ≤ max_throttle_key
length-called (asks key now) t h = let smaller = length-allow t key now in omega arith
length-called (fails key now) t h = length-fail t key now h
length-called (succeeds key) t h = let smaller = length-succeed t key in omega arith

calls-bounded :
    (t : Throttle) (cs : List Call)
    → length t.failures ≤ max_throttle_key
    → length (after_calls t cs).failures ≤ max_throttle_key
calls-bounded t [] h = h
calls-bounded t (c ∷ cs) h = calls-bounded (called c t) cs (length-called c t h)

-- Whatever calls are made of a new throttle, one after the other and at any instants, with whatever names an
-- attacker submits, it remembers at most 4096 names behind each of them.
pub length-after_calls :
    (max window : ℕ) (cs : List Call)
    → length (after_calls (new_throttle max window) cs).failures ≤ max_throttle_key
unfolding new_throttle
length-after_calls max window cs = calls-bounded (new_throttle max window) cs (omega arith)
