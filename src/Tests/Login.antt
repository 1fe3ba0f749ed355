-- ===== src/Tests/Login.antt =====
-- Authentication at concrete inputs.
use edav.Base.{
  ℕ, zero, suc, ◌+◌, ◌/◌, ◌%◌, ◌≤◌, true, false, List, [], ◌∷◌, Option, none, some, leb, ltb,
  if◌then◌else◌, length, ◌≡◌, ◌≢◌, refl, arith,
}
use edav.Base.Bytes.{Bytes, codes, equal, equal_fold}
use edav.Base.Table.{lookup}
use edav.Storage.{User, Database}
use edav.Storage.Users.{user_by_username}
use edav.Auth.Throttle.{Throttle, allow, fail, second, new_throttle, max_throttle_key}
use edav.Auth.Throttle.Lockout.{
  fail_all, allow-fail_all, allow-fail_ne, fails, after_calls, Call, length-after_calls,
}
use edav.Auth.Cache.{new_credential_cache}
use edav.Auth.Basic.{VerifyError, mismatch, too_many_attempts, retry_after, require_basic_auth}
use edav.Auth.Basic.Spelling.{after_requests}
use edav.Auth.Basic.Transparent.{Request, AllPlain, AllServed, serve, serve_transparent}

abbrev ann : Bytes
ann = codes "ann"

abbrev bob : Bytes
bob = codes "bob"

abbrev limits : Throttle
limits = record { failures = []; max = 2; window = 10 }

abbrev tried : Throttle
tried = record { failures = (ann, record { count = 2; first = 5 }) ∷ []; max = 2; window = 10 }

allow-fail_all_example :
    (allow (fail_all limits ann (100 ∷ 104 ∷ 109 ∷ [])) ann 109).2
    ≡ (if leb (100 + 10) 109 then true else ltb (1 + 2) 2)
allow-fail_all_example =
    allow-fail_all limits ann 100 (104 ∷ 109 ∷ []) 109 (unfold lookup in refl) (ground arith)

ann≢bob : ann ≢ bob
ann≢bob = ground arith

allow-fail_ne_example :
    ((allow (fail tried ann 6) bob 7).1 ≡ (allow tried bob 7).1)
    × ((allow (fail tried ann 6) bob 7).2 ≡ (allow tried bob 7).2)
allow-fail_ne_example = allow-fail_ne tried ann bob 6 7 (omega arith) ann≢bob

-- Failures of five thousand names at one instant: the map is full behind 4096 of them, and is swept.
abbrev flood : ℕ → List Call
flood zero = []
flood (suc n) = fails (n / 256 ∷ n % 256 ∷ []) 6 ∷ flood n

length-after_calls_example :
    length (after_calls (new_throttle 8 10) (flood 5000)).failures ≤ max_throttle_key
length-after_calls_example = length-after_calls 8 10 (flood 5000)

abbrev ann_row : User
ann_row = record {
  id = 1;
  username = ann;
  display_name = ann;
  email = [];
  password_hash = codes "secret";
  is_admin = false;
  created_at = 0;
  updated_at = 0;
}

abbrev accounts : Database
accounts = record {
  users = ann_row ∷ [];
  collections = [];
  objects = [];
  changes = [];
  sessions = [];
}

abbrev changed : Database
changed = record accounts { users = record ann_row { password_hash = codes "other" } ∷ [] }

-- A hash that is the password itself.
abbrev pub same_password : Bytes → Bytes → Option VerifyError
same_password hash password = if equal hash password then none else some mismatch

abbrev sign_in : Option (Bytes × Bytes)
sign_in = some (ann, codes "secret")

-- The same credentials twice, and again behind a change of the password.
abbrev requests : List Request
requests =
    record { database = accounts; credentials = sign_in; now = 1; checked = 1; slot = true }
    ∷ record { database = accounts; credentials = sign_in; now = 2; checked = 2; slot = true }
    ∷ record { database = changed; credentials = sign_in; now = 3; checked = 3; slot = true }
    ∷ []

abbrev itself : Bytes → Bytes
itself s = s

itself_injective : (a b : Bytes) → itself a ≡ itself b → a ≡ b
itself_injective a b h = h

requests-AllServed : AllServed requests
requests-AllServed = (refl, (refl, (refl, tt)))

requests-AllPlain : AllPlain requests
requests-AllPlain = ground arith

serve_transparent_example :
    serve itself same_password limits (some (new_credential_cache second)) requests
    ≡ serve itself same_password limits none requests
serve_transparent_example =
    serve_transparent itself itself_injective same_password limits second requests requests-AllPlain
      requests-AllServed

-- Guesses that lock the name out, whoever sends them.
abbrev guess : Request
guess = record {
  database = accounts;
  credentials = some (ann, codes "guess");
  now = 5;
  checked = 5;
  slot = true;
}

abbrev guesses : List Request
guesses = guess ∷ guess ∷ []

locked_test :
    (require_basic_auth itself same_password accounts sign_in 9 9 true
      (after_requests itself same_password
        (new_throttle 2 10)
        (new_credential_cache second)
        guesses).0
      (some (new_credential_cache second))).2
    ≡ too_many_attempts 1
unfolding require_basic_auth allow lookup new_throttle edav.Auth.Basic.conclude
    edav.Auth.Basic.authenticate user_by_username equal_fold equal edav.Auth.Basic.check_cached
    edav.Auth.Cache.verified new_credential_cache fail edav.Auth.Throttle.start_window
    edav.Base.Table.insert retry_after
locked_test = refl
