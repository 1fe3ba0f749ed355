-- ===== src/Tests/Admission.antt =====
-- Signing in to the administration interface, behind failures that have locked the name out.
use edav.Base.{◌+◌, ◌<◌, true, false, [], ◌∷◌, none, some, ◌≡◌, refl, arith}
use edav.Base.Bytes.{codes, equal, equal_fold}
use edav.Base.Table.{lookup}
use edav.Base.Time.{trim_space}
use edav.Storage.{User, Database}
use edav.Storage.Users.{user_by_username}
use edav.Storage.Integrity.{Integrity}
use edav.Auth.Throttle.{Throttle}
use edav.Auth.Session.{Request, next, new_session, session_lifetime, request_csrf_token}
use edav.Admin.Login.{signed_in, do_login, admin_request}
use edav.Admin.Login.Admitted.{wait, cookie_of, do_login_admits}
use edav.Tests.Sessions.{settings, admin}
use edav.Tests.Login.{same_password}

abbrev owner : User
owner = record admin { password_hash = codes "secret" }

abbrev nobody_in : Database
nobody_in = record {
  users = owner ∷ [];
  collections = [];
  objects = [];
  changes = [];
  sessions = [];
}

nobody_in-Integrity : Integrity nobody_in
nobody_in-Integrity = record {
  user_ids = (refl, tt);
  usernames = (refl, tt);
  collection_ids = tt;
  places = tt;
  owners = tt;
  object_ids = tt;
  uris = tt;
  collections = tt;
  numbers = tt;
  counts = tt;
  tokens = tt;
  accounts = tt;
}

abbrev locked : Throttle
locked = record {
  failures = (codes "ann", record { count = 2; first = 5 }) ∷ [];
  max = 2;
  window = 10;
}

abbrev asked : Request
asked = record {
  method = codes "POST";
  cookie = some (codes "t");
  csrf_header = codes "c";
  csrf_field = [];
  hx_request = false;
}

owner_known : user_by_username nobody_in (trim_space (codes " ann")) ≡ some owner
unfolding user_by_username equal_fold equal trim_space
owner_known = refl

token_sent : request_csrf_token asked ≡ codes "c"
unfolding request_csrf_token
token_sent = refl

lasts : 100 < 50 + session_lifetime settings
unfolding session_lifetime
lasts = ground arith

do_login_admits_example :
    let at = 9 + wait locked (trim_space (codes " ann")) 9 in
    let attempt =
      do_login same_password settings nobody_in locked
        (codes " ann")
        (codes "secret")
        (codes "t")
        (codes "c")
        at
        50
        true in
    (attempt.2 ≡ signed_in (cookie_of settings (codes "t")))
    × (lookup (trim_space (codes " ann")) attempt.1.failures ≡ none)
    × (admin_request settings 100 attempt.0 asked
        ≡ (attempt.0, next (new_session settings (codes "t") (codes "c") 1 50) owner))
unfolding equal
do_login_admits_example =
    do_login_admits same_password settings nobody_in locked (codes " ann") (codes "secret")
      (codes "t") (codes "c") 9 50 100 owner asked nobody_in-Integrity owner_known refl refl refl
      lasts refl token_sent
