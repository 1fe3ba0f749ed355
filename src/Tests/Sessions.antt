-- ===== src/Tests/Sessions.antt =====
-- Sessions at concrete inputs.
use edav.Base.{true, false, [], ◌∷◌, some, ◌≡◌, ◌⊎◌, refl}
use edav.Base.Bytes.{Bytes, codes, equal}
use edav.Storage.{Session, User, Database}
use edav.Storage.Users.{user_by_id}
use edav.Storage.Sessions.{session_by_token}
use edav.Auth.Session.{
  Sessions, Request, next, get, admit, require_session, is_mutating, request_csrf_token,
}
use edav.Auth.Session.Guard.{Current, require_session_sound}

abbrev pub admin : User
admin = record {
  id = 1;
  username = codes "ann";
  display_name = [];
  email = [];
  password_hash = [];
  is_admin = true;
  created_at = 0;
  updated_at = 0;
}

abbrev signed_in : Session
signed_in = record {
  token = codes "t";
  user_id = 1;
  csrf_token = codes "c";
  created_at = 0;
  expires_at = 100;
}

abbrev database : Database
database = record {
  users = admin ∷ [];
  collections = [];
  objects = [];
  changes = [];
  sessions = signed_in ∷ [];
}

abbrev pub settings : Sessions
settings = record { lifetime = 0; secure = true; path = [] }

abbrev post : Request
post = record {
  method = codes "POST";
  cookie = some (codes "t");
  csrf_header = codes "c";
  csrf_field = [];
  hx_request = false;
}

admitted : (require_session settings (codes "/login") 50 database post).1 ≡ next signed_in admin
unfolding require_session get admit session_by_token user_by_id is_mutating request_csrf_token equal
admitted = refl

require_session_sound_example :
    (token : Bytes) × (post.cookie ≡ some token)
    × Current 50 database token signed_in admin
    × ((is_mutating post.method ≡ false) ⊎ (request_csrf_token post ≡ signed_in.csrf_token))
    × ((require_session settings (codes "/login") 50 database post).0 ≡ database)
require_session_sound_example =
    require_session_sound settings (codes "/login") 50 database post {sess = signed_in} {u = admin}
      admitted
