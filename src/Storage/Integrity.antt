-- ===== src/Storage/Integrity.antt =====
-- internal/storage/migrations: the keys and the references of the schema, and the numbers of the change log.
pub mod Rows
pub mod Accounts
pub mod Log
pub mod Writes
pub mod Stored
pub mod Places
use edav.Base.{ℕ, Bool, ◌&&◌, ◌==◌, leb}
use edav.Base.Bytes.{equal, equal_fold}
use edav.Base.Rows.{DistinctIds}
use edav.Base.Keys.{Distinct, Refers}
use edav.Storage.{Collection, Object, ChangeRow, User, Session, Database}

-- The unique indexes.
abbrev pub same_name : User → User → Bool
same_name u v = equal_fold u.username v.username

abbrev pub same_place : Collection → Collection → Bool
same_place c d = c.owner_id == d.owner_id && equal c.uri d.uri

abbrev pub same_uri : Object → Object → Bool
same_uri o p = o.collection_id == p.collection_id && equal o.uri p.uri

abbrev pub same_seq : ChangeRow → ChangeRow → Bool
same_seq a b = a.collection_id == b.collection_id && a.seq == b.seq

abbrev pub same_token : Session → Session → Bool
same_token s t = equal s.token t.token

-- The references. A change is none that its collection has not counted.
abbrev pub owned_by : Collection → User → Bool
owned_by c u = u.id == c.owner_id

abbrev pub in_collection : Object → Collection → Bool
in_collection o c = c.id == o.collection_id

abbrev pub counted_by : ChangeRow → Collection → Bool
counted_by ch c = c.id == ch.collection_id && leb ch.seq c.sync_seq

abbrev pub signed_in : Session → User → Bool
signed_in s u = u.id == s.user_id

pub record Integrity (db : Database) : Type 0 where
  pub user_ids : DistinctIds (λ (u : User). u.id) db.users
  pub usernames : Distinct same_name db.users
  pub collection_ids : DistinctIds (λ (c : Collection). c.id) db.collections
  pub places : Distinct same_place db.collections
  pub owners : Refers owned_by db.users db.collections
  pub object_ids : DistinctIds (λ (o : Object). o.id) db.objects
  pub uris : Distinct same_uri db.objects
  pub collections : Refers in_collection db.collections db.objects
  pub numbers : Distinct same_seq db.changes
  pub counts : Refers counted_by db.collections db.changes
  pub tokens : Distinct same_token db.sessions
  pub accounts : Refers signed_in db.users db.sessions
