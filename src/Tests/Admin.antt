-- ===== src/Tests/Admin.antt =====
-- The administration interface on two accounts.
use edav.Base.{
  ℕ, true, false, List, [], ◌∷◌, Option, none, some, ◌==◌, any, ◌≡◌, ◌≢◌, ◌⊎◌, refl, arith,
}
use edav.Base.Bytes.{Bytes, codes}
use edav.Base.Time.{trim_space}
use edav.Storage.{Collection, User, Session, Database}
use edav.Storage.Collections.{is_known, collection_by_uri}
use edav.Admin.Slugs.{slugify, matches_slug, free_slug, free_rounds}
use edav.Admin.Slugs.Free.{Taken}
use edav.Admin.Accounts.{redirected, removes, act}
use edav.Admin.Objects.{path_id}
use edav.Admin.Collections.{CollectionForm, user_at, collection_type, create_for}
use edav.Admin.Collections.Derived.{create_for-derived}
use edav.Admin.Accounts.Administrator.{HasAdministrator, done, request, administrator_remains}
use edav.Tests.Calendars.{account, ann, database}

slugify_test : slugify (codes " My Calendar! ") ≡ codes "my-calendar"
unfolding slugify edav.Base.Bytes.to_lower edav.Base.Time.trim_space
slugify_test = refl

free_slug_test : free_slug database 1 (codes "work") ≡ codes "work-2"
unfolding free_slug collection_by_uri edav.Base.Bytes.equal edav.Base.Decimal.format_int
free_slug_test = refl

abbrev boss : User
boss = record ann { is_admin = true }

abbrev two_accounts : Database
two_accounts = record database { users = boss ∷ account 2 (codes "bob") ∷ [] }

abbrev hash : Bytes → Option Bytes
hash password = some password

administrator_remains_example : HasAdministrator (act hash 9 two_accounts boss (removes 2)).0
unfolding edav.Storage.Users.user_by_id
administrator_remains_example =
    administrator_remains hash (request 9 boss (removes 2) refl refl done) refl

abbrev home : CollectionForm
home = record {
  uri = codes " ";
  display_name = codes "Home & Garden";
  description = [];
  color = [];
  type = codes "calendar";
}

ann_there : user_at database (codes "1") ≡ some ann
unfolding user_at path_id edav.Base.Decimal.parse_int edav.Storage.Users.user_by_id
ann_there = refl

calendar_asked : is_known (collection_type home.type) ≡ true
unfolding collection_type is_known edav.Base.Bytes.equal
calendar_asked = refl

uri_blank : trim_space home.uri ≡ []
unfolding trim_space
uri_blank = refl

home_slug : slugify (trim_space home.display_name) ≡ codes "home-garden"
unfolding slugify edav.Base.Bytes.to_lower trim_space
home_slug = refl

home_named : slugify (trim_space home.display_name) ≢ []
home_named h = absurd (ground (arith, home_slug, h))

create_for-derived_example :
    Taken database 1
      (slugify (trim_space home.display_name))
      (slugify (trim_space home.display_name))
      2
      free_rounds
    ⊎ ((c : Collection) × ((create_for 5 database (codes "1") home).1 ≡ redirected)
        × (matches_slug c.uri ≡ true)
        × (collection_by_uri (create_for 5 database (codes "1") home).0 1 c.uri ≡ some c)
        × (c.display_name ≡ trim_space home.display_name)
        × (c.type ≡ collection_type home.type))
create_for-derived_example =
    create_for-derived 5 database (codes "1") home ann ann_there calendar_asked uri_blank home_named
