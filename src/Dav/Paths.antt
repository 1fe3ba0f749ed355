-- ===== src/Dav/Paths.antt =====
-- internal/dav/path.go: request paths and what they name.
pub mod RoundTrip
use edav.Base.{ℕ, Bool, true, false, List, [], ◌∷◌, ◌++◌, Option, none, some, if◌then◌else◌}
use edav.Base.Bytes.{Bytes, codes, equal, cut_prefix, split}

-- A parsed path: `Resource` with its `Kind`; the fields that a kind does not use are empty in the
-- source and absent here.
pub data Resource : Type 0 where
  root : Resource
  principal address_book_home calendar_home : Bytes → Resource
  address_book calendar : Bytes → Bytes → Resource
  address_object calendar_object : Bytes → Bytes → Bytes → Resource

abbrev pub slash : Bytes
slash = b'/' ∷ []

abbrev pub principals_segment : Bytes
principals_segment = codes "principals"

abbrev pub address_books_segment : Bytes
address_books_segment = codes "addressbooks"

abbrev pub calendars_segment : Bytes
calendars_segment = codes "calendars"

-- Path builders; the first argument is `Paths.Prefix`.
unfoldable pub root_path : Bytes → Bytes
root_path prefix = prefix ++ slash

unfoldable pub home_path : Bytes → Bytes → Bytes → Bytes
home_path prefix segment user = prefix ++ (slash ++ (segment ++ (slash ++ (user ++ slash))))

unfoldable pub principal_path : Bytes → Bytes → Bytes
unfolding home_path
principal_path prefix user = home_path prefix principals_segment user

unfoldable pub address_book_home_path : Bytes → Bytes → Bytes
unfolding home_path
address_book_home_path prefix user = home_path prefix address_books_segment user

unfoldable pub address_book_path : Bytes → Bytes → Bytes → Bytes
unfolding address_book_home_path
address_book_path prefix user collection =
    address_book_home_path prefix user ++ (collection ++ slash)

unfoldable pub address_object_path : Bytes → Bytes → Bytes → Bytes → Bytes
unfolding address_book_path
address_object_path prefix user collection object =
    address_book_path prefix user collection ++ object

unfoldable pub calendar_home_path : Bytes → Bytes → Bytes
unfolding home_path
calendar_home_path prefix user = home_path prefix calendars_segment user

unfoldable pub calendar_path : Bytes → Bytes → Bytes → Bytes
unfolding calendar_home_path
calendar_path prefix user collection = calendar_home_path prefix user ++ (collection ++ slash)

unfoldable pub calendar_object_path : Bytes → Bytes → Bytes → Bytes → Bytes
unfolding calendar_path
calendar_object_path prefix user collection object = calendar_path prefix user collection ++ object

unfoldable pub non_empty : List Bytes → List Bytes
non_empty [] = []
non_empty ([] ∷ ss) = non_empty ss
non_empty ((c ∷ s) ∷ ss) = (c ∷ s) ∷ non_empty ss

unfoldable pub split_path : Bytes → List Bytes
split_path path = non_empty (split path b'/')

unfoldable pub address_resource : List Bytes → Option Resource
address_resource (user ∷ []) = some (address_book_home user)
address_resource (user ∷ collection ∷ []) = some (address_book user collection)
address_resource (user ∷ collection ∷ object ∷ []) = some (address_object user collection object)
address_resource _ = none

unfoldable pub calendar_resource : List Bytes → Option Resource
calendar_resource (user ∷ []) = some (calendar_home user)
calendar_resource (user ∷ collection ∷ []) = some (calendar user collection)
calendar_resource (user ∷ collection ∷ object ∷ []) = some (calendar_object user collection object)
calendar_resource _ = none

unfoldable pub principal_resource : List Bytes → Option Resource
principal_resource (user ∷ []) = some (principal user)
principal_resource _ = none

-- The switch on the first segment.
unfoldable pub resolve_segments : List Bytes → Option Resource
unfolding equal principal_resource address_resource calendar_resource
resolve_segments [] = some root
resolve_segments (s ∷ ss) =
    if equal s principals_segment
    then principal_resource ss
    else if equal s address_books_segment
    then address_resource ss
    else if equal s calendars_segment
    then calendar_resource ss
    else none

-- `Parse`; `none` is its error.
unfoldable pub parse : Bytes → Bytes → Option Resource
parse prefix path = elim (cut_prefix path prefix) [
  | none ↦ none
  | some rest ↦ resolve_segments (split_path rest)
]
