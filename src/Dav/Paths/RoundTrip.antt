-- ===== src/Dav/Paths/RoundTrip.antt =====
-- internal/dav/path.go: parsing the paths that the builders make.
use edav.Base.{
  false, List, [], ◌∷◌, ◌++◌, some, ◌==◌, any, ◌≡◌, ◌≢◌, refl, sym, ◌∙◌, ap, arith, append_assoc,
  append-nil,
}
use edav.Base.Bytes.{Bytes, cut_prefix-append, split, split_onto}
use edav.Base.Split.{split_onto-plain}
use edav.Dav.Paths.{
  Resource, root, principal, address_book_home, address_book, address_object, calendar_home,
  calendar, calendar_object, slash, principals_segment, address_books_segment, calendars_segment,
  root_path, home_path, principal_path, address_book_home_path, address_book_path,
  address_object_path, calendar_home_path, calendar_path, calendar_object_path, non_empty,
  split_path, resolve_segments, parse,
}

-- A name that can be one segment of a path.
pub record IsSegment (s : Bytes) : Type 0 where
  pub filled : s ≢ []
  pub no_slash : any (λ c. c == b'/') s ≡ false

non_empty-cons : (s : Bytes) (ss : List Bytes) → s ≢ [] → non_empty (s ∷ ss) ≡ s ∷ non_empty ss
unfolding non_empty
non_empty-cons [] ss h = absurd (h refl)
non_empty-cons (c ∷ s) ss h = refl

-- A segment and a slash in front of a path.
split_path-cons :
    (s rest : Bytes) → IsSegment s → split_path (s ++ (b'/' ∷ rest)) ≡ s ∷ split_path rest
unfolding split_path split
split_path-cons s rest h =
    ap non_empty (split_onto-plain b'/' s [] (b'/' ∷ rest) h.no_slash)
    ∙ unfold split_onto in non_empty-cons s _ h.filled

split_path_last : (s : Bytes) → IsSegment s → split_path s ≡ s ∷ []
unfolding split_path split
split_path_last s h =
    ap (λ (t : Bytes). non_empty (split_onto b'/' [] t)) (sym (append-nil s))
    ∙ ap non_empty (split_onto-plain b'/' s [] [] h.no_slash)
    ∙ unfold split_onto non_empty in non_empty-cons s [] h.filled

split_path_slash : (rest : Bytes) → split_path (b'/' ∷ rest) ≡ split_path rest
unfolding split_path split split_onto non_empty
split_path_slash rest = refl

non_empty_congr :
    (s : Bytes) (a b : List Bytes)
    → non_empty a ≡ non_empty b
    → non_empty (s ∷ a) ≡ non_empty (s ∷ b)
unfolding non_empty
non_empty_congr [] a b h = h
non_empty_congr (c ∷ s) a b h = ap (◌∷◌ (c ∷ s)) h

split_onto_snoc :
    (s cur : Bytes)
    → non_empty (split_onto b'/' cur (s ++ slash)) ≡ non_empty (split_onto b'/' cur s)
unfolding split_onto
split_onto_snoc [] [] = unfold non_empty in refl
split_onto_snoc [] (c ∷ cur) = unfold non_empty in refl
split_onto_snoc (c ∷ s) cur = ground (
  arith,
  split_onto_snoc s (cur ++ c ∷ []),
  split_onto_snoc s [],
  non_empty_congr cur (split_onto b'/' [] (s ++ slash)) (split_onto b'/' [] s),
)

parse_prefixed :
    (prefix rest : Bytes) → parse prefix (prefix ++ rest) ≡ resolve_segments (split_path rest)
unfolding parse
parse_prefixed prefix rest = ground (arith, cut_prefix-append prefix rest)

split_path_end : (rest : Bytes) → split_path (rest ++ slash) ≡ split_path rest
unfolding split_path split
split_path_end rest = split_onto_snoc rest []

-- A trailing slash does not change what a path behind the prefix names.
parse-slash :
    (prefix rest : Bytes) → parse prefix (prefix ++ (rest ++ slash)) ≡ parse prefix (prefix ++ rest)
parse-slash prefix rest =
    parse_prefixed prefix (rest ++ slash)
    ∙ ap resolve_segments (split_path_end rest)
    ∙ sym (parse_prefixed prefix rest)

home_path-append :
    (prefix segment user rest : Bytes)
    → home_path prefix segment user ++ rest
      ≡ prefix ++ (b'/' ∷ (segment ++ (b'/' ∷ (user ++ (b'/' ∷ rest)))))
unfolding home_path
home_path-append prefix segment user rest = simp append_assoc

parse-home_path :
    (prefix segment user rest : Bytes)
    → IsSegment segment
    → IsSegment user
    → parse prefix (home_path prefix segment user ++ rest)
      ≡ resolve_segments (segment ∷ user ∷ split_path rest)
parse-home_path prefix segment user rest hs hu =
    ap (parse prefix) (home_path-append prefix segment user rest)
    ∙ parse_prefixed prefix (b'/' ∷ (segment ++ (b'/' ∷ (user ++ (b'/' ∷ rest)))))
    ∙ ap resolve_segments (split_path_slash _ ∙ split_path-cons segment _ hs)
    ∙ ap (λ (ss : List Bytes). resolve_segments (segment ∷ ss)) (split_path-cons user rest hu)

-- The path that the server builds for a resource.
abbrev pub path_of : Bytes → Resource → Bytes
path_of prefix root = root_path prefix
path_of prefix (principal user) = principal_path prefix user
path_of prefix (address_book_home user) = address_book_home_path prefix user
path_of prefix (calendar_home user) = calendar_home_path prefix user
path_of prefix (address_book user c) = address_book_path prefix user c
path_of prefix (calendar user c) = calendar_path prefix user c
path_of prefix (address_object user c o) = address_object_path prefix user c o
path_of prefix (calendar_object user c o) = calendar_object_path prefix user c o

-- Every name of the resource can be a segment.
abbrev pub IsNamed : Resource → Type 0
IsNamed root = Unit
IsNamed (principal user) = IsSegment user
IsNamed (address_book_home user) = IsSegment user
IsNamed (calendar_home user) = IsSegment user
IsNamed (address_book user c) = IsSegment user × IsSegment c
IsNamed (calendar user c) = IsSegment user × IsSegment c
IsNamed (address_object user c o) = IsSegment user × IsSegment c × IsSegment o
IsNamed (calendar_object user c o) = IsSegment user × IsSegment c × IsSegment o

literal : (s : Bytes) → s ≢ [] → any (λ c. c == b'/') s ≡ false → IsSegment s
literal s f n = record { filled = f; no_slash = n }

-- A member of a home: the collection's segment, and what is behind it.
parse_member :
    (prefix segment user collection rest : Bytes)
    → IsSegment segment
    → IsSegment user
    → IsSegment collection
    → parse prefix ((home_path prefix segment user ++ (collection ++ slash)) ++ rest)
      ≡ resolve_segments (segment ∷ user ∷ collection ∷ split_path rest)
parse_member prefix segment user collection rest hs hu hc =
    ap (parse prefix) (append_assoc (home_path prefix segment user) (collection ++ slash) rest)
    ∙ parse-home_path prefix segment user ((collection ++ slash) ++ rest) hs hu
    ∙ ap (λ (t : Bytes). resolve_segments (segment ∷ user ∷ split_path t))
        (append_assoc collection slash rest)
    ∙ ap (λ (ss : List Bytes). resolve_segments (segment ∷ user ∷ ss))
        (split_path-cons collection rest hc)

split_path-nil : split_path [] ≡ []
unfolding split_path split split_onto non_empty
split_path-nil = refl

-- The three depths of a tree.
module _ (prefix segment user : Bytes) (hs : IsSegment segment) (hu : IsSegment user) where
  at_home : parse prefix (home_path prefix segment user) ≡ resolve_segments (segment ∷ user ∷ [])
  at_home =
      ap (parse prefix) (sym (append-nil (home_path prefix segment user)))
      ∙ parse-home_path prefix segment user [] hs hu
      ∙ ap (λ (ss : List Bytes). resolve_segments (segment ∷ user ∷ ss)) split_path-nil

  at_object :
      (c o : Bytes)
      → IsSegment c
      → IsSegment o
      → parse prefix ((home_path prefix segment user ++ (c ++ slash)) ++ o)
        ≡ resolve_segments (segment ∷ user ∷ c ∷ o ∷ [])
  at_object c o hc ho =
      parse_member prefix segment user c o hs hu hc
      ∙ ap (λ (ss : List Bytes). resolve_segments (segment ∷ user ∷ c ∷ ss)) (split_path_last o ho)

  at_collection :
      (c : Bytes)
      → IsSegment c
      → parse prefix (home_path prefix segment user ++ (c ++ slash))
        ≡ resolve_segments (segment ∷ user ∷ c ∷ [])
  at_collection c hc =
      ap (parse prefix) (sym (append-nil (home_path prefix segment user ++ (c ++ slash))))
      ∙ parse_member prefix segment user c [] hs hu hc
      ∙ ap (λ (ss : List Bytes). resolve_segments (segment ∷ user ∷ c ∷ ss)) split_path-nil

principals : IsSegment principals_segment
principals = literal principals_segment (cc) refl

address_books : IsSegment address_books_segment
address_books = literal address_books_segment (cc) refl

calendars : IsSegment calendars_segment
calendars = literal calendars_segment (cc) refl

-- The server reads every path that it hands out as the resource that it stands for, if no name in it is
-- empty or has a slash.
pub parse-path_of :
    (prefix : Bytes) (r : Resource) → IsNamed r → parse prefix (path_of prefix r) ≡ some r
unfolding resolve_segments root_path principal_path address_object_path calendar_object_path
parse-path_of prefix root h =
    parse_prefixed prefix slash ∙ ap resolve_segments (split_path_slash [] ∙ split_path-nil)
parse-path_of prefix (principal user) h = at_home prefix _ user principals h
parse-path_of prefix (address_book_home user) h = at_home prefix _ user address_books h
parse-path_of prefix (calendar_home user) h = at_home prefix _ user calendars h
parse-path_of prefix (address_book user c) h = at_collection prefix _ user address_books h.0 c h.1
parse-path_of prefix (calendar user c) h = at_collection prefix _ user calendars h.0 c h.1
parse-path_of prefix (address_object user c o) h =
    at_object prefix _ user address_books h.0 c o h.1 h.2
parse-path_of prefix (calendar_object user c o) h =
    at_object prefix _ user calendars h.0 c o h.1 h.2
