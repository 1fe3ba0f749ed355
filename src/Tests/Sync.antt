-- ===== src/Tests/Sync.antt =====
-- A client of sync-collection behind a few writes.
use edav.Base.{false, [], ◌∷◌, none, some, ltb, if◌then◌else◌, ◌≡◌, refl, arith, inl}
use edav.Base.Bytes.{Bytes, codes, equal}
use edav.Base.Decimal.{format_int}
use edav.Storage.{Collection, addressbook, Object, Database}
use edav.Storage.Collections.{collection_by_id, ctag_for}
use edav.Storage.Objects.{object_by_uri, put_object, delete_object, write_object, record_change}
use edav.Storage.History.{History, start, put, remove, Tracks, History-Tracks}
use edav.Dav.Sync.{encode_sync_token, decode_sync_token, collect_sync}
use edav.Dav.Sync.{synced, SyncChanges, gather, take_change, no_changes}
use edav.Storage.Objects.{changes_since}
use edav.Dav.Sync.Truncated.{LogReached, collect_sync_again}
use edav.Dav.Sync.Token.{decode-encode_sync_token}
use edav.Dav.Sync.Complete.{Brings, collect_sync_incremental, collect_sync_initial}

abbrev book : Collection
book = record {
  id = 1;
  owner_id = 1;
  type = addressbook;
  uri = codes "home";
  display_name = [];
  description = [];
  color = [];
  timezone = [];
  ctag = codes "0";
  sync_seq = 0;
  created_at = 0;
  updated_at = 0;
}

abbrev empty : Database
empty = record { users = []; collections = book ∷ []; objects = []; changes = []; sessions = [] }

abbrev contact : Bytes → Bytes → Object
contact uri raw = record {
  id = 0;
  collection_id = 1;
  uri = uri;
  etag = [];
  raw = raw;
  uid = [];
  component_type = [];
  display_name = [];
  start_at = none;
  end_at = none;
  recurring = false;
  created_at = 0;
  updated_at = 0;
}

-- A hash that is the text itself.
abbrev itself : Bytes → Bytes
itself raw = raw

abbrev first_uri : Bytes
first_uri = codes "1"

abbrev second_uri : Bytes
second_uri = codes "2"

abbrev one : Database
one = (put_object itself 5 empty (contact first_uri (codes "a"))).0

abbrev two : Database
two = (put_object itself 6 one (contact second_uri (codes "b"))).0

abbrev three : Database
three = (delete_object 7 two 1 first_uri).0

writes : History itself empty three
writes =
    remove 7 1 first_uri
      (put 6 (contact second_uri (codes "b")) (put 5 (contact first_uri (codes "a")) start refl)
        refl)
      refl

-- The collection behind the three writes.
abbrev book_now : Collection
book_now = record book { sync_seq = 3; ctag = codes "3"; updated_at = 7 }

book_there : collection_by_id empty 1 ≡ some book
unfolding collection_by_id
book_there = refl

three_writes : collection_by_id three 1 ≡ some book_now
unfolding collection_by_id put_object delete_object write_object record_change object_by_uri
    ctag_for format_int equal
three_writes = refl

nothing_there : (uri : Bytes) → object_by_uri empty 1 uri ≡ none
unfolding object_by_uri
nothing_there uri = refl

collect_sync_incremental_example :
    Brings
      (object_by_uri empty 1)
      1
      three
      book_now
      (collect_sync three book_now (encode_sync_token 0) 0)
collect_sync_incremental_example =
    collect_sync_incremental itself empty three 1 book book_now tt writes book_there three_writes
      (omega arith)

collect_sync_initial_example :
    Brings (λ _. none) 1 three book_now (collect_sync three book_now [] 0)
collect_sync_initial_example =
    collect_sync_initial itself empty three 1 book book_now tt writes book_there three_writes
      nothing_there

empty-Tracks : Tracks (object_by_uri empty 1) 1 0 empty
empty-Tracks = record {
  ids = tt;
  here = (book, book_there, omega arith);
  differs = λ uri. inl refl;
}

History-Tracks_example : Tracks (object_by_uri empty 1) 1 0 three
History-Tracks_example = History-Tracks itself (object_by_uri empty 1) 1 0 empty-Tracks writes

decode-encode_sync_token_example :
    decode_sync_token (encode_sync_token 12) 40 ≡ (if ltb 40 12 then none else some 12)
decode-encode_sync_token_example = decode-encode_sync_token 12 40 (omega arith)

-- An answer cut off behind the first of two changes.
abbrev book_two : Collection
book_two = record book { sync_seq = 2; ctag = codes "2"; updated_at = 6 }

abbrev stored : Object
stored = record (contact first_uri (codes "a")) {
  id = 1;
  etag = codes "a";
  created_at = 5;
  updated_at = 5;
}

abbrev cut_off : SyncChanges
cut_off = record { updated = stored ∷ []; deleted = []; token = encode_sync_token 2 }

book_two_there : collection_by_id two 1 ≡ some book_two
unfolding collection_by_id put_object delete_object write_object record_change object_by_uri
    ctag_for format_int equal
book_two_there = refl

two-LogReached : LogReached 1 2 two.changes
unfolding collection_by_id put_object delete_object write_object record_change object_by_uri
    ctag_for format_int equal
two-LogReached = (refl, (refl, tt))

first_answer : collect_sync two book_two [] 1 ≡ synced cut_off
unfolding collect_sync changes_since gather take_change decode_sync_token collection_by_id
    put_object delete_object write_object record_change object_by_uri ctag_for format_int equal
first_answer = refl

collect_sync_again_example :
    collect_sync two book_two cut_off.token 1 ≡ synced (no_changes book_two.sync_seq)
collect_sync_again_example =
    collect_sync_again two book_two book_two_there two-LogReached (omega arith) [] 1 1
      {out = cut_off} first_answer
