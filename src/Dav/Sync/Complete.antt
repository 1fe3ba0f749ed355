-- ===== src/Dav/Sync/Complete.antt =====
-- internal/dav/sync.go without a limit: an answer applied to what a client held.
use edav.Base.{
  ℕ, ◌<◌, ◌≤◌, ◌^◌, Bool, true, false, ◌&&◌, ◌||◌, List, [], ◌∷◌, Option, none, some, ◌==◌, ==_iff,
  ltb, leb, if◌then◌else◌, any, keep, ◌≡◌, ◌⊎◌, inl, inr, refl, ◌∙◌, ap, arith, Option-cases,
}
use edav.Base.Bytes.{Bytes, equal, equal_iff}
use edav.Base.Rows.{
  select, select-append, select_sound, any-append, any-sort_by, any-keep, any_congr, sort_by,
}
use edav.Storage.{ok, Collection, Object, ChangeRow, Database}
use edav.Storage.Collections.{collection_by_id}
use edav.Storage.Objects.{at_uri, object_by_uri, changes_since}
use edav.Storage.Changes.{changed_after}
use edav.Storage.History.{ObjectIds, History, Tracks, History-Tracks}
use edav.Dav.Sync.Token.{decode-encode_sync_token}
use edav.Dav.Sync.{
  SyncChanges, SyncResult, synced, encode_sync_token, decode_sync_token, take_change, no_changes,
  gather, collect_sync,
}

abbrev pub named : Bytes → Object → Bool
named uri o = equal o.uri uri

-- What a client holds at a URI when it has applied the answer to what it held.
abbrev pub merged : SyncChanges → (Bytes → Option Object) → Bytes → Option Object
merged out old uri = elim (select (named uri) out.updated) [
  | some o ↦ some o
  | none ↦ if any (equal uri) out.deleted then none else old uri
]

-- What the loop has gathered is the present state of the URIs that it has met.
record Gathered (db : Database) (cid : ℕ) (uri : Bytes) (met : Bool) (out : SyncChanges)
    : Type 0 where
  updated_now : select (named uri) out.updated ≡ (if met then object_by_uri db cid uri else none)
  deleted_now :
      any (equal uri) out.deleted
      ≡ (met && elim (object_by_uri db cid uri) [ none ↦ true | some o ↦ false ])

abbrev is_change_of : Bytes → ChangeRow → Bool
is_change_of uri ch = equal ch.object_uri uri

object_by_uri-uri :
    (db : Database) (cid : ℕ) (uri : Bytes) {o : Object}
    → object_by_uri db cid uri ≡ some o
    → o.uri ≡ uri
unfolding object_by_uri
object_by_uri-uri db cid uri {o} h =
    let here : at_uri cid uri o ≡ true = select_sound (at_uri cid uri) db.objects h in
    ground (arith, equal_iff o.uri uri)

take_change-Gathered :
    (db : Database) (cid : ℕ) (uri : Bytes) (ch : ChangeRow) (met : Bool) (out : SyncChanges)
    → Gathered db cid uri met out
    → Gathered db cid uri (met || is_change_of uri ch) (take_change db cid out ch)
unfolding take_change
take_change-Gathered db cid uri ch met out g =
    elim (Option-cases (object_by_uri db cid ch.object_uri)) [
      | inl e ↦ ground (
        arith,
        any-append (equal uri) out.deleted (ch.object_uri ∷ []),
        equal_iff uri ch.object_uri,
        equal_iff ch.object_uri uri,
      )
      | inr (o, e) ↦ ground (
        arith,
        select-append (named uri) out.updated (o ∷ []),
        equal_iff uri ch.object_uri,
        equal_iff ch.object_uri uri,
        equal_iff o.uri uri,
        object_by_uri-uri db cid ch.object_uri {o = o} e,
      )
    ]

or_later :
    (met b rest : Bool) → ((met || b) || rest) ≡ (met || elim b [ true ↦ true | false ↦ rest ])
or_later met b rest = ground arith

gather-Gathered :
    (db : Database) (cid : ℕ) (uri : Bytes) (chs : List ChangeRow) (met : Bool) (out : SyncChanges)
    → Gathered db cid uri met out
    → Gathered db cid uri (met || any (is_change_of uri) chs) (gather db cid 0 out chs)
unfolding gather
gather-Gathered db cid uri [] true out g = g
gather-Gathered db cid uri [] false out g = g
gather-Gathered db cid uri (ch ∷ chs) met out g = rw or_later at (
    gather-Gathered db cid uri chs (met || is_change_of uri ch) (take_change db cid out ch)
      (take_change-Gathered db cid uri ch met out g))

and_regroup : (a b c : Bool) → (a && c && b) ≡ (a && b && c)
and_regroup a b c = ground arith

-- What `ChangesSince` reads.
abbrev pub changes_behind : Database → ℕ → ℕ → List ChangeRow
changes_behind db cid since =
    sort_by (λ a b. leb a.seq b.seq)
      (keep (λ ch. ch.collection_id == cid && ltb since ch.seq) db.changes)

-- The URIs in the answer of `ChangesSince` are those with a change behind the position.
changes_since-any :
    (db : Database) (cid since : ℕ) (uri : Bytes)
    → any (is_change_of uri) (changes_behind db cid since)
      ≡ any (changed_after cid uri since) db.changes
changes_since-any db cid since uri =
    any-sort_by (is_change_of uri) (λ a b. leb a.seq b.seq) _
    ∙ any-keep (is_change_of uri) (λ ch. ch.collection_id == cid && ltb since ch.seq) db.changes
    ∙ any_congr _ (changed_after cid uri since)
        (λ ch. and_regroup (ch.collection_id == cid) (equal ch.object_uri uri) (ltb since ch.seq))
        db.changes

-- What a client that held `old` holds after the answer.
abbrev pub Brings : (Bytes → Option Object) → ℕ → Database → Collection → SyncResult → Type 0
Brings old cid db c r =
    (out : SyncChanges) × (r ≡ synced out)
    × ((uri : Bytes) → merged out old uri ≡ object_by_uri db cid uri)
    × (out.token ≡ encode_sync_token c.sync_seq)

collection_by_id-id :
    (db : Database) (cid : ℕ) {c : Collection} → collection_by_id db cid ≡ some c → c.id ≡ cid
unfolding collection_by_id
collection_by_id-id db cid {c} h =
    (==_iff c.id cid).0 (select_sound (λ (r : Collection). r.id == cid) db.collections h)

token-take_change :
    (db : Database) (cid : ℕ) (out : SyncChanges) (ch : ChangeRow)
    → (take_change db cid out ch).token ≡ out.token
unfolding take_change
token-take_change db cid out ch = ground arith

pub token-gather :
    (db : Database) (cid limit : ℕ) (chs : List ChangeRow) (out : SyncChanges)
    → (gather db cid limit out chs).token ≡ out.token
unfolding gather
token-gather db cid limit [] out = refl
token-gather db cid limit (ch ∷ chs) out = ground (
  arith,
  token-gather db cid limit chs (take_change db cid out ch),
  token-take_change db cid out ch,
)

Gathered-merged :
    (db : Database) (cid : ℕ) (uri : Bytes) (met : Bool) (out : SyncChanges)
    (old : Bytes → Option Object)
    → Gathered db cid uri met out
    → (object_by_uri db cid uri ≡ old uri) ⊎ (met ≡ true)
    → merged out old uri ≡ object_by_uri db cid uri
Gathered-merged db cid uri met out old g h = ground arith

pub changes_since-eq :
    (db : Database) (cid since : ℕ) {c : Collection}
    → collection_by_id db cid ≡ some c
    → changes_since db cid since ≡ ok (changes_behind db cid since, c.sync_seq)
unfolding changes_since
changes_since-eq db cid since h = ground arith

pub collect_sync-gather :
    (db : Database) (c : Collection) (token : Bytes) (limit : ℕ) {since : ℕ}
    {changes : List ChangeRow}
    → decode_sync_token token c.sync_seq ≡ some since
    → changes_since db c.id since ≡ ok (changes, c.sync_seq)
    → collect_sync db c token limit ≡ synced (gather db c.id limit (no_changes c.sync_seq) changes)
unfolding collect_sync
collect_sync-gather db c token limit h k = ground arith

-- The answer at a position since when the log has tracked the collection.
Tracks-Brings :
    (old : Bytes → Option Object) (cid since : ℕ) (db : Database) (c : Collection) (token : Bytes)
    → Tracks old cid since db
    → collection_by_id db cid ≡ some c
    → decode_sync_token token c.sync_seq ≡ some since
    → Brings old cid db c (collect_sync db c token 0)
Tracks-Brings old cid since db c token t found h =
    let same = collection_by_id-id db cid found in
    let chs = changes_behind db cid since in
    let out = gather db cid 0 (no_changes c.sync_seq) chs in
    (
      out,
      collect_sync-gather db c token 0 h (rw same (changes_since-eq db cid since found))
          ∙ ap (λ (k : ℕ). synced (gather db k 0 (no_changes c.sync_seq) chs)) same,
      (λ uri.
          Gathered-merged db cid uri (any (is_change_of uri) chs) out old
            (gather-Gathered db cid uri chs false (no_changes c.sync_seq)
              (record { updated_now = refl; deleted_now = refl }))
            (rw (changes_since-any db cid since uri) (t.differs uri))),
      token-gather db cid 0 chs (no_changes c.sync_seq),
    )

here-le :
    {old : Bytes → Option Object} {cid since : ℕ} {db : Database} {c : Collection}
    → Tracks old cid since db
    → collection_by_id db cid ≡ some c
    → since ≤ c.sync_seq
here-le t found = let (d, found', le) = t.here in ground arith

module _ (etag_for : Bytes → Bytes) (a b : Database) (cid : ℕ) (before after : Collection)
    (ids : ObjectIds a) (history : History etag_for a b)
    (was : collection_by_id a cid ≡ some before) (is : collection_by_id b cid ≡ some after) where
  -- The ids of the objects are distinct, the sequence number fits 63 bits and there is no limit.
  -- A client that holds the collection as it was at a token, and sends the token after any writes,
  -- holds the collection as it is when it has applied the answer, and has the token of that state.
  pub collect_sync_incremental :
      after.sync_seq < 2 ^ 63
      → Brings
          (object_by_uri a cid)
          cid
          b
          after
          (collect_sync b after (encode_sync_token before.sync_seq) 0)
  collect_sync_incremental h =
      let t =
        History-Tracks etag_for (object_by_uri a cid) cid before.sync_seq
          (record { ids = ids; here = (before, was, omega arith); differs = λ uri. inl refl })
          history in
      let reached = here-le t is in
      Tracks-Brings (object_by_uri a cid) cid before.sync_seq b after _ t is
        (decode-encode_sync_token before.sync_seq after.sync_seq (omega arith) ∙ ground arith)

  -- A client that holds nothing, and asks with no token and no limit, gets the collection as it is, if
  -- the collection was empty at some time and the ids of the objects were distinct then.
  pub collect_sync_initial :
      ((uri : Bytes) → object_by_uri a cid uri ≡ none)
      → Brings (λ _. none) cid b after (collect_sync b after [] 0)
  collect_sync_initial none_there =
      let t =
        History-Tracks etag_for (λ _. none) cid 0
          (record {
            ids = ids;
            here = (before, was, omega arith);
            differs = λ uri. inl (none_there uri);
          })
          history in
      Tracks-Brings (λ _. none) cid 0 b after [] t is (unfold decode_sync_token in refl)
