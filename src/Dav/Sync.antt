-- ===== src/Dav/Sync.antt =====
-- internal/dav/sync.go: sync tokens, and what changed behind one.
pub mod Token
pub mod Complete
pub mod Truncated
use edav.Base.{
  ℕ, ◌+◌, Bool, true, false, not, ◌&&◌, ◌||◌, List, [], ◌∷◌, ◌++◌, Option, none, some, ◌==◌, ltb,
  leb, if◌then◌else◌, length,
}
use edav.Base.Bytes.{Bytes, codes, cut_prefix}
use edav.Base.Decimal.{format_int, parse_int}
use edav.Base.Int.{pos, negsuc}
use edav.Storage.{StorageError, Result, ok, err, Collection, Object, ChangeRow, Database}
use edav.Storage.Objects.{object_by_uri, changes_since}

abbrev pub sync_token_prefix : Bytes
sync_token_prefix = codes "urn:edav:sync:"

unfoldable pub encode_sync_token : ℕ → Bytes
encode_sync_token seq = sync_token_prefix ++ format_int seq

-- `none` is `errInvalidSyncToken`.
unfoldable pub decode_seq : ℕ → Bytes → Option ℕ
decode_seq current digits = elim (parse_int digits) [
  | none ↦ none
  | some (negsuc n) ↦ none
  | some (pos seq) ↦ if ltb current seq then none else some seq
]

unfoldable pub decode_sync_token : Bytes → ℕ → Option ℕ
decode_sync_token [] current = some 0
decode_sync_token (c ∷ token) current = elim (cut_prefix (c ∷ token) sync_token_prefix) [
  | none ↦ none
  | some digits ↦ decode_seq current digits
]

pub record SyncChanges : Type 0 where
  pub updated : List Object
  pub deleted : List Bytes
  pub token : Bytes

pub data SyncError : Type 0 where
  invalid_token : SyncError
  storage : StorageError → SyncError

pub data SyncResult : Type 0 where
  synced : SyncChanges → SyncResult
  failed : SyncError → SyncResult

-- One round of the loop of `collectSync`: an object that is no longer there is reported as deleted.
unfoldable pub take_change : Database → ℕ → SyncChanges → ChangeRow → SyncChanges
take_change db cid out ch = elim (object_by_uri db cid ch.object_uri) [
  | none ↦ record out { deleted = out.deleted ++ ch.object_uri ∷ [] }
  | some o ↦ record out { updated = out.updated ++ o ∷ [] }
]

-- The loop over the changes; `out` is what it has gathered.
unfoldable pub gather : Database → ℕ → ℕ → SyncChanges → List ChangeRow → SyncChanges
gather db cid limit out [] = out
gather db cid limit out (ch ∷ chs) =
    elim (ltb 0 limit && leb limit (length out.updated + length out.deleted)) [
      | true ↦ out
      | false ↦ gather db cid limit (take_change db cid out ch) chs
    ]

abbrev pub no_changes : ℕ → SyncChanges
no_changes current = record { updated = []; deleted = []; token = encode_sync_token current }

-- `collectSync` for collection `c`; a limit that is not positive is none.
unfoldable pub collect_sync : Database → Collection → Bytes → ℕ → SyncResult
collect_sync db c token limit = elim (decode_sync_token token c.sync_seq) [
  | none ↦ failed invalid_token
  | some since ↦ elim (changes_since db c.id since) [
    | err e ↦ failed (storage e)
    | ok (changes, current) ↦ synced (gather db c.id limit (no_changes current) changes)
  ]
]
