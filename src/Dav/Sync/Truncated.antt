-- ===== src/Dav/Sync/Truncated.antt =====
-- internal/dav/sync.go with a limit: what a client is told that goes on from a truncated answer.
use edav.Base.{
  ℕ, ◌<◌, ◌^◌, false, ◌&&◌, List, [], ◌∷◌, some, ◌==◌, ltb, keep, ◌≡◌, refl, sym, ◌∙◌, arith,
  Option-cases, inl, inr,
}
use edav.Base.Bytes.{Bytes}
use edav.Storage.{Collection, ChangeRow, Database}
use edav.Storage.Collections.{collection_by_id}
use edav.Dav.Sync.{
  SyncChanges, synced, decode_sync_token, encode_sync_token, collect_sync, gather, no_changes,
}
use edav.Dav.Sync.Token.{decode-encode_sync_token}
use edav.Dav.Sync.Complete.{collect_sync-gather, changes_since-eq, token-gather, changes_behind}

-- No entry of the log is ahead of its collection.
abbrev pub LogReached : ℕ → ℕ → List ChangeRow → Type 0
LogReached cid seq [] = Unit
LogReached cid seq (ch ∷ chs) =
    ((ch.collection_id == cid && ltb seq ch.seq) ≡ false) × LogReached cid seq chs

nothing_ahead :
    (cid seq : ℕ) (chs : List ChangeRow)
    → LogReached cid seq chs
    → keep (λ ch. ch.collection_id == cid && ltb seq ch.seq) chs ≡ []
nothing_ahead cid seq [] h = refl
nothing_ahead cid seq (ch ∷ chs) (h, hs) = ground (arith, nothing_ahead cid seq chs hs)

changes_behind-now :
    (db : Database) (cid seq : ℕ) → LogReached cid seq db.changes → changes_behind db cid seq ≡ []
changes_behind-now db cid seq h = rw (nothing_ahead cid seq db.changes h) refl

module _ (db : Database) (c : Collection) (found : collection_by_id db c.id ≡ some c)
    (reached : LogReached c.id c.sync_seq db.changes) (bounded : c.sync_seq < 2 ^ 63) where
  answer-current :
      (limit : ℕ)
      → collect_sync db c (encode_sync_token c.sync_seq) limit ≡ synced (no_changes c.sync_seq)
  answer-current limit =
      collect_sync-gather db c (encode_sync_token c.sync_seq) limit
        (decode-encode_sync_token c.sync_seq c.sync_seq bounded ∙ ground arith)
        (changes_since-eq db c.id c.sync_seq found)
      ∙ rw (changes_behind-now db c.id c.sync_seq reached) (unfold gather in refl)

  token-collect_sync :
      (token : Bytes) (limit : ℕ) {out : SyncChanges}
      → collect_sync db c token limit ≡ synced out
      → out.token ≡ encode_sync_token c.sync_seq
  token-collect_sync token limit {out} h =
      elim (Option-cases (decode_sync_token token c.sync_seq)) [
        | inl e ↦ absurd (unfold collect_sync in ground (arith, h))
        | inr (since, e) ↦
            let same =
              sym h
              ∙ collect_sync-gather db c token limit {since = since} e
                  (changes_since-eq db c.id since found) in
            ground (
              arith,
              same,
              token-gather db c.id limit (changes_behind db c.id since) (no_changes c.sync_seq),
            )
      ]

  -- Whatever a limit has cut off an answer, a client that goes on from the token of that answer is told
  -- that nothing has changed, as long as no entry of the log is ahead of its collection and the sequence
  -- number fits 63 bits.
  pub collect_sync_again :
      (token : Bytes) (limit again : ℕ) {out : SyncChanges}
      → collect_sync db c token limit ≡ synced out
      → collect_sync db c out.token again ≡ synced (no_changes c.sync_seq)
  collect_sync_again token limit again {out} h =
      rw (token-collect_sync token limit {out = out} h) (answer-current again)
