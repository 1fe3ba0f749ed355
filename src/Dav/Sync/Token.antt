-- ===== src/Dav/Sync/Token.antt =====
-- internal/dav/sync.go: reading sync tokens.
use edav.Base.{ℕ, ◌<◌, ◌^◌, ◌++◌, none, some, ◌≡◌, ◌∙◌, arith, ltb, if◌then◌else◌}
use edav.Base.Bytes.{Bytes, cut_prefix-append}
use edav.Base.Decimal.{format_int, parse_int-format_int}
use edav.Dav.Sync.{sync_token_prefix, encode_sync_token, decode_seq, decode_sync_token}

decode_prefixed :
    (digits : Bytes) (current : ℕ)
    → decode_sync_token (sync_token_prefix ++ digits) current ≡ decode_seq current digits
unfolding decode_sync_token
decode_prefixed digits current = rw (cut_prefix-append sync_token_prefix digits, decode_sync_token)

-- A token issued for a position below 2 ^ 63 is read back as that position, at any later time; when the collection
-- is behind that position, as after a restore, the token is refused.
pub decode-encode_sync_token :
    (seq current : ℕ)
    → seq < 2 ^ 63
    → decode_sync_token (encode_sync_token seq) current
      ≡ (if ltb current seq then none else some seq)
unfolding encode_sync_token decode_seq
decode-encode_sync_token seq current h =
    decode_prefixed (format_int seq) current ∙ ground (arith, parse_int-format_int seq h)
