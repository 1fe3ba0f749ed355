-- ===== src/Auth/Password/RoundTrip.antt =====
-- internal/auth/password.go: verifying against a hash that was made here, and the bounds on any other.
use edav.Base.{
  ℕ, Bool, true, false, [], ◌∷◌, ◌++◌, none, some, ◌==◌, any, length, if◌then◌else◌, ◌≡◌, refl, ap,
  ◌∙◌, arith, All,
}
use edav.Base.Bytes.{Bytes, codes, equal, equal_self, split}
use edav.Base.Decimal.{parse_int, format_int, Digit, format_int-Digit}
use edav.Base.Rows.{any-append}
use edav.Base.Split.{split-cons, split_last}
use edav.Auth.Base64.{encode}
use edav.Auth.Base64.RoundTrip.{IsByte, decode-encode, encode-no_dollar}
use edav.Auth.Basic.{mismatch}
use edav.Auth.Password.{
  Params, in_range, is_within, max_salt_length, max_key_length, version_text, has_version,
  params_text, hash_text, with_lengths, decode_params, decode_parts, decode_hash,
  hash_password_with, verify_password,
}
use edav.Auth.Password.Scanned.{scan_params-params_text}

abbrev is_dollar : ℕ → Bool
is_dollar c = c == b'$'

any-Digit : (s : Bytes) → All Digit s → any is_dollar s ≡ false
any-Digit [] h = refl
any-Digit (c ∷ s) (d, h) = ground (arith, any-Digit s h)

any-format_int : (n : ℕ) → any is_dollar (format_int n) ≡ false
any-format_int n = any-Digit (format_int n) (format_int-Digit n)

any-params_text : (p : Params) → any is_dollar (params_text p) ≡ false
unfolding params_text
any-params_text p =
    let q = format_int p.parallelism in
    let behind_t = codes ",p=" ++ q in
    ground (
      arith,
      any-format_int p.memory,
      any-format_int p.time,
      any-format_int p.parallelism,
      any-append is_dollar (format_int p.memory) (codes ",t=" ++ (format_int p.time ++ behind_t)),
      any-append is_dollar (format_int p.time) behind_t,
    )

split-hash_text :
    (p : Params) (salt key : Bytes)
    → split (hash_text p salt key) b'$'
      ≡ [] ∷ codes "argon2id" ∷ version_text ∷ params_text p ∷ encode salt ∷ encode key ∷ []
unfolding hash_text
split-hash_text p salt key =
    let tail = encode salt ++ (b'$' ∷ encode key) in
    let params = params_text p ++ (b'$' ∷ tail) in
    let versioned = version_text ++ (b'$' ∷ params) in
    let named = codes "argon2id" ++ (b'$' ∷ versioned) in
    split-cons b'$' [] named refl
    ∙ ap (λ t. [] ∷ t)
        (split-cons b'$' (codes "argon2id") versioned refl
          ∙ ap (λ t. codes "argon2id" ∷ t)
              (split-cons b'$' version_text params refl
                ∙ ap (λ t. version_text ∷ t)
                    (split-cons b'$' (params_text p) tail (any-params_text p)
                      ∙ ap (λ t. params_text p ∷ t)
                          (split-cons b'$' (encode salt) (encode key) (encode-no_dollar salt)
                            ∙ ap (λ t. encode salt ∷ t)
                                (split_last b'$' (encode key) (encode-no_dollar key))))))

has_version-text : has_version version_text ≡ true
unfolding has_version parse_int
has_version-text = refl

decode_params-text :
    (p : Params) (salt key : Bytes)
    → in_range p ≡ true
    → is_within max_salt_length (length salt) ≡ true
    → is_within max_key_length (length key) ≡ true
    → All IsByte salt
    → All IsByte key
    → decode_params (params_text p) (encode salt) (encode key)
      ≡ some (record p { salt_length = length salt; key_length = length key }, salt, key)
unfolding decode_params with_lengths in_range
decode_params-text p salt key h ls lk bs bk =
    ground (arith, scan_params-params_text p h, decode-encode salt bs, decode-encode key bk)

decode_parts-text :
    (params salt key : Bytes)
    → decode_parts ([] ∷ codes "argon2id" ∷ version_text ∷ params ∷ salt ∷ key ∷ [])
      ≡ decode_params params salt key
unfolding decode_parts
decode_parts-text params salt key = ground (arith, equal_self (codes "argon2id"), has_version-text)

decode_hash-hash_text :
    (p : Params) (salt key : Bytes)
    → in_range p ≡ true
    → is_within max_salt_length (length salt) ≡ true
    → is_within max_key_length (length key) ≡ true
    → All IsByte salt
    → All IsByte key
    → decode_hash (hash_text p salt key)
      ≡ some (record p { salt_length = length salt; key_length = length key }, salt, key)
unfolding decode_hash
decode_hash-hash_text p salt key h ls lk bs bk =
    ap decode_parts (split-hash_text p salt key)
    ∙ (decode_parts-text (params_text p) (encode salt) (encode key)
        ∙ decode_params-text p salt key h ls lk bs bk)

module _ (id_key : Bytes → Bytes → ℕ → ℕ → ℕ → ℕ → Bytes)
    (id_key-length : (password salt : Bytes) (t m p n : ℕ)
      → length (id_key password salt t m p n) ≡ n)
    (id_key-bytes : (password salt : Bytes) (t m p n : ℕ)
      → All IsByte (id_key password salt t m p n)) where
  -- A hash that was made here, with any parameters that are in range and any salt of their length, accepts a
  -- password when Argon2id gives it the same key as the password that was hashed, that one among them, and
  -- calls any other a mismatch. Argon2id gives bytes, as many as it is asked for.
  pub verify_password-hash_password_with :
      (p : Params) (salt password attempt : Bytes)
      → in_range p ≡ true
      → is_within max_salt_length p.salt_length ≡ true
      → is_within max_key_length p.key_length ≡ true
      → length salt ≡ p.salt_length
      → All IsByte salt
      → (verify_password id_key (hash_password_with id_key p salt password) attempt ≡ (
          if equal
            (id_key attempt salt p.time p.memory p.parallelism p.key_length)
            (id_key password salt p.time p.memory p.parallelism p.key_length)
          then none
          else some mismatch))
        × (verify_password id_key (hash_password_with id_key p salt password) password ≡ none)
  unfolding verify_password hash_password_with
  verify_password-hash_password_with p salt password attempt h ls lk e bs =
      let key = id_key password salt p.time p.memory p.parallelism p.key_length in
      let long = id_key-length password salt p.time p.memory p.parallelism p.key_length in
      let read =
        decode_hash-hash_text p salt key h (ap (is_within max_salt_length) e ∙ ls)
          (ap (is_within max_key_length) long ∙ lk) bs
          (id_key-bytes password salt p.time p.memory p.parallelism p.key_length) in
      (ground (arith, read, long), ground (arith, read, long, equal_self key))
