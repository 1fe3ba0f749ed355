-- ===== src/Tests/Passwords.antt =====
-- A stored password, with a function in the place of Argon2id that gives the length of the password.
use edav.Base.{
  ℕ, zero, suc, ◌%◌, ◌<◌, true, [], ◌∷◌, none, some, if◌then◌else◌, length, ◌≡◌, refl, ap, arith,
  All,
}
use edav.Base.Bytes.{Bytes, codes, equal}
use edav.Base.Decimal.{parse_int, format_int}
use edav.Auth.Base64.{decode}
use edav.Auth.Base64.RoundTrip.{IsByte}
use edav.Auth.Basic.{mismatch}
use edav.Auth.Password.{Params, in_range, decode_hash, hash_password_with, verify_password}
use edav.Auth.Password.RoundTrip.{verify_password-hash_password_with}
use edav.Auth.Password.Bounded.{IsBounded, decode_hash-IsBounded}

abbrev filled : ℕ → ℕ → Bytes
filled c zero = []
filled c (suc n) = c ∷ filled c n

abbrev key_of : Bytes → Bytes → ℕ → ℕ → ℕ → ℕ → Bytes
key_of password salt t m p n = filled (length password % 256) n

length-filled : (c n : ℕ) → length (filled c n) ≡ n
length-filled c zero = refl
length-filled c (suc n) = ap suc (length-filled c n)

filled-IsByte : (c n : ℕ) → c < 256 → All IsByte (filled c n)
filled-IsByte c zero h = tt
filled-IsByte c (suc n) h = (h, filled-IsByte c n h)

abbrev cheap : Params
cheap = record { memory = 8; time = 1; parallelism = 1; salt_length = 2; key_length = 3 }

cheap-in_range : in_range cheap ≡ true
unfolding in_range
cheap-in_range = refl

verify_password-hash_password_with_example :
    (verify_password key_of
        (hash_password_with key_of cheap (codes "ab") (codes "secret"))
        (codes "guess")
      ≡ (if equal
            (key_of (codes "guess") (codes "ab") 1 8 1 3)
            (key_of (codes "secret") (codes "ab") 1 8 1 3)
          then none
          else some mismatch))
    × (verify_password key_of
          (hash_password_with key_of cheap (codes "ab") (codes "secret"))
          (codes "secret")
        ≡ none)
verify_password-hash_password_with_example =
    verify_password-hash_password_with key_of
      (λ password salt t m p n. length-filled (length password % 256) n)
      (λ password salt t m p n. filled-IsByte (length password % 256) n (omega arith)) cheap
      (codes "ab") (codes "secret") (codes "guess") cheap-in_range refl refl refl
      (omega arith, (omega arith, tt))

abbrev stored_text : Bytes
stored_text = codes "$argon2id$v=19$m=8,t=1,p=1$YWI$BgYG"

abbrev read_params : Params
read_params = cheap

hash_test : hash_password_with key_of cheap (codes "ab") (codes "secret") ≡ stored_text
unfolding hash_password_with format_int
hash_test = refl

read_test : decode_hash stored_text ≡ some (read_params, codes "ab", 6 ∷ 6 ∷ 6 ∷ [])
unfolding decode_hash equal parse_int decode
read_test = refl

decode_hash-IsBounded_example : IsBounded read_params (codes "ab") (6 ∷ 6 ∷ 6 ∷ [])
decode_hash-IsBounded_example =
    decode_hash-IsBounded stored_text {p = read_params} {salt = codes "ab"} {key = 6 ∷ 6 ∷ 6 ∷ []}
      read_test
