-- ===== src/Auth/Base64/RoundTrip.antt =====
-- `base64.RawStdEncoding`: what is encoded is decoded to the bytes it stands for.
use edav.Base.{ℕ, ◌<◌, false, List, [], ◌∷◌, some, ◌==◌, any, map, ◌≡◌, refl, arith, All}
use edav.Base.Bytes.{Bytes}
use edav.Auth.Base64.{char_of, value_of, sextets, encode, sextet_values, joined, decode}

abbrev pub IsByte : ℕ → Type 0
IsByte c = c < 256

abbrev IsSextet : ℕ → Type 0
IsSextet v = v < 64

value_of-char_of : (n : ℕ) → n < 64 → value_of (char_of n) ≡ some n
unfolding value_of char_of
value_of-char_of n h = ground arith

char_of-no_break : (n : ℕ) → n < 64 → ((char_of n == 10) ≡ false) × ((char_of n == 13) ≡ false)
unfolding char_of
char_of-no_break n h = ground arith

sextet_values-encoded : (vs : List ℕ) → All IsSextet vs → sextet_values (map char_of vs) ≡ some vs
unfolding sextet_values
sextet_values-encoded [] h = refl
sextet_values-encoded (v ∷ vs) (l, h) =
    ground (arith, value_of-char_of v l, char_of-no_break v l, sextet_values-encoded vs h)

sextets-IsSextet : (s : Bytes) → All IsByte s → All IsSextet (sextets s)
unfolding sextets
sextets-IsSextet [] h = tt
sextets-IsSextet (a ∷ []) (k, h) = (omega arith, (omega arith, tt))
sextets-IsSextet (a ∷ b ∷ []) (k, (l, h)) = (omega arith, (omega arith, (omega arith, tt)))
sextets-IsSextet (a ∷ b ∷ c ∷ s) (k, (l, (m, h))) =
    (omega arith, (omega arith, (omega arith, (omega arith, sextets-IsSextet s h))))

joined-sextets : (s : Bytes) → All IsByte s → joined (sextets s) ≡ some s
unfolding joined sextets
joined-sextets [] h = refl
joined-sextets (a ∷ []) (k, h) = ground arith
joined-sextets (a ∷ b ∷ []) (k, (l, h)) = ground arith
joined-sextets (a ∷ b ∷ c ∷ s) (k, (l, (m, h))) = ground (arith, joined-sextets s h)

pub decode-encode : (s : Bytes) → All IsByte s → decode (encode s) ≡ some s
unfolding decode encode
decode-encode s h =
    ground (arith, sextet_values-encoded (sextets s) (sextets-IsSextet s h), joined-sextets s h)

char_of-no_dollar : (n : ℕ) → (char_of n == b'$') ≡ false
unfolding char_of
char_of-no_dollar n = ground arith

no_dollar : (vs : List ℕ) → any (λ c. c == b'$') (map char_of vs) ≡ false
no_dollar [] = refl
no_dollar (v ∷ vs) = ground (arith, char_of-no_dollar v, no_dollar vs)

-- What is encoded has no `$`.
pub encode-no_dollar : (s : Bytes) → any (λ c. c == b'$') (encode s) ≡ false
unfolding encode
encode-no_dollar s = no_dollar (sextets s)
