-- ===== src/Auth/Base64.antt =====
-- `base64.RawStdEncoding`, as internal/auth/password.go calls it: six bits for each character, no padding.
pub mod RoundTrip
use edav.Base.{
  ℕ, ◌+◌, ◌-◌, ◌*◌, ◌/◌, ◌%◌, Bool, ◌&&◌, ◌||◌, List, [], ◌∷◌, Option, none, some, ◌==◌, ltb, leb,
  if◌then◌else◌, map,
}
use edav.Base.Bytes.{Bytes}

unfoldable pub char_of : ℕ → ℕ
char_of n =
    if ltb n 26
    then b'A' + n
    else if ltb n 52
    then b'a' + (n - 26)
    else if ltb n 62
    then b'0' + (n - 52)
    else if n == 62
    then b'+'
    else b'/'

unfoldable pub value_of : ℕ → Option ℕ
value_of c =
    if leb b'A' c && leb c b'Z'
    then some (c - b'A')
    else if leb b'a' c && leb c b'z'
    then some (c - b'a' + 26)
    else if leb b'0' c && leb c b'9'
    then some (c - b'0' + 52)
    else if c == b'+'
    then some 62
    else if c == b'/'
    then some 63
    else none

-- Three bytes are four sextets; the last one is filled with zeros.
unfoldable pub sextets : Bytes → List ℕ
sextets [] = []
sextets (a ∷ []) = (a / 4) ∷ ((a % 4) * 16) ∷ []
sextets (a ∷ b ∷ []) = (a / 4) ∷ ((a % 4) * 16 + b / 16) ∷ ((b % 16) * 4) ∷ []
sextets (a ∷ b ∷ c ∷ s) =
    (a / 4) ∷ ((a % 4) * 16 + b / 16) ∷ ((b % 16) * 4 + c / 64) ∷ (c % 64) ∷ sextets s

-- `EncodeToString`.
unfoldable pub encode : Bytes → Bytes
unfolding sextets char_of
encode s = map char_of (sextets s)

-- The values of the characters; line breaks are skipped.
unfoldable pub sextet_values : Bytes → Option (List ℕ)
unfolding value_of
sextet_values [] = some []
sextet_values (c ∷ s) =
    let rest = sextet_values s in
    if c == 10 || c == 13 then rest else elim (value_of c) [
      | none ↦ none
      | some v ↦ elim rest [ none ↦ none | some vs ↦ some (v ∷ vs) ]
    ]

-- The bytes of sextets; the bits that fill the last one are not looked at.
unfoldable pub joined : List ℕ → Option Bytes
joined [] = some []
joined (w ∷ []) = none
joined (w ∷ x ∷ []) = some ((w * 4 + x / 16) ∷ [])
joined (w ∷ x ∷ y ∷ []) = some ((w * 4 + x / 16) ∷ ((x % 16) * 16 + y / 4) ∷ [])
joined (w ∷ x ∷ y ∷ z ∷ s) = elim (joined s) [
  | none ↦ none
  | some bs ↦ some ((w * 4 + x / 16) ∷ ((x % 16) * 16 + y / 4) ∷ ((y % 4) * 64 + z) ∷ bs)
]

-- `DecodeString`.
unfoldable pub decode : Bytes → Option Bytes
unfolding sextet_values joined
decode s = elim (sextet_values s) [ none ↦ none | some vs ↦ joined vs ]
