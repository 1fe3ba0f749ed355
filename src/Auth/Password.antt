-- ===== src/Auth/Password.antt =====
-- internal/auth/password.go: hashes of passwords in the PHC string format. Argon2id is the parameter `id_key`,
-- of the password, the salt, the time, the memory, the parallelism and the length of the key, and the salt that
-- is drawn is an argument. `fmt.Sscanf` knows the white space of ASCII.
pub mod Scanned
pub mod RoundTrip
pub mod Bounded
use edav.Base.{
  ℕ, ◌*◌, ◌^◌, Bool, true, false, ◌&&◌, ◌||◌, List, [], ◌∷◌, ◌++◌, Option, none, some, ◌==◌, ltb,
  leb, if◌then◌else◌, ◌>>=◌, length,
}
use edav.Base.Bytes.{Bytes, codes, equal, split, cut_prefix}
use edav.Base.Decimal.{format_int, parse_int, parse_magnitude}
use edav.Base.Int.{ℤ, pos, negsuc}
use edav.Auth.Base64.{encode, decode}
use edav.Auth.Basic.{VerifyError, mismatch, invalid_hash}

pub record Params : Type 0 where
  pub memory : ℕ
  pub time : ℕ
  pub parallelism : ℕ
  pub salt_length : ℕ
  pub key_length : ℕ

abbrev pub default_params : Params
default_params = record {
  memory = 19 * 1024;
  time = 2;
  parallelism = 1;
  salt_length = 16;
  key_length = 32;
}

abbrev pub max_memory : ℕ
max_memory = 2 ^ 21

abbrev pub max_time : ℕ
max_time = 16

abbrev pub max_parallelism : ℕ
max_parallelism = 16

abbrev pub max_salt_length : ℕ
max_salt_length = 64

abbrev pub max_key_length : ℕ
max_key_length = 64

-- `argon2.Version`, as the format has it.
abbrev pub version : ℕ
version = 19

-- What the verb `%d` of `Sscanf` passes over.
unfoldable pub skip_space : Bytes → Bytes
skip_space [] = []
skip_space (c ∷ s) =
    let rest = skip_space s in
    if c == b' ' || (c == 9 || (c == 11 || (c == 12 || c == 13))) then rest else c ∷ s

-- The digits in front, and what follows them.
unfoldable pub digits_of : Bytes → Bytes × Bytes
digits_of [] = ([], [])
digits_of (c ∷ s) =
    let (d, rest) = digits_of s in if leb b'0' c && leb c b'9' then (c ∷ d, rest) else ([], c ∷ s)

-- `%d` into an unsigned integer of so many bits.
unfoldable pub scan_uint : ℕ → Bytes → Option (ℕ × Bytes)
unfolding skip_space digits_of
scan_uint bits s =
    let (d, rest) = digits_of (skip_space s) in
    elim (parse_magnitude d) [
      | none ↦ none
      | some n ↦ if ltb n (2 ^ bits) then some (n, rest) else none
    ]

abbrev leading_sign : Bytes → Bytes × Bytes
leading_sign [] = ([], [])
leading_sign (c ∷ s) = if c == b'+' || c == b'-' then (c ∷ [], s) else ([], c ∷ s)

-- `%d` into an int.
unfoldable pub scan_signed : Bytes → Option (ℤ × Bytes)
unfolding skip_space digits_of
scan_signed s =
    let (sign, t) = leading_sign (skip_space s) in
    let (d, rest) = digits_of t in
    elim (parse_int (sign ++ d)) [ none ↦ none | some k ↦ some (k, rest) ]

-- `v=%d`, with what follows the number left alone.
unfoldable pub has_version : Bytes → Bool
unfolding cut_prefix scan_signed
has_version s = elim (cut_prefix s (codes "v=") >>= scan_signed) [
  | none ↦ false
  | some (k, rest) ↦ elim k [ pos n ↦ n == version | negsuc n ↦ false ]
]

-- `m=%d,t=%d,p=%d`.
unfoldable pub scan_params : Bytes → Option Params
unfolding cut_prefix scan_uint
scan_params s = do
  s ← cut_prefix s (codes "m=")
  m ← scan_uint 32 s
  s ← cut_prefix m.1 (codes ",t=")
  t ← scan_uint 32 s
  s ← cut_prefix t.1 (codes ",p=")
  p ← scan_uint 8 s
  some (record { memory = m.0; time = t.0; parallelism = p.0; salt_length = 0; key_length = 0 })

abbrev pub is_within : ℕ → ℕ → Bool
is_within max n = ltb 0 n && leb n max

unfoldable pub in_range : Params → Bool
in_range p =
    is_within max_memory p.memory
    && (is_within max_time p.time && is_within max_parallelism p.parallelism)

unfoldable pub with_lengths : Params → Bytes → Bytes → Option (Params × Bytes × Bytes)
with_lengths p salt key =
    if is_within max_salt_length (length salt) && is_within max_key_length (length key)
    then some (record p { salt_length = length salt; key_length = length key }, salt, key)
    else none

unfoldable pub decode_params : Bytes → Bytes → Bytes → Option (Params × Bytes × Bytes)
unfolding scan_params in_range with_lengths
decode_params params salt key = do
  p ← scan_params params
  s ← if in_range p then decode salt else none
  k ← decode key
  with_lengths p s k

-- The six parts between the signs `$`, the first of them empty.
unfoldable pub decode_parts : List Bytes → Option (Params × Bytes × Bytes)
unfolding has_version decode_params
decode_parts ([] ∷ algorithm ∷ v ∷ params ∷ salt ∷ key ∷ []) =
    if equal algorithm (codes "argon2id") && has_version v
    then decode_params params salt key
    else none
decode_parts _ = none

-- `decodeHash`.
unfoldable pub decode_hash : Bytes → Option (Params × Bytes × Bytes)
unfolding decode_parts split
decode_hash encoded = decode_parts (split encoded b'$')

abbrev pub version_text : Bytes
version_text = codes "v=19"

unfoldable pub params_text : Params → Bytes
params_text p =
    codes "m="
    ++ (format_int p.memory
        ++ (codes ",t=" ++ (format_int p.time ++ (codes ",p=" ++ format_int p.parallelism))))

unfoldable pub hash_text : Params → Bytes → Bytes → Bytes
unfolding params_text encode
hash_text p salt key =
    b'$'
    ∷ (codes "argon2id"
        ++ (b'$'
            ∷ (version_text
                ++ (b'$' ∷ (params_text p ++ (b'$' ∷ (encode salt ++ (b'$' ∷ encode key))))))))

module _ (id_key : Bytes → Bytes → ℕ → ℕ → ℕ → ℕ → Bytes) where
  -- `hashPasswordWith`.
  unfoldable pub hash_password_with : Params → Bytes → Bytes → Bytes
  unfolding hash_text
  hash_password_with p salt password =
      hash_text p salt (id_key password salt p.time p.memory p.parallelism p.key_length)

  -- `VerifyPassword`.
  unfoldable pub verify_password : Bytes → Bytes → Option VerifyError
  unfolding decode_hash
  verify_password encoded password = elim (decode_hash encoded) [
    | none ↦ some invalid_hash
    | some (p, salt, key) ↦
        if equal (id_key password salt p.time p.memory p.parallelism p.key_length) key
        then none
        else some mismatch
  ]
