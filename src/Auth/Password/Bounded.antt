-- ===== src/Auth/Password/Bounded.antt =====
-- internal/auth/password.go: the bounds on what a stored hash asks of Argon2id.
use edav.Base.{
  ◌<◌, ◌≤◌, true, ◌&&◌, List, [], ◌∷◌, some, length, ◌≡◌, refl, subst, arith, inl, inr, Bool-cases,
  Option-cases,
}
use edav.Base.Bytes.{Bytes}
use edav.Auth.Base64.{decode}
use edav.Auth.Password.{
  Params, in_range, is_within, max_memory, max_time, max_parallelism, max_salt_length,
  max_key_length, scan_params, with_lengths, decode_params, decode_parts, decode_hash,
}

-- What Argon2id is asked for is within the limits, and the lengths are those of the salt and the key.
pub record IsBounded (p : Params) (salt key : Bytes) : Type 0 where
  pub some_memory : 0 < p.memory
  pub memory : p.memory ≤ max_memory
  pub some_time : 0 < p.time
  pub time : p.time ≤ max_time
  pub some_parallelism : 0 < p.parallelism
  pub parallelism : p.parallelism ≤ max_parallelism
  pub some_key : 0 < p.key_length
  pub key_length : p.key_length ≤ max_key_length
  pub some_salt : 0 < length salt
  pub salt_length : length salt ≤ max_salt_length
  pub of_salt : p.salt_length ≡ length salt
  pub of_key : p.key_length ≡ length key

with_lengths-IsBounded :
    (q : Params) (salt key : Bytes) {p : Params} {s k : Bytes}
    → in_range q ≡ true
    → with_lengths q salt key ≡ some (p, s, k)
    → IsBounded p s k
unfolding with_lengths in_range
with_lengths-IsBounded q salt key {p} {s} {k} r h =
    elim (Bool-cases
      (is_within max_salt_length (length salt) && is_within max_key_length (length key))) [
        | inr e ↦ absurd (ground arith)
        | inl e ↦
            let read = record q { salt_length = length salt; key_length = length key } in
            let bounded : IsBounded read salt key = record {
              some_memory = ground arith;
              memory = ground arith;
              some_time = ground arith;
              time = ground arith;
              some_parallelism = ground arith;
              parallelism = ground arith;
              some_key = ground arith;
              key_length = ground arith;
              some_salt = ground arith;
              salt_length = ground arith;
              of_salt = refl;
              of_key = refl;
            } in
            let same : (read, salt, key) ≡ (p, s, k) = ground arith in
            subst (λ (t : Params × Bytes × Bytes). IsBounded t.0 t.1 t.2) same bounded
      ]

decode_params-IsBounded :
    (params salt key : Bytes) {p : Params} {s k : Bytes}
    → decode_params params salt key ≡ some (p, s, k)
    → IsBounded p s k
unfolding decode_params
decode_params-IsBounded params salt key {p} {s} {k} h = elim (Option-cases (scan_params params)) [
  | inl e ↦ absurd (ground arith)
  | inr (q, e) ↦ elim (Bool-cases (in_range q)) [
    | inr r ↦ absurd (ground arith)
    | inl r ↦ elim (Option-cases (decode salt)) [
      | inl f ↦ absurd (ground arith)
      | inr (t, f) ↦ elim (Option-cases (decode key)) [
        | inl g ↦ absurd (ground arith)
        | inr (l, g) ↦ with_lengths-IsBounded q t l {p = p} {s = s} {k = k} r (ground arith)
      ]
    ]
  ]
]

-- The parts of a hash that is read.
decode_parts-inv :
    (parts : List Bytes) {r : Params × Bytes × Bytes}
    → decode_parts parts ≡ some r
    → (params : Bytes) × (salt : Bytes) × (key : Bytes) × (decode_params params salt key ≡ some r)
unfolding decode_parts
decode_parts-inv ([] ∷ a ∷ v ∷ params ∷ salt ∷ key ∷ []) h = (params, salt, key, ground arith)
decode_parts-inv _ h = absurd (ground arith)

-- Whatever the stored text, the parameters that are read from it are within the limits, and the lengths are
-- those of the salt and the key that are read with them.
pub decode_hash-IsBounded :
    (encoded : Bytes) {p : Params} {salt key : Bytes}
    → decode_hash encoded ≡ some (p, salt, key)
    → IsBounded p salt key
unfolding decode_hash
decode_hash-IsBounded encoded {p} {salt} {key} h =
    let (params, s, k, e) = decode_parts-inv _ h in
    decode_params-IsBounded params s k {p = p} {s = salt} {k = key} e
