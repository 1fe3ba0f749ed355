-- ===== src/Auth/Cache/Message.antt =====
-- internal/auth/cache.go: the text that is hashed to identify a cached credential.
use edav.Base.{ℕ, ◌+◌, [], ◌∷◌, ◌++◌, ◌≡◌, ◌≢◌, refl, ap, arith, true, ◌==◌, if◌then◌else◌}
use edav.Base.Bytes.{Bytes, equal_iff, equal_fold, to_lower, lower}
use edav.Auth.Cache.{message}

-- No zero byte.
abbrev pub NulFree : Bytes → Type 0
NulFree [] = Unit
NulFree (c ∷ s) = (c ≢ 0) × NulFree s

zeros : Bytes → ℕ
zeros [] = 0
zeros (c ∷ s) = if c == 0 then 1 + zeros s else zeros s

zeros-append : (a b : Bytes) → zeros (a ++ b) ≡ zeros a + zeros b
unfolding zeros
zeros-append [] b = ground arith
zeros-append (c ∷ a) b = ground (arith, zeros-append a b)

zeros-NulFree : (a : Bytes) → NulFree a → zeros a ≡ 0
unfolding zeros
zeros-NulFree [] f = refl
zeros-NulFree (c ∷ a) (n, f) = ground (arith, zeros-NulFree a f)

cut_nul :
    (a b : Bytes) {s t : Bytes}
    → NulFree a
    → NulFree b
    → a ++ 0 ∷ s ≡ b ++ 0 ∷ t
    → (a ≡ b) × (s ≡ t)
cut_nul [] [] f g h = ground arith
cut_nul [] (y ∷ b) f g h = ground arith
cut_nul (x ∷ a) [] f g h = ground arith
cut_nul (x ∷ a) (y ∷ b) {s} {t} f g h = ground (arith, cut_nul a b {s = s} {t = t} f.1 g.1)

one_zero : (h p t : Bytes) → NulFree h → h ++ 0 ∷ [] ≡ p ++ (0 ∷ (t ++ (0 ∷ []))) → ⊥
one_zero h p t f e =
    let counted = ap zeros e in
    unfold zeros in
    ground (
      arith,
      counted,
      zeros-append h (0 ∷ []),
      zeros-append p (0 ∷ (t ++ (0 ∷ []))),
      zeros-append t (0 ∷ []),
      zeros-NulFree h f,
    )

last_nul :
    (p q h k : Bytes)
    → NulFree h
    → NulFree k
    → p ++ (0 ∷ (h ++ (0 ∷ []))) ≡ q ++ (0 ∷ (k ++ (0 ∷ [])))
    → (p ≡ q) × (h ≡ k)
last_nul [] [] h k f g e = ground (arith, cut_nul h k {s = []} {t = []} f g)
last_nul [] (y ∷ q) h k f g e = absurd (one_zero h q k f (ground arith))
last_nul (x ∷ p) [] h k f g e = absurd (one_zero k p h g (ground arith))
last_nul (x ∷ p) (y ∷ q) h k f g e = ground (arith, last_nul p q h k f g)

pub message_injective :
    (u v p q h k : Bytes)
    → NulFree u
    → NulFree v
    → NulFree h
    → NulFree k
    → message u p h ≡ message v q k
    → (u ≡ v) × (p ≡ q) × (h ≡ k)
unfolding message
message_injective u v p q h k f g i j e =
    let (same_name, rest) = cut_nul u v f g e in
    let (same_password, same_hash) = last_nul p q h k i j rest in
    (same_name, same_password, same_hash)

lower_nul : (c : ℕ) → c ≢ 0 → lower c ≢ 0
unfolding lower
lower_nul c n = ground arith

nul_lower : (c : ℕ) → lower c ≢ 0 → c ≢ 0
unfolding lower
nul_lower c n = ground arith

NulFree-lower : (a : Bytes) → NulFree a → NulFree (to_lower a)
unfolding to_lower
NulFree-lower [] f = tt
NulFree-lower (c ∷ a) (n, f) = (lower_nul c n, NulFree-lower a f)

NulFree-unlower : (a : Bytes) → NulFree (to_lower a) → NulFree a
unfolding to_lower
NulFree-unlower [] f = tt
NulFree-unlower (c ∷ a) (n, f) = (nul_lower c n, NulFree-unlower a f)

-- A spelling of a name without zero bytes, in any case of letters, has none either.
pub NulFree-equal_fold : (a b : Bytes) → equal_fold a b ≡ true → NulFree a → NulFree b
unfolding equal_fold
NulFree-equal_fold a b e f =
    NulFree-unlower b (rw (← (equal_iff (to_lower a) (to_lower b)).0 e) (NulFree-lower a f))
