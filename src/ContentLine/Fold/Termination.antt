-- ===== src/ContentLine/Fold/Termination.antt =====
-- internal/contentline/lines.go: when the loop of `fold` ends.
use edav.Base.{
  ℕ, zero, suc, Bool, true, false, ◌&&◌, [], ◌∷◌, ◌++◌, none, some, ◌≡◌, refl, ◌<◌, ◌≤◌, ◌-◌, inl,
  inr, arith, ◌==◌, leb, if◌then◌else◌, length, take, drop, length-drop, Bool-cases, dec_lt,
}
use edav.Base.Bytes.{Bytes}
use edav.ContentLine.Fold.{limit, is_continuation, byte_at, back_off, width, lead, fold_loop, fold}

-- The length of the run of continuation bytes that the text begins with.
abbrev pub run_length : Bytes → ℕ
run_length [] = 0
run_length (c ∷ s) = if is_continuation c then suc (run_length s) else 0

-- Every run of continuation bytes is shorter than a folded line.
abbrev pub ShortRuns : Bytes → Type 0
ShortRuns [] = Unit
ShortRuns (c ∷ s) = (run_length (c ∷ s) < limit - 1) × ShortRuns s

pub ShortRuns-drop : (n : ℕ) (s : Bytes) → ShortRuns s → ShortRuns (drop n s)
ShortRuns-drop zero s h = h
ShortRuns-drop (suc n) [] h = tt
ShortRuns-drop (suc n) (c ∷ s) h = ShortRuns-drop n s h.1

back_off-le : (s : Bytes) (n : ℕ) → back_off s n ≤ n
unfolding back_off
back_off-le s zero = omega arith
back_off-le s (suc n) = ground (arith, back_off-le s n)

run_length-byte_at : (s : Bytes) (n : ℕ) → n < run_length s → is_continuation (byte_at s n) ≡ true
run_length-byte_at [] n h = absurd (omega arith)
run_length-byte_at (c ∷ s) zero h = ground arith
run_length-byte_at (c ∷ s) (suc n) h = ground (arith, run_length-byte_at s n)

-- The first `n` bytes are continuation bytes.
abbrev AllContinuation : Bytes → ℕ → Type 0
AllContinuation s zero = Unit
AllContinuation s (suc n) = (is_continuation (byte_at s n) ≡ true) × AllContinuation s n

back_off-AllContinuation :
    (c : ℕ) (s : Bytes) (n : ℕ) → back_off (c ∷ s) n ≡ 0 → AllContinuation s n
unfolding back_off
back_off-AllContinuation c s zero h = tt
back_off-AllContinuation c s (suc n) h =
    (ground arith, back_off-AllContinuation c s n (ground arith))

AllContinuation-tail :
    (c : ℕ) (s : Bytes) (n : ℕ)
    → AllContinuation (c ∷ s) (suc n)
    → (is_continuation c ≡ true) × AllContinuation s n
AllContinuation-tail c s zero h = (h.0, tt)
AllContinuation-tail c s (suc n) h = let (a, b) = AllContinuation-tail c s n h.1 in (a, (h.0, b))

AllContinuation-run_length :
    (s : Bytes) (n : ℕ) → n ≤ length s → AllContinuation s n → n ≤ run_length s
AllContinuation-run_length s zero l h = omega arith
AllContinuation-run_length [] (suc n) l h = absurd (omega arith)
AllContinuation-run_length (c ∷ s) (suc n) l h =
    let (a, b) = AllContinuation-tail c s n h in
    ground (arith, AllContinuation-run_length s n (omega arith) b)

run_length-back_off :
    (c : ℕ) (s : Bytes) (n : ℕ) → n ≤ length s → run_length s < n → 0 < back_off (c ∷ s) n
run_length-back_off c s n l r = elim (dec_lt 0 (back_off (c ∷ s) n)) [
  | yes p ↦ p
  | no p ↦ absurd (
      omega
        (arith, AllContinuation-run_length s n l (back_off-AllContinuation c s n (omega arith))))
]

-- With short runs every round takes a byte.
pub back_off_pos :
    (first : Bool) (s : Bytes)
    → ShortRuns s
    → leb (length s) (width first) ≡ false
    → 0 < back_off s (width first)
back_off_pos first [] r h = ground arith
back_off_pos true (c ∷ []) r h = ground arith
back_off_pos false (c ∷ []) r h = ground arith
back_off_pos true (c ∷ d ∷ s) r h = ground (arith, run_length-back_off c (d ∷ s) 75)
back_off_pos false (c ∷ d ∷ s) r h = ground (arith, run_length-back_off c (d ∷ s) 74)

test_false : (a b : ℕ) → leb a b ≡ false → b < a
test_false a b h = ground arith

drop-back_off-lt :
    (first : Bool) (s : Bytes)
    → ShortRuns s
    → leb (length s) (width first) ≡ false
    → length (drop (back_off s (width first)) s) < length s
drop-back_off-lt first s r h = omega (
  arith,
  length-drop (back_off s (width first)) s,
  back_off_pos first s r h,
  test_false (length s) (width first) h,
)

-- The loop ends, with fuel for one round more than there are bytes.
fold_loop_total :
    (fuel : ℕ) (eol : Bytes) (first : Bool) (s : Bytes)
    → ShortRuns s
    → length s < fuel
    → (t : Bytes) × (fold_loop fuel eol first s ≡ some t)
unfolding fold_loop
fold_loop_total zero eol first s r h = absurd (omega arith)
fold_loop_total (suc fuel) eol first s r h = elim (Bool-cases (leb (length s) (width first))) [
  | inl e ↦ (lead first ++ s, ground arith)
  | inr e ↦
      let n = back_off s (width first) in
      let (t, rest) =
        fold_loop_total fuel eol (first && n == 0) (drop n s) (ShortRuns-drop n s r)
          (omega (arith, drop-back_off-lt first s r e)) in
      (lead first ++ (take n s ++ (eol ++ t)), ground (arith, rest))
]

-- `fold` returns for every text whose runs of continuation bytes are shorter than 74 bytes.
pub fold_total : (s eol : Bytes) → ShortRuns s → (t : Bytes) × (fold s eol ≡ some t)
unfolding fold
fold_total s eol r = elim (Bool-cases (leb (length s) limit)) [
  | inl e ↦ (s, ground arith)
  | inr e ↦
      let (t, h) = fold_loop_total (suc (length s)) eol true s r (omega arith) in
      (t, ground (arith, h))
]

back_off-run_length : (c : ℕ) (s : Bytes) (n : ℕ) → n ≤ run_length s → back_off (c ∷ s) n ≡ 0
unfolding back_off
back_off-run_length c s zero h = refl
back_off-run_length c s (suc n) h =
    ground (arith, run_length-byte_at s n h, back_off-run_length c s n)

run_length-le : (s : Bytes) → run_length s ≤ length s
run_length-le [] = omega arith
run_length-le (c ∷ s) = ground (arith, run_length-le s)

-- Behind any first byte, a run of 75 continuation bytes makes the loop of `fold` write terminators
-- for ever: no fuel is enough.
pub fold_loop_diverges :
    (c : ℕ) (s eol : Bytes)
    → limit ≤ run_length s
    → (fuel : ℕ) → fold_loop fuel eol true (c ∷ s) ≡ none
unfolding fold_loop
fold_loop_diverges c s eol h zero = refl
fold_loop_diverges c s eol h (suc fuel) =
    ground
      (arith, back_off-run_length c s limit h, run_length-le s, fold_loop_diverges c s eol h fuel)
