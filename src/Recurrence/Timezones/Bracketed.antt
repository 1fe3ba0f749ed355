-- ===== src/Recurrence/Timezones/Bracketed.antt =====
-- internal/recurrence/timezone.go: `offsetAt` lists the rules from three years before the instant to one year
-- behind it; what that leaves out is older than what it lists, as long as the rules go on.
use edav.Base.{
  ℕ, ◌+◌, ◌≤◌, ◌<◌, Bool, true, false, ◌&&◌, List, [], ◌∷◌, ◌++◌, Option, none, some, leb, ◌≡◌, ◌⊎◌,
  inl, inr, refl, sym, subst, ap, ◌∙◌, arith, All, keep, map, Bool-cases,
}
use edav.Base.Int.{ℤ, pos_part}
use edav.Recurrence.Timezones.{Observance, years_earlier, years_later}
use edav.Recurrence.Timezones.Offsets.{
  Transition, rule_times, walls, transition_of, transitions, offset_at,
}
use edav.Recurrence.Timezones.Latest.{OneOf, each_listed, Latest, offset_at-listed}

module _ {A : Type 0} where
  OneOf-append : (x : A) (xs ys : List A) → OneOf x xs → OneOf x (xs ++ ys)
  OneOf-append x [] ys h = absurd h
  OneOf-append x (z ∷ xs) ys (inl e) = inl e
  OneOf-append x (z ∷ xs) ys (inr h) = inr (OneOf-append x xs ys h)

  OneOf-behind : (x : A) (xs ys : List A) → OneOf x ys → OneOf x (xs ++ ys)
  OneOf-behind x [] ys h = h
  OneOf-behind x (z ∷ xs) ys h = inr (OneOf-behind x xs ys h)

  OneOf-either : (x : A) (xs ys : List A) → OneOf x (xs ++ ys) → OneOf x xs ⊎ OneOf x ys
  OneOf-either x [] ys h = inr h
  OneOf-either x (z ∷ xs) ys (inl e) = inl (inl e)
  OneOf-either x (z ∷ xs) ys (inr h) = elim (OneOf-either x xs ys h) [
    | inl k ↦ inl (inr k)
    | inr k ↦ inr k
  ]

  OneOf-keep : (q : A → Bool) (x : A) (xs : List A) → OneOf x xs → q x ≡ true → OneOf x (keep q xs)
  OneOf-keep q x [] h k = absurd h
  OneOf-keep q x (y ∷ ys) (inl e) k =
      subst
        (λ (b : Bool).
          OneOf x (elim b as (λ _. List A) [ true ↦ y ∷ keep q ys | false ↦ keep q ys ]))
        (sym k ∙ ap q e) (inl e)
  OneOf-keep q x (y ∷ ys) (inr h) k = go (q y) (OneOf-keep q x ys h k)
    where
      go :
          (b : Bool)
          → OneOf x (keep q ys)
          → OneOf x (elim b as (λ _. List A) [ true ↦ y ∷ keep q ys | false ↦ keep q ys ])
      go true t = inr t
      go false t = t

  OneOf-kept : (q : A → Bool) (x : A) (xs : List A) → OneOf x (keep q xs) → OneOf x xs
  OneOf-kept q x [] h = h
  OneOf-kept q x (y ∷ ys) h = go (λ k. OneOf-kept q x ys k) (q y) h
    where
      go :
          (OneOf x (keep q ys) → OneOf x ys)
          → (b : Bool)
          → OneOf x (elim b as (λ _. List A) [ true ↦ y ∷ keep q ys | false ↦ keep q ys ])
          → OneOf x (y ∷ ys)
      go rest true (inl e) = inl e
      go rest true (inr k) = inr (rest k)
      go rest false k = inr (rest k)

  in_all : (P : A → Type 0) (x : A) (xs : List A) → All P xs → OneOf x xs → P x
  in_all P x [] h k = absurd k
  in_all P x (y ∷ ys) (p, h) (inl e) = subst P (sym e) p
  in_all P x (y ∷ ys) (p, h) (inr k) = in_all P x ys h k

module _ {A B : Type 0} (f : A → B) where
  OneOf-map : (x : A) (xs : List A) → OneOf x xs → OneOf (f x) (map f xs)
  OneOf-map x [] h = absurd h
  OneOf-map x (z ∷ xs) (inl e) = inl (ap f e)
  OneOf-map x (z ∷ xs) (inr h) = inr (OneOf-map x xs h)

  OneOf-mapped : (y : B) (xs : List A) → OneOf y (map f xs) → (x : A) × (y ≡ f x) × OneOf x xs
  OneOf-mapped y [] h = absurd h
  OneOf-mapped y (z ∷ xs) (inl e) = (z, e, inl refl)
  OneOf-mapped y (z ∷ xs) (inr h) = let (x, e, k) = OneOf-mapped y xs h in (x, e, inr k)

abbrev pub within : ℕ → ℕ → ℕ → Bool
within from to w = leb from w && leb w to

-- The rules are those of rrule-go by all their times, of which `Between` gives those in a window.
module _ {Rule : Type 0} (between : Rule → ℕ → ℕ → List ℕ) (times : Rule → List ℕ) where
  abbrev pub all_times : Option Rule → List ℕ
  all_times none = []
  all_times (some r) = times r

  -- The transitions of a block, and of all blocks, without a window.
  abbrev pub block_transitions : Observance Rule → List Transition
  block_transitions o = map (transition_of between o) (o.start ∷ o.rdates ++ all_times o.rule)

  abbrev pub all_transitions : List (Observance Rule) → List Transition
  all_transitions [] = []
  all_transitions (o ∷ os) = block_transitions o ++ all_transitions os

  -- The rule of a block, if it has one, has gone on in the last three years.
  abbrev pub GoesOn : ℕ → Observance Rule → Option Rule → Type 0
  GoesOn instant o none = Unit
  GoesOn instant o (some r) =
      (w : ℕ) × OneOf w (times r)
      × (years_earlier instant 3 ≤ w)
      × ((transition_of between o w).at ≤ instant)

  -- An offset from UTC is less than the year that lies ahead.
  pub record Bracketed (instant : ℕ) (o : Observance Rule) : Type 0 where
    pub short : instant + pos_part o.offset_from ≤ years_later instant 1
    pub goes_on : GoesOn instant o o.rule

  module _ (exact : (r : Rule) (from to : ℕ) → between r from to ≡ keep (within from to) (times r))
      (instant : ℕ) where
    rule_times-exact :
        (rule : Option Rule) (from to : ℕ)
        → rule_times between rule from to ≡ keep (within from to) (all_times rule)
    rule_times-exact none from to = refl
    rule_times-exact (some r) from to = exact r from to

    -- A listed transition that is not behind the instant, and not before another one.
    abbrev Caught : List Transition → Transition → Type 0
    Caught ts t = (u : Transition) × OneOf u ts × (t.at ≤ u.at) × (u.at ≤ instant)

    wall-Caught :
        (o : Observance Rule) (rule : Option Rule) (w : ℕ)
        → instant + pos_part o.offset_from ≤ years_later instant 1
        → GoesOn instant o rule
        → OneOf w (all_times rule)
        → (transition_of between o w).at ≤ instant
        → (v : ℕ) × OneOf v
            (rule_times between rule (years_earlier instant 3) (years_later instant 1))
          × ((transition_of between o w).at ≤ (transition_of between o v).at)
          × ((transition_of between o v).at ≤ instant)
    wall-Caught o none w short on h p = absurd h
    wall-Caught o (some r) w short (v, listed, recent, past) h p =
        let q = within (years_earlier instant 3) (years_later instant 1) in
        elim (Bool-cases (q w)) [
          | inl e ↦ (
            w,
            subst (OneOf w) (sym (exact r (years_earlier instant 3) (years_later instant 1)))
                (OneOf-keep q w (times r) h e),
            omega arith,
            p,
          )
          | inr e ↦ (
            v,
            subst (OneOf v) (sym (exact r (years_earlier instant 3) (years_later instant 1)))
                (OneOf-keep q v (times r) listed (ground arith)),
            ground arith,
            past,
          )
        ]

    block-Caught :
        (o : Observance Rule)
        → Bracketed instant o
        → (t : Transition) → OneOf t (block_transitions o)
        → t.at ≤ instant
        → Caught (map (transition_of between o) (walls between o instant)) t
    block-Caught o b t h p =
        let fixed = o.start ∷ o.rdates in
        let listed = rule_times between o.rule (years_earlier instant 3) (years_later instant 1) in
        let (w, e, k) = OneOf-mapped (transition_of between o) t (fixed ++ all_times o.rule) h in
        let past : (transition_of between o w).at ≤ instant =
          subst (λ (x : Transition). x.at ≤ instant) e p in
        elim (OneOf-either w fixed (all_times o.rule) k) [
          | inl f ↦ (
            transition_of between o w,
            OneOf-map (transition_of between o) w (fixed ++ listed) (OneOf-append w fixed listed f),
            subst (λ (x : Transition). x.at ≤ (transition_of between o w).at) (sym e) (omega arith),
            past,
          )
          | inr f ↦
              let (v, g, later, reached) = wall-Caught o o.rule w b.short b.goes_on f past in
              (
                transition_of between o v,
                OneOf-map (transition_of between o) v (fixed ++ listed)
                    (OneOf-behind v fixed listed g),
                subst (λ (x : Transition). x.at ≤ (transition_of between o v).at) (sym e) later,
                reached,
              )
        ]

    all-Caught :
        (os : List (Observance Rule))
        → All (Bracketed instant) os
        → (t : Transition) → OneOf t (all_transitions os)
        → t.at ≤ instant
        → Caught (transitions between os instant) t
    unfolding transitions
    all-Caught [] b t h p = absurd h
    all-Caught (o ∷ os) (b, bs) t h p =
        let mine = map (transition_of between o) (walls between o instant) in
        elim (OneOf-either t (block_transitions o) (all_transitions os) h) [
          | inl k ↦
              let (u, l, later, past) = block-Caught o b t k p in
              (u, OneOf-append u mine (transitions between os instant) l, later, past)
          | inr k ↦
              let (u, l, later, past) = all-Caught os bs t k p in
              (u, OneOf-behind u mine (transitions between os instant) l, later, past)
        ]

    block-listed :
        (o : Observance Rule) (t : Transition)
        → OneOf t (map (transition_of between o) (walls between o instant))
        → OneOf t (block_transitions o)
    block-listed o t h =
        let fixed = o.start ∷ o.rdates in
        let from = years_earlier instant 3 in
        let to = years_later instant 1 in
        let (w, e, k) = OneOf-mapped (transition_of between o) t (walls between o instant) h in
        let there : OneOf w (fixed ++ all_times o.rule) =
          elim (OneOf-either w fixed (rule_times between o.rule from to) k) [
            | inl f ↦ OneOf-append w fixed (all_times o.rule) f
            | inr f ↦ OneOf-behind w fixed (all_times o.rule) (
                OneOf-kept (within from to) w (all_times o.rule)
                  (subst (OneOf w) (rule_times-exact o.rule from to) f))
          ] in
        subst (λ (x : Transition). OneOf x (block_transitions o)) (sym e)
          (OneOf-map (transition_of between o) w (fixed ++ all_times o.rule) there)

    all_listed :
        (os : List (Observance Rule)) (t : Transition)
        → OneOf t (transitions between os instant)
        → OneOf t (all_transitions os)
    unfolding transitions
    all_listed [] t h = h
    all_listed (o ∷ os) t h =
        let mine = map (transition_of between o) (walls between o instant) in
        elim (OneOf-either t mine (transitions between os instant) h) [
          | inl k ↦ OneOf-append t (block_transitions o) (all_transitions os) (block-listed o t k)
          | inr k ↦ OneOf-behind t (block_transitions o) (all_transitions os) (all_listed os t k)
        ]

    -- In blocks whose rules have all had a time in the three years before the instant, the offset at the
    -- instant is that of the latest of all their transitions, in whatever year, which is not behind the
    -- instant, unless all of them are. An offset from UTC is less than the year that lies ahead, and Between
    -- gives the times of a rule from one instant to another, both included.
    pub offset_at-Latest :
        (os : List (Observance Rule)) {offset : ℤ}
        → All (Bracketed instant) os
        → offset_at between os instant ≡ some offset
        → Latest (all_transitions os) instant offset
          ⊎ All (λ t. instant < t.at) (all_transitions os)
    offset_at-Latest os {offset} b h =
        let ts = all_transitions os in
        elim (offset_at-listed between os instant {offset = offset} h) [
          | inl l ↦ inl (record {
            best = l.best;
            is_listed = all_listed os l.best l.is_listed;
            is_past = l.is_past;
            same_offset = l.same_offset;
            is_last =
                each_listed (λ t. t.at ≤ instant → t.at ≤ l.best.at) ts
                  (λ t k p.
                    let (u, listed, later, past) = all-Caught os b t k p in
                    let before =
                      in_all (λ v. v.at ≤ instant → v.at ≤ l.best.at) u
                        (transitions between os instant) l.is_last listed past in
                    omega arith);
          })
          | inr future ↦ inr (
              each_listed (λ t. instant < t.at) ts
                (λ t k. elim (Bool-cases (leb t.at instant)) [
                  | inr e ↦ ground arith
                  | inl e ↦
                      let (u, listed, later, past) = all-Caught os b t k (ground arith) in
                      let beyond =
                        in_all (λ v. instant < v.at) u (transitions between os instant) future
                          listed in
                      absurd (omega arith)
                ]))
        ]
