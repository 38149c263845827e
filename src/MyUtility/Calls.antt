-- ===== src/MyUtility/Calls.antt =====
-- When a call returns, and when it throws.
use cxx.Common.{
  ℕ, ◌+◌, ◌≤◌, ◌<◌, ◌≡◌, ◌⊎◌, inl, inr, sym, subst, ◌||◌, some, List, [], ◌∷◌, ◌++◌, arith, ltb,
  leb, dec_lt, if-false, ℕ_discrete, Bool, true, false, ◌∙◌, if◌then◌else◌,
}
use cxx.MyUtility.{
  Static, Outcome, returns, throws, waits, next_millisecond, finish, at_time, generate_unique_id,
}
use cxx.MyUtility.Step.{at_other_time, at_same_time, at_full_time, generate-at_time}

abbrev pub Returned : Outcome → Type 0
Returned (returns id s clock) = Unit
Returned throws = ⊥
Returned waits = ⊥

next_found :
    (d m last t : ℕ) (before after : List ℕ)
    → last < t
    → Returned (finish d m 0 (next_millisecond last (before ++ t ∷ after)))
unfolding next_millisecond
next_found d m last t [] after l =
    subst (λ o. Returned (finish d m 0 o))
      (sym
        (if-false (leb t last) (next_millisecond last after) (some (t, after)) (ground (arith, l))))
      tt
next_found d m last t (b ∷ before) after l =
    later_found (leb b last) (next_found d m last t before after l)
  where
    later_found :
        (c : Bool)
        → Returned (finish d m 0 (next_millisecond last (before ++ t ∷ after)))
        → Returned (
            finish d m 0 (
              if c
              then next_millisecond last (before ++ t ∷ after)
              else some (b, before ++ t ∷ after)))
    later_found true h = h
    later_found false h = tt

-- A call whose first reading is the last timestamp.
same_Returned :
    (s : Static) (d m t : ℕ) (before after : List ℕ)
    → s.sequence < 4096
    → s.last_timestamp < t
    → Returned (at_time s d m s.last_timestamp (before ++ t ∷ after))
same_Returned s d m t before after l g = elim (dec_lt (s.sequence + 1) 4096) [
  | yes p ↦ subst Returned (sym (at_same_time s d m (before ++ t ∷ after) p)) tt
  | no n ↦
      subst Returned (sym (at_full_time s d m (before ++ t ∷ after) (omega (arith, l, n))))
        (next_found d m s.last_timestamp t before after g)
]

call-Returned :
    (s : Static) (d m t : ℕ) (before after : List ℕ)
    → d ≤ 31
    → m ≤ 31
    → s.sequence < 4096
    → s.last_timestamp < t
    → Returned (generate_unique_id s d m (before ++ t ∷ after))
call-Returned s d m t [] after dd mm l g =
    subst Returned
      (sym (
        generate-at_time s d m after t dd mm
        ∙ at_other_time s d m t after (λ e. omega (arith, e, g))))
      tt
call-Returned s d m t (b ∷ before) after dd mm l g =
    subst Returned (sym (generate-at_time s d m (before ++ t ∷ after) b dd mm))
      (elim (ℕ_discrete s.last_timestamp b) [
        | yes e ↦
            subst (λ u. Returned (at_time s d m u (before ++ t ∷ after))) e
              (same_Returned s d m t before after l g)
        | no n ↦ subst Returned (sym (at_other_time s d m b (before ++ t ∷ after) n)) tt
      ])

-- A call throws if a number does not fit its field; otherwise it returns as soon as the clock has
-- gone past the last timestamp.
pub generate_lem :
    (s : Static) (d m t : ℕ) (before after : List ℕ)
    → s.sequence < 4096
    → s.last_timestamp < t
    → let o = generate_unique_id s d m (before ++ t ∷ after) in
      (((31 < d) ⊎ (31 < m)) × (o ≡ throws)) ⊎ ((d ≤ 31) × (m ≤ 31) × Returned o)
unfolding generate_unique_id
generate_lem s d m t before after l g = elim (dec_lt 31 d) [
  | yes p ↦ inl (inl p, thrown (ground (arith, p)))
  | no a ↦ elim (dec_lt 31 m) [
    | yes q ↦ inl (inr q, thrown (ground (arith, q)))
    | no b ↦ inr (
      omega (arith, a),
      omega (arith, b),
      call-Returned s d m t before after (omega (arith, a)) (omega (arith, b)) l g,
    )
  ]
]
  where
    thrown : (ltb 31 d || ltb 31 m) ≡ true → generate_unique_id s d m (before ++ t ∷ after) ≡ throws
    thrown e = rw (e, generate_unique_id)
