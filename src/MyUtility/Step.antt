-- ===== src/MyUtility/Step.antt =====
-- One call of generateUniqueId: its branches, and how it moves on.
use Prim.Native.Nat.{bit_and}
use cxx.Common.{
  ℕ, ◌+◌, ◌*◌, ◌≤◌, ◌<◌, ◌≡◌, ◌≢◌, refl, sym, subst, true, false, some, List, [], ◌∷◌, arith, leb,
  ltb, ◌||◌, ◌==◌, dec_lt, if-true, if-false,
}
use cxx.MyUtility.{
  Static, Outcome, returns, throws, waits, unique_id, next_millisecond, finish, at_time,
  generate_unique_id,
}
use cxx.MyUtility.Bits.{bit_and_mask}
use cxx.MyUtility.Fields.{InTime, Fits}

-- Readings that never go back from `last` on, and that the 42 bits can tell.
abbrev pub Steady : ℕ → List ℕ → Type 0
Steady last [] = Unit
Steady last (t ∷ clock) = (last ≤ t) × InTime t × Steady t clock

-- The order of the calls: by timestamp, and by sequence number within a millisecond.
abbrev key : Static → ℕ
key s = s.last_timestamp * 4096 + s.sequence

-- What a call that returns does, from the static members `s`.
pub record Advances (d m : ℕ) (s : Static) (id : ℕ) (s' : Static) (clock : List ℕ) : Type 0 where
  pub id_of : id ≡ unique_id s'.last_timestamp d m s'.sequence
  pub fits : Fits s'.last_timestamp d m s'.sequence
  pub later : s.last_timestamp * 4096 + s.sequence < s'.last_timestamp * 4096 + s'.sequence
  pub steady : Steady s'.last_timestamp clock

abbrev pub Advanced : ℕ → ℕ → Static → Outcome → Type 0
Advanced d m s (returns id s' clock) = Advances d m s id s' clock
Advanced d m s throws = ⊥
Advanced d m s waits = Unit

-- The branches of a call, by how its timestamp compares with the last one.
pub at_other_time :
    (s : Static) (d m t : ℕ) (clock : List ℕ)
    → s.last_timestamp ≢ t
    → at_time s d m t clock ≡ finish d m 0 (some (t, clock))
at_other_time s d m t clock h = let e : (t == s.last_timestamp) ≡ false = ground (arith, h) in rw e

module _ (s : Static) (d m : ℕ) (clock : List ℕ) where
  pub at_same_time :
      s.sequence + 1 < 4096
      → at_time s d m s.last_timestamp clock
        ≡ finish d m (s.sequence + 1) (some (s.last_timestamp, clock))
  at_same_time h =
      let e : (s.last_timestamp == s.last_timestamp) ≡ true = ground arith in
      let q : bit_and (s.sequence + 1) 4095 ≡ s.sequence + 1 =
        omega (arith, bit_and_mask s.sequence (omega (arith, h)), h) in
      let z : (s.sequence + 1 == 0) ≡ false = ground arith in rw (e, q, z)

  pub at_full_time :
      s.sequence + 1 ≡ 4096
      → at_time s d m s.last_timestamp clock
        ≡ finish d m 0 (next_millisecond s.last_timestamp clock)
  at_full_time h =
      let e : (s.last_timestamp == s.last_timestamp) ≡ true = ground arith in
      let q : bit_and (s.sequence + 1) 4095 ≡ 0 =
        omega (arith, bit_and_mask s.sequence (omega (arith, h)), h) in
      let g : leb s.last_timestamp s.last_timestamp ≡ true = ground arith in rw (e, q, g)

  pub generate-at_time :
      (t : ℕ) → d ≤ 31 → m ≤ 31 → generate_unique_id s d m (t ∷ clock) ≡ at_time s d m t clock
  unfolding generate_unique_id
  generate-at_time t dd mm =
      if-false (ltb 31 d || ltb 31 m) throws (at_time s d m t clock) (ground (arith, dd, mm))

module _ (d m : ℕ) (dd : d ≤ 31) (mm : m ≤ 31) where
  finish-some :
      (s : Static) (t q : ℕ) (clock : List ℕ)
      → key s < t * 4096 + q
      → q < 4096
      → InTime t
      → Steady t clock
      → Advanced d m s (finish d m q (some (t, clock)))
  finish-some s t q clock k l i c = record {
    id_of = refl;
    fits = record { in_time = i; data_center_fits = dd; machine_fits = mm; sequence_fits = l };
    later = k;
    steady = c;
  }

  finish_next :
      (s : Static) (last t : ℕ) (clock : List ℕ)
      → s.last_timestamp ≡ last
      → s.sequence < 4096
      → Steady t clock
      → last ≤ t
      → Advanced d m s (finish d m 0 (next_millisecond last clock))
  unfolding next_millisecond
  finish_next s last t [] e l c g = tt
  finish_next s last t (u ∷ clock) e l (c, i, r) g =
      let rest = next_millisecond last clock in
      elim (dec_lt last u) [
        | yes p ↦
            subst (λ o. Advanced d m s (finish d m 0 o))
              (sym (if-false (leb u last) rest (some (u, clock)) (ground (arith, p))))
              (finish-some s u 0 clock (omega (arith, e, l, p)) (omega arith) i r)
        | no n ↦
            subst (λ o. Advanced d m s (finish d m 0 o))
              (sym (if-true (leb u last) rest (some (u, clock)) (ground (arith, n))))
              (finish_next s last u clock e l r (omega (arith, g, c)))
      ]

  same_time :
      (s : Static) (clock : List ℕ)
      → s.sequence < 4096
      → InTime s.last_timestamp
      → Steady s.last_timestamp clock
      → Advanced d m s (at_time s d m s.last_timestamp clock)
  same_time s clock l i c = elim (dec_lt (s.sequence + 1) 4096) [
    | yes p ↦
        subst (Advanced d m s) (sym (at_same_time s d m clock p))
          (finish-some s s.last_timestamp (s.sequence + 1) clock (omega arith) p i c)
    | no n ↦
        subst (Advanced d m s) (sym (at_full_time s d m clock (omega (arith, l, n))))
          (finish_next s s.last_timestamp s.last_timestamp clock refl l c (omega arith))
  ]

  -- A call at a steady clock makes its identifier of a later time, or of the same time and a higher
  -- sequence number.
  pub generate-Advanced :
      (s : Static) (clock : List ℕ)
      → s.sequence < 4096
      → Steady s.last_timestamp clock
      → Advanced d m s (generate_unique_id s d m clock)
  generate-Advanced s [] l c =
      unfold generate_unique_id in
      subst (Advanced d m s)
        (sym (if-false (ltb 31 d || ltb 31 m) throws waits (ground (arith, dd, mm)))) tt
  generate-Advanced s (t ∷ clock) l (c, i, r) =
      subst (Advanced d m s) (sym (generate-at_time s d m clock t dd mm))
        (elim (dec_lt s.last_timestamp t) [
          | yes p ↦
              subst (Advanced d m s) (sym (at_other_time s d m t clock (λ e. omega (arith, e, p))))
                (finish-some s t 0 clock (omega (arith, l, p)) (omega arith) i r)
          | no n ↦
              let same : s.last_timestamp ≡ t = omega (arith, c, n) in
              subst (λ u. Advanced d m s (at_time s d m u clock)) same
                (same_time s clock l (subst InTime (sym same) i)
                  (subst (λ u. Steady u clock) (sym same) r))
        ])
