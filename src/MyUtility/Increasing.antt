-- ===== src/MyUtility/Increasing.antt =====
-- The identifiers of one machine, call after call.
use cxx.Common.{
  ℕ, zero, suc, ◌+◌, ◌*◌, ◌/◌, ◌%◌, ◌^◌, ◌≤◌, ◌<◌, ◌≡◌, ◌∙◌, sym, ap, subst, List, [], ◌∷◌, arith,
}
use cxx.MyUtility.{Static, Outcome, returns, throws, waits, unique_id, generate_unique_id}
use cxx.MyUtility.Fields.{Fits, unique_id_sum, unique_id_fields}
use cxx.MyUtility.Step.{Steady, Advances, Advanced, generate-Advanced}

module _ (d m : ℕ) where
  -- The identifiers of up to `n` calls, one after another, until a call wants more readings.
  unfoldable pub ids : ℕ → Static → List ℕ → List ℕ
  ids zero s clock = []
  ids (suc n) s clock = elim (generate_unique_id s d m clock) [
    | returns id s' later ↦ id ∷ ids n s' later
    | throws ↦ []
    | waits ↦ []
  ]

  -- Each above the one before, the first above `x`, and each with this machine's numbers in it.
  abbrev pub Rising : ℕ → List ℕ → Type 0
  Rising x [] = Unit
  Rising x (y ∷ ys) = (x < y) × (y / 2 ^ 17 % 32 ≡ d) × (y / 2 ^ 12 % 32 ≡ m) × Rising y ys

  abbrev pub RisingFromFirst : List ℕ → Type 0
  RisingFromFirst [] = Unit
  RisingFromFirst (y ∷ ys) = (y / 2 ^ 17 % 32 ≡ d) × (y / 2 ^ 12 % 32 ≡ m) × Rising y ys

module _ (d m : ℕ) (dd : d ≤ 31) (mm : m ≤ 31) where
  carried :
      (id t q : ℕ)
      → Fits t d m q
      → id ≡ unique_id t d m q
      → (id / 2 ^ 17 % 32 ≡ d) × (id / 2 ^ 12 % 32 ≡ m)
  carried id t q f e =
      let (_, c, k, _, _) = unique_id_fields t d m q f in
      (ap (λ n. n / 2 ^ 17 % 32) e ∙ c, ap (λ n. n / 2 ^ 12 % 32) e ∙ k)

  above :
      (t q t' q' : ℕ)
      → Fits t d m q
      → Fits t' d m q'
      → t * 4096 + q < t' * 4096 + q'
      → unique_id t d m q < unique_id t' d m q'
  above t q t' q' f f' l = omega (
    arith,
    unique_id_sum t d m q f,
    unique_id_sum t' d m q' f',
    f.in_time,
    f'.in_time,
    f.sequence_fits,
    f'.sequence_fits,
    l,
  )

  by_outcome :
      (n : ℕ) (s : Static) (o : Outcome)
      → Fits s.last_timestamp d m s.sequence
      → Advanced d m s o
      → ((id : ℕ) (s' : Static) (later : List ℕ)
          → Advances d m s id s' later
          → Rising d m (unique_id s'.last_timestamp d m s'.sequence) (ids d m n s' later))
      → Rising d m
          (unique_id s.last_timestamp d m s.sequence)
          (elim o [ returns id s' later ↦ id ∷ ids d m n s' later | throws ↦ [] | waits ↦ [] ])
  by_outcome n s (returns id s' later) f g ih =
      let (c, k) = carried id s'.last_timestamp s'.sequence g.fits g.id_of in
      (
        subst (λ x. unique_id s.last_timestamp d m s.sequence < x) (sym g.id_of)
            (above s.last_timestamp s.sequence s'.last_timestamp s'.sequence f g.fits g.later),
        c,
        k,
        subst (λ x. Rising d m x (ids d m n s' later)) (sym g.id_of) (ih id s' later g),
      )
  by_outcome n s throws f g ih = absurd g
  by_outcome n s waits f g ih = tt

  ids-Rising :
      (n : ℕ) (s : Static) (clock : List ℕ)
      → Fits s.last_timestamp d m s.sequence
      → Steady s.last_timestamp clock
      → Rising d m (unique_id s.last_timestamp d m s.sequence) (ids d m n s clock)
  unfolding ids
  ids-Rising zero s clock f c = tt
  ids-Rising (suc n) s clock f c =
      by_outcome n s (generate_unique_id s d m clock) f
        (generate-Advanced d m dd mm s clock f.sequence_fits c)
        (λ id s' later g. ids-Rising n s' later g.fits g.steady)

  -- At a clock that never goes back, and within the 42 bits of its timestamps, the identifiers of
  -- one machine rise strictly from call to call, however many calls there are, and each carries
  -- the numbers of its data center and machine.
  pub ids-RisingFromFirst :
      (n : ℕ) (s : Static) (clock : List ℕ)
      → s.sequence < 4096
      → Steady s.last_timestamp clock
      → RisingFromFirst d m (ids d m n s clock)
  unfolding ids
  ids-RisingFromFirst zero s clock l c = tt
  ids-RisingFromFirst (suc n) s clock l c =
      by_outcome (generate_unique_id s d m clock) (generate-Advanced d m dd mm s clock l c)
    where
      by_outcome :
          (o : Outcome)
          → Advanced d m s o
          → RisingFromFirst d m
              (elim o [ returns id s' later ↦ id ∷ ids d m n s' later | throws ↦ [] | waits ↦ [] ])
      by_outcome (returns id s' later) g =
          let (c, k) = carried id s'.last_timestamp s'.sequence g.fits g.id_of in
          (
            c,
            k,
            subst (λ x. Rising d m x (ids d m n s' later)) (sym g.id_of)
                (ids-Rising n s' later g.fits g.steady),
          )
      by_outcome throws g = absurd g
      by_outcome waits g = tt
