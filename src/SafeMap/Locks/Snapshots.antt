-- ===== src/SafeMap/Locks/Snapshots.antt =====
-- What getMap returns among updates.
use cxx.Common.{
  ℕ, zero, suc, ◌+◌, ◌*◌, ◌≤◌, ◌<◌, ◌≡◌, ◌∙◌, refl, sym, ap, subst, arith, false, none, some, List,
  [], ◌∷◌, ◌++◌, length, replicate, ◌==◌, Eq, Bool-cases, inl, inr, ◌%◌,
}
use mathlib.Core.Option.{some-injective}
use cxx.SafeMap.{index_of, new}
use cxx.SafeMap.Table.{IsValid}
use cxx.SafeMap.History.{Update, adds, removes, updated, updated-Keeps}
use cxx.SafeMap.Locks.Reading.{
  IsSnapshot, Reading, left, IsKept, Goes, reader_step-Reading, reader_step-left, new-length,
  apply-length,
}
use cxx.SafeMap.Locks.{
  Reader, locks, copies, returned, Shared, Move, reader_goes_on, other_updates, key_of, holds_lock,
  reader_step, apply, after_update, update_at, shared_step, run, start,
}

module _ {ℓ} {K V : Type ℓ} ⦃e : Eq K⦄ (hasher : K → ℕ) where
  -- An update that does not have to wait
  applied :
      (n : ℕ) (us : List (Update K V)) (buckets : List (List (K × V))) (u : Update K V)
      → 0 < n
      → updated hasher us (new n) ≡ some buckets
      → (b : List (List (K × V))) × (apply hasher u buckets ≡ some b)
        × (updated hasher (u ∷ us) (new n) ≡ some b)
  unfolding updated apply
  applied n us buckets (adds k v) h t =
      let (b, at, kept) = updated-Keeps hasher n (adds k v ∷ us) h in
      (b, sym (ap (λ o. elim o [ none ↦ none | some m ↦ apply hasher (adds k v) m ]) t) ∙ at, at)
  applied n us buckets (removes k) h t =
      let (b, at, kept) = updated-Keeps hasher n (removes k ∷ us) h in
      (b, sym (ap (λ o. elim o [ none ↦ none | some m ↦ apply hasher (removes k) m ]) t) ∙ at, at)

  -- After an update, where getMap does not hold the lock: it is still locking, or has returned.
  later-Reading :
      (us : List (Update K V)) (buckets b : List (List (K × V))) (u : Update K V) (r : Reader K V)
      (i : ℕ)
      → holds_lock r i ≡ false
      → Reading hasher us buckets r
      → Reading hasher (u ∷ us) b r
  later-Reading us buckets b u (locks k) i f v = tt
  later-Reading us buckets b u (copies k res) i f v = absurd (cc)
  later-Reading us buckets b u (returned res) i f (later, seen, same, g) =
      (u ∷ later, seen, ap (λ t. u ∷ t) same, g)

  index_lem :
      (buckets : List (List (K × V))) (k : K)
      → IsValid hasher buckets
      → index_of hasher buckets k ≡ some (hasher k % length buckets)
  index_lem buckets k v =
      let busy : (length buckets == 0) ≡ false = ground (arith, v.some_bucket) in rw busy refl

  update-Goes :
      (n : ℕ) (s : Shared K V) (u : Update K V) (i : ℕ)
      → 0 < n
      → IsKept hasher n s
      → Goes hasher n (update_at hasher s u (some i))
  update-Goes n s u i h v = elim (Bool-cases (holds_lock s.reader i)) [
    | inl waits ↦ (s, rw waits refl, v)
    | inr free ↦
        let (b, at, made) = applied n s.updates s.buckets u h v.table in
        (
          record s { buckets = b; updates = u ∷ s.updates },
          rw free (ap (after_update hasher s u) at),
          record {
            table = made;
            size = apply-length hasher u s.buckets b at ∙ v.size;
            in_range = v.in_range;
            reading = later-Reading s.updates s.buckets b u s.reader i free v.reading;
          },
        )
  ]

  step-Goes :
      (n : ℕ) (s : Shared K V) (m : Move K V)
      → 0 < n
      → IsKept hasher n s
      → Goes hasher n (shared_step hasher s m)
  unfolding shared_step
  step-Goes n s reader_goes_on h v = (
    record s { reader = reader_step s.buckets s.reader },
    refl,
    record {
      table = v.table;
      size = v.size;
      in_range = (reader_step-left hasher n s.buckets s.reader v.size v.in_range).1;
      reading = reader_step-Reading hasher n s.updates s.buckets s.reader h v.table v.reading;
    },
  )
  step-Goes n s (other_updates u) h v =
      let (m, at, (valid, f)) = updated-Keeps hasher n s.updates h in
      let same : m ≡ s.buckets = some-injective m s.buckets (sym at ∙ v.table) in
      let to = index_lem s.buckets (key_of u) (subst (IsValid hasher) same valid) in
      subst (Goes hasher n) (sym (ap (update_at hasher s u) to))
        (update-Goes n s u (hasher (key_of u) % length s.buckets) h v)

  run-Goes :
      (n : ℕ) (ms : List (Move K V)) (s : Shared K V)
      → 0 < n
      → IsKept hasher n s
      → Goes hasher n (run hasher ms s)
  unfolding run
  run-Goes n [] s h v = (s, refl, v)
  run-Goes n (m ∷ ms) s h v =
      let (t, e, w) = step-Goes n s m h v in
      let (u, f, x) = run-Goes n ms t h w in (u, rw (e, run) f, x)

  run-append :
      (n : ℕ) (ms ns : List (Move K V)) (s t : Shared K V)
      → 0 < n
      → IsKept hasher n s
      → run hasher ms s ≡ some t
      → run hasher (ms ++ ns) s ≡ run hasher ns t
  unfolding run
  run-append n [] ns s t h v f = ap (run hasher ns) (some-injective s t f)
  run-append n (m ∷ ms) ns s t h v f =
      let (s', e, w) = step-Goes n s m h v in
      let moved : run hasher (m ∷ ms) s ≡ run hasher ms s' = rw (e, run) refl in
      rw (e, run) (run-append n ms ns s' t h w (sym moved ∙ f))

  none_left :
      (n : ℕ) (r : Reader K V) → left hasher n r ≤ 0 → (res : List (K × V)) × (r ≡ returned res)
  none_left n (locks k) h = absurd (omega (arith, h))
  none_left n (copies i res) h = absurd (omega (arith, h))
  none_left n (returned res) h = (res, refl)

  finish :
      (n k : ℕ) (s : Shared K V)
      → 0 < n
      → IsKept hasher n s
      → left hasher n s.reader ≤ k
      → (t : Shared K V) × (res : List (K × V)) × (run hasher (replicate k reader_goes_on) s
          ≡ some t)
        × (t.reader ≡ returned res)
        × IsSnapshot hasher t.updates res
  unfolding run shared_step
  finish n zero s h v l =
      let (res, e) = none_left n s.reader l in
      (s, res, refl, e, subst (Reading hasher s.updates s.buckets) e v.reading)
  finish n (suc k) s h v l =
      let c = reader_step-left hasher n s.buckets s.reader v.size v.in_range in
      finish n k (record s { reader = reader_step s.buckets s.reader }) h
        (record {
          table = v.table;
          size = v.size;
          in_range = c.1;
          reading = reader_step-Reading hasher n s.updates s.buckets s.reader h v.table v.reading;
        })
        (omega (arith, c.0, l))

  left_le : (n : ℕ) (r : Reader K V) → left hasher n r ≤ 2 * n + 2
  left_le n (locks k) = omega arith
  left_le n (copies i res) = omega arith
  left_le n (returned res) = omega arith

  -- However getMap goes on among updates by other threads, on a new table of `n` buckets: no step
  -- fails; after 2 * n + 2 more steps of its own it has returned; and its map holds the values of
  -- the table after some first part of the updates that have been made, each of these whole and none
  -- of the others.
  pub getting_lem :
      (n : ℕ) (ms : List (Move K V))
      → 0 < n
      → (s : Shared K V) × (res : List (K × V)) × (run hasher
            (ms ++ replicate (2 * n + 2) reader_goes_on)
            (start n)
          ≡ some s)
        × (s.reader ≡ returned res)
        × IsSnapshot hasher s.updates res
  unfolding updated
  getting_lem n ms h =
      let at_start : IsKept hasher n (start n) = record {
        table = refl;
        size = new-length K V n;
        in_range = omega arith;
        reading = tt;
      } in
      let (s, e, v) = run-Goes n ms (start n) h at_start in
      let (t, res, f, g, w) = finish n (2 * n + 2) s h v (left_le n s.reader) in
      (
        t,
        res,
        run-append n ms (replicate (2 * n + 2) reader_goes_on) (start n) s h at_start e ∙ f,
        g,
        w,
      )
