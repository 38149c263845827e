-- ===== src/AsioThreadPool/Turns.antt =====
-- The contexts are handed out in turn.
use native.Mathlib.Nat.{mod-eq_of_lt, mod-eq-sub-mod}
use cxx.Common.{
  Bool, true, false, ℕ, zero, suc, ◌+◌, ◌-◌, ◌%◌, ◌<◌, ◌≡◌, ◌∙◌, sym, ap, arith, ◌==◌,
  if◌then◌else◌, dec_lt,
}
use cxx.AsioThreadPool.{new, get_io_context, nth_context}

nth_lem :
    (k n i : ℕ) → i < n → nth_context k (record { contexts = n; next_io_context = i }) ≡ (i + k) % n
unfolding nth_context get_io_context
nth_lem zero n i h = ground (arith, mod-eq_of_lt h)
nth_lem (suc k) n i h =
    let at_next = λ (b : Bool).
      nth_context k (record { contexts = n; next_io_context = if b then 0 else i + 1 }) in
    elim (dec_lt (i + 1) n) [
      | yes l ↦
          let c : (i + 1 == n) ≡ false = ground (arith, l) in
          ap at_next c ∙ nth_lem k n (i + 1) l ∙ ap (λ t. t % n) (omega arith)
      | no l ↦
          let c : (i + 1 == n) ≡ true = ground (arith, l, h) in
          let past : (i + suc k) % n ≡ (i + suc k - n) % n =
            mod-eq-sub-mod {n = i + suc k} {m = n} (omega (arith, l, h)) in
          ap at_next c
          ∙ nth_lem k n 0 (omega (arith, h))
          ∙ ap (λ t. t % n) (omega (arith, l, h))
          ∙ sym past
    ]

-- A pool of at least one context hands them out in turn: the call after `k` calls gives the context
-- with the index `k` modulo their number.
pub nth_context_lem : (n k : ℕ) → 0 < n → nth_context k (new n) ≡ k % n
unfolding new
nth_context_lem n k h = nth_lem k n 0 h ∙ ap (λ t. t % n) (omega arith)
