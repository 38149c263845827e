-- ===== src/SafeQueue/Enhance/Locks/Pops.antt =====
-- The steps of a pop keep what the two calls have made of the chain.
use cxx.Common.{
  ℕ, ◌-◌, ◌≤◌, ◌≡◌, ◌≢◌, refl, arith, Option, none, some, List, [], ◌∷◌, ◌++◌, set, inl, inr, ◌==◌,
  Bool-cases,
}
use cxx.SafeQueue.Enhance.{Queue}
use cxx.SafeQueue.Enhance.Fifo.{link, Chain, chain-le}
use cxx.SafeQueue.Enhance.Locks.Agree.{pop_left, outside-Chain, Pushing, held, Agrees, kept-Pushing}
use cxx.SafeQueue.Enhance.Locks.{
  Push, Pop, no_pop, tests_tail, takes, moves_head, frees, take_at, pop_step, gives,
}

module _ {ℓ} {T : Type ℓ} where
  -- What a step of a pop gives; the elements that it holds and those inside are the same before and
  -- after, and the two calls still agree.
  pub record Stepped (q : Queue T) (p : Push T) (c : Pop T) (inside : List T)
      (r : Option (Queue T × Pop T)) : Type ℓ where
    pub queue : Queue T
    pub call : Pop T
    pub inside_after : List T
    pub result : r ≡ some (queue, call)
    pub left : pop_left call ≤ pop_left c - 1
    pub agrees : Agrees queue p call inside_after
    pub same : gives c ++ held call ++ inside_after ≡ held c ++ inside

  take-Stepped :
      (q : Queue T) (p : Push T) (inside : List T) (first : ℕ)
      → Chain q.nodes first inside q.tail
      → Pushing q.nodes q.tail p
      → q.head ≡ some first
      → first ≢ q.tail
      → Stepped q p takes inside (pop_step q takes)
  unfolding pop_step
  take-Stepped q p [] first (e, u) v h n = absurd (n e)
  take-Stepped q p (x ∷ inside) first (n, at, l, c) v h m = record {
    queue = record q { head = none };
    call = moves_head first x;
    inside_after = inside;
    result = rw (h, pop_step) (rw (at, take_at) refl);
    left = omega arith;
    agrees = record { first = n; chain = c; pushing = v; popping = (refl, at, l) };
    same = refl;
  }

  pub pop_step-Stepped :
      (q : Queue T) (p : Push T) (c : Pop T) (inside : List T)
      → Agrees q p c inside
      → Stepped q p c inside (pop_step q c)
  unfolding pop_step
  pop_step-Stepped q p no_pop inside a = record {
    queue = q;
    call = no_pop;
    inside_after = inside;
    result = refl;
    left = omega arith;
    agrees = a;
    same = refl;
  }
  pop_step-Stepped q p tests_tail inside a = elim (Bool-cases (a.first == q.tail)) [
    | inl last ↦ record {
      queue = q;
      call = no_pop;
      inside_after = inside;
      result = rw (a.popping.0) (rw last refl);
      left = omega arith;
      agrees = record {
        first = a.first;
        chain = a.chain;
        pushing = a.pushing;
        popping = a.popping;
      };
      same = refl;
    }
    | inr more ↦ record {
      queue = q;
      call = takes;
      inside_after = inside;
      result = rw (a.popping.0) (rw more refl);
      left = omega arith;
      agrees = record {
        first = a.first;
        chain = a.chain;
        pushing = a.pushing;
        popping = (a.popping.0, ground (arith, more), tt);
      };
      same = refl;
    }
  ]
  pop_step-Stepped q p takes inside a =
      take-Stepped q p inside a.first a.chain a.pushing a.popping.0 a.popping.1
  pop_step-Stepped q p (moves_head h x) inside a =
      let (gone, at, l) = a.popping in
      record {
        queue = record q { head = some a.first };
        call = frees h x;
        inside_after = inside;
        result = rw (at, pop_step) refl;
        left = omega arith;
        agrees = record {
          first = a.first;
          chain = a.chain;
          pushing = a.pushing;
          popping = (refl, (link x a.first, at), l);
        };
        same = refl;
      }
  pop_step-Stepped q p (frees h x) inside a =
      let (here, (node, at), l) = a.popping in
      let le = chain-le q.nodes a.first q.tail inside a.chain in
      record {
        queue = record q { nodes = set q.nodes h none };
        call = no_pop;
        inside_after = inside;
        result = rw (at, pop_step) refl;
        left = omega arith;
        agrees = record {
          first = a.first;
          chain = outside-Chain q.nodes h a.first q.tail none inside (inl l) a.chain;
          pushing = kept-Pushing q.nodes q.tail h p (omega (arith, l, le)) a.pushing;
          popping = (here, tt);
        };
        same = refl;
      }
