-- ===== src/Server/Sessions.antt =====
-- Which sessions the server keeps.
use cxx.Common.{◌≡◌, refl, ap, ◌∙◌, arith, true, false, none, some, List, ◌∷◌, if◌then◌else◌, Eq}
use cxx.SafeMap.{find_entry_for, insert}
use cxx.SafeMap.Bucket.{Distinct, find-remove_from, remove_from-Distinct}
use cxx.Server.{handle_accept, clear_session}

module _ {ℓ} {U S : Type ℓ} ⦃e : Eq U⦄ where
  insert_lem :
      (m : List (U × S)) (u : U) (s : S) → find_entry_for u m ≡ none → insert (u, s) m ≡ (u, s) ∷ m
  unfolding insert
  insert_lem m u s h = rw (h, insert)

  found : (m : List (U × S)) (u : U) (s : S) → find_entry_for u ((u, s) ∷ m) ≡ some s
  unfolding find_entry_for
  found m u s = ground (arith, e.beq_iff u u)

  -- In a server that keeps each identifier once, an accept of a session whose identifier is new
  -- makes the server keep it, once, beside the others; a clear keeps each identifier once, and ends
  -- that session exactly if it is for its identifier; and an accept that fails changes nothing.
  pub server_lem :
      (m : List (U × S)) (u j : U) (s fresh : S)
      → Distinct m
      → find_entry_for u m ≡ none
      → let kept = (handle_accept m u s false fresh).0 in
        Distinct kept
        × (find_entry_for j kept ≡ (if e.beq u j then some s else find_entry_for j m))
        × Distinct (clear_session kept j)
        × (find_entry_for u (clear_session kept j) ≡ (if e.beq j u then none else some s))
        × ((handle_accept m u s true fresh).0 ≡ m)
  unfolding handle_accept clear_session
  server_lem m u j s fresh d h = rw (insert_lem m u s h) (
    (h, d),
    unfold find_entry_for in refl,
    remove_from-Distinct j ((u, s) ∷ m) (h, d),
    find-remove_from u j ((u, s) ∷ m) (h, d)
        ∙ ap (λ o. if e.beq j u then none else o) (found m u s),
    refl,
  )
