-- ===== src/Redis/Tests.antt =====
-- A server that is a list of pairs.
use cxx.Common.{Bool, inl, ◌≡◌, refl, some, List, [], ◌∷◌, nat_eq, list_eq}
use cxx.SafeMap.{find_entry_for, add_to}
use cxx.SafeMap.Bucket.{find-add_to}
use cxx.Redis.{
  Text, c_str, Reply, integer, Server, connected, returns, insert_contact, query_contact,
}
use cxx.Redis.Contacts.{IsHash, Inserts, new_fields, value_reply, replies_at, contact_lem}

abbrev pairs : Server (List (Text × Text))
pairs = record {
  hset = λ f v s. (some (integer (new_fields (find_entry_for f s))), add_to f v s);
  hget = λ f s. (some (value_reply (find_entry_for f s)), s);
}

same_reply : (r r' : Reply) → some r ≡ some r' → r' ≡ r
same_reply r r' e = cc

pairs-IsHash : IsHash pairs
pairs-IsHash = record {
  value = λ f s. find_entry_for f s;
  hset_law = λ f v s r e.
      inl (same_reply (integer (new_fields (find_entry_for f s))) r e, λ g. find-add_to g f v s);
  hget_law = λ f s r e. inl (same_reply (value_reply (find_entry_for f s)) r e);
}

abbrev uuid : Text
uuid = 7 ∷ 8 ∷ []

abbrev contact_info : Text
contact_info = 5 ∷ 0 ∷ 6 ∷ []

contact_lem_example :
    (b : Bool) × (after : List (Text × Text)) × (texts : Text → Text) × (insert_contact pairs
        connected uuid contact_info []
      ≡ returns (b, after))
    × ((id : Text)
        → query_contact pairs connected id after
          ≡ returns (texts (c_str id), (pairs.hget (c_str id) after).1))
    × Inserts uuid
        (5 ∷ [])
        (λ g. find_entry_for g [])
        (some (integer 1))
        b
        (replies_at pairs pairs-IsHash after)
        texts
unfolding find_entry_for pairs-IsHash
contact_lem_example = contact_lem pairs pairs-IsHash uuid contact_info []

-- The contact has a zero byte, which ends it.
cut :
    query_contact pairs connected uuid ((7 ∷ 8 ∷ [], 5 ∷ []) ∷ [])
    ≡ returns (5 ∷ [], (7 ∷ 8 ∷ [], 5 ∷ []) ∷ [])
unfolding query_contact find_entry_for
cut = refl
