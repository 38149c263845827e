-- ===== src/Redis/Contacts.antt =====
-- What has been inserted is found.
use cxx.Common.{
  ℕ, zero, suc, ◌≡◌, ◌≢◌, refl, sym, ap, subst, ◌∙◌, ◌⊎◌, inl, inr, Bool, true, false, Option, none,
  some, [], ◌∷◌, if◌then◌else◌, list_beq, nat_eq,
}
use cxx.Redis.{
  Text, c_str, Reply, integer, bytes, other, Server, connected, returns, inserted, queried,
  insert_contact, query_contact,
}

-- HSET replies with the number of the fields that are new.
abbrev pub new_fields : Option Text → ℕ
new_fields none = 1
new_fields (some s) = 0

abbrev pub value_reply : Option Text → Reply
value_reply none = other
value_reply (some s) = bytes s

-- What a key of the hash has after HSET was executed
abbrev pub updated : Text → Text → (Text → Option Text) → Text → Option Text
updated f v value g = if list_beq f g then some v else value g

abbrev pub NoInteger : Reply → Type 0
NoInteger r = (n : ℕ) → r ≢ integer n

abbrev pub NoBytes : Reply → Type 0
NoBytes r = (s : Text) → r ≢ bytes s

-- What the documentation of the commands says of their replies and effects, where there is a reply.
-- A reply of another type than the command's own is an error, and the command has not been
-- executed. `value` is the value of a field of the hash, if it has the field.
pub record IsHash {ℓ} {S : Type ℓ} (server : Server S) : Type ℓ where
  pub value : Text → S → Option Text
  pub hset_law :
      (f v : Text) (s : S) (r : Reply)
      → (server.hset f v s).0 ≡ some r
      → ((r ≡ integer (new_fields (value f s)))
          × ((g : Text) → value g (server.hset f v s).1 ≡ updated f v (λ h. value h s) g))
        ⊎ (NoInteger r × ((g : Text) → value g (server.hset f v s).1 ≡ value g s))
  pub hget_law :
      (f : Text) (s : S) (r : Reply)
      → (server.hget f s).0 ≡ some r
      → (r ≡ value_reply (value f s)) ⊎ NoBytes r

abbrev pub is_new : Option Text → Bool
is_new none = true
is_new (some s) = false

abbrev pub text_of : Option Text → Text
text_of none = []
text_of (some s) = c_str s

c_str-c_str : (s : Text) → c_str (c_str s) ≡ c_str s
c_str-c_str [] = refl
c_str-c_str (zero ∷ s) = refl
c_str-c_str (suc n ∷ s) = ap (λ t. suc n ∷ t) (c_str-c_str s)

text_of-updated :
    (b : Bool) (v : Text) (o : Option Text)
    → text_of (if b then some (c_str v) else o) ≡ (if b then c_str v else text_of o)
text_of-updated true v o = c_str-c_str v
text_of-updated false v o = refl

inserted-new_fields : (o : Option Text) → inserted (some (integer (new_fields o))) ≡ is_new o
inserted-new_fields none = refl
inserted-new_fields (some s) = refl

inserted-NoInteger : (r : Reply) → NoInteger r → inserted (some r) ≡ false
inserted-NoInteger (integer n) h = absurd (h n refl)
inserted-NoInteger (bytes s) h = refl
inserted-NoInteger other h = refl

queried-NoBytes : (r : Reply) → NoBytes r → queried (some r) ≡ []
queried-NoBytes (integer n) h = refl
queried-NoBytes (bytes s) h = absurd (h s refl)
queried-NoBytes other h = refl

-- What a query of a field with this value gives, by its reply: the value, or an empty text where
-- the reply is a null pointer or one of an error.
pub data Answers (held : Text) : Option Reply → Text → Type 0 where
  no_reply : Answers held none []
  gives : (s : Text) → Answers held (some (bytes s)) held
  fails : (r : Reply) → NoBytes r → Answers held (some r) []

value_reply-Answers :
    (o : Option Text) → Answers (text_of o) (some (value_reply o)) (queried (some (value_reply o)))
value_reply-Answers none = fails other (λ s e. cc)
value_reply-Answers (some s) = gives s

-- What an insertion of `info` under `f` returns, by its reply, and what a query after it gives for
-- each field, where the reply says whether the command was executed. `old` is what the hash held
-- before.
pub data Inserts (f info : Text) (old : Text → Option Text)
    : Option Reply → Bool → (Text → Option Reply) → (Text → Text) → Type 0 where
  unknown :
      (replies : Text → Option Reply) (texts : Text → Text)
      → Inserts f info old none false replies texts
  executed :
      (replies : Text → Option Reply) (texts : Text → Text)
      → ((g : Text)
          → Answers (if list_beq f g then info else text_of (old g)) (replies g) (texts g))
      → Inserts f info old (some (integer (new_fields (old f)))) (is_new (old f)) replies texts
  refused :
      (r : Reply) (replies : Text → Option Reply) (texts : Text → Text)
      → NoInteger r
      → ((g : Text) → Answers (text_of (old g)) (replies g) (texts g))
      → Inserts f info old (some r) false replies texts

module _ {ℓ} {S : Type ℓ} (server : Server S) (law : IsHash server) where
  reply_lem :
      (f : Text) (s : S) (o : Option Reply)
      → (server.hget f s).0 ≡ o
      → Answers (text_of (law.value f s)) o (queried o)
  reply_lem f s none e = no_reply
  reply_lem f s (some r) e = elim (law.hget_law f s r e) [
    | inl h ↦
        subst (λ o. Answers (text_of (law.value f s)) (some o) (queried (some o))) (sym h)
          (value_reply-Answers (law.value f s))
    | inr h ↦
        subst (Answers (text_of (law.value f s)) (some r)) (sym (queried-NoBytes r h)) (fails r h)
  ]

  -- What the queries after an insertion are answered, and what they return.
  abbrev pub replies_at : S → Text → Option Reply
  replies_at s g = (server.hget g s).0

  abbrev pub texts_at : S → Text → Text
  texts_at s g = queried (server.hget g s).0

  inserts_lem :
      (f info : Text) (s : S) (o : Option Reply)
      → (server.hset f (c_str info) s).0 ≡ o
      → let after = (server.hset f (c_str info) s).1 in
        Inserts f
          (c_str info)
          (λ g. law.value g s)
          o
          (inserted o)
          (replies_at after)
          (texts_at after)
  inserts_lem f info s none e =
      let after = (server.hset f (c_str info) s).1 in unknown (replies_at after) (texts_at after)
  inserts_lem f info s (some r) e =
      let after = (server.hset f (c_str info) s).1 in
      let old : Text → Option Text = λ g. law.value g s in
      elim (law.hset_law f (c_str info) s r e) [
        | inl (h, v) ↦
            subst
              (λ q.
                Inserts f (c_str info) old (some q) (inserted (some q)) (replies_at after)
                  (texts_at after))
              (sym h)
              (subst
                (λ b.
                  Inserts f (c_str info) old (some (integer (new_fields (old f)))) b
                    (replies_at after) (texts_at after))
                (sym (inserted-new_fields (old f)))
                (executed (replies_at after) (texts_at after) (λ g.
                  subst (λ t. Answers t (replies_at after g) (texts_at after g))
                    (ap text_of (v g) ∙ text_of-updated (list_beq f g) info (old g))
                    (reply_lem g after (replies_at after g) refl))))
        | inr (h, v) ↦
            subst (λ b. Inserts f (c_str info) old (some r) b (replies_at after) (texts_at after))
              (sym (inserted-NoInteger r h))
              (refused r (replies_at after) (texts_at after) h (λ g.
                subst (λ t. Answers t (replies_at after g) (texts_at after g)) (ap text_of (v g))
                  (reply_lem g after (replies_at after g) refl)))
      ]

  -- On a connection, by the reply of HSET. Executed: insertContact says whether the contact is new,
  -- and a query after it gives the contact that was inserted, up to its first zero byte, for the
  -- same identifier, and what the server held before, or nothing, for every other. An error: it
  -- returns false, and the queries give what the server held before. In both cases a query that
  -- gets no reply, or an error, gives nothing. No reply to HSET: it returns false.
  pub contact_lem :
      (uuid contact_info : Text) (s : S)
      → (b : Bool) × (after : S) × (texts : Text → Text) × (insert_contact server connected uuid
            contact_info s
          ≡ returns (b, after))
        × ((id : Text)
            → query_contact server connected id after
              ≡ returns (texts (c_str id), (server.hget (c_str id) after).1))
        × Inserts
            (c_str uuid)
            (c_str contact_info)
            (λ g. law.value g s)
            (server.hset (c_str uuid) (c_str contact_info) s).0
            b
            (replies_at after)
            texts
  unfolding insert_contact query_contact
  contact_lem uuid contact_info s =
      let set = server.hset (c_str uuid) (c_str contact_info) s in
      (
        inserted set.0,
        set.1,
        texts_at set.1,
        refl,
        λ id. refl,
        inserts_lem (c_str uuid) contact_info s set.0 refl,
      )
