-- ===== src/Redis.antt =====
-- RedisClient of include/chat/Redis.hpp. The server and hiredis are a parameter: what HSET and HGET
-- on the hash `contacts` reply, and what the server holds afterwards. A string is the list of its
-- bytes.
pub mod Contacts
mod Tests
use cxx.Common.{ℕ, zero, suc, Bool, true, false, Option, none, some, List, [], ◌∷◌, ltb}

abbrev pub Text : Type 0
Text = List ℕ

-- std::string::c_str as a C string: it ends before the first zero byte.
abbrev pub c_str : Text → Text
c_str [] = []
c_str (zero ∷ s) = []
c_str (suc n ∷ s) = suc n ∷ c_str s

-- A reply, by its type: `other` is every type that the code does not ask for, and an integer that is
-- negative.
pub data Reply : Type 0 where
  integer : ℕ → Reply
  bytes : Text → Reply
  other : Reply

-- The two commands; `none` is a null pointer for the reply.
pub record Server {ℓ} (S : Type ℓ) : Type ℓ where
  pub hset : Text → Text → S → Option Reply × S
  pub hget : Text → S → Option Reply × S

-- `context_`. `freed`: it points to what redisFree has freed.
pub data Context : Type 0 where
  null : Context
  freed : Context
  connected : Context

-- How a call ends. `faults`: the library is called with a context that is null or freed.
pub data Call {ℓ} (A : Type ℓ) : Type ℓ where
  returns : A → Call A
  faults : Call A

-- The constructor, for what redisConnect returns: null, or a context with an error or with none.
unfoldable pub new : Option Bool → Context
new none = null
new (some true) = freed
new (some false) = connected

-- The destructor
unfoldable pub destroy : Context → Call Context
destroy null = returns null
destroy freed = faults
destroy connected = returns freed

abbrev pub inserted : Option Reply → Bool
inserted (some (integer n)) = ltb 0 n
inserted _ = false

abbrev pub queried : Option Reply → Text
queried (some (bytes s)) = c_str s
queried _ = []

module _ {ℓ} {S : Type ℓ} (server : Server S) where
  -- insertContact
  unfoldable pub insert_contact : Context → Text → Text → S → Call (Bool × S)
  insert_contact connected uuid contact_info s =
      let reply = server.hset (c_str uuid) (c_str contact_info) s in
      returns (inserted reply.0, reply.1)
  insert_contact null uuid contact_info s = faults
  insert_contact freed uuid contact_info s = faults

  -- queryContact
  unfoldable pub query_contact : Context → Text → S → Call (Text × S)
  query_contact connected uuid s =
      let reply = server.hget (c_str uuid) s in returns (queried reply.0, reply.1)
  query_contact null uuid s = faults
  query_contact freed uuid s = faults
