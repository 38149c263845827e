-- ===== src/Session.antt =====
-- CSession and MsgNode of include/asio/CSession.h and CSession.cpp: the framed echo session. A
-- handler returns the new session and its effects in order; the calls of the socket, of the server
-- and of the read loop are effects. `char` values are bytes, and the host is little-endian, as
-- the memcpy of the length prefix assumes. A `short` is its bit pattern below 2 ^ 16.
pub mod HandleRead
pub mod Frame
mod Tests
pub mod Turns
pub mod Echo
pub mod Streams
pub mod Reads
pub mod Bodies
pub mod Rounds
pub mod Outbox
pub mod Writes
pub mod Posts
pub mod Dialogue
pub mod Node
use cxx.Common.{
  ℕ, zero, suc, ◌+◌, ◌-◌, ◌*◌, ◌/◌, ◌%◌, ◌^◌, Bool, true, false, ◌&&◌, ◌||◌, not, Option, none,
  some, List, [], ◌∷◌, ◌++◌, length, take, drop, replicate, set, get_elem?, ltb, leb, ◌==◌,
  if◌then◌else◌,
}

-- include/asio/const.h
abbrev pub max_length : ℕ
max_length = 1024 * 2

abbrev pub head_length : ℕ
head_length = 2

abbrev pub max_sendque : ℕ
max_sendque = 1000

abbrev pub short_mod : ℕ
short_mod = 2 ^ 16

-- the sign of a short
abbrev pub negative : ℕ → Bool
negative n = leb (2 ^ 15) n

pub record MsgNode : Type 0 where
  pub cur_len : ℕ
  pub total_len : ℕ
  pub bytes : List ℕ  -- `_data`

-- `new char[max_len + 1]()`: a negative number of elements is the exception
-- std::bad_array_new_length, here `none`.
abbrev pub allocate : ℕ → Option (List ℕ)
allocate n =
    if negative n then if n + 1 == short_mod then some [] else none else some (replicate (n + 1) 0)

-- MsgNode(short max_len)
abbrev pub recv_node : ℕ → Option MsgNode
recv_node n = elim (allocate n) [
  | none ↦ none
  | some bytes ↦ some (record { cur_len = 0; total_len = n; bytes = bytes })
]

-- The two bytes that host_to_network_short leaves in memory.
abbrev pub to_network : ℕ → List ℕ
to_network n = (n / 256 % 256) ∷ (n % 256) ∷ []

-- MsgNode(char *msg, short max_len), at a length that is not negative
abbrev pub send_node : List ℕ → ℕ → MsgNode
send_node msg max_len = record {
  cur_len = 0;
  total_len = (max_len + head_length) % short_mod;
  bytes = to_network max_len ++ take max_len msg ++ 0 ∷ [];
}

-- memcpy to `dst + at`; `none` where it leaves the array.
unfoldable pub memcpy : List ℕ → ℕ → List ℕ → Option (List ℕ)
memcpy dst at src =
    if leb (at + length src) (length dst)
    then some (take at dst ++ src ++ drop (at + length src) dst)
    else none

-- MsgNode::Clear
abbrev pub clear : MsgNode → MsgNode
clear n = record n { cur_len = 0; bytes = replicate n.total_len 0 ++ drop n.total_len n.bytes }

-- `_data` is the argument of the read handler, so it is no field. `_uuid`, `_server` and `_socket`
-- do not change.
pub record Session : Type 0 where
  pub b_close : Bool
  pub send_que : List MsgNode
  pub recv_msg_node : Option MsgNode
  pub b_head_parse : Bool
  pub recv_head_node : MsgNode

pub data Effect : Type 0 where
  read_some : Effect  -- _socket.async_read_some
  write : List ℕ → Effect  -- async_write of these bytes
  clear_session : Effect  -- _server->ClearSession(_uuid)
  close_socket : Effect  -- _socket.close()

-- The constructor; the allocation of the head node cannot fail.
unfoldable pub new : Session
new = record {
  b_close = false;
  send_que = [];
  recv_msg_node = none;
  b_head_parse = false;
  recv_head_node = record { cur_len = 0; total_len = head_length; bytes = replicate 3 0 };
}

-- async_write of the front of the queue
abbrev pub write_front : List MsgNode → List Effect
write_front [] = []
write_front (n ∷ _) = write (take n.total_len n.bytes) ∷ []

-- Send
unfoldable pub send : Session → List ℕ → ℕ → Session × List Effect
send s msg max_len =
    let size = length s.send_que in
    let s' = record s { send_que = s.send_que ++ send_node msg max_len ∷ [] } in
    if ltb max_sendque size
    then (s, [])
    else if ltb 0 size
    then (s', [])
    else (s', write_front s'.send_que)

-- Close
abbrev pub close : Session → Session
close s = record s { b_close = true }

-- How a handler ends: it returns, an exception leaves it, or it does what has no defined meaning.
pub data Result : Type 0 where
  done : Session → List Effect → Result
  exception : Result
  fault : Result
  out_of_fuel : Result

-- HandleWrite
unfoldable pub handle_write : Session → Bool → Result
handle_write s true = done (close s) (close_socket ∷ clear_session ∷ [])
handle_write s false = elim s.send_que [
  | [] ↦ fault
  | n ∷ rest ↦ done (record s { send_que = rest }) (write_front rest)
]

-- Start
unfoldable pub start : Session → Result
start s = done s (read_some ∷ [])
