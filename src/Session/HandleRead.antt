-- ===== src/Session/HandleRead.antt =====
-- HandleRead of include/asio/CSession.cpp: the loop over the bytes that have been read.
use cxx.Common.{
  ℕ, zero, suc, ◌+◌, ◌-◌, ◌*◌, ◌%◌, Bool, true, false, ◌&&◌, ◌||◌, not, Option, none, some, List,
  [], ◌∷◌, ◌++◌, length, take, drop, set, ltb, leb, if◌then◌else◌,
}
use cxx.Session.{
  MsgNode, Session, Effect, read_some, clear_session, close_socket, Result, done, exception, fault,
  out_of_fuel, max_length, head_length, short_mod, negative, recv_node, memcpy, clear, send, close,
}

-- One round of the loop of HandleRead: it returns from the handler or goes round with the bytes
-- that are left.
pub data Round : Type 0 where
  stop : Session → List Effect → Round
  again : Session → List Effect → List ℕ → Round
  throws : Round
  breaks : Round

-- Bytes appended to a node at `_cur_len`, which they move on.
abbrev pub append_to : MsgNode → List ℕ → Option MsgNode
append_to n src = elim (memcpy n.bytes n.cur_len src) [
  | none ↦ none
  | some bytes ↦ some (record n { cur_len = (n.cur_len + length src) % short_mod; bytes = bytes })
]

abbrev pub resume : Session → List Effect → List ℕ → Round
resume s out [] = stop s (out ++ read_some ∷ [])
resume s out (b ∷ rest) = again s out (b ∷ rest)

-- The end of a message: terminate, echo, and get ready for the next head.
abbrev pub echo : Session → MsgNode → List ℕ → Round
echo s n rest =
    if leb (length n.bytes) n.total_len
    then breaks
    else let whole = record n { bytes = set n.bytes n.total_len 0 } in
      let (s', out) = send (record s { recv_msg_node = some whole }) whole.bytes whole.total_len in
      let s'' = record s' { b_head_parse = false; recv_head_node = clear s'.recv_head_node } in
      resume s'' out rest

-- The rest of a message, or a part of it that leaves the session waiting for more.
abbrev pub partial_body : Session → MsgNode → List ℕ → Round
partial_body s n rest = elim (append_to n rest) [
  | none ↦ breaks
  | some n' ↦ stop (record s { recv_msg_node = some n'; b_head_parse = true }) (read_some ∷ [])
]

abbrev pub full_body : Session → MsgNode → ℕ → List ℕ → Round
full_body s n count rest = elim (append_to n (take count rest)) [
  | none ↦ breaks
  | some n' ↦ echo s n' (drop count rest)
]

-- `bytes_transferred < k` where `k` is signed: a negative `k` becomes a huge size_t.
abbrev pub fewer_than : List ℕ → Bool → ℕ → Bool
fewer_than rest is_negative k = is_negative || ltb (length rest) k

-- The message node of a head that has been read.
abbrev pub open_body : Session → List ℕ → ℕ → Round
open_body s rest data_len = elim (recv_node data_len) [
  | none ↦ throws
  | some n ↦
      if fewer_than rest (negative data_len) data_len
      then partial_body s n rest
      else full_body s n data_len rest
]

-- network_to_host_short of the two bytes of the head
abbrev pub from_network : List ℕ → ℕ
from_network (hi ∷ lo ∷ _) = (hi * 256 + lo) % short_mod
from_network _ = 0

abbrev pub head_done : Session → MsgNode → List ℕ → Round
head_done s head rest =
    let data_len = from_network head.bytes in
    let s' = record s { recv_head_node = head } in
    if not (negative data_len) && ltb max_length data_len
    then stop s' (clear_session ∷ [])
    else open_body s' rest data_len

abbrev pub head_round : Session → List ℕ → Round
head_round s rest =
    let head = s.recv_head_node in
    let remain = head_length - head.cur_len in
    if ltb (length rest + head.cur_len) head_length
    then elim (append_to head rest) [
      | none ↦ breaks
      | some head' ↦ stop (record s { recv_head_node = head' }) (read_some ∷ [])
    ]
    else elim (memcpy head.bytes head.cur_len (take remain rest)) [
      | none ↦ breaks
      | some bytes ↦ head_done s (record head { bytes = bytes }) (drop remain rest)
    ]

abbrev pub body_round : Session → List ℕ → Round
body_round s rest = elim s.recv_msg_node [
  | none ↦ breaks
  | some n ↦
      let remain = n.total_len - n.cur_len in
      if fewer_than rest (negative n.total_len || ltb n.total_len n.cur_len) remain
      then partial_body s n rest
      else full_body s n remain rest
]

unfoldable pub round : Session → List ℕ → Round
unfolding memcpy send
round s rest = if s.b_head_parse then body_round s rest else head_round s rest

-- The loop. `rest` is what is left of the bytes: `_data` from `copy_len` on, `bytes_transferred` of
-- them.
unfoldable pub loop : ℕ → Session → List ℕ → List Effect → Result
loop zero s rest out = out_of_fuel
loop (suc fuel) s [] out = done s out
loop (suc fuel) s (b ∷ rest) out = elim (round s (b ∷ rest)) [
  | stop s' more ↦ done s' (out ++ more)
  | again s' more rest' ↦ loop fuel s' rest' (out ++ more)
  | throws ↦ exception
  | breaks ↦ fault
]

-- HandleRead. The arguments are the error and the bytes that were read.
unfoldable pub handle_read : Session → Bool → List ℕ → Result
unfolding loop
handle_read s true rest = done (close s) (close_socket ∷ clear_session ∷ [])
handle_read s false rest = loop (length rest + 1) s rest []
