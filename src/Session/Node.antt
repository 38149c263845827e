-- ===== src/Session/Node.antt =====
-- The buffers of MsgNode: what a node holds, and that it is filled in bounds.
use cxx.Common.{
  ℕ, ◌+◌, ◌%◌, ◌≤◌, ◌<◌, ◌≡◌, refl, true, some, List, [], ◌++◌, append_assoc, arith, length, drop,
  replicate, length-append, length-drop, length-replicate, take-append, drop-append, leb,
}
use cxx.Session.{MsgNode, memcpy, recv_node, clear, short_mod}
use cxx.Session.HandleRead.{append_to}

-- A buffer of `total` bytes and one more, of which `got` are filled.
pub record Filled (n : MsgNode) (total : ℕ) (got : List ℕ) : Type 0 where
  pub junk : List ℕ
  pub count : n.cur_len ≡ length got
  pub size : n.total_len ≡ total
  pub bytes : n.bytes ≡ got ++ junk
  pub room : length got + length junk ≡ total + 1

pub record Sized (n : MsgNode) (total : ℕ) : Type 0 where
  pub size : n.total_len ≡ total
  pub room : length n.bytes ≡ total + 1

le_leb : (a b : ℕ) → a ≤ b → leb a b ≡ true
le_leb a b h = ground arith

-- A copy behind the filled bytes.
pub memcpy_lem :
    (got junk src : List ℕ)
    → length src ≤ length junk
    → memcpy (got ++ junk) (length got) src ≡ some ((got ++ src) ++ drop (length src) junk)
unfolding memcpy
memcpy_lem got junk src h =
    rw
      (
        le_leb (length got + length src) (length (got ++ junk))
            (omega (arith, length-append got junk)),
        take-append got junk,
        drop-append (length src) got junk,
      )
      (simp append_assoc)

-- Appending what fits.
pub append_to_lem :
    (n : MsgNode) (total : ℕ) (got src : List ℕ)
    → Filled n total got
    → length got + length src ≤ total
    → total < short_mod
    → (n' : MsgNode) × (append_to n src ≡ some n') × Filled n' total (got ++ src)
append_to_lem n total got src f h k =
    let copied : memcpy n.bytes n.cur_len src ≡ some ((got ++ src) ++ drop (length src) f.junk) =
      rw (f.bytes, f.count) (memcpy_lem got f.junk src (omega (arith, f.room))) in
    (
      record n {
        cur_len = (n.cur_len + length src) % short_mod;
        bytes = (got ++ src) ++ drop (length src) f.junk;
      },
      rw (copied, append_to),
      record {
        junk = drop (length src) f.junk;
        count = omega (arith, f.count, length-append got src);
        size = f.size;
        bytes = refl;
        room = omega (arith, f.room, length-append got src, length-drop (length src) f.junk);
      },
    )

-- A new node is empty.
pub recv_node_lem : (n : ℕ) → n < 32768 → (m : MsgNode) × (recv_node n ≡ some m) × Filled m n []
recv_node_lem n h = (
  record { cur_len = 0; total_len = n; bytes = replicate (n + 1) 0 },
  ground arith,
  record {
    junk = replicate (n + 1) 0;
    count = refl;
    size = refl;
    bytes = refl;
    room = omega (arith, length-replicate {A = ℕ} (n + 1) 0);
  },
)

-- Clear empties a node of the right size.
pub clear_lem : (n : MsgNode) (total : ℕ) → Sized n total → Filled (clear n) total []
clear_lem n total z = record {
  junk = replicate n.total_len 0 ++ drop n.total_len n.bytes;
  count = refl;
  size = z.size;
  bytes = refl;
  room = omega (
    arith,
    z.size,
    z.room,
    length-append (replicate n.total_len 0) (drop n.total_len n.bytes),
    length-replicate {A = ℕ} n.total_len 0,
    length-drop n.total_len n.bytes,
  );
}
