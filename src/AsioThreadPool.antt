-- ===== src/AsioThreadPool.antt =====
-- AsioThreadPool of include/AsioThreadPool.hpp: which of its io_contexts getIoContext hands out. The
-- contexts themselves, their work guards and threads belong to Boost.Asio.
pub mod Turns
pub mod Threads
use cxx.Common.{ℕ, zero, suc, ◌+◌, List, [], ◌∷◌, ◌++◌, ◌==◌, if◌then◌else◌}

-- `contexts` is how many io_contexts there are.
pub record Pool : Type 0 where
  pub contexts : ℕ
  pub next_io_context : ℕ

unfoldable pub new : ℕ → Pool
new thread_num = record { contexts = thread_num; next_io_context = 0 }

-- getIoContext: the index of the context, and the pool after the call
unfoldable pub get_io_context : Pool → ℕ × Pool
get_io_context p = (
  p.next_io_context,
  record {
    contexts = p.contexts;
    next_io_context = if p.next_io_context + 1 == p.contexts then 0 else p.next_io_context + 1;
  },
)

-- The index that the call after `k` calls gives
unfoldable pub nth_context : ℕ → Pool → ℕ
unfolding get_io_context
nth_context zero p = (get_io_context p).0
nth_context (suc k) p = nth_context k (get_io_context p).1
