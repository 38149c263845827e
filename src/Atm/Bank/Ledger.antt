-- ===== src/Atm/Bank/Ledger.antt =====
-- The bank's balance against the requests that it has granted and the withdrawals taken back.
use cxx.Common.{ℕ, ◌+◌, ◌%◌, ◌<◌, ◌≡◌, List, [], ◌∷◌, arith}
use cxx.Messaging.{Outcome}
use cxx.Atm.Message.{uint_mod, Sender, Message, withdraw, withdraw_ok, cancel_withdrawal}
use cxx.Atm.Bank.{Bank, Result, receive}

-- The amount of a request that was answered by withdraw_ok.
abbrev pub granted : Message → List (Sender × Message) → ℕ
granted (withdraw account amount sender) ((q, withdraw_ok) ∷ []) = amount
granted _ _ = 0

abbrev pub refunded : Message → ℕ
refunded (cancel_withdrawal account amount) = amount
refunded _ = 0

-- The machine after some messages, with the sums of what it granted and of what came back.
pub record Account : Type 0 where
  pub bank : Bank
  pub paid_out : ℕ
  pub paid_in : ℕ

abbrev pub book : Account → Message → Outcome Result → Account
book a m (Outcome.handled (b, out)) = record {
  bank = b;
  paid_out = a.paid_out + granted m out;
  paid_in = a.paid_in + refunded m;
}
book a m _ = a

-- The rounds of the loop for these messages, up to a CloseQueue.
unfoldable pub serve : Account → List Message → Account
serve a [] = a
serve a (m ∷ ms) = serve (book a m (receive a.bank m)) ms

pub record Balanced (opening : ℕ) (a : Account) : Type 0 where
  pub funds : (a.bank.funds + a.paid_out) % uint_mod ≡ (opening + a.paid_in) % uint_mod
  pub fits : a.bank.funds < uint_mod

book-Balanced :
    (opening : ℕ) (a : Account) (m : Message)
    → Balanced opening a
    → Balanced opening (book a m (receive a.bank m))
unfolding receive
book-Balanced opening a (withdraw account amount sender) h = ground arith
book-Balanced opening a m h = ground arith

-- Whatever the bank is asked, its balance and the amounts that it has granted make up its first
-- balance and the amounts of the withdrawals taken back, modulo 2 ^ 32; and the balance is a uint.
pub serve-Balanced :
    (opening : ℕ) (a : Account) (ms : List Message)
    → Balanced opening a
    → Balanced opening (serve a ms)
unfolding serve
serve-Balanced opening a [] h = h
serve-Balanced opening a (m ∷ ms) h =
    serve-Balanced opening (book a m (receive a.bank m)) ms (book-Balanced opening a m h)

abbrev pub open_account : Bank → Account
open_account b = record { bank = b; paid_out = 0; paid_in = 0 }
