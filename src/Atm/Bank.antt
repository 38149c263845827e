-- ===== src/Atm/Bank.antt =====
-- include/atm/BankMachine.hpp. One message is one round of the loop of `run`: the handler's change
-- of the machine, and what it sends.
pub mod Ledger
use cxx.Common.{ℕ, ◌+◌, ◌-◌, ◌%◌, List, [], ◌∷◌, leb, if◌then◌else◌}
use cxx.Messaging.{Chain, wait, ◌▹◌, on, Outcome, dispatch}
use cxx.Atm.Message.{
  Text, text_eq, uint_mod, Sender, Message, withdraw_ok, withdraw_denied, pin_verified,
  pin_incorrect, balance, is_close,
}
use cxx.Atm.As

pub record Bank : Type 0 where
  pub incoming : List Message
  pub funds : ℕ  -- `balance_`, a uint

-- The machine after a handler, and its sends in order.
abbrev pub Result : Type 0
Result = Bank × List (Sender × Message)

unfoldable pub new : Bank
new = record { incoming = []; funds = 199 }

-- The literal "0000".
abbrev pub right_pin : Text
right_pin = b'0' ∷ b'0' ∷ b'0' ∷ b'0' ∷ []

abbrev pub on_verify_pin : Bank → Text × Text × Sender → Result
on_verify_pin b (account, pin, sender) =
    (b, (sender, (if text_eq pin right_pin then pin_verified else pin_incorrect)) ∷ [])

abbrev pub on_withdraw : Bank → Text × ℕ × Sender → Result
on_withdraw b (account, amount, sender) =
    if leb amount b.funds
    then (record b { funds = b.funds - amount }, (sender, withdraw_ok) ∷ [])
    else (b, (sender, withdraw_denied) ∷ [])

abbrev pub on_get_balance : Bank → Text × Sender → Result
on_get_balance b (account, sender) = (b, (sender, balance b.funds) ∷ [])

abbrev pub on_cancel_withdrawal : Bank → Text × ℕ → Result
on_cancel_withdrawal b (account, amount) = (record b { funds = (b.funds + amount) % uint_mod }, [])

unfoldable pub handlers : Bank → Chain Message Result
handlers b =
    wait
    ▹ on As.verify_pin (on_verify_pin b)
    ▹ on As.withdraw (on_withdraw b)
    ▹ on As.get_balance (on_get_balance b)
    ▹ on As.withdrawal_processed (λ _. (b, []))
    ▹ on As.cancel_withdrawal (on_cancel_withdrawal b)

-- The message has been taken off the queue.
unfoldable pub receive : Bank → Message → Outcome Result
unfolding handlers dispatch
receive b m = dispatch is_close (handlers b) m
