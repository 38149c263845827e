-- ===== src/Atm/Teller.antt =====
-- The class ATM of include/atm/ATM.hpp. `state_` holds one of seven member functions, here a value
-- of `State`. A member function first sends (`enter`) and then waits for a message (`receive`), and
-- other threads may act in between, so these are two steps.
pub mod Valid
use cxx.Common.{ℕ, ◌==◌, Bool, true, false, some, List, [], ◌∷◌, ◌++◌, if◌then◌else◌, length}
use cxx.Messaging.{Chain, wait, ◌▹◌, on, Outcome, dispatch}
use cxx.Atm.Message.{
  Text, Sender, atm_queue, Message, withdraw, cancel_withdrawal, eject_card, issue_money,
  verify_pin, display_enter_pin, display_enter_card, display_insufficient_funds,
  display_withdrawal_cancelled, display_pin_incorrect_message, display_pin_correct_message,
  display_withdrawal_options, get_balance, display_balance, is_close,
}
use cxx.Atm.As

pub data State : Type 0 where
  wait_for_card getting_pin verifying_pin wait_for_action : State
  processing_withdrawal process_balance done_processing : State

-- Where the thread of `run` is: about to call `state_`, in its wait, or past the handler of the
-- exception.
pub data Mode : Type 0 where
  calling waiting ended : Mode

pub record Teller : Type 0 where
  pub incoming : List Message
  pub bank : Sender
  pub interface : Sender
  pub withdrawal_amount : ℕ
  pub account : Text
  pub pin : Text
  pub state : State
  pub mode : Mode

abbrev pub Result : Type 0
Result = Teller × List (Sender × Message)

-- The constructor, and the first line of `run`. `withdrawal_amount_` is not initialised: it is
-- whatever was there.
unfoldable pub new : Sender → Sender → ℕ → Teller
new bank interface garbage = record {
  incoming = [];
  bank = bank;
  interface = interface;
  withdrawal_amount = garbage;
  account = [];
  pin = [];
  state = wait_for_card;
  mode = calling;
}

-- getSender()
abbrev pub self : Sender
self = some atm_queue

-- std::string::pop_back, at a string that is not empty
abbrev pub pop_back : Text → Text
pop_back [] = []
pop_back (a ∷ []) = []
pop_back (a ∷ b ∷ s) = a ∷ pop_back (b ∷ s)

abbrev pub empty : Text → Bool
empty [] = true
empty (_ ∷ _) = false

-- `state_ = …`
abbrev goto : Teller → State → Teller
goto a s = record a { state = s }

-- The part of a state function before its wait; doneProcessing has no wait.
abbrev before_wait : State → Teller → Result
before_wait wait_for_card a = (record a { mode = waiting }, (a.interface, display_enter_card) ∷ [])
before_wait wait_for_action a =
    (record a { mode = waiting }, (a.interface, display_withdrawal_options) ∷ [])
before_wait done_processing a = (goto a wait_for_card, (a.interface, eject_card) ∷ [])
before_wait _ a = (record a { mode = waiting }, [])

-- The call of `state_` in `run`, up to its wait.
unfoldable pub enter : Teller → Result
enter a = before_wait a.state a

-- The functions of the handlers.
abbrev pub on_card_inserted : Teller → Text → Result
on_card_inserted a account = (
  record a { account = account; pin = []; state = getting_pin },
  (a.interface, display_enter_pin) ∷ [],
)

abbrev pub on_digit_pressed : Teller → ℕ → Result
on_digit_pressed a digit =
    let pin = a.pin ++ digit ∷ [] in
    if length pin == 4
    then (
      record a { pin = pin; state = verifying_pin },
      (a.bank, verify_pin a.account pin self) ∷ [],
    )
    else (record a { pin = pin }, [])

abbrev pub on_clear_last_pressed : Teller → Result
on_clear_last_pressed a = if empty a.pin then (a, []) else (record a { pin = pop_back a.pin }, [])

abbrev pub on_pin_verified : Teller → Result
on_pin_verified a = (goto a wait_for_action, (a.interface, display_pin_correct_message) ∷ [])

abbrev pub on_pin_incorrect : Teller → Result
on_pin_incorrect a =
    (record a { pin = []; state = getting_pin }, (a.interface, display_pin_incorrect_message) ∷ [])

abbrev pub on_withdraw_pressed : Teller → ℕ → Result
on_withdraw_pressed a amount = (
  record a { withdrawal_amount = amount; state = processing_withdrawal },
  (a.bank, withdraw a.account amount self) ∷ [],
)

abbrev pub on_balance_pressed : Teller → Result
on_balance_pressed a = (goto a process_balance, (a.bank, get_balance a.account self) ∷ [])

abbrev pub on_withdraw_ok : Teller → Result
on_withdraw_ok a = (goto a done_processing, (a.interface, issue_money a.withdrawal_amount) ∷ [])

abbrev pub on_withdraw_denied : Teller → Result
on_withdraw_denied a = (goto a done_processing, (a.interface, display_insufficient_funds) ∷ [])

abbrev pub on_cancel_processing : Teller → Result
on_cancel_processing a = (
  goto a done_processing,
  (a.bank, cancel_withdrawal a.account a.withdrawal_amount)
      ∷ (a.interface, display_withdrawal_cancelled)
      ∷ [],
)

abbrev pub on_balance : Teller → ℕ → Result
on_balance a amount = (goto a wait_for_action, (a.interface, display_balance amount) ∷ [])

-- `state_ = doneProcessing`, the handler of cancel_pressed in four of the state functions
abbrev pub on_cancel : Teller → Result
on_cancel a = (goto a done_processing, [])

-- The chain that a state function builds. doneProcessing builds none.
unfoldable pub handlers : State → Teller → Chain Message Result
handlers wait_for_card a = wait ▹ on As.card_inserted (on_card_inserted a)
handlers getting_pin a =
    wait
    ▹ on As.digit_pressed (on_digit_pressed a)
    ▹ on As.clear_last_pressed (λ _. on_clear_last_pressed a)
    ▹ on As.cancel_pressed (λ _. on_cancel a)
handlers verifying_pin a =
    wait
    ▹ on As.pin_verified (λ _. on_pin_verified a)
    ▹ on As.pin_incorrect (λ _. on_pin_incorrect a)
    ▹ on As.cancel_pressed (λ _. on_cancel a)
handlers wait_for_action a =
    wait
    ▹ on As.withdraw_pressed (on_withdraw_pressed a)
    ▹ on As.balance_pressed (λ _. on_balance_pressed a)
    ▹ on As.cancel_pressed (λ _. on_cancel a)
handlers processing_withdrawal a =
    wait
    ▹ on As.withdraw_ok (λ _. on_withdraw_ok a)
    ▹ on As.withdraw_denied (λ _. on_withdraw_denied a)
    ▹ on As.cancel_pressed (λ _. on_cancel_processing a)
handlers process_balance a =
    wait ▹ on As.balance (on_balance a) ▹ on As.cancel_pressed (λ _. on_cancel a)
handlers done_processing a = wait

-- One message in the wait of a state function. After a handler the state function returns and
-- `run` calls `state_` again; a message that nobody takes is dropped; CloseQueue leaves `run`.
unfoldable pub receive : Teller → Message → Result
unfolding handlers dispatch
receive a m = elim (dispatch is_close (handlers a.state a) m) [
  | Outcome.handled (a', out) ↦ (record a' { mode = calling }, out)
  | Outcome.skipped ↦ (a, [])
  | Outcome.thrown ↦ (record a { mode = ended }, [])
]
