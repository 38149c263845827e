-- ===== src/Atm/Interface.antt =====
-- include/atm/InterfaceMachine.hpp. One message is one round of the loop of `run`; what a handler
-- writes to std::cout is a line of text, followed by a number where the code prints one.
use Prim.Native.String.{String}
use cxx.Common.{ℕ, Option, none, some, List, [], ◌∷◌}
use cxx.Messaging.{Chain, wait, ◌▹◌, on, Outcome, dispatch}
use cxx.Atm.Message.{Message, is_close}
use cxx.Atm.As

pub record Line : Type 0 where
  pub text : String
  pub number : Option ℕ

abbrev line : String → Line
line s = record { text = s; number = none }

-- What a handler prints.
unfoldable pub handlers : Chain Message (List Line)
handlers =
    wait
    ▹ on As.issue_money (λ amount. record { text = "Issuing "; number = some amount } ∷ [])
    ▹ on As.display_insufficient_funds (λ _. line "Insufficient funds" ∷ [])
    ▹ on As.display_enter_card (λ _. line "Please enter your card (I)" ∷ [])
    ▹ on As.display_enter_pin (λ _. line "Please enter your PIN (0-9)" ∷ [])
    ▹ on As.display_balance
        (λ amount. record { text = "The balance of your account is "; number = some amount } ∷ [])
    ▹ on As.display_withdrawal_options
        (λ _. line "Withdraw 50? (w)" ∷ line "Display Balance? (b)" ∷ line "Cancel? (c)" ∷ [])
    ▹ on As.display_withdrawal_cancelled (λ _. line "Withdrawal cancelled" ∷ [])
    ▹ on As.display_pin_incorrect_message (λ _. line "PIN incorrect" ∷ [])
    ▹ on As.display_pin_correct_message (λ _. line "PIN verified" ∷ [])
    ▹ on As.eject_card (λ _. line "Ejecting card" ∷ [])

unfoldable pub receive : Message → Outcome (List Line)
unfolding handlers dispatch
receive m = dispatch is_close handlers m
