-- ===== src/Atm/As.antt =====
-- `dynamic_cast<WrappedMessage<Msg>*>`, for each Msg that is handled somewhere: the fields of the
-- message, or `none` where the cast gives the null pointer.
use cxx.Common.{ℕ, Option, none, some}
use cxx.Atm.Message.{Text, Sender, Message}

abbrev pub withdraw : Message → Option (Text × ℕ × Sender)
withdraw (Message.withdraw account amount sender) = some (account, amount, sender)
withdraw _ = none

abbrev pub cancel_withdrawal : Message → Option (Text × ℕ)
cancel_withdrawal (Message.cancel_withdrawal account amount) = some (account, amount)
cancel_withdrawal _ = none

abbrev pub withdrawal_processed : Message → Option (Text × ℕ)
withdrawal_processed (Message.withdrawal_processed account amount) = some (account, amount)
withdrawal_processed _ = none

abbrev pub get_balance : Message → Option (Text × Sender)
get_balance (Message.get_balance account sender) = some (account, sender)
get_balance _ = none

abbrev pub verify_pin : Message → Option (Text × Text × Sender)
verify_pin (Message.verify_pin account pin sender) = some (account, pin, sender)
verify_pin _ = none

abbrev pub issue_money : Message → Option (ℕ)
issue_money (Message.issue_money amount) = some amount
issue_money _ = none

abbrev pub display_balance : Message → Option (ℕ)
display_balance (Message.display_balance amount) = some amount
display_balance _ = none

abbrev pub card_inserted : Message → Option (Text)
card_inserted (Message.card_inserted account) = some account
card_inserted _ = none

abbrev pub digit_pressed : Message → Option (ℕ)
digit_pressed (Message.digit_pressed digit) = some digit
digit_pressed _ = none

abbrev pub withdraw_pressed : Message → Option (ℕ)
withdraw_pressed (Message.withdraw_pressed amount) = some amount
withdraw_pressed _ = none

abbrev pub balance : Message → Option (ℕ)
balance (Message.balance amount) = some amount
balance _ = none

abbrev pub display_insufficient_funds : Message → Option (Unit {0})
display_insufficient_funds Message.display_insufficient_funds = some tt
display_insufficient_funds _ = none

abbrev pub display_enter_card : Message → Option (Unit {0})
display_enter_card Message.display_enter_card = some tt
display_enter_card _ = none

abbrev pub display_enter_pin : Message → Option (Unit {0})
display_enter_pin Message.display_enter_pin = some tt
display_enter_pin _ = none

abbrev pub display_withdrawal_options : Message → Option (Unit {0})
display_withdrawal_options Message.display_withdrawal_options = some tt
display_withdrawal_options _ = none

abbrev pub display_withdrawal_cancelled : Message → Option (Unit {0})
display_withdrawal_cancelled Message.display_withdrawal_cancelled = some tt
display_withdrawal_cancelled _ = none

abbrev pub display_pin_incorrect_message : Message → Option (Unit {0})
display_pin_incorrect_message Message.display_pin_incorrect_message = some tt
display_pin_incorrect_message _ = none

abbrev pub display_pin_correct_message : Message → Option (Unit {0})
display_pin_correct_message Message.display_pin_correct_message = some tt
display_pin_correct_message _ = none

abbrev pub eject_card : Message → Option (Unit {0})
eject_card Message.eject_card = some tt
eject_card _ = none

abbrev pub clear_last_pressed : Message → Option (Unit {0})
clear_last_pressed Message.clear_last_pressed = some tt
clear_last_pressed _ = none

abbrev pub cancel_pressed : Message → Option (Unit {0})
cancel_pressed Message.cancel_pressed = some tt
cancel_pressed _ = none

abbrev pub pin_verified : Message → Option (Unit {0})
pin_verified Message.pin_verified = some tt
pin_verified _ = none

abbrev pub pin_incorrect : Message → Option (Unit {0})
pin_incorrect Message.pin_incorrect = some tt
pin_incorrect _ = none

abbrev pub balance_pressed : Message → Option (Unit {0})
balance_pressed Message.balance_pressed = some tt
balance_pressed _ = none

abbrev pub withdraw_ok : Message → Option (Unit {0})
withdraw_ok Message.withdraw_ok = some tt
withdraw_ok _ = none

abbrev pub withdraw_denied : Message → Option (Unit {0})
withdraw_denied Message.withdraw_denied = some tt
withdraw_denied _ = none
