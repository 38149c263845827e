-- ===== src/Atm/Message.antt =====
-- include/atm/WithdrawMsg.hpp: the messages, a constructor for each struct with its fields in
-- order. A std::string is the list of its bytes, an unsigned
-- a number below 2 ^ 32, and a Sender the queue that it points to, or `none` for the null pointer.
use cxx.Common.{ℕ, ◌^◌, Bool, true, false, ◌&&◌, Option, List, [], ◌∷◌, ◌==◌}

abbrev pub Text : Type 0
Text = List ℕ

abbrev pub text_eq : Text → Text → Bool
text_eq [] [] = true
text_eq (a ∷ s) (b ∷ t) = a == b && text_eq s t
text_eq _ _ = false

abbrev pub uint_mod : ℕ
uint_mod = 2 ^ 32

pub data QueueId : Type 0 where
  atm_queue bank_queue interface_queue : QueueId

abbrev pub Sender : Type 0
Sender = Option QueueId

pub data Message : Type 0 where
  withdraw : Text → ℕ → Sender → Message
  withdraw_ok : Message
  withdraw_denied : Message
  cancel_withdrawal : Text → ℕ → Message
  withdrawal_processed : Text → ℕ → Message
  card_inserted : Text → Message
  digit_pressed : ℕ → Message
  clear_last_pressed : Message
  eject_card : Message
  withdraw_pressed : ℕ → Message
  cancel_pressed : Message
  issue_money : ℕ → Message
  verify_pin : Text → Text → Sender → Message
  pin_verified : Message
  pin_incorrect : Message
  display_enter_pin : Message
  display_enter_card : Message
  display_insufficient_funds : Message
  display_withdrawal_cancelled : Message
  display_pin_incorrect_message : Message
  display_pin_correct_message : Message
  display_withdrawal_options : Message
  get_balance : Text → Sender → Message
  balance : ℕ → Message
  display_balance : ℕ → Message
  balance_pressed : Message
  close_queue : Message

abbrev pub is_close : Message → Bool
is_close close_queue = true
is_close _ = false
