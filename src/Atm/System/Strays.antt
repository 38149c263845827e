-- ===== src/Atm/System/Strays.antt =====
-- Which messages the machines have handlers for, and which they send.
use cxx.Common.{ℕ, ◌≤◌, ◌≡◌, ◌≢◌, refl, none, some, List, [], ◌∷◌, arith, total}
use cxx.Messaging.{skipped, dispatch}
use cxx.Atm.Message.{QueueId, atm_queue, bank_queue, interface_queue, Sender, Message, is_close}
use cxx.Atm.Bank
use cxx.Atm.Bank.{Bank}
use cxx.Atm.Interface
use cxx.Atm.Teller
use cxx.Atm.Teller.{State, Teller, Mode}
use cxx.Atm.System.Sending.{posted, to_bank}
use cxx.Atm.System.Flow.{bank_out}
use cxx.Atm.System.Defs.{Key, key_message}

-- The machine with this queue does not throw the message away: the bank and the interface whenever
-- they take it, the teller in one of its states at least.
abbrev pub Handled : QueueId × Message → Type 0
Handled (atm_queue, m) =
    (state : State) × ((a : Teller) → dispatch is_close (Teller.handlers state a) m ≢ skipped)
Handled (bank_queue, m) = (b : Bank) → Bank.receive b m ≢ skipped
Handled (interface_queue, m) = Interface.receive m ≢ skipped

abbrev pub AllHandled : List (QueueId × Message) → Type 0
AllHandled [] = Unit
AllHandled (p ∷ ps) = Handled p × AllHandled ps

-- 1 for a queue that is not the teller's
abbrev stranger : Sender → ℕ
stranger (some atm_queue) = 0
stranger _ = 1

-- 1 for a message that the machine throws away, or for one to the bank that another machine than
-- the teller waits for
abbrev pub stray_at_teller : Message → ℕ
stray_at_teller (Message.card_inserted account) = 0
stray_at_teller (Message.digit_pressed digit) = 0
stray_at_teller Message.clear_last_pressed = 0
stray_at_teller Message.cancel_pressed = 0
stray_at_teller Message.pin_verified = 0
stray_at_teller Message.pin_incorrect = 0
stray_at_teller (Message.withdraw_pressed amount) = 0
stray_at_teller Message.balance_pressed = 0
stray_at_teller Message.withdraw_ok = 0
stray_at_teller Message.withdraw_denied = 0
stray_at_teller (Message.balance amount) = 0
stray_at_teller Message.close_queue = 0
stray_at_teller _ = 1

abbrev pub stray_at_bank : Message → ℕ
stray_at_bank (Message.verify_pin account pin sender) = stranger sender
stray_at_bank (Message.withdraw account amount sender) = stranger sender
stray_at_bank (Message.get_balance account sender) = stranger sender
stray_at_bank (Message.withdrawal_processed account amount) = 0
stray_at_bank (Message.cancel_withdrawal account amount) = 0
stray_at_bank Message.close_queue = 0
stray_at_bank _ = 1

abbrev stray_at_interface : Message → ℕ
stray_at_interface (Message.issue_money amount) = 0
stray_at_interface Message.display_insufficient_funds = 0
stray_at_interface Message.display_enter_card = 0
stray_at_interface Message.display_enter_pin = 0
stray_at_interface (Message.display_balance amount) = 0
stray_at_interface Message.display_withdrawal_options = 0
stray_at_interface Message.display_withdrawal_cancelled = 0
stray_at_interface Message.display_pin_incorrect_message = 0
stray_at_interface Message.display_pin_correct_message = 0
stray_at_interface Message.eject_card = 0
stray_at_interface Message.close_queue = 0
stray_at_interface _ = 1

abbrev pub stray : QueueId × Message → ℕ
stray (atm_queue, m) = stray_at_teller m
stray (bank_queue, m) = stray_at_bank m
stray (interface_queue, m) = stray_at_interface m

abbrev pub stray_send : Sender × Message → ℕ
stray_send (none, m) = 0
stray_send (some q, m) = stray (q, m)

pub posted_lem : (out : List (Sender × Message)) → total stray (posted out) ≡ total stray_send out
posted_lem [] = refl
posted_lem ((none, m) ∷ out) = omega (arith, posted_lem out)
posted_lem ((some q, m) ∷ out) = omega (arith, posted_lem out)

pub to_bank_lem :
    (out : List (Sender × Message)) → total stray_at_bank (to_bank out) ≤ total stray_send out
to_bank_lem [] = omega arith
to_bank_lem ((none, m) ∷ out) = omega (arith, to_bank_lem out)
to_bank_lem ((some atm_queue, m) ∷ out) = omega (arith, to_bank_lem out)
to_bank_lem ((some bank_queue, m) ∷ out) = omega (arith, to_bank_lem out)
to_bank_lem ((some interface_queue, m) ∷ out) = omega (arith, to_bank_lem out)

abbrev pub Wired : Teller → Type 0
Wired a = (a.bank ≡ some bank_queue) × (a.interface ≡ some interface_queue)

pub receive-strays :
    (a : Teller) (m : Message) → Wired a → total stray_send (Teller.receive a m).1 ≡ 0
unfolding Teller.receive
receive-strays a m w = ground arith

pub receive-Wired : (a : Teller) (m : Message) → Wired a → Wired (Teller.receive a m).0
unfolding Teller.receive
receive-Wired a m w = ground arith

pub enter-strays : (a : Teller) → Wired a → total stray_send (Teller.enter a).1 ≡ 0
unfolding Teller.enter
enter-strays a w = ground arith

pub enter-Wired : (a : Teller) → Wired a → Wired (Teller.enter a).0
unfolding Teller.enter
enter-Wired a w = ground arith

pub bank-strays :
    (b : Bank) (m : Message)
    → stray_at_bank m ≡ 0
    → total stray_send (bank_out (Bank.receive b m)) ≡ 0
unfolding Bank.receive
bank-strays b m h = ground arith

pub key-strays : (k : Key) → stray_at_teller (key_message k) ≡ 0
key-strays k = ground arith

bank-Handled : (m : Message) → stray_at_bank m ≡ 0 → Handled (bank_queue, m)
unfolding Bank.receive
bank-Handled m h b e = ground arith

interface-Handled : (m : Message) → stray_at_interface m ≡ 0 → Handled (interface_queue, m)
unfolding Interface.receive
interface-Handled m h e = ground arith

-- A state of the teller that takes the message
abbrev state_for : Message → State
state_for (Message.card_inserted account) = State.wait_for_card
state_for (Message.digit_pressed digit) = State.getting_pin
state_for Message.clear_last_pressed = State.getting_pin
state_for Message.pin_verified = State.verifying_pin
state_for Message.pin_incorrect = State.verifying_pin
state_for (Message.withdraw_pressed amount) = State.wait_for_action
state_for Message.balance_pressed = State.wait_for_action
state_for (Message.balance amount) = State.process_balance
state_for _ = State.processing_withdrawal

teller-Handled : (m : Message) → stray_at_teller m ≡ 0 → Handled (atm_queue, m)
unfolding Teller.handlers dispatch
teller-Handled m h = (state_for m, λ a e. ground arith)

pub sent-Handled : (ps : List (QueueId × Message)) → total stray ps ≡ 0 → AllHandled ps
sent-Handled [] h = tt
sent-Handled ((atm_queue, m) ∷ ps) h =
    (teller-Handled m (omega (arith, h)), sent-Handled ps (omega (arith, h)))
sent-Handled ((bank_queue, m) ∷ ps) h =
    (bank-Handled m (omega (arith, h)), sent-Handled ps (omega (arith, h)))
sent-Handled ((interface_queue, m) ∷ ps) h =
    (interface-Handled m (omega (arith, h)), sent-Handled ps (omega (arith, h)))
