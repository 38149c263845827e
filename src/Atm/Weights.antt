-- ===== src/Atm/Weights.antt =====
-- Weights that count the messages of a kind, for statements about how many were sent.
use cxx.Common.{ℕ, ◌≤◌, List, [], ◌∷◌, arith, none, some, total, if◌then◌else◌}
use cxx.Atm.Message.{
  atm_queue, bank_queue, interface_queue, Sender, Message, issue_money, withdraw_ok, verify_pin,
  pin_verified, display_pin_correct_message, display_enter_pin, eject_card, text_eq,
}
use cxx.Atm.Bank.{right_pin}
use cxx.Atm.System.Sending.{posted, to_teller, to_bank}

-- The weight of a sent message, wherever it goes.
abbrev pub by {ℓ} : {A : Type ℓ} → (Message → ℕ) → A × Message → ℕ
by w (_, m) = w m

abbrev pub issues : Message → ℕ
issues (issue_money _) = 1
issues _ = 0

abbrev pub approvals : Message → ℕ
approvals withdraw_ok = 1
approvals _ = 0

-- Requests to check the PIN "0000".
abbrev pub right_pins : Message → ℕ
right_pins (verify_pin _ pin _) = if text_eq pin right_pin then 1 else 0
right_pins _ = 0

abbrev pub verdicts : Message → ℕ
verdicts pin_verified = 1
verdicts _ = 0

abbrev pub admissions : Message → ℕ
admissions display_pin_correct_message = 1
admissions _ = 0

abbrev pub cards_taken : Message → ℕ
cards_taken display_enter_pin = 1
cards_taken _ = 0

abbrev pub cards_given : Message → ℕ
cards_given eject_card = 1
cards_given _ = 0

-- What reaches the queues is at most what is sent.
pub posted-le :
    (w : Message → ℕ) (out : List (Sender × Message)) → total (by w) (posted out) ≤ total (by w) out
posted-le w [] = omega arith
posted-le w ((none, m) ∷ out) = omega (arith, posted-le w out)
posted-le w ((some q, m) ∷ out) = omega (arith, posted-le w out)

pub to_teller-le :
    (w : Message → ℕ) (out : List (Sender × Message))
    → total w (to_teller out) ≤ total (by w) (posted out)
to_teller-le w [] = omega arith
to_teller-le w ((none, m) ∷ out) = to_teller-le w out
to_teller-le w ((some atm_queue, m) ∷ out) = omega (arith, to_teller-le w out)
to_teller-le w ((some bank_queue, m) ∷ out) = omega (arith, to_teller-le w out)
to_teller-le w ((some interface_queue, m) ∷ out) = omega (arith, to_teller-le w out)

pub to_bank-le :
    (w : Message → ℕ) (out : List (Sender × Message))
    → total w (to_bank out) ≤ total (by w) (posted out)
to_bank-le w [] = omega arith
to_bank-le w ((none, m) ∷ out) = to_bank-le w out
to_bank-le w ((some atm_queue, m) ∷ out) = omega (arith, to_bank-le w out)
to_bank-le w ((some bank_queue, m) ∷ out) = omega (arith, to_bank-le w out)
to_bank-le w ((some interface_queue, m) ∷ out) = omega (arith, to_bank-le w out)
