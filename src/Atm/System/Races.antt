-- ===== src/Atm/System/Races.antt =====
-- Two schedules that show what a cancel_pressed at the wrong moment does.
use cxx.Common.{ℕ, ◌+◌, ◌<◌, ◌≡◌, refl, false, List, [], ◌∷◌, ◌++◌, arith, some}
use cxx.Atm.Message.{
  Text, uint_mod, withdraw, cancel_pressed, atm_queue, bank_queue, interface_queue,
}
use cxx.Atm.Bank
use cxx.Atm.Bank.{right_pin}
use cxx.Atm.Teller
use cxx.Atm.Teller.{wait_for_action, processing_withdrawal, Mode}
use cxx.Atm.System.Defs.{
  System, Key, card, digit, cash, cancel, Move, teller_runs, bank_runs, press, live_step, step, run,
  send_all, start,
}

-- The teller takes a key as soon as it is pressed, and goes on to its next wait.
abbrev pub served : Key → List Move → List Move
served k ms = press k ∷ teller_runs ∷ teller_runs ∷ ms

abbrev pub type_pin : ℕ → ℕ → ℕ → ℕ → List Move → List Move
type_pin a b c d ms = served (digit a) (served (digit b) (served (digit c) (served (digit d) ms)))

abbrev pub type_right_pin : List Move → List Move
type_right_pin ms = type_pin b'0' b'0' b'0' b'0' ms

-- A customer asks for `amount` and cancels before the bank has answered.
abbrev request : Text → ℕ → List Move
request account amount =
    teller_runs
    ∷ served (card account) (
        type_right_pin
          (bank_runs ∷ teller_runs ∷ teller_runs ∷ served (cash amount) (press cancel ∷ [])))

abbrev answer : List Move
answer = bank_runs ∷ teller_runs ∷ bank_runs ∷ []

abbrev pub raid : Text → ℕ → List Move
raid account amount = request account amount ++ answer

pub run-append : (s : System) (xs ys : List Move) → run s (xs ++ ys) ≡ run (run s xs) ys
unfolding run
run-append s [] ys = refl
run-append s (x ∷ xs) ys = run-append (step s x) xs ys

-- The request is in the bank's queue, and the cancel_pressed in the teller's.
abbrev asked : ℕ → Text → ℕ → System
asked garbage account amount =
    let s = run (start garbage) (request account amount) in
    record {
      teller = record {
        incoming = cancel_pressed ∷ [];
        bank = some bank_queue;
        interface = some interface_queue;
        withdrawal_amount = amount;
        account = account;
        pin = right_pin;
        state = processing_withdrawal;
        mode = Mode.waiting;
      };
      bank = record { incoming = withdraw account amount (some atm_queue) ∷ []; funds = 199 };
      interface = s.interface;
      printed = s.printed;
      aborted = false;
      sent = s.sent;
    }

asked_lem :
    (garbage : ℕ) (account : Text) (amount : ℕ)
    → run (start garbage) (request account amount) ≡ asked garbage account amount
unfolding run step live_step start send_all Teller.enter Teller.receive Bank.receive
asked_lem garbage account amount = refl

-- The answer of the bank to a cancelled request that it refuses.
answer_lem :
    (s : System) (account : Text) (amount : ℕ)
    → s.aborted ≡ false
    → s.bank ≡ record { incoming = withdraw account amount (some atm_queue) ∷ []; funds = 199 }
    → s.teller.incoming ≡ cancel_pressed ∷ []
    → s.teller.bank ≡ some bank_queue
    → s.teller.withdrawal_amount ≡ amount
    → s.teller.state ≡ processing_withdrawal
    → s.teller.mode ≡ Mode.waiting
    → 199 < amount
    → 199 + amount < uint_mod
    → (run s answer).bank.funds ≡ 199 + amount
unfolding run step live_step send_all Teller.receive Bank.receive
answer_lem s account amount a b q k w st md h l = ground arith

-- A request above the balance that is cancelled before the answer arrives is refused by the bank
-- and then credited to it: the bank ends with that amount more than it had at the start, if that
-- is below 2 ^ 32.
pub raid_lem :
    (garbage : ℕ) (account : Text) (amount : ℕ)
    → 199 < amount
    → 199 + amount < uint_mod
    → (run (start garbage) (raid account amount)).bank.funds ≡ 199 + amount
raid_lem garbage account amount h k =
    rw
      (run-append (start garbage) (request account amount) answer, asked_lem garbage account amount)
      (answer_lem (asked garbage account amount) account amount refl refl refl refl refl refl refl h
        k)

-- A customer types the right PIN, and cancels before the bank has answered; the next customer
-- types another PIN, and the teller takes the late answer for the answer to that one.
abbrev pub impostor : Text → Text → ℕ → ℕ → ℕ → ℕ → List Move
impostor first second a b c d =
    teller_runs
    ∷ served (card first) (
        type_right_pin (
          served cancel
            (teller_runs ∷ served (card second) (type_pin a b c d (bank_runs ∷ teller_runs ∷ [])))))

-- A late pin_verified of a cancelled session admits the next customer, whatever the four digits
-- that they type.
pub impostor_lem :
    (garbage : ℕ) (first second : Text) (a b c d : ℕ)
    → let t = (run (start garbage) (impostor first second a b c d)).teller in
      (t.state ≡ wait_for_action) × (t.account ≡ second) × (t.pin ≡ a ∷ b ∷ c ∷ d ∷ [])
unfolding run step live_step start send_all Teller.enter Teller.receive Bank.receive Teller.new
    Bank.new
impostor_lem garbage first second a b c d = (refl, refl, refl)
