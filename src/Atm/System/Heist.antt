-- ===== src/Atm/System/Heist.antt =====
-- A schedule in which three customers get ahead of the bank.
use cxx.Common.{
  ℕ, ◌<◌, ◌≡◌, refl, ap, ap₂, sym, subst, ◌∙◌, append_assoc, append-nil, Option, none, some, false,
  List, [], ◌∷◌, ◌++◌, arith, leb, Bool-cases, inl, inr,
}
use cxx.Atm.Message.{
  Text, QueueId, Message, verify_pin, withdraw, text_eq, atm_queue, pin_verified, pin_incorrect,
  withdraw_denied,
}
use cxx.Atm.Bank
use cxx.Atm.As
use cxx.Atm.Teller
use cxx.Atm.Teller.{self}
use cxx.Atm.System.Defs.{
  System, card, cash, cancel, Move, teller_runs, bank_runs, live_step, step, run, send_all, start,
}
use cxx.Atm.System.Races.{served, type_pin, type_right_pin, run-append}

-- What has been sent to be issued, in order.
abbrev listed : Option ℕ → List ℕ
listed none = []
listed (some amount) = amount ∷ []

abbrev pub issued : List (QueueId × Message) → List ℕ
issued [] = []
issued ((q, m) ∷ rest) = listed (As.issue_money m) ++ issued rest

-- The amount has been issued, and no other one; the bank has read all its messages, and its balance
-- is what it was at the start.
abbrev pub Unpaid : ℕ → System → Type 0
Unpaid amount s = (issued s.sent ≡ amount ∷ []) × (s.bank.funds ≡ 199) × (s.bank.incoming ≡ [])

-- The first customer types the right PIN and cancels while it is checked.
abbrev one_ahead : Text → List Move
one_ahead account =
    teller_runs ∷ served (card account) (type_right_pin (served cancel (teller_runs ∷ [])))

-- The second one is let in by the answer to the first one's check, asks for 1, and cancels.
abbrev two_ahead : Text → List Move
two_ahead account = served (card account) (
    type_right_pin
      (bank_runs ∷ teller_runs ∷ teller_runs ∷ served (cash 1) (served cancel (teller_runs ∷ []))))

-- The third one types any PIN, is let in by the answer to the second one's check, and asks for
-- `amount`. Then the bank answers the second one's request, and reads the cancellation of it.
abbrev three_ahead : Text → ℕ → ℕ → ℕ → ℕ → ℕ → List Move
three_ahead account a b c d amount = served (card account) (
    type_pin a b c d (
      bank_runs
      ∷ teller_runs
      ∷ teller_runs
      ∷ served (cash amount) (bank_runs ∷ teller_runs ∷ bank_runs ∷ [])))

abbrev rest_of_bank : List Move
rest_of_bank = bank_runs ∷ bank_runs ∷ []

abbrev pub heist : Text → Text → Text → ℕ → ℕ → ℕ → ℕ → ℕ → List Move
heist first second third a b c d amount =
    (one_ahead first ++ two_ahead second ++ three_ahead third a b c d amount) ++ rest_of_bank

issued-append : (xs ys : List (QueueId × Message)) → issued (xs ++ ys) ≡ issued xs ++ issued ys
issued-append [] ys = refl
issued-append ((q, m) ∷ xs) ys =
    ap (λ t. listed (As.issue_money m) ++ t) (issued-append xs ys)
    ∙ sym (append_assoc (listed (As.issue_money m)) (issued xs) (issued ys))

-- The requests of the third customer, which the bank has not read
record Behind (s : System) (account pin : Text) (amount : ℕ) : Type 0 where
  running : s.aborted ≡ false
  bank : s.bank ≡ record {
    incoming = verify_pin account pin self ∷ withdraw account amount self ∷ [];
    funds = 199;
  }
  amounts : issued s.sent ≡ amount ∷ []

ahead-Behind :
    (garbage : ℕ) (first second third : Text) (a b c d amount : ℕ)
    → Behind
        (run
          (start garbage)
          (one_ahead first ++ two_ahead second ++ three_ahead third a b c d amount))
        third
        (a ∷ b ∷ c ∷ d ∷ [])
        amount
unfolding run step live_step start send_all Teller.enter Teller.receive Bank.receive Teller.new
    Bank.new
ahead-Behind garbage first second third a b c d amount = record {
  running = refl;
  bank = refl;
  amounts = refl;
}

two_more :
    (sent : List (QueueId × Message)) (m n : Message) (amount : ℕ)
    → As.issue_money m ≡ none
    → As.issue_money n ≡ none
    → issued sent ≡ amount ∷ []
    → issued (sent ++ (atm_queue, m) ∷ [] ++ (atm_queue, n) ∷ []) ≡ amount ∷ []
two_more sent m n amount e f h =
    issued-append (sent ++ (atm_queue, m) ∷ []) ((atm_queue, n) ∷ [])
    ∙ rw f (append-nil (issued (sent ++ (atm_queue, m) ∷ [])))
    ∙ issued-append sent ((atm_queue, m) ∷ [])
    ∙ rw e (append-nil (issued sent))
    ∙ h

-- The bank's answers to them
behind_lem :
    (s : System) (account pin : Text) (amount : ℕ)
    → Behind s account pin amount
    → 199 < amount
    → Unpaid amount (run s rest_of_bank)
unfolding run step live_step send_all Bank.receive
behind_lem s account pin amount v h =
    let known : s ≡ record s {
      bank = record {
        incoming = verify_pin account pin self ∷ withdraw account amount self ∷ [];
        funds = 199;
      };
      aborted = false;
    } =
      ap₂ (λ b a. record s { bank = b; aborted = a }) v.bank v.running in
    let denied : leb amount 199 ≡ false = ground (arith, h) in
    elim (Bool-cases (text_eq pin Bank.right_pin)) [
      | inl right ↦ subst (Unpaid amount) (ap (λ t. run t rest_of_bank) (sym known)) (
          rw (denied, right)
            (two_more s.sent pin_verified withdraw_denied amount refl refl v.amounts, refl, refl))
      | inr wrong ↦ subst (Unpaid amount) (ap (λ t. run t rest_of_bank) (sym known)) (
          rw (denied, wrong)
            (two_more s.sent pin_incorrect withdraw_denied amount refl refl v.amounts, refl, refl))
    ]

-- A customer who types any PIN is issued any amount above the bank's balance: the teller takes the
-- late answer to the request that another customer has cancelled for its own, and when the bank has
-- read all its messages, its balance is what it was at the start.
pub heist_lem :
    (garbage : ℕ) (first second third : Text) (a b c d amount : ℕ)
    → 199 < amount
    → Unpaid amount (run (start garbage) (heist first second third a b c d amount))
heist_lem garbage first second third a b c d amount h =
    rw
      (run-append (start garbage)
        (one_ahead first ++ two_ahead second ++ three_ahead third a b c d amount) rest_of_bank)
      (behind_lem
        (run (start garbage)
          (one_ahead first ++ two_ahead second ++ three_ahead third a b c d amount))
        third (a ∷ b ∷ c ∷ d ∷ []) amount (ahead-Behind garbage first second third a b c d amount)
        h)
