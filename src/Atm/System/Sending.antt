-- ===== src/Atm/System/Sending.antt =====
-- What a list of sends does to the process.
use cxx.Common.{◌≡◌, ◌∙◌, none, some, List, [], ◌∷◌, ◌++◌, append_assoc, append-nil}
use cxx.Atm.Message.{QueueId, atm_queue, bank_queue, interface_queue, Sender, Message}
use cxx.Atm.System.Defs.{System, push_to, send_all}

-- Those of the sends that reach a queue, with that queue.
abbrev pub posted : List (Sender × Message) → List (QueueId × Message)
posted [] = []
posted ((none, m) ∷ out) = posted out
posted ((some q, m) ∷ out) = (q, m) ∷ posted out

-- Those that reach the queue of the teller, of the bank, of the interface.
abbrev pub to_teller : List (Sender × Message) → List Message
to_teller [] = []
to_teller ((some atm_queue, m) ∷ out) = m ∷ to_teller out
to_teller (_ ∷ out) = to_teller out

abbrev pub to_bank : List (Sender × Message) → List Message
to_bank [] = []
to_bank ((some bank_queue, m) ∷ out) = m ∷ to_bank out
to_bank (_ ∷ out) = to_bank out

abbrev pub to_interface : List (Sender × Message) → List Message
to_interface [] = []
to_interface ((some interface_queue, m) ∷ out) = m ∷ to_interface out
to_interface (_ ∷ out) = to_interface out

abbrev pub delivered : List (Sender × Message) → System → System
delivered out s = record {
  teller = record s.teller { incoming = s.teller.incoming ++ to_teller out };
  bank = record s.bank { incoming = s.bank.incoming ++ to_bank out };
  interface = s.interface ++ to_interface out;
  printed = s.printed;
  aborted = s.aborted;
  sent = s.sent ++ posted out;
}

-- Each queue gets its messages at its end, in the order of the sends, and nothing else changes.
pub send_all_lem : (out : List (Sender × Message)) (s : System) → send_all out s ≡ delivered out s
unfolding send_all
send_all_lem [] s = simp append-nil
send_all_lem ((none, m) ∷ out) s = send_all_lem out s
send_all_lem ((some atm_queue, m) ∷ out) s =
    send_all_lem out (push_to atm_queue m s) ∙ simp append_assoc
send_all_lem ((some bank_queue, m) ∷ out) s =
    send_all_lem out (push_to bank_queue m s) ∙ simp append_assoc
send_all_lem ((some interface_queue, m) ∷ out) s =
    send_all_lem out (push_to interface_queue m s) ∙ simp append_assoc
