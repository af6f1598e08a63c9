-- ===== src/Tests/Pumps.antt =====
-- The theorems on the messages to and from a client at concrete inputs.
use tele_portal.Audio.Pool.{get_buffer}
use tele_portal.Audio.Pool.Classes.{empty_pools, get_buffer-fits}
use tele_portal.Call.Incoming.{Read, Reading, read_binary}
use tele_portal.Call.Incoming.Whole.{AllGive, read_binary-whole}
use tele_portal.Call.Processor.{QueuedMessage}
use tele_portal.Call.Pump.{
  Pump, PumpEvent, close_channel, drain_next, enqueue, new_pump, next_message, run_pump, ticker,
}
use tele_portal.Call.Pump.Delivered.{IsPump, accepted, run_pump-IsPump}
use tele_portal.Common.{
  Bool, List, [], arith, false, none, refl, some, suc, true, ℕ, ◌++◌, ◌∷◌, ◌≡◌, ◌≤◌,
}

abbrev word : Bool → ℕ → QueuedMessage
word is_binary n = record { is_binary = is_binary; payload = n ∷ [] }

-- The second message cannot be written, and another one comes between the drain and the closing.
abbrev broken : List PumpEvent
broken =
    enqueue (word true 1)
    ∷ enqueue (word true 2)
    ∷ ticker true
    ∷ next_message true
    ∷ enqueue (word false 3)
    ∷ next_message false
    ∷ drain_next
    ∷ drain_next
    ∷ enqueue (word true 4)
    ∷ close_channel
    ∷ []

run_pump-IsPump_example : IsPump (accepted broken new_pump) (run_pump broken new_pump)
run_pump-IsPump_example = run_pump-IsPump broken

two_back : (run_pump broken new_pump).put_back ≡ (1 ∷ []) ∷ (2 ∷ []) ∷ []
unfolding run_pump new_pump
two_back = refl

late : List PumpEvent → Pump
late es = run_pump (broken ++ es) new_pump

-- The late message stays in the closed channel, and its buffer is lost.
late-waits : (late (drain_next ∷ next_message true ∷ [])).send ≡ word true 4 ∷ []
unfolding late run_pump new_pump
late-waits = refl

-- The pools of the program, with nothing in them.
abbrev fresh_capacity : ℕ → ℕ
unfolding get_buffer
fresh_capacity n = (get_buffer none n empty_pools).0.cap

fresh_capacity-enough : (n : ℕ) → n ≤ fresh_capacity n
unfolding fresh_capacity get_buffer
fresh_capacity-enough n = (get_buffer-fits none n empty_pools).1

abbrev one_byte : Read
one_byte = record { at_most = 1; reports = false }

read_binary-whole_example :
    (end : Reading) × (read_binary fresh_capacity one_byte
        (one_byte ∷ one_byte ∷ record { at_most = 0; reports = true } ∷ [])
        (7 ∷ 8 ∷ 9 ∷ [])
      ≡ some (end, []))
    × (end.full ≡ 7 ∷ 8 ∷ 9 ∷ [])
    × (3 ≤ end.capacity)
    × (end.taken ≡ suc end.returned)
read_binary-whole_example =
    read_binary-whole fresh_capacity fresh_capacity-enough one_byte (one_byte ∷ one_byte ∷ []) 0
      (7 ∷ 8 ∷ 9 ∷ [])
      (unfold AllGive in ((omega arith, refl, (omega arith, refl, (omega arith, refl, tt)))))
      (omega arith)
