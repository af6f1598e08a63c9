-- ===== src/Tests/Clients.antt =====
-- The theorems on the client's slot at concrete inputs.
use tele_portal.Call.Bridge.{add_client, new_bridge, try_lock}
use tele_portal.Call.Bridge.Slot.{
  AreTaken, IsExclusive, IsTaken, Slot, Step, adding, headers_failed, headers_failed-refused,
  closing, locking, removing, run, run-IsExclusive, step,
}
use tele_portal.Common.{List, [], arith, false, refl, true, ◌∷◌, ◌≡◌}

abbrev free_slot : Slot
free_slot = record { bridge = new_bridge; holders = 0; lost = 0; shut = false }

free_slot-IsExclusive : IsExclusive free_slot
free_slot-IsExclusive = record { one_holder = λ h. refl; no_overlap = omega arith; metric = refl }

abbrev session : List Step
session = locking ∷ locking ∷ adding 1 ∷ locking ∷ removing 1 ∷ locking ∷ closing ∷ locking ∷ []

session-AreTaken : AreTaken session free_slot
unfolding AreTaken IsTaken step try_lock add_client
session-AreTaken = (tt, (tt, (omega arith, (tt, (tt, (tt, (tt, (tt, tt))))))))

run-IsExclusive_example : IsExclusive (run session free_slot)
run-IsExclusive_example = run-IsExclusive session free_slot free_slot-IsExclusive session-AreTaken

abbrev held_slot : Slot
held_slot = record free_slot { bridge = record new_bridge { reserved = true }; holders = 1 }

held_slot-IsExclusive : IsExclusive held_slot
held_slot-IsExclusive = record { one_holder = λ h. refl; no_overlap = omega arith; metric = refl }

failing-AreTaken : AreTaken (headers_failed ∷ locking ∷ []) held_slot
unfolding AreTaken IsTaken
failing-AreTaken = (omega arith, (tt, tt))

headers_failed-refused_example :
    (try_lock (run (headers_failed ∷ locking ∷ []) held_slot).bridge).1 ≡ false
headers_failed-refused_example =
    headers_failed-refused (locking ∷ []) held_slot held_slot-IsExclusive failing-AreTaken
      (unfold run step in refl)
