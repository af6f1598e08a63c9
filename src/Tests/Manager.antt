-- ===== src/Tests/Manager.antt =====
-- The theorems on the call manager at concrete inputs.
use tele_portal.Call.Manager.{
  ActiveCall, add, add_count, add_insert, get, get_by_internal_id, new_call_manager, remove,
  wait_empty,
}
use tele_portal.Call.Manager.Counting.{
  AreTaken, History, IsCounted, IsTaken, Step, counted, inserted, removed, run, run-IsCounted, step,
  waiting,
}
use tele_portal.Call.Manager.Lookups.{IsIndexed, add-IsIndexed, new_call_manager-IsIndexed}
use tele_portal.Call.Manager.Waking.{remove-wakes}
use tele_portal.Common.{List, [], arith, if◌then◌else◌, refl, true, ◌==◌, ◌∷◌, ◌≡◌}
use tele_portal.Common.Maps.{IsMap, delete, insert, lookup, size}
use tele_portal.Common.Text.{codes, same_text}

abbrev call_a : ActiveCall
call_a = record { call_id = codes "a"; id = codes "1"; has_dialog = true; has_bridge = true }

abbrev call_b : ActiveCall
call_b = record { call_id = codes "b"; id = codes "2"; has_dialog = true; has_bridge = true }

added : IsIndexed (add call_a new_call_manager)
added =
    add-IsIndexed call_a new_call_manager new_call_manager-IsIndexed (unfold get lookup in refl)
      (unfold get_by_internal_id lookup in refl)

abbrev no_calls : History
no_calls = record { manager = new_call_manager; pending = 0 }

no_calls-IsCounted : IsCounted no_calls
unfolding IsMap size
no_calls-IsCounted = record { is_map = tt; counts = refl }

-- The second call is removed while the first is counted and the second is not.
abbrev steps : List Step
steps = inserted call_a ∷ counted ∷ waiting 7 ∷ inserted call_b ∷ removed (codes "b") ∷ []

steps-AreTaken : AreTaken steps no_calls
unfolding AreTaken IsTaken step add_insert add_count get lookup insert delete wait_empty same_text
steps-AreTaken = (refl, (omega arith, (tt, (refl, (tt, tt)))))

run-IsCounted_example : IsCounted (run steps no_calls)
run-IsCounted_example = run-IsCounted steps no_calls no_calls-IsCounted steps-AreTaken

abbrev before : History
before = record {
  manager = record new_call_manager {
    calls_by_sip = (codes "b", call_b) ∷ (codes "a", call_a) ∷ [];
    empty_waiters = 7 ∷ [];
    active_calls = 1;
  };
  pending = 1;
}

before-IsCounted : IsCounted before
unfolding IsMap size lookup same_text
before-IsCounted = record { is_map = (refl, (refl, tt)); counts = refl }

remove-wakes_example :
    ((remove (codes "b") before.manager).empty_waiters
      ≡ (if size before.manager.calls_by_sip == 2 then [] else 7 ∷ []))
    × ((remove (codes "b") before.manager).closed
        ≡ (if size before.manager.calls_by_sip == 2 then 7 ∷ [] else []))
remove-wakes_example =
    remove-wakes (codes "b") call_b before before-IsCounted (unfold lookup same_text in refl)
      (unfold size in omega arith) (unfold size in omega arith)
