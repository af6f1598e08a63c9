-- ===== src/Call/Manager/Waking.antt =====
-- internal/call/call_manager.go: when the goroutines in `WaitEmpty` are woken.
use tele_portal.Call.Manager.{ActiveCall, remove, remove_call}
use tele_portal.Call.Manager.Counting.{History, IsCounted}
use tele_portal.Common.{[], arith, if◌then◌else◌, refl, some, suc, ℕ, ◌++◌, ◌+◌, ◌<◌, ◌==◌, ◌≡◌}
use tele_portal.Common.Maps.{lookup, size}
use tele_portal.Common.Text.{Text}
use tele_portal.Common.Words.{u64}

last_one :
    (a p s : ℕ)
    → u64 (a + p) ≡ u64 s
    → s < 18446744073709551616
    → p < s
    → (u64 (a + 18446744073709551615) == 0) ≡ (s == suc p)
last_one a p s e bound h = ground arith

-- While fewer calls wait to be counted than are stored, so that the call is not removed before an
-- `Add` on its way has counted it: removing a stored call closes the channels of the goroutines that wait exactly if the calls that
-- are left are as many as the calls whose `Add` has not counted them yet; otherwise it closes none
-- and they wait on. So the last `Remove` wakes them where no `Add` is on its way, and a `Remove`
-- in the middle of an `Add` wakes them while a call is stored.
pub remove-wakes :
    (call_id : Text)
    → (c : ActiveCall) → (h : History) → IsCounted h
    → lookup call_id h.manager.calls_by_sip ≡ some c
    → size h.manager.calls_by_sip < 18446744073709551616
    → h.pending < size h.manager.calls_by_sip
    → ((remove call_id h.manager).empty_waiters
        ≡ (if size h.manager.calls_by_sip == suc h.pending then [] else h.manager.empty_waiters))
      × ((remove call_id h.manager).closed ≡ (
          if size h.manager.calls_by_sip == suc h.pending
          then h.manager.empty_waiters ++ h.manager.closed
          else h.manager.closed))
unfolding remove remove_call
remove-wakes call_id c h v e bound some_left =
    let last =
      last_one h.manager.active_calls h.pending (size h.manager.calls_by_sip) v.counts bound
        some_left in
    rw (e, remove, last) (refl, refl)
