-- ===== src/Call/Manager.antt =====
-- internal/call/call_manager.go: the store of active calls. The maps and the list of waiters are
-- guarded by a lock and the counters are atomic, so that the operations are cut into the parts
-- that other goroutines can come between.
pub mod Counting
pub mod Lookups
pub mod Waking
use tele_portal.Common.{
  Bool, List, Option, [], false, if◌then◌else◌, map, none, some, true, ℕ, ◌++◌, ◌+◌, ◌==◌, ◌∷◌,
}
use tele_portal.Common.Maps.{Map, delete, insert, lookup}
use tele_portal.Common.Text.{Text}
use tele_portal.Common.Words.{u64}

-- What the manager reads of an active call.
pub record ActiveCall : Type 0 where
  pub call_id : Text
  pub id : Text
  pub has_dialog : Bool
  pub has_bridge : Bool

-- `closed` lists the channels that were closed, `gauge` is the last value given to the metrics.
pub record CallManager : Type 0 where
  pub calls_by_sip : Map ActiveCall
  pub calls_by_uuid : Map ActiveCall
  pub empty_waiters : List ℕ
  pub closed : List ℕ
  pub active_calls : ℕ
  pub total_calls : ℕ
  pub gauge : ℕ

abbrev pub new_call_manager : CallManager
new_call_manager = record {
  calls_by_sip = [];
  calls_by_uuid = [];
  empty_waiters = [];
  closed = [];
  active_calls = 0;
  total_calls = 0;
  gauge = 0;
}

-- The part of `Add` under the lock, and the part after it.
unfoldable pub add_insert : ActiveCall → CallManager → CallManager
add_insert c m = record m {
  calls_by_sip = insert c.call_id c m.calls_by_sip;
  calls_by_uuid = insert c.id c m.calls_by_uuid;
}

unfoldable pub add_count : CallManager → CallManager
add_count m =
    let count = u64 (m.active_calls + 1) in
    record m { active_calls = count; total_calls = u64 (m.total_calls + 1); gauge = count }

unfoldable pub add : ActiveCall → CallManager → CallManager
unfolding add_insert add_count
add c m = add_count (add_insert c m)

unfoldable pub get : Text → CallManager → Option ActiveCall
get call_id m = lookup call_id m.calls_by_sip

unfoldable pub get_by_internal_id : Text → CallManager → Option ActiveCall
get_by_internal_id id m = lookup id m.calls_by_uuid

-- `Remove`, whose `activeCalls.Add(-1)` wraps around at 0.
unfoldable pub remove_call : Text → Text → CallManager → CallManager
remove_call call_id id m =
    let count = u64 (m.active_calls + 18446744073709551615) in
    record m {
      calls_by_sip = delete call_id m.calls_by_sip;
      calls_by_uuid = delete id m.calls_by_uuid;
      active_calls = count;
      gauge = count;
      empty_waiters = if count == 0 then [] else m.empty_waiters;
      closed = if count == 0 then m.empty_waiters ++ m.closed else m.closed;
    }

unfoldable pub remove : Text → CallManager → CallManager
remove call_id m = elim (lookup call_id m.calls_by_sip) [
  | some c ↦ remove_call call_id c.id m
  | none ↦ m
]

-- The part of `WaitEmpty` under the lock, for a new channel: whether it returns at once.
unfoldable pub wait_empty : ℕ → CallManager → CallManager × Bool
wait_empty channel m =
    if m.active_calls == 0
    then (m, true)
    else (record m { empty_waiters = m.empty_waiters ++ channel ∷ [] }, false)

-- What hanging up does besides: a BYE through the dialog, or closing the bridge.
pub data Effect : Type 0 where
  send_bye close_bridge : ActiveCall → Effect

unfoldable pub hang_up_call : Text → CallManager → CallManager × List Effect
unfolding remove
hang_up_call call_id m = elim (lookup call_id m.calls_by_sip) [
  | none ↦ (m, [])
  | some c ↦
      if c.has_dialog
      then (m, send_bye c ∷ [])
      else (remove call_id m, if c.has_bridge then close_bridge c ∷ [] else [])
]

unfoldable pub list_active_calls : Map ActiveCall → List ActiveCall
list_active_calls m = map (λ e. e.1) m

unfoldable pub hang_up_all : List ActiveCall → CallManager → CallManager × List Effect
unfolding hang_up_call
hang_up_all [] m = (m, [])
hang_up_all (c ∷ cs) m =
    let (after, effects) = hang_up_call c.call_id m in
    let (last, more) = hang_up_all cs after in (last, effects ++ more)

-- `StopAll`, in an order of the map's entries.
unfoldable pub stop_all : CallManager → CallManager × List Effect
unfolding hang_up_all list_active_calls
stop_all m = hang_up_all (list_active_calls m.calls_by_sip) m
