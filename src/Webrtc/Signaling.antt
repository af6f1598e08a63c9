-- ===== src/Webrtc/Signaling.antt =====
-- internal/webrtc/manager.go and internal/api/http_handler.go: the calls that the signaling stores,
-- and what is left of them.
use tele_portal.Call.Manager.{
  CallManager, add, add_count, add_insert, get, get_by_internal_id, hang_up_call, remove,
  remove_call,
}
use tele_portal.Common.{
  Bool, arith, false, inl, inr, none, refl, some, sym, true, ◌&&◌, ◌+◌, ◌<◌, ◌∙◌, ◌∷◌, ◌≡◌, ◌⊎◌,
}
use tele_portal.Common.Maps.{insert, lookup, lookup-delete_self, lookup-insert_self}
use tele_portal.Common.Text.{Text}
use tele_portal.Common.Words.{u64}
use tele_portal.Webrtc.{
  ConnectRequest, Libraries, Rtc, awaiting_client, check_context, client_gone, connect_failed,
  handle_inbound_call, handle_webrtc_connect, process_signaling, start_call, webrtc_call,
}

-- The conditions up to the storing of the call, and those after it.
unfoldable pub reaches_call : ConnectRequest → Libraries → Bool
unfolding check_context handle_inbound_call
reaches_call q l =
    check_context q.secret q.claims
    && q.upgrades
    && q.has_manager
    && q.reads_offer
    && handle_inbound_call l
    && l.parses_id

unfoldable pub completes : Libraries → Bool
completes l =
    l.connects && l.makes_track && l.adds_track && l.sets_remote && l.creates_answer && l.sets_local

-- Exactly the requests that reach the call store it, under both its names, with its audio loop. The
-- handler waits for the client exactly if the signaling completes as well; else the call stays
-- stored after the handler has returned. All other requests leave everything as it was.
pub handle_webrtc_connect-stored :
    (q : ConnectRequest) (l : Libraries) (call_id id : Text) (s : Rtc)
    → let end = handle_webrtc_connect q l call_id id s in
      ((reaches_call q l ≡ true)
        × (end.1.manager ≡ add (webrtc_call call_id id) s.manager)
        × (end.1.loops ≡ call_id ∷ s.loops)
        × (((completes l ≡ true) × (end.0 ≡ awaiting_client) × (end.1.peers ≡ call_id ∷ s.peers))
            ⊎ ((completes l ≡ false) × (end.0 ≡ connect_failed))))
      ⊎ ((reaches_call q l ≡ false) × (¬ (end.0 ≡ awaiting_client)) × (end.1 ≡ s))
unfolding handle_webrtc_connect process_signaling start_call reaches_call completes
    handle_inbound_call check_context
handle_webrtc_connect-stored q l call_id id s = ground arith

stored_call :
    (call_id id : Text) (m : CallManager)
    → lookup call_id (add (webrtc_call call_id id) m).calls_by_sip ≡ some (webrtc_call call_id id)
unfolding add add_insert add_count
stored_call call_id id m = lookup-insert_self call_id (webrtc_call call_id id) m.calls_by_sip

remove-add :
    (call_id id : Text) (m : CallManager)
    → remove call_id (add (webrtc_call call_id id) m)
      ≡ remove_call call_id id (add (webrtc_call call_id id) m)
unfolding remove
remove-add call_id id m = rw (remove, stored_call call_id id m) refl

hang_up_call-add :
    (call_id id : Text) (m : CallManager)
    → (hang_up_call call_id (add (webrtc_call call_id id) m)).0
      ≡ remove_call call_id id (add (webrtc_call call_id id) m)
unfolding hang_up_call
hang_up_call-add call_id id m =
    rw (hang_up_call, stored_call call_id id m) (remove-add call_id id m)

-- The manager, when a call is stored and then removed.
remove_call-add :
    (call_id id : Text) (m : CallManager)
    → let end = remove_call call_id id (add (webrtc_call call_id id) m) in
      (lookup call_id end.calls_by_sip ≡ none)
      × (lookup id end.calls_by_uuid ≡ none)
      × (end.active_calls ≡ u64 (u64 (m.active_calls + 1) + 18446744073709551615))
unfolding remove_call add add_insert add_count
remove_call-add call_id id m = (
  lookup-delete_self call_id (insert call_id (webrtc_call call_id id) m.calls_by_sip),
  lookup-delete_self id (insert id (webrtc_call call_id id) m.calls_by_uuid),
  refl,
)

apart : ¬ (awaiting_client ≡ connect_failed)
apart e = cc

-- A call whose client was waited for is stored under neither name if the client goes at once, and
-- the count of the calls is what it was. Its peer connection and its audio loop are left as they
-- are.
client_gone-removes :
    (q : ConnectRequest) (l : Libraries) (call_id id : Text) (s : Rtc)
    → s.manager.active_calls < 18446744073709551616
    → (handle_webrtc_connect q l call_id id s).0 ≡ awaiting_client
    → let end = (client_gone call_id (handle_webrtc_connect q l call_id id s).1).0 in
      (get call_id end.manager ≡ none)
      × (get_by_internal_id id end.manager ≡ none)
      × (end.manager.active_calls ≡ s.manager.active_calls)
      × (end.peers ≡ call_id ∷ s.peers)
      × (end.loops ≡ call_id ∷ s.loops)
unfolding client_gone get get_by_internal_id
client_gone-removes q l call_id id s h e =
    let end = (handle_webrtc_connect q l call_id id s).1 in
    elim (handle_webrtc_connect-stored q l call_id id s) [
      | inr (fails, other, same) ↦ absurd (other e)
      | inl (reached, kept, loops_on, inr (fails, failure)) ↦ absurd (apart (sym e ∙ failure))
      | inl (reached, kept, loops_on, inl (whole, wait, opened)) ↦
          let gone = remove_call-add call_id id s.manager in
          rw (kept, hang_up_call-add call_id id s.manager)
            (gone.0, gone.1, gone.2 ∙ omega arith, opened, loops_on)
    ]
