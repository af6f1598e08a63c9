-- ===== src/Call/Pump.antt =====
-- internal/call/audio_bridge.go: `writePump`, which sends the messages in the channel of a client.
-- A round of its loop is a step, a round of the loop of its deferred function is a step, and so are
-- a message that `broadcast` puts into the channel, and the closing of the channel by `RemoveClient`
-- or `CloseAll`. The `remove` of the deferred function is such a closing: other steps may come
-- between the drain and it.
pub mod Delivered
use tele_portal.Call.Processor.{QueuedMessage}
use tele_portal.Common.{
  Bool, List, [], false, if◌then◌else◌, leb, length, not, true, ℕ, ◌&&◌, ◌++◌, ◌||◌, ◌∷◌,
}
use tele_portal.Rtp.Dtmf.{payload}

-- What goes out on the connection.
pub data Frame : Type 0 where
  message_frame : QueuedMessage → Frame
  ping_frame close_frame : Frame

-- `frames` lists what was written without an error, and `put_back` the buffers that were given to
-- `PutBuffer`. `stopped` says that the loop has ended, and `drained` that the loop of the deferred
-- function has ended, too.
pub record Pump : Type 0 where
  pub send : List QueuedMessage
  pub channel_closed : Bool
  pub frames : List Frame
  pub put_back : List (List ℕ)
  pub stopped : Bool
  pub drained : Bool

unfoldable pub new_pump : Pump
new_pump = record {
  send = [];
  channel_closed = false;
  frames = [];
  put_back = [];
  stopped = false;
  drained = false;
}

-- A step; the Boolean is whether the write of the round succeeds.
pub data PumpEvent : Type 0 where
  enqueue : QueuedMessage → PumpEvent
  close_channel drain_next : PumpEvent
  next_message ticker : Bool → PumpEvent

-- The buffer of a message: that of a binary message comes from the pool.
abbrev pub buffer_of : QueuedMessage → List (List ℕ)
buffer_of m = if m.is_binary then m.payload ∷ [] else []

-- The return from the loop, after which the deferred function runs.
unfoldable pub stop_pump : Pump → Pump
stop_pump p = record p { stopped = true }

-- A round of the deferred function: a message, or none (then the channel is empty, or closed).
unfoldable pub drain_round : List QueuedMessage → Pump → Pump
drain_round [] p = record p { drained = true }
drain_round (m ∷ ms) p = record p { send = ms; put_back = p.put_back ++ buffer_of m }

-- The case of a message, or of the closed channel; without either the loop waits.
unfoldable pub take_message : Bool → List QueuedMessage → Pump → Pump
unfolding stop_pump
take_message written [] p =
    if p.channel_closed
    then stop_pump
        (record p { frames = if written then p.frames ++ close_frame ∷ [] else p.frames })
    else p
take_message written (m ∷ ms) p =
    let given = record p { send = ms; put_back = p.put_back ++ buffer_of m } in
    if written then record given { frames = p.frames ++ message_frame m ∷ [] } else stop_pump given

-- The end of `broadcast` for this client: there is one until its channel is closed.
abbrev pub has_room : Pump → Bool
has_room p = not p.channel_closed && not (leb 200 (length p.send))

unfoldable pub pump_step : PumpEvent → Pump → Pump
unfolding take_message stop_pump drain_round
pump_step (enqueue m) p = if has_room p then record p { send = p.send ++ m ∷ [] } else p
pump_step close_channel p = record p { channel_closed = true }
pump_step drain_next p = if not p.stopped || p.drained then p else drain_round p.send p
pump_step (next_message written) p = if p.stopped then p else take_message written p.send p
pump_step (ticker written) p =
    if p.stopped
    then p
    else if written
    then record p { frames = p.frames ++ ping_frame ∷ [] }
    else stop_pump p

unfoldable pub run_pump : List PumpEvent → Pump → Pump
unfolding pump_step
run_pump [] p = p
run_pump (e ∷ es) p = run_pump es (pump_step e p)
