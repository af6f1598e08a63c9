-- ===== src/Client/Session.antt =====
-- pkg/client/client.go: the life of a client, from its two channels and its pumps to `Close`. Each
-- operation is one step, from its first test to the end of its `select`; a step that cannot go on in
-- a state waits. The pumps end when the client is closed, since `Close` waits for them.
use tele_portal.Audio.Codec.{CodecName, l16, same_name}
use tele_portal.Call.Processor.{QueuedMessage}
use tele_portal.Client.{Select, caller_done, closed, sent}
use tele_portal.Common.{
  Bool, List, [], false, if◌then◌else◌, leb, length, not, replicate, suc, true, ℕ, ◌*◌, ◌++◌, ◌+◌,
  ◌/◌, ◌==◌, ◌||◌, ◌∷◌,
}
use tele_portal.Common.Maps.{size}
use tele_portal.Common.Result.{Result, err, ok}
use tele_portal.Rtp.Dtmf.{payload}

-- `given` counts the buffers that `Read` gave away; `taken` and `returned` count the calls of
-- `GetBuffer` and `PutBuffer`. The channels are closed with the client.
pub record Session : Type 0 where
  pub send : List QueuedMessage
  pub receive : List (List ℕ)
  pub is_closed : Bool
  pub mute_in : Bool
  pub mute_out : Bool
  pub given : ℕ
  pub taken : ℕ
  pub returned : ℕ

pub data Fault : Type 0 where
  waits panics : Fault

abbrev pub new_session : Session
new_session = record {
  send = [];
  receive = [];
  is_closed = false;
  mute_in = false;
  mute_out = false;
  given = 0;
  taken = 0;
  returned = 0;
}

abbrev pub binary : List ℕ → QueuedMessage
binary payload = record { is_binary = true; payload = payload }

abbrev pub text : List ℕ → QueuedMessage
text payload = record { is_binary = false; payload = payload }

abbrev pub take_one : Session → Session
take_one c = record c { taken = suc c.taken }

abbrev pub put_back : ℕ → Session → Session
put_back n c = record c { returned = c.returned + n }

abbrev pub queue : QueuedMessage → Session → Session
queue m c = record c { send = c.send ++ m ∷ [] }

-- `Write`; a closed client returns an error.
unfoldable pub write : List ℕ → Select → Session → Result Fault Session
write samples select c =
    let payload = if c.mute_out then replicate (length samples) 0 else samples in
    if c.is_closed then ok c else elim select [
      | sent ↦
          if leb 100 (length c.send) then err waits else ok (queue (binary payload) (take_one c))
      | caller_done ↦ ok (put_back 1 (take_one c))
      | closed ↦ ok (put_back 1 (take_one c))
    ]

-- The `select` of `Hangup` and of `SendDTMF`, for a request as JSON: a send on a closed channel
-- panics.
unfoldable pub send_text : List ℕ → Select → Session → Result Fault Session
send_text payload select c = elim select [
  | sent ↦
      if c.is_closed
      then err panics
      else if leb 100 (length c.send)
      then err waits
      else ok (queue (text payload) c)
  | caller_done ↦ ok c
  | closed ↦ ok c
]

-- `Read`, when it takes a frame.
unfoldable pub read : Session → Result Fault Session
read c = elim c.receive [
  | [] ↦ err waits
  | x ∷ xs ↦ ok (record c { receive = xs; given = suc c.given })
]

-- A binary message of the server in `readPump`; `readable` is whether the read gives no error.
unfoldable pub on_frame : List ℕ → Bool → Session → Result Fault Session
on_frame payload readable c =
    if c.is_closed
    then err waits
    else if c.mute_in
    then ok c
    else if not readable || leb 100 (length c.receive)
    then ok (put_back 1 (take_one c))
    else ok (record (take_one c) { receive = c.receive ++ payload ∷ [] })

-- A message in `writePump`, written or not.
unfoldable pub write_next : Session → Result Fault Session
write_next c = if c.is_closed then err waits else elim c.send [
  | [] ↦ err waits
  | m ∷ ms ↦
      ok (if m.is_binary then put_back 1 (record c { send = ms }) else record c { send = ms })
]

-- The bytes of a round of `listenOnlyPump`.
unfoldable pub bytes_per_tick : CodecName → ℕ → ℕ → ℕ
bytes_per_tick codec sample_rate ptime =
    let samples = sample_rate * (if ptime == 0 then 20 else ptime) / 1000 in
    if same_name codec l16 then samples * 2 else samples

unfoldable pub send_silence : ℕ → Session → Result Fault Session
send_silence size c =
    if c.is_closed
    then err waits
    else if leb 100 (length c.send)
    then ok (put_back 1 (take_one c))
    else ok (queue (binary (replicate size 0)) (take_one c))

abbrev pub binaries_of : List QueuedMessage → ℕ
binaries_of [] = 0
binaries_of (q ∷ qs) = if q.is_binary then suc (binaries_of qs) else binaries_of qs

-- `Close`, once: both channels are drained into the pool.
unfoldable pub close : Session → Result Fault Session
close c =
    if c.is_closed
    then ok c
    else ok (record (put_back (binaries_of c.send + length c.receive) c) {
      send = [];
      receive = [];
      is_closed = true;
    })

pub data Step : Type 0 where
  writing requesting : List ℕ → Select → Step
  reading pumping closing : Step
  arriving : List ℕ → Bool → Step
  silent : ℕ → Step
  muting : Bool → Bool → Step

unfoldable pub step : Step → Session → Result Fault Session
unfolding write send_text read on_frame write_next send_silence close
step (writing samples select) c = write samples select c
step (requesting payload select) c = send_text payload select c
step reading c = read c
step pumping c = write_next c
step closing c = close c
step (arriving payload readable) c = on_frame payload readable c
step (silent size) c = send_silence size c
step (muting inbound outbound) c = ok (record c { mute_in = inbound; mute_out = outbound })

unfoldable pub run : List Step → Session → Result Fault Session
unfolding step
run [] c = ok c
run (s ∷ ss) c = elim (step s c) [ err e ↦ err e | ok d ↦ run ss d ]
