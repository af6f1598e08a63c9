-- ===== src/Call/Pump/Delivered.antt =====
-- internal/call/audio_bridge.go: which messages reach the client, and where their buffers go.
use mathlib.Core.List.{append_assoc, append-nil}
use tele_portal.Call.Processor.{QueuedMessage}
use tele_portal.Call.Pump.{
  Frame, Pump, PumpEvent, buffer_of, close_channel, close_frame, drain_next, drain_round, enqueue,
  has_room, message_frame, new_pump, next_message, ping_frame, pump_step, run_pump, stop_pump,
  take_message, ticker,
}
use tele_portal.Common.{
  Bool, Bool-cases, List, [], ap, false, if◌then◌else◌, inl, inr, refl, subst, sym, true, ℕ, ◌++◌,
  ◌∙◌, ◌∷◌, ◌≡◌, ◌⊎◌,
}
use tele_portal.Common.Maps.{true-false}

-- The messages that were put into the channel.
unfoldable pub accepts : PumpEvent → Pump → List QueuedMessage
accepts (enqueue m) p = if has_room p then m ∷ [] else []
accepts close_channel p = []
accepts drain_next p = []
accepts (next_message written) p = []
accepts (ticker written) p = []

unfoldable pub accepted : List PumpEvent → Pump → List QueuedMessage
unfolding accepts pump_step
accepted [] p = []
accepted (e ∷ es) p = accepts e p ++ accepted es (pump_step e p)

unfoldable pub messages_in : List Frame → List QueuedMessage
messages_in [] = []
messages_in (message_frame m ∷ fs) = m ∷ messages_in fs
messages_in (ping_frame ∷ fs) = messages_in fs
messages_in (close_frame ∷ fs) = messages_in fs

messages_in-append :
    (fs gs : List Frame) → messages_in (fs ++ gs) ≡ messages_in fs ++ messages_in gs
unfolding messages_in
messages_in-append [] gs = refl
messages_in-append (message_frame m ∷ fs) gs = ap (◌∷◌ m) (messages_in-append fs gs)
messages_in-append (ping_frame ∷ fs) gs = messages_in-append fs gs
messages_in-append (close_frame ∷ fs) gs = messages_in-append fs gs

-- The buffers of binary messages, in their order.
unfoldable pub buffers_of : List QueuedMessage → List (List ℕ)
buffers_of [] = []
buffers_of (m ∷ ms) = buffer_of m ++ buffers_of ms

buffers_of-append :
    (ms ns : List QueuedMessage) → buffers_of (ms ++ ns) ≡ buffers_of ms ++ buffers_of ns
unfolding buffers_of
buffers_of-append [] ns = refl
buffers_of-append (m ∷ ms) ns =
    ap (◌++◌ (buffer_of m)) (buffers_of-append ms ns)
    ∙ sym (append_assoc (buffer_of m) (buffers_of ms) (buffers_of ns))

-- A pump after the messages `all` were put into its channel: what was written, what was dropped at
-- the end, and what is in the channel. Nothing is dropped while the loop runs. The buffers that were
-- put back, and those in the channel, are those of all binary messages.
pub record IsPump (all : List QueuedMessage) (p : Pump) : Type 0 where
  pub dropped : List QueuedMessage
  pub in_order : (messages_in p.frames ++ dropped) ++ p.send ≡ all
  pub while_running : p.stopped ≡ false → dropped ≡ []
  pub buffers : p.put_back ++ buffers_of p.send ≡ buffers_of all

pub new_pump-IsPump : IsPump [] new_pump
unfolding new_pump messages_in buffers_of
new_pump-IsPump = record {
  dropped = [];
  in_order = refl;
  while_running = λ r. refl;
  buffers = refl;
}

-- A message more of the channel is dropped, or written with nothing dropped before it.
next_back :
    (all : List QueuedMessage) (p : Pump) (m : QueuedMessage) (ms : List QueuedMessage)
    → p.put_back ++ buffers_of (m ∷ ms) ≡ buffers_of all
    → (p.put_back ++ buffer_of m) ++ buffers_of ms ≡ buffers_of all
unfolding buffers_of
next_back all p m ms e = append_assoc p.put_back (buffer_of m) (buffers_of ms) ∙ e

next_dropped :
    (fs ds : List QueuedMessage) (m : QueuedMessage) (ms all : List QueuedMessage)
    → (fs ++ ds) ++ m ∷ ms ≡ all
    → (fs ++ (ds ++ m ∷ [])) ++ ms ≡ all
next_dropped fs ds m ms all e =
    ap (λ (t : List QueuedMessage). t ++ ms) (sym (append_assoc fs ds (m ∷ [])))
    ∙ append_assoc (fs ++ ds) (m ∷ []) ms
    ∙ e

next_written :
    (fs ds : List QueuedMessage) (m : QueuedMessage) (ms all : List QueuedMessage)
    → ds ≡ []
    → (fs ++ ds) ++ m ∷ ms ≡ all
    → ((fs ++ m ∷ []) ++ []) ++ ms ≡ all
next_written fs ds m ms all n e =
    ap (λ (t : List QueuedMessage). t ++ ms) (append-nil (fs ++ m ∷ []))
    ∙ append_assoc fs (m ∷ []) ms
    ∙ ap (λ (t : List QueuedMessage). t ++ m ∷ ms)
        (sym (ap (λ (d : List QueuedMessage). fs ++ d) n ∙ append-nil fs))
    ∙ e

-- A frame that is no message.
quiet :
    (p : Pump) (f : Frame)
    → messages_in (f ∷ []) ≡ []
    → messages_in (p.frames ++ f ∷ []) ≡ messages_in p.frames
quiet p f e = messages_in-append p.frames (f ∷ []) ∙ rw e (append-nil (messages_in p.frames))

-- The other parts of a pump do not matter.
same_messages :
    (all : List QueuedMessage) (p q : Pump)
    → messages_in q.frames ≡ messages_in p.frames
    → q.send ≡ p.send
    → q.put_back ≡ p.put_back
    → (q.stopped ≡ false → p.stopped ≡ false)
    → IsPump all p
    → IsPump all q
same_messages all p q f s b r v = record {
  dropped = v.dropped;
  in_order = rw (f, s) v.in_order;
  while_running = λ h. v.while_running (r h);
  buffers = rw (b, s) v.buffers;
}

stop_pump-IsPump : (all : List QueuedMessage) (p : Pump) → IsPump all p → IsPump all (stop_pump p)
unfolding stop_pump
stop_pump-IsPump all p v =
    same_messages all p (stop_pump p) refl refl refl (λ h. absurd (true-false h)) v

drain_round-IsPump :
    (all qs : List QueuedMessage) (p : Pump)
    → p.stopped ≡ true
    → p.send ≡ qs
    → IsPump all p
    → IsPump all (drain_round qs p)
unfolding drain_round
drain_round-IsPump all [] p s e v = same_messages all p (drain_round [] p) refl refl refl (λ h. h) v
drain_round-IsPump all (m ∷ ms) p s e v = record {
  dropped = v.dropped ++ m ∷ [];
  in_order = next_dropped (messages_in p.frames) v.dropped m ms all (rw e at v.in_order);
  while_running = λ h. absurd (true-false (sym s ∙ h));
  buffers = next_back all p m ms (rw e at v.buffers);
}

-- An empty channel: the loop waits, or its channel is closed and it says so.
empty_channel :
    (written : Bool) (p : Pump)
    → (take_message written [] p ≡ p)
      ⊎ (take_message written [] p ≡ stop_pump p)
      ⊎ (take_message written [] p ≡ stop_pump (record p { frames = p.frames ++ close_frame ∷ [] }))
unfolding take_message
empty_channel written p = elim (Bool-cases p.channel_closed) [
  | inr c ↦ inl (simp (c, take_message))
  | inl c ↦ inr (elim (Bool-cases written) [
    | inl w ↦ inr (simp (c, w, take_message))
    | inr w ↦ inl (simp (c, w, take_message))
  ])
]

take_message-IsPump :
    (written : Bool) (all qs : List QueuedMessage) (p : Pump)
    → p.stopped ≡ false
    → p.send ≡ qs
    → IsPump all p
    → IsPump all (take_message written qs p)
unfolding take_message messages_in stop_pump
take_message-IsPump written all [] p r e v = elim (empty_channel written p) [
  | inl g ↦ subst (IsPump all) (sym g) v
  | inr (inl g) ↦ subst (IsPump all) (sym g) (stop_pump-IsPump all p v)
  | inr (inr g) ↦
      let said = record p { frames = p.frames ++ close_frame ∷ [] } in
      subst (IsPump all) (sym g) (
        stop_pump-IsPump all said
          (same_messages all p said (quiet p close_frame refl) refl refl (λ h. h) v))
]
take_message-IsPump true all (m ∷ ms) p r e v = record {
  dropped = [];
  in_order =
      ap (λ (t : List QueuedMessage). (t ++ []) ++ ms)
        (messages_in-append p.frames (message_frame m ∷ []))
      ∙ next_written (messages_in p.frames) v.dropped m ms all (v.while_running r)
          (rw e at v.in_order);
  while_running = λ h. refl;
  buffers = next_back all p m ms (rw e at v.buffers);
}
take_message-IsPump false all (m ∷ ms) p r e v = record {
  dropped = v.dropped ++ m ∷ [];
  in_order = next_dropped (messages_in p.frames) v.dropped m ms all (rw e at v.in_order);
  while_running = λ h. absurd (true-false h);
  buffers = next_back all p m ms (rw e at v.buffers);
}

ticker_step : Bool → Pump → Pump
unfolding stop_pump
ticker_step written p =
    if written then record p { frames = p.frames ++ ping_frame ∷ [] } else stop_pump p

ticker-IsPump :
    (written : Bool) (all : List QueuedMessage) (p : Pump)
    → IsPump all p
    → IsPump all (ticker_step written p)
unfolding ticker_step messages_in
ticker-IsPump true all p v =
    same_messages all p (ticker_step true p) (quiet p ping_frame refl) refl refl (λ h. h) v
ticker-IsPump false all p v = stop_pump-IsPump all p v

-- A message that is put into the channel, at any time until it is closed.
enqueue-IsPump :
    (m : QueuedMessage) (all : List QueuedMessage) (p : Pump)
    → IsPump all p
    → IsPump (all ++ m ∷ []) (record p { send = p.send ++ m ∷ [] })
enqueue-IsPump m all p v = record {
  dropped = v.dropped;
  in_order =
      sym (append_assoc (messages_in p.frames ++ v.dropped) p.send (m ∷ []))
      ∙ ap (λ (t : List QueuedMessage). t ++ m ∷ []) v.in_order;
  while_running = v.while_running;
  buffers =
      ap (◌++◌ p.put_back) (buffers_of-append p.send (m ∷ []))
      ∙ sym (append_assoc p.put_back (buffers_of p.send) (buffers_of (m ∷ [])))
      ∙ ap (λ (t : List (List ℕ)). t ++ buffers_of (m ∷ [])) v.buffers
      ∙ sym (buffers_of-append all (m ∷ []));
}

-- Each step, by what it comes to.
step-cases :
    (e : PumpEvent) (p : Pump)
    → ((m : QueuedMessage) × (accepts e p ≡ m ∷ [])
        × (pump_step e p ≡ record p { send = p.send ++ m ∷ [] }))
      ⊎ ((accepts e p ≡ [])
          × ((pump_step e p ≡ p)
              ⊎ (pump_step e p ≡ record p { channel_closed = true })
              ⊎ ((p.stopped ≡ true) × (pump_step e p ≡ drain_round p.send p))
              ⊎ ((p.stopped ≡ false)
                  × (written : Bool) × ((pump_step e p ≡ take_message written p.send p)
                      ⊎ (pump_step e p ≡ ticker_step written p)))))
unfolding accepts pump_step ticker_step
step-cases (enqueue m) p = elim (Bool-cases (has_room p)) [
  | inl g ↦ inl (m, simp (g, accepts), simp (g, pump_step))
  | inr g ↦ inr (simp (g, accepts), inl (simp (g, pump_step)))
]
step-cases close_channel p = inr (refl, inr (inl refl))
step-cases drain_next p = elim (Bool-cases p.stopped) [
  | inr g ↦ inr (refl, inl (simp (g, pump_step)))
  | inl g ↦ elim (Bool-cases p.drained) [
    | inl d ↦ inr (refl, inl (simp (g, d, pump_step)))
    | inr d ↦ inr (refl, inr (inr (inl (g, simp (g, d, pump_step)))))
  ]
]
step-cases (next_message written) p = elim (Bool-cases p.stopped) [
  | inl g ↦ inr (refl, inl (simp (g, pump_step)))
  | inr g ↦ inr (refl, inr (inr (inr (g, written, inl (simp (g, pump_step))))))
]
step-cases (ticker written) p = elim (Bool-cases p.stopped) [
  | inl g ↦ inr (refl, inl (simp (g, pump_step)))
  | inr g ↦ inr (refl, inr (inr (inr (g, written, inr (simp (g, pump_step, ticker_step))))))
]

moved :
    (all more : List QueuedMessage) (p q : Pump)
    → more ≡ []
    → p ≡ q
    → IsPump all q
    → IsPump (all ++ more) p
moved all more p q e f v = rw (e, append-nil all, f) v

pump_step-IsPump :
    (e : PumpEvent) (all : List QueuedMessage) (p : Pump)
    → IsPump all p
    → IsPump (all ++ accepts e p) (pump_step e p)
pump_step-IsPump e all p v =
    let same = λ (q : Pump). moved all (accepts e p) (pump_step e p) q in
    elim (step-cases e p) [
      | inl (m, a, f) ↦
          subst (λ t. IsPump (all ++ t) (pump_step e p)) (sym a)
            (subst (IsPump (all ++ m ∷ [])) (sym f) (enqueue-IsPump m all p v))
      | inr (a, inl f) ↦ same p a f v
      | inr (a, inr (inl f)) ↦
          let shut = record p { channel_closed = true } in
          same shut a f (same_messages all p shut refl refl refl (λ h. h) v)
      | inr (a, inr (inr (inl (s, f)))) ↦
          same (drain_round p.send p) a f (drain_round-IsPump all p.send p s refl v)
      | inr (a, inr (inr (inr (s, written, inl f)))) ↦
          same (take_message written p.send p) a f
            (take_message-IsPump written all p.send p s refl v)
      | inr (a, inr (inr (inr (s, written, inr f)))) ↦
          same (ticker_step written p) a f (ticker-IsPump written all p v)
    ]

run_from :
    (es : List PumpEvent) (all : List QueuedMessage) (p : Pump)
    → IsPump all p
    → IsPump (all ++ accepted es p) (run_pump es p)
unfolding accepted run_pump
run_from [] all p v = subst (λ t. IsPump t p) (sym (append-nil all)) v
run_from (e ∷ es) all p v =
    subst (λ t. IsPump t (run_pump es (pump_step e p)))
      (append_assoc all (accepts e p) (accepted es (pump_step e p)))
      (run_from es (all ++ accepts e p) (pump_step e p) (pump_step-IsPump e all p v))

-- However messages, pings, errors of the connection, the rounds of the drain and the closing of the
-- channel follow each other: the messages that were written, then those that were dropped, then
-- those in the channel are all that were put into it, in their order, and none is dropped while the
-- loop runs. The buffers that were put back, and then those of the binary messages in the channel,
-- are the buffers of all binary messages that were put into it, in their order.
pub run_pump-IsPump : (es : List PumpEvent) → IsPump (accepted es new_pump) (run_pump es new_pump)
run_pump-IsPump es = run_from es [] new_pump new_pump-IsPump
