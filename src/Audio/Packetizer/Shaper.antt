-- ===== src/Audio/Packetizer/Shaper.antt =====
-- The packetizer of internal/audio/packetizer.go against its specification: a bounded queue of
-- bytes that is cut into chunks of one tick.
use tele_portal.Audio.Packetizer.{
  Event, Loop, Outcome, Packetizer, closed, done, input, on_tick, panicked, returned, run, running,
  send, start, step, taken, tick,
}
use tele_portal.Audio.Packetizer.Buffer.{Ring, capacity, empty_ring, read}
use tele_portal.Audio.Packetizer.Queue.{IsRing, at, contents, empty_ring-IsRing}
use tele_portal.Audio.Packetizer.Refine.{contents-read, contents-write, read-IsRing, write-IsRing}
use tele_portal.Common.{
  Bool-cases, List, [], ap, ap₂, arith, drop, false, if◌then◌else◌, inl, inr, leb, leb→le, length,
  length-replicate, refl, replicate, some, subst, sym, take, true, ℕ, ◌*◌, ◌++◌, ◌-◌, ◌<◌, ◌==◌,
  ◌∙◌, ◌∷◌, ◌≡◌,
}
use tele_portal.Common.Slices.{length-tabulate, tabulate}

-- The specification's state: the bytes that wait, oldest first, and the chunks in the channel.
pub record Shaper : Type 0 where
  pub waiting : List ℕ
  pub chunks : List (List ℕ)

module _ (bytes_per_tick : ℕ) where
  -- Ten ticks of data are kept at most. A tick gives the next bytes in order, or silence and no
  -- byte while a tick's worth is not there.
  unfoldable pub shape : Shaper → Event → Outcome Shaper
  shape s (input bytes) =
      running
        (record s { waiting = s.waiting ++ take (bytes_per_tick * 10 - length s.waiting) bytes })
  shape s tick =
      if leb bytes_per_tick (length s.waiting)
      then running (record {
        waiting = drop bytes_per_tick s.waiting;
        chunks = send (take bytes_per_tick s.waiting) s.chunks;
      })
      else running (record s { chunks = send (replicate bytes_per_tick 0) s.chunks })
  shape s taken = running (record s { chunks = drop 1 s.chunks })
  shape s closed = returned s
  shape s done = returned s

  unfoldable pub shape_all : Outcome Shaper → List Event → Outcome Shaper
  shape_all (running s) (e ∷ es) = shape_all (shape s e) es
  shape_all o _ = o

-- What the specification sees of the loop's variables.
abbrev pub view : Loop → Shaper
view l = record { waiting = contents l.ring; chunks = l.output }

abbrev pub view_outcome : Outcome Loop → Outcome Shaper
view_outcome (running l) = running (view l)
view_outcome (returned l) = returned (view l)
view_outcome panicked = panicked

pub record IsLoop (p : Packetizer) (l : Loop) : Type 0 where
  pub ring_ok : IsRing l.ring
  pub ten_ticks : capacity l.ring ≡ p.bytes_per_tick * 10

abbrev Keeps : Packetizer → Outcome Loop → Type 0
Keeps p (running l) = IsLoop p l
Keeps p (returned l) = IsLoop p l
Keeps p panicked = ⊥

pub length-contents : (r : Ring) → length (contents r) ≡ r.count
unfolding contents
length-contents r = length-tabulate r.count (at r)

nonempty-cells : (r : Ring) → IsRing r → (length r.cells == 0) ≡ false
nonempty-cells r v = ground arith

tick_full :
    (p : Packetizer) (l : Loop)
    → IsLoop p l
    → leb p.bytes_per_tick l.ring.count ≡ true
    → on_tick p l
      ≡ some (record {
        ring = (read p.bytes_per_tick l.ring).1;
        output = send (read p.bytes_per_tick l.ring).0 l.output;
      })
unfolding on_tick
tick_full p l v full = rw (full, nonempty-cells l.ring v.ring_ok) refl

tick_short :
    (p : Packetizer) (l : Loop)
    → leb p.bytes_per_tick l.ring.count ≡ false
    → on_tick p l ≡ some (record l { output = send (replicate p.bytes_per_tick 0) l.output })
unfolding on_tick
tick_short p l short = rw short refl

tick-running :
    (p : Packetizer) (l : Loop) {m : Loop} → on_tick p l ≡ some m → step p l tick ≡ running m
unfolding step
tick-running p l e = rw (e, step) refl

replace_outcome :
    (p : Packetizer) {o o' : Outcome Loop} {s : Outcome Shaper}
    → o ≡ o'
    → Keeps p o' × (view_outcome o' ≡ s)
    → Keeps p o × (view_outcome o ≡ s)
replace_outcome p {s = s} e = subst (λ (x : Outcome Loop). Keeps p x × (view_outcome x ≡ s)) (sym e)

step-shape :
    (p : Packetizer) (l : Loop) (e : Event)
    → IsLoop p l
    → Keeps p (step p l e) × (view_outcome (step p l e) ≡ shape p.bytes_per_tick (view l) e)
unfolding step shape
step-shape p l (input bytes) v =
    let w = write-IsRing bytes l.ring v.ring_ok in
    (
      record { ring_ok = w.0; ten_ticks = w.1 ∙ v.ten_ticks },
      ap (λ (q : List ℕ). running (record { waiting = q; chunks = l.output }))
          (contents-write bytes l.ring v.ring_ok
            ∙ ap (λ (n : ℕ). contents l.ring ++ take n bytes)
                (omega (arith, v.ten_ticks, length-contents l.ring))),
    )
step-shape p l tick v =
    rw (length-contents l.ring) (elim (Bool-cases (leb p.bytes_per_tick l.ring.count)) [
      | inl full ↦
          let q = contents-read p.bytes_per_tick l.ring v.ring_ok (leb→le _ _ full) in
          let w = read-IsRing p.bytes_per_tick l.ring v.ring_ok (leb→le _ _ full) in
          rw full (
            replace_outcome p (tick-running p l (tick_full p l v full)) (
              record { ring_ok = w.0; ten_ticks = w.1 ∙ v.ten_ticks },
              ap₂
                  (λ (chunk rest : List ℕ).
                    running (record { waiting = rest; chunks = send chunk l.output }))
                  q.0 q.1,
            ))
      | inr short ↦ rw short (
          replace_outcome p (tick-running p l (tick_short p l short))
            (record { ring_ok = v.ring_ok; ten_ticks = v.ten_ticks }, refl))
    ])
step-shape p l taken v = (record { ring_ok = v.ring_ok; ten_ticks = v.ten_ticks }, refl)
step-shape p l closed v = (v, refl)
step-shape p l done v = (v, refl)

run-shape_all :
    (p : Packetizer) (o : Outcome Loop) (es : List Event)
    → Keeps p o
    → view_outcome (run p o es) ≡ shape_all p.bytes_per_tick (view_outcome o) es
unfolding run shape_all
run-shape_all p (running l) [] v = refl
run-shape_all p (running l) (e ∷ es) v =
    let s = step-shape p l e v in
    run-shape_all p (step p l e) es s.0
    ∙ ap (λ (o : Outcome Shaper). shape_all p.bytes_per_tick o es) s.1
run-shape_all p (returned l) es v = refl
run-shape_all p panicked es v = absurd v

-- Over every list of events, a packetizer whose tick holds at least one byte does what the bounded
-- queue does, and so never panics.
pub run-start :
    (p : Packetizer) (es : List Event)
    → 0 < p.bytes_per_tick
    → view_outcome (run p (running (start p)) es)
      ≡ shape_all p.bytes_per_tick (running (record { waiting = []; chunks = [] })) es
unfolding start contents empty_ring tabulate
run-start p es h = run-shape_all p (running (start p)) es (record {
  ring_ok = empty_ring-IsRing (p.bytes_per_tick * 10) (omega arith);
  ten_ticks = length-replicate (p.bytes_per_tick * 10) 0;
})

-- With an empty tick the first tick of the clock panics, whatever comes before it but the end.
pub tick-panicked : (p : Packetizer) → p.bytes_per_tick ≡ 0 → step p (start p) tick ≡ panicked
unfolding step start empty_ring on_tick
tick-panicked p h = rw h refl
