-- ===== src/Client/Buffers.antt =====
-- pkg/client/client.go: where the buffers of a client are, and that `Close` leaves none.
use tele_portal.Call.Processor.{QueuedMessage}
use tele_portal.Client.{Select, caller_done, closed, sent}
use tele_portal.Client.Session.{
  Fault, Session, binaries_of, binary, close, on_frame, panics, put_back, queue, read, send_silence,
  send_text, take_one, text, waits, write, write_next,
}
use tele_portal.Common.{
  Bool, Bool-cases, List, [], ap, arith, false, if◌then◌else◌, inl, inr, leb, length, length-append,
  not, refl, replicate, subst, suc, sym, true, ℕ, ◌++◌, ◌+◌, ◌||◌, ◌∙◌, ◌∷◌, ◌≡◌, ◌⊎◌,
}
use tele_portal.Common.Maps.{size, true-false}
use tele_portal.Common.Result.{Result, err, ok}

-- Every buffer that was taken is in a channel, given away or back in the pool.
pub record IsBalanced (c : Session) : Type 0 where
  pub conserved : c.taken ≡ c.returned + binaries_of c.send + length c.receive + c.given
  pub closed_send : c.is_closed ≡ true → c.send ≡ []
  pub closed_receive : c.is_closed ≡ true → c.receive ≡ []

abbrev pub Balanced : Result Fault Session → Type 0
Balanced (err e) = Unit {0}
Balanced (ok c) = IsBalanced c

binaries-append :
    (qs : List QueuedMessage) (q : QueuedMessage)
    → binaries_of (qs ++ q ∷ []) ≡ (if q.is_binary then suc (binaries_of qs) else binaries_of qs)
binaries-append [] q = refl
binaries-append (x ∷ qs) q = ground (arith, binaries-append qs q)

returned-IsBalanced : (c : Session) → IsBalanced c → IsBalanced (put_back 1 (take_one c))
returned-IsBalanced c v = record {
  conserved = omega (arith, v.conserved);
  closed_send = v.closed_send;
  closed_receive = v.closed_receive;
}

open_queue :
    (c : Session) (q : QueuedMessage)
    → c.is_closed ≡ false
    → c.is_closed ≡ true
    → c.send ++ q ∷ [] ≡ []
open_queue c q o e = absurd (true-false (sym e ∙ o))

queued-IsBalanced :
    (samples : List ℕ) (c : Session)
    → c.is_closed ≡ false
    → IsBalanced c
    → IsBalanced (queue (binary samples) (take_one c))
queued-IsBalanced samples c o v = record {
  conserved = omega (arith, v.conserved, binaries-append c.send (binary samples));
  closed_send = open_queue c (binary samples) o;
  closed_receive = v.closed_receive;
}

-- The two ends of a step.
goes_on : (r : Result Fault Session) (d : Session) → r ≡ ok d → IsBalanced d → Balanced r
goes_on r d e v = subst Balanced (sym e) v

pub ends : (r : Result Fault Session) (x : Fault) → r ≡ err x → Balanced r
ends r x e = subst Balanced (sym e) tt

pub write-Balanced :
    (samples : List ℕ) (select : Select) (c : Session)
    → IsBalanced c
    → Balanced (write samples select c)
unfolding write
write-Balanced samples select c v = elim (Bool-cases c.is_closed) [
  | inl e ↦ goes_on (write samples select c) c (simp (e, write)) v
  | inr e ↦ open_write select e (Bool-cases (leb 100 (length c.send)))
]
  where
    payload : List ℕ
    payload = if c.mute_out then replicate (length samples) 0 else samples

    open_write :
        (s : Select)
        → c.is_closed ≡ false
        → (leb 100 (length c.send) ≡ true) ⊎ (leb 100 (length c.send) ≡ false)
        → Balanced (write samples s c)
    open_write sent e (inl f) = ends (write samples sent c) waits (simp (e, f, write))
    open_write sent e (inr f) =
        goes_on (write samples sent c) (queue (binary payload) (take_one c)) (simp (e, f, write))
          (queued-IsBalanced payload c e v)
    open_write caller_done e f =
        goes_on (write samples caller_done c) (put_back 1 (take_one c)) (simp (e, write))
          (returned-IsBalanced c v)
    open_write closed e f =
        goes_on (write samples closed c) (put_back 1 (take_one c)) (simp (e, write))
          (returned-IsBalanced c v)

pub send_text-Balanced :
    (payload : List ℕ) (select : Select) (c : Session)
    → IsBalanced c
    → Balanced (send_text payload select c)
unfolding send_text
send_text-Balanced payload caller_done c v = v
send_text-Balanced payload closed c v = v
send_text-Balanced payload sent c v = elim (Bool-cases c.is_closed) [
  | inl e ↦ ends (send_text payload sent c) panics (simp (e, send_text))
  | inr e ↦ elim (Bool-cases (leb 100 (length c.send))) [
    | inl f ↦ ends (send_text payload sent c) waits (simp (e, f, send_text))
    | inr f ↦
        goes_on (send_text payload sent c) (queue (text payload) c) (simp (e, f, send_text))
          (record {
            conserved = omega (arith, v.conserved, binaries-append c.send (text payload));
            closed_send = open_queue c (text payload) e;
            closed_receive = v.closed_receive;
          })
  ]
]

list-cases : {A : Type 0} (xs : List A) → (xs ≡ []) ⊎ ((x : A) × (ys : List A) × (xs ≡ x ∷ ys))
list-cases [] = inl refl
list-cases (x ∷ xs) = inr (x, xs, refl)

-- A closed client has nothing to take.
not_closed :
    {A : Type 0} (c : Session) (xs ys zs : List A) (x : A)
    → (c.is_closed ≡ true → xs ≡ [])
    → xs ≡ x ∷ ys
    → c.is_closed ≡ true
    → zs ≡ []
not_closed c xs ys zs x h e o = absurd (cons-nil x ys (sym e ∙ h o))
  where
    cons-nil : {A : Type 0} (x : A) (ys : List A) → (x ∷ ys) ≡ [] → ⊥
    cons-nil x ys e = cc

pub read-Balanced : (c : Session) → IsBalanced c → Balanced (read c)
unfolding read
read-Balanced c v = elim (list-cases c.receive) [
  | inl e ↦ ends (read c) waits (simp (e, read))
  | inr (x, xs, e) ↦
      goes_on (read c) (record c { receive = xs; given = suc c.given }) (simp (e, read))
        (record {
          conserved = omega (arith, v.conserved, ap length e);
          closed_send = v.closed_send;
          closed_receive = not_closed c c.receive xs xs x v.closed_receive e;
        })
]

pub on_frame-Balanced :
    (payload : List ℕ) (readable : Bool) (c : Session)
    → IsBalanced c
    → Balanced (on_frame payload readable c)
unfolding on_frame
on_frame-Balanced payload readable c v =
    let r = on_frame payload readable c in
    elim (Bool-cases c.is_closed) [
      | inl e ↦ ends r waits (simp (e, on_frame))
      | inr e ↦ elim (Bool-cases c.mute_in) [
        | inl f ↦ goes_on r c (simp (e, f, on_frame)) v
        | inr f ↦ elim (Bool-cases (not readable || leb 100 (length c.receive))) [
          | inl g ↦
              goes_on r (put_back 1 (take_one c)) (simp (e, f, g, on_frame))
                (returned-IsBalanced c v)
          | inr g ↦
              goes_on r (record (take_one c) { receive = c.receive ++ payload ∷ [] })
                (simp (e, f, g, on_frame))
                (record {
                  conserved = omega (arith, v.conserved, length-append c.receive (payload ∷ []));
                  closed_send = v.closed_send;
                  closed_receive = λ o. absurd (true-false (sym o ∙ e));
                })
        ]
      ]
    ]

pub write_next-Balanced : (c : Session) → IsBalanced c → Balanced (write_next c)
unfolding write_next
write_next-Balanced c v = elim (Bool-cases c.is_closed) [
  | inl e ↦ ends (write_next c) waits (simp (e, write_next))
  | inr e ↦ elim (list-cases c.send) [
    | inl f ↦ ends (write_next c) waits (simp (e, f, write_next))
    | inr (m, ms, f) ↦ elim (Bool-cases m.is_binary) [
      | inl b ↦
          goes_on (write_next c) (put_back 1 (record c { send = ms })) (simp (e, f, b, write_next))
            (record {
              conserved = omega (arith, v.conserved, ap binaries_of f ∙ head_binary m ms b);
              closed_send = λ o. absurd (true-false (sym o ∙ e));
              closed_receive = v.closed_receive;
            })
      | inr b ↦
          goes_on (write_next c) (record c { send = ms }) (simp (e, f, b, write_next))
            (record {
              conserved = omega (arith, v.conserved, ap binaries_of f ∙ head_text m ms b);
              closed_send = λ o. absurd (true-false (sym o ∙ e));
              closed_receive = v.closed_receive;
            })
    ]
  ]
]
  where
    head_binary :
        (m : QueuedMessage) (ms : List QueuedMessage)
        → m.is_binary ≡ true
        → binaries_of (m ∷ ms) ≡ suc (binaries_of ms)
    head_binary m ms b = simp b

    head_text :
        (m : QueuedMessage) (ms : List QueuedMessage)
        → m.is_binary ≡ false
        → binaries_of (m ∷ ms) ≡ binaries_of ms
    head_text m ms b = simp b

pub send_silence-Balanced : (size : ℕ) (c : Session) → IsBalanced c → Balanced (send_silence size c)
unfolding send_silence
send_silence-Balanced size c v = elim (Bool-cases c.is_closed) [
  | inl e ↦ ends (send_silence size c) waits (simp (e, send_silence))
  | inr e ↦ elim (Bool-cases (leb 100 (length c.send))) [
    | inl f ↦
        goes_on (send_silence size c) (put_back 1 (take_one c)) (simp (e, f, send_silence))
          (returned-IsBalanced c v)
    | inr f ↦
        goes_on (send_silence size c) (queue (binary (replicate size 0)) (take_one c))
          (simp (e, f, send_silence)) (queued-IsBalanced (replicate size 0) c e v)
  ]
]

pub close-Balanced : (c : Session) → IsBalanced c → Balanced (close c)
unfolding close
close-Balanced c v = elim (Bool-cases c.is_closed) [
  | inl e ↦ goes_on (close c) c (simp (e, close)) v
  | inr e ↦
      goes_on (close c)
        (record (put_back (binaries_of c.send + length c.receive) c) {
          send = [];
          receive = [];
          is_closed = true;
        })
        (simp (e, close))
        (record {
          conserved = omega (arith, v.conserved);
          closed_send = λ o. refl;
          closed_receive = λ o. refl;
        })
]
