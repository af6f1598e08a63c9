-- ===== src/Call/Bridge/Slot.antt =====
-- internal/call/audio_bridge.go and internal/api/http_handler.go: requests for the one slot of a
-- bridge, as `HandleUpgrade` makes them. A request reserves the slot, fails to upgrade, fails to
-- send the headers, or adds its client; a client is removed when its connection ends. The context
-- is cancelled at some time, and `runAudioProcessor` calls `CloseAll` when it ends, with requests
-- or a client there or not.
use tele_portal.Call.Bridge.{
  Bridge, add_client, close_all, disconnect, is_some, remove_client, try_lock, unlock,
}
use tele_portal.Common.{
  Bool, Bool-cases, List, Option, Option-cases, [], arith, false, if◌then◌else◌, inl, inr, none,
  refl, some, subst, suc, sym, true, ℕ, ◌+◌, ◌-◌, ◌==◌, ◌||◌, ◌∷◌, ◌≡◌, ◌≤◌,
}
use tele_portal.Common.Maps.{true-false}

pub data Step : Type 0 where
  locking upgrade_failed headers_failed cancelling closing : Step
  adding removing : ℕ → Step

-- The bridge, the requests between `TryLock` and `AddClient`, and those that went away in between
-- without a call of `Unlock`. `shut` is what `closeOnce` keeps: `CloseAll` has run.
pub record Slot : Type 0 where
  pub bridge : Bridge
  pub holders : ℕ
  pub lost : ℕ
  pub shut : Bool

unfoldable pub step : Step → Slot → Slot
step locking s =
    let (bridge, won) = try_lock s.bridge in
    record s { bridge = bridge; holders = if won then suc s.holders else s.holders }
step upgrade_failed s = record s { bridge = unlock s.bridge; holders = s.holders - 1 }
step headers_failed s = record s { holders = s.holders - 1; lost = suc s.lost }
step cancelling s = record s { bridge = record s.bridge { cancelled = true } }
step closing s = if s.shut then s else record s { bridge = close_all s.bridge; shut = true }
step (adding conn) s = record s {
  bridge = add_client conn s.bridge;
  holders = s.holders - 1;
  lost = if s.bridge.cancelled || is_some s.bridge.client then suc s.lost else s.lost;
}
step (removing conn) s = record s { bridge = remove_client conn s.bridge }

unfoldable pub run : List Step → Slot → Slot
run [] s = s
run (x ∷ xs) s = run xs (step x s)

-- Only a request that holds the slot fails or adds its client.
unfoldable pub IsTaken : Step → Slot → Type 0
IsTaken locking s = Unit
IsTaken upgrade_failed s = 1 ≤ s.holders
IsTaken headers_failed s = 1 ≤ s.holders
IsTaken cancelling s = Unit
IsTaken closing s = Unit
IsTaken (adding conn) s = 1 ≤ s.holders
IsTaken (removing conn) s = Unit

unfoldable pub AreTaken : List Step → Slot → Type 0
AreTaken [] s = Unit
AreTaken (x ∷ xs) s = IsTaken x s × AreTaken xs (step x s)

abbrev pub bit : Bool → ℕ
bit true = 1
bit false = 0

-- Until the bridge is closed one request at most has the slot. A reserved slot has no client, and
-- the metric counts the client.
pub record IsExclusive (s : Slot) : Type 0 where
  pub one_holder : s.shut ≡ false → s.holders + s.lost ≡ bit s.bridge.reserved
  pub no_overlap : bit s.bridge.reserved + bit (is_some s.bridge.client) ≤ 1
  pub metric : s.bridge.connected ≡ s.bridge.disconnected + bit (is_some s.bridge.client)

-- The arithmetic of the flags.
free_holder :
    (c : Option ℕ)
    → (r : Bool) → (h l : ℕ) → (is_some c || r) ≡ false
    → h + l ≡ bit r
    → suc h + l ≡ 1
free_holder none false h l e v = omega arith
free_holder none true h l e v = absurd cc
free_holder (some c) r h l e v = absurd cc

free_overlap : (c : Option ℕ) → (r : Bool) → (is_some c || r) ≡ false → 1 + bit (is_some c) ≤ 1
free_overlap none r e = omega arith
free_overlap (some c) r e = absurd cc

moved : (h l k : ℕ) → 1 ≤ h → h + l ≡ k → h - 1 + suc l ≡ k
moved h l k t e = omega arith

released : (r : Bool) → (h l : ℕ) → 1 ≤ h → h + l ≡ bit r → h - 1 + l ≡ 0
released true h l t e = omega arith
released false h l t e = omega arith

unreserved : (r : Bool) → (h l : ℕ) → bit r + 1 ≤ 1 → h + l ≡ bit r → h + l ≡ 0
unreserved true h l t e = absurd (omega arith)
unreserved false h l t e = e

more : (x y : ℕ) → x ≡ y + 0 → suc x ≡ y + 1
more x y e = omega arith

fewer : (x y : ℕ) → x ≡ y + 1 → x ≡ suc y + 0
fewer x y e = omega arith

bit-le : (r : Bool) → 0 + bit r ≤ 1
bit-le true = omega arith
bit-le false = omega arith

is_set : (r : Bool) → (h l : ℕ) → 1 ≤ l → h + l ≡ bit r → r ≡ true
is_set true h l t e = refl
is_set false h l t e = absurd (omega arith)

no_client : (c : Bool) → (o : Option ℕ) → (c || is_some o) ≡ false → is_some o ≡ false
no_client true o e = absurd cc
no_client false o e = e

step-locking : (s : Slot) → IsExclusive s → IsExclusive (step locking s)
unfolding step try_lock
step-locking s v = elim (Bool-cases (is_some s.bridge.client || s.bridge.reserved)) [
  | inl e ↦ rw (e, step, try_lock) v
  | inr e ↦
      rw (e, step, try_lock)
        (record {
          one_holder = λ h.
              free_holder s.bridge.client s.bridge.reserved s.holders s.lost e (v.one_holder h);
          no_overlap = free_overlap s.bridge.client s.bridge.reserved e;
          metric = v.metric;
        })
]

step-adding :
    (conn : ℕ) → (s : Slot) → IsExclusive s → 1 ≤ s.holders → IsExclusive (step (adding conn) s)
unfolding step add_client
step-adding conn s v t = elim (Bool-cases (s.bridge.cancelled || is_some s.bridge.client)) [
  | inl e ↦
      rw (e, step, add_client)
        (record {
          one_holder = λ h. moved s.holders s.lost (bit s.bridge.reserved) t (v.one_holder h);
          no_overlap = v.no_overlap;
          metric = v.metric;
        })
  | inr e ↦
      rw (e, step, add_client)
        (record {
          one_holder = λ h. released s.bridge.reserved s.holders s.lost t (v.one_holder h);
          no_overlap = omega arith;
          metric =
              more s.bridge.connected s.bridge.disconnected
                (rw (no_client s.bridge.cancelled s.bridge.client e) at v.metric);
        })
]

step-removing : (conn : ℕ) → (s : Slot) → IsExclusive s → IsExclusive (step (removing conn) s)
unfolding step remove_client disconnect
step-removing conn s v = elim (Option-cases s.bridge.client) [
  | inl e ↦ rw (e, step, remove_client) v
  | inr (c, e) ↦ elim (Bool-cases (c == conn)) [
    | inr g ↦ rw (e, g, step, remove_client) v
    | inl g ↦
        rw (e, g, step, remove_client)
          (record {
            one_holder = λ h.
                unreserved s.bridge.reserved s.holders s.lost (rw e at v.no_overlap)
                  (v.one_holder h);
            no_overlap = omega arith;
            metric = fewer s.bridge.connected s.bridge.disconnected (rw e at v.metric);
          })
  ]
]

already_shut : (s : Slot) → s.shut ≡ true → step closing s ≡ s
unfolding step
already_shut s g = simp (g, step)

step-closing : (s : Slot) → IsExclusive s → IsExclusive (step closing s)
unfolding step close_all disconnect
step-closing s v = elim (Bool-cases s.shut) [
  | inl g ↦ subst IsExclusive (sym (already_shut s g)) v
  | inr g ↦ elim (Option-cases s.bridge.client) [
    | inl e ↦
        rw (g, e, step, close_all)
          (record {
            one_holder = λ h. absurd (true-false h);
            no_overlap = rw e (omega arith);
            metric = v.metric;
          })
    | inr (c, e) ↦
        rw (g, e, step, close_all)
          (record {
            one_holder = λ h. absurd (true-false h);
            no_overlap = omega arith;
            metric = fewer s.bridge.connected s.bridge.disconnected (rw e at v.metric);
          })
  ]
]

step-IsExclusive : (x : Step) → (s : Slot) → IsExclusive s → IsTaken x s → IsExclusive (step x s)
unfolding step IsTaken unlock
step-IsExclusive locking s v t = step-locking s v
step-IsExclusive upgrade_failed s v t = record {
  one_holder = λ h. released s.bridge.reserved s.holders s.lost t (v.one_holder h);
  no_overlap = bit-le (is_some s.bridge.client);
  metric = v.metric;
}
step-IsExclusive headers_failed s v t = record {
  one_holder = λ h. moved s.holders s.lost (bit s.bridge.reserved) t (v.one_holder h);
  no_overlap = v.no_overlap;
  metric = v.metric;
}
step-IsExclusive cancelling s v t = record {
  one_holder = v.one_holder;
  no_overlap = v.no_overlap;
  metric = v.metric;
}
step-IsExclusive closing s v t = step-closing s v
step-IsExclusive (adding conn) s v t = step-adding conn s v t
step-IsExclusive (removing conn) s v t = step-removing conn s v

-- However requests, failures, disconnections, a cancellation and the closing of the bridge
-- interleave: until the bridge is closed at most one request holds the slot; also after that no
-- client is connected while the slot is reserved, and the connection metric is exactly 1 with a
-- client and 0 without.
pub run-IsExclusive :
    (xs : List Step) → (s : Slot) → IsExclusive s → AreTaken xs s → IsExclusive (run xs s)
unfolding run AreTaken
run-IsExclusive [] s v t = v
run-IsExclusive (x ∷ xs) s v t = run-IsExclusive xs (step x s) (step-IsExclusive x s v t.0) t.1

-- A request that is lost stays lost.
step-lost : (x : Step) → (s : Slot) → 1 ≤ s.lost → 1 ≤ (step x s).lost
unfolding step
step-lost locking s h = h
step-lost upgrade_failed s h = h
step-lost headers_failed s h = omega arith
step-lost cancelling s h = h
step-lost closing s h = elim (Bool-cases s.shut) [ inl e ↦ rw (e, step) h | inr e ↦ rw (e, step) h ]
step-lost (adding conn) s h = elim (Bool-cases (s.bridge.cancelled || is_some s.bridge.client)) [
  | inl e ↦ rw (e, step) (omega arith)
  | inr e ↦ rw (e, step) h
]
step-lost (removing conn) s h = h

run-lost : (xs : List Step) → (s : Slot) → 1 ≤ s.lost → 1 ≤ (run xs s).lost
unfolding run
run-lost [] s h = h
run-lost (x ∷ xs) s h = run-lost xs (step x s) (step-lost x s h)

lost-refused :
    (s : Slot) → IsExclusive s → s.shut ≡ false → 1 ≤ s.lost → (try_lock s.bridge).1 ≡ false
unfolding try_lock
lost-refused s v not_shut h =
    let reserved : s.bridge.reserved ≡ true =
      is_set s.bridge.reserved s.holders s.lost h (v.one_holder not_shut) in
    elim (Option-cases s.bridge.client) [
      | inl e ↦ rw (e, reserved, try_lock) refl
      | inr (c, e) ↦ rw (e, try_lock) refl
    ]

-- A request that fails to send the headers keeps the slot for good: whatever follows, while the
-- bridge has not been closed no request gets it again.
pub headers_failed-refused :
    (xs : List Step)
    → (s : Slot) → IsExclusive s
    → AreTaken (headers_failed ∷ xs) s
    → (run (headers_failed ∷ xs) s).shut ≡ false
    → (try_lock (run (headers_failed ∷ xs) s).bridge).1 ≡ false
unfolding run step AreTaken
headers_failed-refused xs s v t not_shut =
    lost-refused (run xs (step headers_failed s)) (run-IsExclusive (headers_failed ∷ xs) s v t)
      not_shut (run-lost xs (step headers_failed s) (omega arith))
