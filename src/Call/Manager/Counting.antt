-- ===== src/Call/Manager/Counting.antt =====
-- internal/call/call_manager.go: the counter of active calls, whose parts interleave.
use tele_portal.Call.Manager.{
  ActiveCall, CallManager, add_count, add_insert, get, remove, remove_call, wait_empty,
}
use tele_portal.Common.{
  Bool-cases, List, Option-cases, [], ap, arith, inl, inr, none, refl, suc, sym, ℕ, ◌+◌, ◌-◌, ◌==◌,
  ◌∙◌, ◌∷◌, ◌≡◌, ◌≤◌,
}
use tele_portal.Common.Maps.{
  IsMap, Map, delete, delete-IsMap, delete-absent, insert, insert-IsMap, lookup, size, size-delete,
}
use tele_portal.Common.Text.{Text}
use tele_portal.Common.Words.{u64}

-- The atomic parts of `Add`, `Remove` and `WaitEmpty`, as the goroutines take them.
pub data Step : Type 0 where
  inserted : ActiveCall → Step
  counted : Step
  removed : Text → Step
  waiting : ℕ → Step

-- The manager, and how many calls are in the map and not counted yet.
pub record History : Type 0 where
  pub manager : CallManager
  pub pending : ℕ

unfoldable pub step : Step → History → History
step (inserted c) h = record h { manager = add_insert c h.manager; pending = suc h.pending }
step counted h = record h { manager = add_count h.manager; pending = h.pending - 1 }
step (removed call_id) h = record h { manager = remove call_id h.manager }
step (waiting channel) h = record h { manager = (wait_empty channel h.manager).0 }

unfoldable pub run : List Step → History → History
run [] h = h
run (s ∷ ss) h = run ss (step s h)

-- A step that the program takes with Call-IDs that are new: only an `Add` that has inserted counts.
unfoldable pub IsTaken : Step → History → Type 0
IsTaken (inserted c) h = get c.call_id h.manager ≡ none
IsTaken counted h = 1 ≤ h.pending
IsTaken (removed call_id) h = Unit
IsTaken (waiting channel) h = Unit

unfoldable pub AreTaken : List Step → History → Type 0
AreTaken [] h = Unit
AreTaken (s ∷ ss) h = IsTaken s h × AreTaken ss (step s h)

-- The counter and the calls on their way to it make up the map's size, on 64 bits.
pub record IsCounted (h : History) : Type 0 where
  pub is_map : IsMap h.manager.calls_by_sip
  pub counts : u64 (h.manager.active_calls + h.pending) ≡ u64 (size h.manager.calls_by_sip)

-- The words of the counter.
up : (a p s : ℕ) → u64 (a + p) ≡ u64 s → u64 (a + suc p) ≡ u64 (suc s)
up a p s e = omega arith

over : (a p s : ℕ) → 1 ≤ p → u64 (a + p) ≡ u64 s → u64 (u64 (a + 1) + (p - 1)) ≡ u64 s
over a p s h e = omega arith

down : (a p s : ℕ) → u64 (a + p) ≡ u64 (suc s) → u64 (u64 (a + 18446744073709551615) + p) ≡ u64 s
down a p s e = omega arith

size-insert :
    (c : ActiveCall)
    → (m : Map ActiveCall) → lookup c.call_id m ≡ none
    → size (insert c.call_id c m) ≡ suc (size m)
unfolding insert size
size-insert c m e = rw (delete-absent c.call_id m e) refl

step-inserted :
    (c : ActiveCall)
    → (h : History) → IsCounted h
    → get c.call_id h.manager ≡ none
    → IsCounted (step (inserted c) h)
unfolding step add_insert get
step-inserted c h v fresh = record {
  is_map = insert-IsMap c.call_id c h.manager.calls_by_sip v.is_map;
  counts =
      rw (size-insert c h.manager.calls_by_sip fresh)
        (up h.manager.active_calls h.pending (size h.manager.calls_by_sip) v.counts);
}

step-counted : (h : History) → IsCounted h → 1 ≤ h.pending → IsCounted (step counted h)
unfolding step add_count
step-counted h v some_left = record {
  is_map = v.is_map;
  counts = over h.manager.active_calls h.pending (size h.manager.calls_by_sip) some_left v.counts;
}

step-removed : (call_id : Text) → (h : History) → IsCounted h → IsCounted (step (removed call_id) h)
unfolding step remove remove_call
step-removed call_id h v = elim (Option-cases (lookup call_id h.manager.calls_by_sip)) [
  | inl e ↦ rw (e, step, remove) v
  | inr (c, e) ↦
      rw (e, step, remove)
        (record {
          is_map = delete-IsMap call_id h.manager.calls_by_sip v.is_map;
          counts =
              down h.manager.active_calls h.pending (size (delete call_id h.manager.calls_by_sip))
                (v.counts ∙ ap u64 (sym (size-delete call_id c h.manager.calls_by_sip v.is_map e)));
        })
]

step-waiting : (channel : ℕ) → (h : History) → IsCounted h → IsCounted (step (waiting channel) h)
unfolding step wait_empty
step-waiting channel h v = elim (Bool-cases (h.manager.active_calls == 0)) [
  | inl e ↦ rw (e, step, wait_empty) v
  | inr e ↦ rw (e, step, wait_empty) (record { is_map = v.is_map; counts = v.counts })
]

step-IsCounted : (s : Step) → (h : History) → IsCounted h → IsTaken s h → IsCounted (step s h)
unfolding IsTaken
step-IsCounted (inserted c) h v fresh = step-inserted c h v fresh
step-IsCounted counted h v some_left = step-counted h v some_left
step-IsCounted (removed call_id) h v _ = step-removed call_id h v
step-IsCounted (waiting channel) h v _ = step-waiting channel h v

-- However the parts of `Add`, `Remove` and `WaitEmpty` of any number of goroutines interleave, as
-- long as no Call-ID is added while it is stored: the 64-bit counter and the calls inserted and not
-- yet counted add up to the size of the map.
pub run-IsCounted :
    (ss : List Step) → (h : History) → IsCounted h → AreTaken ss h → IsCounted (run ss h)
unfolding run AreTaken
run-IsCounted [] h v t = v
run-IsCounted (s ∷ ss) h v t = run-IsCounted ss (step s h) (step-IsCounted s h v t.0) t.1
