-- ===== src/Call/Incoming.antt =====
-- internal/call/audio_bridge.go: how `ReadPump` reads a binary message of the client into buffers
-- of the pool. A buffer stands for its capacity.
pub mod Whole
use tele_portal.Common.{
  Bool, List, Option, [], drop, if◌then◌else◌, length, min, none, some, suc, take, ℕ, ◌*◌, ◌++◌,
  ◌-◌, ◌==◌, ◌∷◌,
}

-- `full` is `fullPayload`, `capacity` that of `payload`; `taken` and `returned` count the calls of
-- `GetBuffer` and `PutBuffer`.
pub record Reading : Type 0 where
  pub full : List ℕ
  pub capacity : ℕ
  pub taken : ℕ
  pub returned : ℕ

-- A call of `Read`: how many bytes it gives at most, and whether it reports an error, as at the end
-- of the message.
pub record Read : Type 0 where
  pub at_most : ℕ
  pub reports : Bool

-- `capacity_for` is the capacity of the buffer that `GetBuffer` gives for a size.
module _ (capacity_for : ℕ → ℕ) where
  -- A buffer that is full is replaced by one twice its size.
  unfoldable pub grow : Reading → Reading
  grow r =
      if length r.full == r.capacity
      then record r {
        capacity = capacity_for (r.capacity * 2);
        taken = suc r.taken;
        returned = suc r.returned;
      }
      else r

  abbrev pub space : Reading → ℕ
  space r = r.capacity - length r.full

  -- The loop until a `Read` reports an error: what was read, and what the connection still has.
  -- `none`: it has not come to an end yet.
  unfoldable pub read_loop : List Read → List ℕ → Reading → Option (Reading × List ℕ)
  unfolding grow
  read_loop [] left r = none
  read_loop (c ∷ cs) left r =
      let g = grow r in
      let n = min c.at_most (space g) in
      let next = record g { full = g.full ++ take n left } in
      let rest = read_loop cs (drop n left) next in
      if c.reports then some (next, drop n left) else rest

  -- The first `Read` is into 2048 bytes.
  unfoldable pub read_binary : Read → List Read → List ℕ → Option (Reading × List ℕ)
  unfolding read_loop
  read_binary c cs left =
      let n = min c.at_most 2048 in
      let first : Reading = record {
        full = take n left;
        capacity = capacity_for 2048;
        taken = 1;
        returned = 0;
      } in
      let rest = read_loop cs (drop n left) first in
      if c.reports then some (first, drop n left) else rest
