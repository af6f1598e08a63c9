-- ===== src/Call/Incoming/Whole.antt =====
-- internal/call/audio_bridge.go: a message of the client is read as a whole.
use mathlib.Core.List.{append_assoc, append-nil}
-- What was read, and what is still to come, is the message; it fits the buffer, which is the one
-- that was not put back; and a buffer is never empty.
use tele_portal.Call.Incoming.{Read, Reading, grow, read_binary, read_loop}
use tele_portal.Common.{
  Bool-cases, List, Option, [], ap, arith, drop, false, inl, inr, length, length-append,
  length-drop, length-take, min, none, refl, some, subst, suc, sym, take, take-append-drop, true, ℕ,
  ◌*◌, ◌++◌, ◌-◌, ◌<◌, ◌==◌, ◌∙◌, ◌∷◌, ◌≡◌, ◌≤◌, ◌⊎◌,
}

pub record IsReading (message rest : List ℕ) (r : Reading) : Type 0 where
  pub all_bytes : r.full ++ rest ≡ message
  pub fits : length r.full ≤ r.capacity
  pub one_buffer : r.taken ≡ suc r.returned
  pub some_capacity : 0 < r.capacity

less : (m n : ℕ) → m ≤ n → ¬ (m ≡ n) → m < n
less m n h e = ground arith

min_right : (m n : ℕ) → min m n ≤ n
min_right m n = omega arith

no_bytes_left : (xs : List ℕ) → length xs ≡ 0 → xs ≡ []
no_bytes_left [] e = refl
no_bytes_left (x ∷ xs) e = absurd (omega (arith, e))

-- Reads that give something, and no error.
unfoldable pub AllGive : List Read → Type 0
AllGive [] = Unit
AllGive (c ∷ cs) = (0 < c.at_most) × (c.reports ≡ false) × AllGive cs

module _ (capacity_for : ℕ → ℕ) (enough : (n : ℕ) → n ≤ capacity_for n) where
  grow-cases :
      (r : Reading)
      → ((length r.full ≡ r.capacity)
          × (grow capacity_for r ≡ record r {
            capacity = capacity_for (r.capacity * 2);
            taken = suc r.taken;
            returned = suc r.returned;
          }))
        ⊎ ((¬ (length r.full ≡ r.capacity)) × (grow capacity_for r ≡ r))
  unfolding grow
  grow-cases r = elim (Bool-cases (length r.full == r.capacity)) [
    | inl e ↦ inl (ground (arith, e), simp (e, grow))
    | inr e ↦ inr (λ f. ground (arith, e, f), simp (e, grow))
  ]

  HasSpace : Reading → Type 0
  HasSpace r = length r.full < r.capacity

  grow-IsReading :
      (message rest : List ℕ) (r : Reading)
      → IsReading message rest r
      → IsReading message rest (grow capacity_for r) × HasSpace (grow capacity_for r)
  unfolding HasSpace
  grow-IsReading message rest r v = elim (grow-cases r) [
    | inl (e, f) ↦
        let room = enough (r.capacity * 2) in
        subst (λ x. IsReading message rest x × HasSpace x) (sym f)
          (
            record {
              all_bytes = v.all_bytes;
              fits = omega (arith, e, room);
              one_buffer = ap suc v.one_buffer;
              some_capacity = omega (arith, room, v.some_capacity);
            },
            omega (arith, e, room, v.some_capacity),
          )
    | inr (e, f) ↦
        subst (λ x. IsReading message rest x × HasSpace x) (sym f)
          (v, less (length r.full) r.capacity v.fits e)
  ]

  -- A `Read` into the space that is left.
  next_read :
      (message left : List ℕ) (n : ℕ) (g : Reading)
      → IsReading message left g
      → n ≤ g.capacity - length g.full
      → IsReading message (drop n left) (record g { full = g.full ++ take n left })
  next_read message left n g v h = record {
    all_bytes =
        append_assoc g.full (take n left) (drop n left)
        ∙ ap (◌++◌ g.full) (take-append-drop n left)
        ∙ v.all_bytes;
    fits = omega (arith, v.fits, h, length-append g.full (take n left), length-take n left);
    one_buffer = v.one_buffer;
    some_capacity = v.some_capacity;
  }

  abbrev Complete : List ℕ → Option (Reading × List ℕ) → Type 0
  Complete message none = Unit {0}
  Complete message (some (r, rest)) = IsReading message rest r

  read_loop-Complete :
      (message : List ℕ) (cs : List Read) (left : List ℕ) (r : Reading)
      → IsReading message left r
      → Complete message (read_loop capacity_for cs left r)
  unfolding read_loop
  read_loop-Complete message [] left r v = record {}
  read_loop-Complete message (c ∷ cs) left r v =
      let g = grow capacity_for r in
      let n = min c.at_most (g.capacity - length g.full) in
      let following =
        next_read message left n g (grow-IsReading message left r v).0
          (min_right c.at_most (g.capacity - length g.full)) in
      elim (Bool-cases c.reports) [
        | inl e ↦ rw (read_loop, e) following
        | inr e ↦
            rw (read_loop, e)
              (read_loop-Complete message cs (drop n left)
                (record g { full = g.full ++ take n left }) following)
      ]

  first-IsReading :
      (n : ℕ) (left : List ℕ)
      → n ≤ 2048
      → IsReading left
          (drop n left)
          (record { full = take n left; capacity = capacity_for 2048; taken = 1; returned = 0 })
  first-IsReading n left h = record {
    all_bytes = take-append-drop n left;
    fits = omega (arith, enough 2048, h, length-take n left);
    one_buffer = refl;
    some_capacity = omega (arith, enough 2048);
  }

  abbrev Ends : Option (Reading × List ℕ) → Type 0
  Ends o = (end : Reading) × (rest : List ℕ) × (o ≡ some (end, rest)) × (length rest ≡ 0)

  -- With an error at last, after as many reads as there are bytes, all is read.
  read_loop-Ends :
      (message : List ℕ) (cs : List Read) (k : ℕ) (left : List ℕ) (r : Reading)
      → IsReading message left r
      → AllGive cs
      → length left ≤ length cs
      → Ends (read_loop capacity_for (cs ++ record { at_most = k; reports = true } ∷ []) left r)
  unfolding read_loop AllGive HasSpace
  read_loop-Ends message [] k left r v g h = (
    _,
    _,
    refl,
    omega (
      arith,
      length-drop (min k ((grow capacity_for r).capacity - length (grow capacity_for r).full)) left,
    ),
  )
  read_loop-Ends message (c ∷ cs) k left r v g h =
      let q = grow capacity_for r in
      let room = grow-IsReading message left r v in
      let n = min c.at_most (q.capacity - length q.full) in
      let some_bytes : 0 < n = omega (arith, g.0, room.1) in
      let following =
        next_read message left n q (room.0) (min_right c.at_most (q.capacity - length q.full)) in
      rw (read_loop, g.1)
        (read_loop-Ends message cs k (drop n left) (record q { full = q.full ++ take n left })
          following (g.2) (omega (arith, h, some_bytes, length-drop n left)))

  read_binary-Complete :
      (c : Read) (cs : List Read) (left : List ℕ)
      → Complete left (read_binary capacity_for c cs left)
  unfolding read_binary
  read_binary-Complete c cs left =
      let n = min c.at_most 2048 in
      let start = first-IsReading n left (min_right c.at_most 2048) in
      elim (Bool-cases c.reports) [
        | inl e ↦ rw (read_binary, e) start
        | inr e ↦
            rw (read_binary, e)
              (read_loop-Complete left cs (drop n left)
                (record {
                  full = take n left;
                  capacity = capacity_for 2048;
                  taken = 1;
                  returned = 0;
                })
                start)
      ]

  read_binary-Ends :
      (c : Read) (cs : List Read) (k : ℕ) (left : List ℕ)
      → AllGive (c ∷ cs)
      → length left ≤ suc (length cs)
      → Ends (read_binary capacity_for c (cs ++ record { at_most = k; reports = true } ∷ []) left)
  unfolding read_binary AllGive
  read_binary-Ends c cs k left g h =
      let n = min c.at_most 2048 in
      let some_bytes : 0 < n = omega (arith, g.0) in
      rw (read_binary, g.1)
        (read_loop-Ends left cs k (drop n left)
          (record { full = take n left; capacity = capacity_for 2048; taken = 1; returned = 0 })
          (first-IsReading n left (min_right c.at_most 2048)) (g.2)
          (omega (arith, h, some_bytes, length-drop n left)))

  -- If every `Read` but the last gives at least a byte and no error, and there are as many of them
  -- as the message has bytes, then the loop ends with the whole message, in one buffer that has
  -- room for it; every other buffer that it took is back in the pool. `GetBuffer` gives at least
  -- the size that it is asked for.
  pub read_binary-whole :
      (c : Read) (cs : List Read) (k : ℕ) (left : List ℕ)
      → AllGive (c ∷ cs)
      → length left ≤ suc (length cs)
      → (end : Reading) × (read_binary capacity_for c
            (cs ++ record { at_most = k; reports = true } ∷ [])
            left
          ≡ some (end, []))
        × (end.full ≡ left)
        × (length left ≤ end.capacity)
        × (end.taken ≡ suc end.returned)
  read_binary-whole c cs k left g h =
      let (end, rest, e, z) = read_binary-Ends c cs k left g h in
      let v : IsReading left rest end =
        subst (Complete left) e
          (read_binary-Complete c (cs ++ record { at_most = k; reports = true } ∷ []) left) in
      let whole : end.full ≡ left =
        sym (append-nil end.full)
        ∙ ap (λ (t : List ℕ). end.full ++ t) (sym (no_bytes_left rest z))
        ∙ v.all_bytes in
      (
        end,
        e ∙ ap (λ (t : List ℕ). some (end, t)) (no_bytes_left rest z),
        whole,
        omega (arith, v.fits, ap length whole),
        v.one_buffer,
      )
