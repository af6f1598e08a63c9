-- ===== src/Audio/Packetizer/Refine.antt =====
-- internal/audio/packetizer.go: what the ring buffer does, as operations on a queue of bytes.
use mathlib.Core.List.{append-nil}
use tele_portal.Audio.Packetizer.Buffer.{Ring, accepted, capacity, copy_in, copy_out, read, write}
use tele_portal.Audio.Packetizer.Queue.{
  IsRing, accepted_bounds, at, contents, length-copy_in, tabulate-copy_in, tail_in, take-accepted,
}
use tele_portal.Common.{
  Bool-cases, List, ap, ap₂, arith, drop, false, get_or, inl, inr, le-or-lt, length, ltb, min, refl,
  sym, take, true, ℕ, ◌%◌, ◌++◌, ◌+◌, ◌-◌, ◌<◌, ◌∙◌, ◌≡◌, ◌≤◌,
}
use tele_portal.Common.Mod.{mod_cases, mod_low}
use tele_portal.Common.Slices.{
  drop-tabulate, get_or-eq, slice, slice-tabulate, tabulate, tabulate-append, tabulate_ext,
  take-tabulate,
}

write-if :
    (bytes : List ℕ) (r : Ring) (P : Ring → Type 0)
    → (accepted bytes r ≡ 0 → P r)
    → P (record r {
      cells = copy_in bytes (accepted bytes r) r;
      tail = (r.tail + accepted bytes r) % capacity r;
      count = r.count + accepted bytes r;
    })
    → P (write bytes r)
unfolding write
write-if bytes r P none_fits some_fit = elim (Bool-cases (ltb 0 (accepted bytes r))) [
  | inl e ↦ rw (e, write) some_fit
  | inr e ↦ rw (e, write) (none_fits (ground arith))
]

-- A write appends as many of the bytes as there is room for, and drops the rest.
pub contents-write :
    (bytes : List ℕ) (r : Ring)
    → IsRing r
    → contents (write bytes r) ≡ contents r ++ take (capacity r - r.count) bytes
unfolding contents
contents-write bytes r v =
    write-if bytes r (λ s. contents s ≡ contents r ++ take (capacity r - r.count) bytes)
      (λ e.
        sym (append-nil (contents r))
        ∙ ap (λ (t : List ℕ). contents r ++ t)
            (ap (λ (k : ℕ). take k bytes) (sym e) ∙ take-accepted bytes r))
      (tabulate_ext (r.count + accepted bytes r) _ _ (λ i h.
          ap (λ (m : ℕ). get_or (copy_in bytes (accepted bytes r) r) ((r.head + i) % m) 0)
            (length-copy_in r v bytes (accepted bytes r) b.0 b.1))
        ∙ tabulate-copy_in r v bytes (accepted bytes r) b.0 b.1
        ∙ ap (λ (t : List ℕ). contents r ++ t) (take-accepted bytes r))
  where
    b : (accepted bytes r ≤ length bytes) × (r.count + accepted bytes r ≤ capacity r)
    b = accepted_bounds bytes r v

tail_moves :
    (r : Ring)
    → IsRing r
    → (bytes : List ℕ) (n : ℕ) → n ≤ length bytes
    → r.count + n ≤ capacity r
    → (r.tail + n) % capacity r ≡ (r.head + (r.count + n)) % capacity r
tail_moves r v bytes n hb hn = omega (
  arith,
  tail_in r v bytes n hb hn,
  mod_cases (r.head + r.count) (capacity r) (omega arith),
  mod_cases (r.head + (r.count + n)) (capacity r) (omega arith),
  mod_cases (r.tail + n) (capacity r) (omega (arith, tail_in r v bytes n hb hn)),
)

-- A write keeps the ring well formed, and its capacity.
pub write-IsRing :
    (bytes : List ℕ) (r : Ring)
    → IsRing r
    → IsRing (write bytes r) × (capacity (write bytes r) ≡ capacity r)
write-IsRing bytes r v =
    write-if bytes r (λ s. IsRing s × (capacity s ≡ capacity r)) (λ e. (v, refl))
      (
        record {
          nonempty = rw c v.nonempty;
          head_in = rw c v.head_in;
          fits = rw c b.1;
          tail_at = rw c (tail_moves r v bytes (accepted bytes r) b.0 b.1);
        },
        c,
      )
  where
    b : (accepted bytes r ≤ length bytes) × (r.count + accepted bytes r ≤ capacity r)
    b = accepted_bounds bytes r v

    c : length (copy_in bytes (accepted bytes r) r) ≡ capacity r
    c = length-copy_in r v bytes (accepted bytes r) b.0 b.1

module _ (k : ℕ) (r : Ring) (v : IsRing r) (h : k ≤ r.count) where
  -- The chunk where it ends before the end of the ring, and where it does not.
  copy_out-straight : k ≤ capacity r - r.head → copy_out k r ≡ slice r.head k r.cells
  copy_out-straight e = rw (first) (rw (irrefl) (append-nil (slice r.head k r.cells)))
    where
      first : min (capacity r - r.head) k ≡ k
      first = omega arith

      irrefl : ltb k k ≡ false
      irrefl = ground arith

  copy_out-wrapped :
      capacity r - r.head < k
      → copy_out k r
        ≡ slice r.head (capacity r - r.head) r.cells ++ slice 0 (k - (capacity r - r.head)) r.cells
  copy_out-wrapped e = rw (first) (rw (less) refl)
    where
      first : min (capacity r - r.head) k ≡ capacity r - r.head
      first = omega arith

      less : ltb (capacity r - r.head) k ≡ true
      less = ground arith

  first_part-at : (n : ℕ) → n ≤ capacity r - r.head → slice r.head n r.cells ≡ tabulate n (at r)
  first_part-at n e =
      slice-tabulate 0 r.head n r.cells (omega arith)
      ∙ tabulate_ext n _ (at r)
          (λ i p. get_or-eq r.cells 0 _ _ (sym (mod_low (r.head + i) (capacity r) (omega arith))))

  second_part-at :
      (n : ℕ)
      → capacity r - r.head + n ≡ k
      → slice 0 n r.cells ≡ tabulate n (λ i. at r (capacity r - r.head + i))
  second_part-at n e =
      slice-tabulate 0 0 n r.cells (omega arith)
      ∙ tabulate_ext n _ (λ i. at r (capacity r - r.head + i))
          (λ i p. get_or-eq r.cells 0 _ _ (
            omega
              (arith, mod_cases (r.head + (capacity r - r.head + i)) (capacity r) (omega arith))))

  copy_out-at : copy_out k r ≡ tabulate k (at r)
  copy_out-at = elim (le-or-lt k (capacity r - r.head)) [
    | inl e ↦ copy_out-straight e ∙ first_part-at k e
    | inr e ↦
        copy_out-wrapped e
        ∙ ap₂ ◌++◌ (first_part-at (capacity r - r.head) (omega arith))
            (second_part-at (k - (capacity r - r.head)) (omega arith))
        ∙ sym (tabulate-append (capacity r - r.head) (k - (capacity r - r.head)) (at r))
        ∙ ap (λ (n : ℕ). tabulate n (at r)) {x = capacity r - r.head + (k - (capacity r - r.head))}
            {y = k} (omega arith)
  ]

  drop-at :
      drop k (tabulate r.count (at r))
      ≡ tabulate
          (r.count - k)
          (λ i. get_or r.cells (((r.head + k) % capacity r + i) % capacity r) 0)
  drop-at =
      ap (λ (n : ℕ). drop k (tabulate n (at r))) {x = r.count} {y = k + (r.count - k)} (omega arith)
      ∙ drop-tabulate k (r.count - k) (at r)
      ∙ tabulate_ext (r.count - k) _ _ (λ i p. get_or-eq r.cells 0 _ _ (
          omega (
            arith,
            mod_cases (r.head + k) (capacity r) (omega arith),
            mod_cases (r.head + (k + i)) (capacity r) (omega arith),
            mod_cases ((r.head + k) % capacity r + i) (capacity r)
                (omega (arith, mod_cases (r.head + k) (capacity r) (omega arith))),
          )))

  -- A read of `k` bytes that are there takes them off the front of the queue, in order.
  pub contents-read :
      ((read k r).0 ≡ take k (contents r)) × (contents (read k r).1 ≡ drop k (contents r))
  unfolding read contents
  contents-read = (copy_out-at ∙ sym (take-tabulate k r.count (at r) h), sym drop-at)

  -- A read keeps the ring well formed, and its capacity.
  pub read-IsRing : IsRing (read k r).1 × (capacity (read k r).1 ≡ capacity r)
  unfolding read
  read-IsRing = (
    record {
      nonempty = v.nonempty;
      head_in = omega (arith, mod_cases (r.head + k) (capacity r) (omega arith));
      fits = omega arith;
      tail_at = omega (
        arith,
        mod_cases (r.head + k) (capacity r) (omega arith),
        mod_cases (r.head + r.count) (capacity r) (omega arith),
        mod_cases ((r.head + k) % capacity r + (r.count - k)) (capacity r)
            (omega (arith, mod_cases (r.head + k) (capacity r) (omega arith))),
      );
    },
    refl,
  )
