-- ===== src/Audio/Packetizer/Queue.antt =====
-- The ring buffer of the packetizer refines a queue of bytes.
use tele_portal.Audio.Packetizer.Buffer.{Ring, accepted, capacity, copy_in, empty_ring}
use tele_portal.Common.{
  Bool-cases, List, ap, ap₂, arith, false, get_or, inl, inr, le-or-lt, length, length-replicate,
  length-take, ltb, min, refl, replicate, sym, take, true, ℕ, ◌%◌, ◌++◌, ◌+◌, ◌-◌, ◌<◌, ◌∙◌, ◌≡◌,
  ◌≤◌, ◌⊎◌,
}
use tele_portal.Common.Mod.{mod_cases, mod_low, mod_wrap}
use tele_portal.Common.Slices.{
  blit, get_or-blit_in, get_or-blit_out, get_or-eq, get_or-slice, length-blit, length-slice, slice,
  slice-tabulate, tabulate, tabulate-append, tabulate_ext, take-all,
}

pub record IsRing (r : Ring) : Type 0 where
  pub nonempty : 0 < capacity r
  pub head_in : r.head < capacity r
  pub fits : r.count ≤ capacity r
  pub tail_at : r.tail ≡ (r.head + r.count) % capacity r

-- The byte at distance `i` from the head.
abbrev pub at : Ring → ℕ → ℕ
at r i = get_or r.cells ((r.head + i) % capacity r) 0

-- The queue that the ring stands for, oldest byte first.
unfoldable pub contents : Ring → List ℕ
contents r = tabulate r.count (at r)

pub empty_ring-IsRing : (n : ℕ) → 0 < n → IsRing (empty_ring n)
unfolding empty_ring
empty_ring-IsRing n h =
    let l : length {A = ℕ} (replicate n 0) ≡ n = length-replicate n 0 in
    record {
      nonempty = omega arith;
      head_in = omega arith;
      fits = omega arith;
      tail_at = sym (mod_low (0 + 0) _ (omega arith));
    }

module _ (r : Ring) (bytes : List ℕ) (n : ℕ) (hb : n ≤ length bytes) where
  -- The copies where the bytes fit before the end of the ring, and where they do not.
  copy_in-straight :
      r.tail + n ≤ capacity r → copy_in bytes n r ≡ blit r.tail (take n bytes) r.cells
  copy_in-straight h = rw (first) (rw (irrefl) refl)
    where
      first : min (capacity r - r.tail) n ≡ n
      first = omega arith

      irrefl : ltb n n ≡ false
      irrefl = ground arith

  copy_in-wrapped :
      r.tail < capacity r
      → capacity r < r.tail + n
      → copy_in bytes n r
        ≡ blit 0
            (slice (capacity r - r.tail) (n - (capacity r - r.tail)) bytes)
            (blit r.tail (take (capacity r - r.tail) bytes) r.cells)
  copy_in-wrapped t h = rw (first) (rw (less) refl)
    where
      first : min (capacity r - r.tail) n ≡ capacity r - r.tail
      first = omega arith

      less : ltb (capacity r - r.tail) n ≡ true
      less = ground arith

  length-take_bytes : (k : ℕ) → k ≤ n → length (take k bytes) ≡ k
  length-take_bytes k h = omega (arith, length-take k bytes)

  length-second :
      r.tail < capacity r
      → capacity r < r.tail + n
      → length (slice (capacity r - r.tail) (n - (capacity r - r.tail)) bytes)
        ≡ n - (capacity r - r.tail)
  length-second t h = length-slice _ _ bytes (omega arith)

  -- Reading the ring after the copies, at a given cell.
  straight_at :
      (j : ℕ) {x : ℕ}
      → r.tail + n ≤ capacity r
      → get_or (blit r.tail (take n bytes) r.cells) j 0 ≡ x
      → get_or (copy_in bytes n r) j 0 ≡ x
  straight_at j h e = ap (λ (c : List ℕ). get_or c j 0) (copy_in-straight h) ∙ e

  wrapped_at :
      (j : ℕ) {x : ℕ}
      → r.tail < capacity r
      → capacity r < r.tail + n
      → get_or
          (blit 0
            (slice (capacity r - r.tail) (n - (capacity r - r.tail)) bytes)
            (blit r.tail (take (capacity r - r.tail) bytes) r.cells))
          j
          0
        ≡ x
      → get_or (copy_in bytes n r) j 0 ≡ x
  wrapped_at j t h e = ap (λ (c : List ℕ). get_or c j 0) (copy_in-wrapped t h) ∙ e

  first_copy :
      (k i : ℕ)
      → k ≤ n
      → r.tail + k ≤ capacity r
      → i < k
      → get_or (blit r.tail (take k bytes) r.cells) (r.tail + i) 0 ≡ get_or bytes i 0
  first_copy k i hk fit hi =
      get_or-blit_in 0 r.tail (r.tail + i) (take k bytes) r.cells
        (omega (arith, length-take_bytes k hk)) (omega arith)
        (omega (arith, length-take_bytes k hk))
      ∙ get_or-eq (take k bytes) 0 (r.tail + i - r.tail) i (omega arith)
      ∙ get_or-slice 0 0 k i bytes (omega arith) hi
      ∙ get_or-eq bytes 0 (0 + i) i (omega arith)

  second_copy :
      (i : ℕ)
      → r.tail < capacity r
      → capacity r < r.tail + n
      → n ≤ capacity r
      → i < n
      → capacity r - r.tail ≤ i
      → get_or
          (blit 0
            (slice (capacity r - r.tail) (n - (capacity r - r.tail)) bytes)
            (blit r.tail (take (capacity r - r.tail) bytes) r.cells))
          (r.tail + i - capacity r)
          0
        ≡ get_or bytes i 0
  second_copy i t h fit hi lo =
      get_or-blit_in 0 0 (r.tail + i - capacity r) _ (blit r.tail _ r.cells)
        (omega
          (arith, length-second t h, length-blit r.tail (take (capacity r - r.tail) bytes) r.cells))
        (omega arith) (omega (arith, length-second t h))
      ∙ get_or-slice 0 (capacity r - r.tail) (n - (capacity r - r.tail))
          (r.tail + i - capacity r - 0) bytes (omega arith) (omega arith)
      ∙ get_or-eq bytes 0 (capacity r - r.tail + (r.tail + i - capacity r - 0)) i (omega arith)

  -- A byte of the data lands behind the tail, around the end of the ring.
  copy_in-new :
      (i : ℕ)
      → r.tail < capacity r
      → n ≤ capacity r
      → i < n
      → get_or (copy_in bytes n r) ((r.tail + i) % capacity r) 0 ≡ get_or bytes i 0
  copy_in-new i t fit hi = elim (le-or-lt (r.tail + n) (capacity r)) [
    | inl h ↦
        get_or-eq (copy_in bytes n r) 0 _ (r.tail + i) (mod_low _ _ (omega arith))
        ∙ straight_at (r.tail + i) h (first_copy n i (omega arith) h hi)
    | inr h ↦ elim (le-or-lt (capacity r - r.tail) i) [
      | inl lo ↦
          get_or-eq (copy_in bytes n r) 0 _ (r.tail + i - capacity r)
            (mod_wrap _ _ (omega arith) (omega arith))
          ∙ wrapped_at (r.tail + i - capacity r) t h (second_copy i t h fit hi lo)
      | inr lo ↦
          get_or-eq (copy_in bytes n r) 0 _ (r.tail + i) (mod_low _ _ (omega arith))
          ∙ wrapped_at (r.tail + i) t h (
              get_or-blit_out 0 0 (r.tail + i) _ (blit r.tail _ r.cells)
                (inr (omega (arith, length-second t h)))
              ∙ first_copy (capacity r - r.tail) i (omega arith) (omega arith) lo)
    ]
  ]

  outside_first :
      (j k : ℕ)
      → k ≤ n
      → (j < r.tail) ⊎ (r.tail + k ≤ j)
      → get_or (blit r.tail (take k bytes) r.cells) j 0 ≡ get_or r.cells j 0
  outside_first j k hk h =
      get_or-blit_out 0 r.tail j (take k bytes) r.cells (omega (arith, length-take_bytes k hk))

  -- A cell that lies `n` or more behind the tail is left alone.
  copy_in-kept :
      (i j : ℕ)
      → r.tail < capacity r
      → n ≤ i
      → i < capacity r
      → j ≡ (r.tail + i) % capacity r
      → get_or (copy_in bytes n r) j 0 ≡ get_or r.cells j 0
  copy_in-kept i j t lo hi e = elim (le-or-lt (capacity r) (r.tail + i)) [
    | inl w ↦
        let p : j ≡ r.tail + i - capacity r = e ∙ mod_wrap _ _ (omega arith) w in
        elim (le-or-lt (r.tail + n) (capacity r)) [
          | inl h ↦ straight_at j h (outside_first j n (omega arith) (inl (omega arith)))
          | inr h ↦ wrapped_at j t h (
              get_or-blit_out 0 0 j _ (blit r.tail _ r.cells)
                (inr (omega (arith, length-second t h)))
              ∙ outside_first j (capacity r - r.tail) (omega arith) (inl (omega arith)))
        ]
    | inr w ↦
        let p : j ≡ r.tail + i = e ∙ mod_low _ _ w in
        straight_at j (omega arith) (outside_first j n (omega arith) (inr (omega arith)))
  ]

pub accepted_bounds :
    (bytes : List ℕ) (r : Ring)
    → IsRing r
    → (accepted bytes r ≤ length bytes) × (r.count + accepted bytes r ≤ capacity r)
accepted_bounds bytes r v = ground arith

pub take-accepted :
    (bytes : List ℕ) (r : Ring) → take (accepted bytes r) bytes ≡ take (capacity r - r.count) bytes
take-accepted bytes r = elim (Bool-cases (ltb (capacity r - r.count) (length bytes))) [
  | inl full ↦ rw full
  | inr roomy ↦ rw roomy (
      take-all (length bytes) bytes (omega arith)
      ∙ sym (take-all (capacity r - r.count) bytes (ground arith)))
]

module _ (r : Ring) (v : IsRing r) (bytes : List ℕ) (n : ℕ) (hb : n ≤ length bytes)
    (hn : r.count + n ≤ capacity r) where
  pub tail_in : r.tail < capacity r
  tail_in = omega (arith, v.tail_at, mod_cases (r.head + r.count) (capacity r) (omega arith))

  old_byte :
      (i : ℕ) → i < r.count → get_or (copy_in bytes n r) ((r.head + i) % capacity r) 0 ≡ at r i
  old_byte i hi =
      copy_in-kept r bytes n hb (i + capacity r - r.count) _ tail_in (omega arith) (omega arith) (
        omega (
          arith,
          tail_in,
          mod_cases (r.head + r.count) (capacity r) (omega arith),
          mod_cases (r.head + i) (capacity r) (omega arith),
          mod_cases (r.tail + (i + capacity r - r.count)) (capacity r) (omega (arith, tail_in)),
        ))

  new_byte :
      (i : ℕ)
      → i < n
      → get_or (copy_in bytes n r) ((r.head + (r.count + i)) % capacity r) 0 ≡ get_or bytes i 0
  new_byte i hi =
      get_or-eq (copy_in bytes n r) 0 _ ((r.tail + i) % capacity r) (
        omega (
          arith,
          tail_in,
          mod_cases (r.head + r.count) (capacity r) (omega arith),
          mod_cases (r.head + (r.count + i)) (capacity r) (omega arith),
          mod_cases (r.tail + i) (capacity r) (omega (arith, tail_in)),
        ))
      ∙ copy_in-new r bytes n hb i tail_in (omega arith) hi

  pub tabulate-copy_in :
      tabulate (r.count + n) (λ i. get_or (copy_in bytes n r) ((r.head + i) % capacity r) 0)
      ≡ tabulate r.count (at r) ++ take n bytes
  tabulate-copy_in =
      tabulate-append r.count n (λ i. get_or (copy_in bytes n r) ((r.head + i) % capacity r) 0)
      ∙ ap₂ ◌++◌ (tabulate_ext r.count _ (at r) old_byte) (
          tabulate_ext n _ (λ i. get_or bytes i 0) new_byte
          ∙ tabulate_ext n _ (λ i. get_or bytes (0 + i) 0)
              (λ i h. get_or-eq bytes 0 i (0 + i) (omega arith))
          ∙ sym (slice-tabulate 0 0 n bytes (omega arith)))

  pub length-copy_in : length (copy_in bytes n r) ≡ capacity r
  length-copy_in = elim (le-or-lt (r.tail + n) (capacity r)) [
    | inl h ↦ rw (copy_in-straight r bytes n hb h) (length-blit r.tail (take n bytes) r.cells)
    | inr h ↦ rw (copy_in-wrapped r bytes n hb tail_in h) (
        length-blit 0 _ (blit r.tail (take (capacity r - r.tail) bytes) r.cells)
        ∙ length-blit r.tail (take (capacity r - r.tail) bytes) r.cells)
  ]
