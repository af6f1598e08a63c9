-- ===== src/Audio/Packetizer/Buffer.antt =====
-- The ring buffer of internal/audio/packetizer.go: `ringBuf`, `head`, `tail` and `count` with the
-- copies in two parts at the wrap-around.
use tele_portal.Common.{
  List, [], if◌then◌else◌, length, ltb, min, replicate, take, ℕ, ◌%◌, ◌++◌, ◌+◌, ◌-◌,
}
use tele_portal.Common.Slices.{blit, slice}

pub record Ring : Type 0 where
  pub cells : List ℕ
  pub head : ℕ
  pub tail : ℕ
  pub count : ℕ

unfoldable pub empty_ring : ℕ → Ring
empty_ring capacity = record { cells = replicate capacity 0; head = 0; tail = 0; count = 0 }

abbrev pub capacity : Ring → ℕ
capacity r = length r.cells

-- `n := len(data)`, cut down to the room that is left.
abbrev pub accepted : List ℕ → Ring → ℕ
accepted bytes r =
    if ltb (capacity r - r.count) (length bytes) then capacity r - r.count else length bytes

-- The two copies: up to the end of the ring, and what is left at its start.
abbrev pub copy_in : List ℕ → ℕ → Ring → List ℕ
copy_in bytes n r =
    let first_part = min (capacity r - r.tail) n in
    let cells = blit r.tail (take first_part bytes) r.cells in
    if ltb first_part n then blit 0 (slice first_part (n - first_part) bytes) cells else cells

unfoldable pub write : List ℕ → Ring → Ring
write bytes r =
    let n = accepted bytes r in
    if ltb 0 n
    then record r {
      cells = copy_in bytes n r;
      tail = (r.tail + n) % capacity r;
      count = r.count + n;
    }
    else r

-- The two copies out of the ring into a chunk of `k` bytes.
abbrev pub copy_out : ℕ → Ring → List ℕ
copy_out k r =
    let first_part = min (capacity r - r.head) k in
    slice r.head first_part r.cells
    ++ (if ltb first_part k then slice 0 (k - first_part) r.cells else [])

unfoldable pub read : ℕ → Ring → List ℕ × Ring
read k r = (copy_out k r, record r { head = (r.head + k) % capacity r; count = r.count - k })
