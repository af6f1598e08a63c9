-- ===== src/Rtp/Ports.antt =====
-- internal/rtp/rtp_manager.go: the allocation of even UDP ports. `net.ListenPacket` is a parameter:
-- whether the system lets the process bind a port, at the time of a call.
pub mod Allocate
pub mod Histories
use tele_portal.Common.{
  Bool, List, Option, [], false, if◌then◌else◌, leb, ltb, none, some, suc, zero, ℕ, ◌%◌, ◌*◌, ◌+◌,
  ◌-◌, ◌/◌, ◌==◌, ◌||◌, ◌∷◌,
}
use tele_portal.Common.Result.{Result, err, ok}
use tele_portal.Common.Words.{u16}

pub record RtpManager : Type 0 where
  pub ports : List ℕ
  pub port_min : ℕ
  pub port_max : ℕ
  pub next_port : ℕ

pub data PortError : Type 0 where
  invalid_port_range no_even_ports no_available_ports : PortError

-- `startPort++` if it is odd, on a uint16.
abbrev pub round_up : ℕ → ℕ
round_up port = if port % 2 == 0 then port else u16 (port + 1)

abbrev pub round_down : ℕ → ℕ
round_down port = if port % 2 == 0 then port else u16 (port + 65535)

unfoldable pub new_rtp_manager : ℕ → ℕ → Result PortError RtpManager
new_rtp_manager port_min port_max =
    if ltb port_min 1024 || ltb port_max 1024 || leb port_max port_min
    then err invalid_port_range
    else ok (record {
      ports = [];
      port_min = port_min;
      port_max = port_max;
      next_port = round_up port_min;
    })

-- The key is in the map, with `true`: no other value is stored.
unfoldable pub in_use : ℕ → List ℕ → Bool
in_use port [] = false
in_use port (p ∷ ps) = port == p || in_use port ps

-- `delete(m.ports, port)`.
unfoldable pub forget : ℕ → List ℕ → List ℕ
forget port [] = []
forget port (p ∷ ps) = let rest = forget port ps in if port == p then rest else p ∷ rest

-- The loop over the even ports, from the offset `start_offset` on: `left` rounds remain, `i` is the loop's
-- variable. The result is the index of the port that could be bound.
unfoldable pub search_loop : (ℕ → Bool) → List ℕ → ℕ → ℕ → ℕ → ℕ → ℕ → Option ℕ
search_loop bind ports first count start_offset zero i = none
search_loop bind ports first count start_offset (suc left) i =
    let idx = (start_offset + i) % count in
    let port = u16 (first + u16 (idx * 2)) in
    let rest = search_loop bind ports first count start_offset left (suc i) in
    if in_use port ports then rest else if bind port then some idx else rest

abbrev pub first_even : RtpManager → ℕ
first_even m = round_up m.port_min

abbrev pub last_even : RtpManager → ℕ
last_even m = round_down m.port_max

abbrev pub even_count : RtpManager → ℕ
even_count m = (last_even m - first_even m) / 2 + 1

-- `m.nextPort`, set back to the first port if it is out of range.
abbrev pub next_even : RtpManager → ℕ
next_even m =
    if ltb m.next_port (first_even m) || ltb (last_even m) m.next_port
    then first_even m
    else m.next_port

abbrev pub port_at : RtpManager → ℕ → ℕ
port_at m idx = u16 (first_even m + u16 (idx * 2))

-- The manager after the call, and the port of the new listener.
unfoldable pub create_listener : (ℕ → Bool) → RtpManager → RtpManager × Result PortError ℕ
create_listener bind m =
    if ltb (last_even m) (first_even m)
    then (m, err no_even_ports)
    else elim (search_loop bind m.ports (first_even m) (even_count m)
        ((next_even m - first_even m) / 2) (even_count m) 0) [
          | none ↦ (record m { next_port = next_even m }, err no_available_ports)
          | some idx ↦ (
            record m {
              ports = port_at m idx ∷ m.ports;
              next_port = u16 (first_even m + u16 ((idx + 1) % even_count m * 2));
            },
            ok (port_at m idx),
          )
        ]

-- `ReleaseListener`: `none` stands for a nil connection or one that is not UDP.
unfoldable pub release_listener : Option ℕ → RtpManager → RtpManager
release_listener none m = m
release_listener (some port) m = record m { ports = forget (u16 port) m.ports }
