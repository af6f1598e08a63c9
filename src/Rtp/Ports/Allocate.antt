-- ===== src/Rtp/Ports/Allocate.antt =====
-- internal/rtp/rtp_manager.go: which port a call gives, and when it fails.
use tele_portal.Common.{
  Bool, Bool-cases, List, Option, Option-cases, arith, false, if◌then◌else◌, inl, inr, le-or-lt,
  ltb, none, refl, some, subst, suc, sym, true, zero, ℕ, ◌%◌, ◌*◌, ◌+◌, ◌-◌, ◌/◌, ◌<◌, ◌∙◌, ◌∷◌,
  ◌≡◌, ◌≤◌, ◌⊎◌,
}
use tele_portal.Common.Mod.{mod_cases}
use tele_portal.Common.Result.{Result, err, ok}
use tele_portal.Common.Words.{u16}
use tele_portal.Rtp.Ports.{
  PortError, RtpManager, create_listener, even_count, first_even, in_use, last_even, next_even,
  no_available_ports, port_at, search_loop,
}

pub record IsManager (m : RtpManager) : Type 0 where
  pub low : 1024 ≤ m.port_min
  pub ordered : m.port_min < m.port_max
  pub high : m.port_max < 65536
  pub next_even_port : m.next_port % 2 ≡ 0
  pub next_lo : first_even m ≤ m.next_port
  pub next_hi : m.next_port ≤ last_even m

-- The even ports of the range.
pub record IsRtpPort (m : RtpManager) (port : ℕ) : Type 0 where
  pub even : port % 2 ≡ 0
  pub from_min : m.port_min ≤ port
  pub to_max : port ≤ m.port_max

-- The first and the last even port, in plain arithmetic.
range_ends :
    (m : RtpManager)
    → IsManager m
    → (first_even m % 2 ≡ 0)
      × (m.port_min ≤ first_even m)
      × (first_even m ≤ m.port_min + 1)
      × (last_even m % 2 ≡ 0)
      × (last_even m ≤ m.port_max)
      × (m.port_max ≤ last_even m + 1)
      × (first_even m ≤ last_even m)
range_ends m v = ground arith

abbrev Free : (ℕ → Bool) → List ℕ → ℕ → Type 0
Free bind ports port = (in_use port ports ≡ false) × (bind port ≡ true)

module _ (bind : ℕ → Bool) (ports : List ℕ) (first count start : ℕ) where
  abbrev candidate : ℕ → ℕ
  candidate i = u16 (first + u16 ((start + i) % count * 2))

  search_loop-some :
      (left i idx : ℕ)
      → search_loop bind ports first count start left i ≡ some idx
      → (j : ℕ) × (i ≤ j)
        × (j < i + left)
        × (idx ≡ (start + j) % count)
        × Free bind ports (candidate j)
  unfolding search_loop
  search_loop-some zero i idx e = cc
  search_loop-some (suc left) i idx e = elim (Bool-cases (in_use (candidate i) ports)) [
    | inl used ↦ later (search_loop-some left (suc i) idx (rw used at e))
    | inr unused ↦ elim (Bool-cases (bind (candidate i))) [
      | inl bound ↦ (i, omega arith, omega arith, ground arith, (unused, bound))
      | inr refused ↦ later (search_loop-some left (suc i) idx (rw refused at (rw unused at e)))
    ]
  ]
    where
      later :
          (j : ℕ) × (suc i ≤ j)
            × (j < suc i + left)
            × (idx ≡ (start + j) % count)
            × Free bind ports (candidate j)
          → (j : ℕ) × (i ≤ j)
            × (j < i + suc left)
            × (idx ≡ (start + j) % count)
            × Free bind ports (candidate j)
      later (j, lo, hi, q, f) = (j, omega arith, omega arith, q, f)

  search_loop-none :
      (left i j : ℕ)
      → search_loop bind ports first count start left i ≡ none
      → i ≤ j
      → j < i + left
      → ¬ Free bind ports (candidate j)
  unfolding search_loop
  search_loop-none zero i j e lo hi = λ f. absurd (omega arith)
  search_loop-none (suc left) i j e lo hi = λ f. elim (le-or-lt (suc i) j) [
    | inl later ↦
        search_loop-none left (suc i) j
          (rest_none (in_use (candidate i) ports) (bind (candidate i)) ((start + i) % count) e)
          later (omega arith) f
    | inr now ↦
        let here : j ≡ i = omega arith in
        let g : Free bind ports (candidate i) =
          subst (λ (k : ℕ). Free bind ports (candidate k)) here f in
        cc (rw (g.0, g.1) at e)
  ]
    where
      rest_none :
          (a b : Bool) (x : ℕ) {r : Option ℕ}
          → (if a then r else if b then some x else r) ≡ none
          → r ≡ none
      rest_none a b x q = ground arith

-- The search of a call, with what `create_listener` makes of it.
abbrev pub found : (ℕ → Bool) → RtpManager → Option ℕ
found bind m =
    search_loop bind m.ports (first_even m) (even_count m) ((next_even m - first_even m) / 2)
      (even_count m) 0

abbrev pub granted : RtpManager → ℕ → RtpManager
granted m idx = record m {
  ports = port_at m idx ∷ m.ports;
  next_port = u16 (first_even m + u16 ((idx + 1) % even_count m * 2));
}

abbrev pub refused : RtpManager → RtpManager
refused m = record m { next_port = next_even m }

pub create_listener-cases :
    (bind : ℕ → Bool) (m : RtpManager)
    → IsManager m
    → ((found bind m ≡ none) × (create_listener bind m ≡ (refused m, err no_available_ports)))
      ⊎ ((idx : ℕ) × (found bind m ≡ some idx)
          × (create_listener bind m ≡ (granted m idx, ok (port_at m idx))))
unfolding create_listener
create_listener-cases bind m v = elim (Option-cases (found bind m)) [
  | inl e ↦ inl (e, rw nonempty (rw (e) refl))
  | inr (idx, e) ↦ inr (idx, e, rw nonempty (rw (e) refl))
]
  where
    nonempty : ltb (last_even m) (first_even m) ≡ false
    nonempty = ground (arith, range_ends m v)

pub next_even-next_port : (m : RtpManager) → IsManager m → next_even m ≡ m.next_port
next_even-next_port m v = ground arith

index_arith :
    (f l idx : ℕ)
    → f % 2 ≡ 0
    → l % 2 ≡ 0
    → f ≤ l
    → l < 65536
    → idx < (l - f) / 2 + 1
    → (u16 (f + u16 (idx * 2)) ≡ f + idx * 2) × (f + idx * 2 ≤ l) × ((f + idx * 2) % 2 ≡ 0)
index_arith f l idx ef el fl hl h = omega arith

port_arith :
    (f l port : ℕ)
    → f % 2 ≡ 0
    → l % 2 ≡ 0
    → port % 2 ≡ 0
    → f ≤ port
    → port ≤ l
    → l < 65536
    → ((port - f) / 2 < (l - f) / 2 + 1) × (u16 (f + u16 ((port - f) / 2 * 2)) ≡ port)
port_arith f l port ef el ep lo hi hl = omega arith

-- The port at an index of the range is an even port of the range.
port_at-range :
    (m : RtpManager) (idx : ℕ)
    → IsManager m
    → idx < even_count m
    → (port_at m idx ≡ first_even m + idx * 2)
      × (first_even m + idx * 2 ≤ last_even m)
      × ((first_even m + idx * 2) % 2 ≡ 0)
port_at-range m idx v h =
    let e = range_ends m v in
    index_arith (first_even m) (last_even m) idx e.0 e.3 e.6 (omega arith) h

port_at-IsRtpPort :
    (m : RtpManager) (idx : ℕ) → IsManager m → idx < even_count m → IsRtpPort m (port_at m idx)
port_at-IsRtpPort m idx v h =
    let e = range_ends m v in
    let r = port_at-range m idx v h in
    rw (r.0)
      (record { even = r.2; from_min = omega (arith, e.1); to_max = omega (arith, e.4, r.1) })

-- Every even port of the range has an index.
index_of-port_at :
    (m : RtpManager) (port : ℕ)
    → IsManager m
    → IsRtpPort m port
    → ((port - first_even m) / 2 < even_count m) × (port_at m ((port - first_even m) / 2) ≡ port)
index_of-port_at m port v r =
    let e = range_ends m v in
    port_arith (first_even m) (last_even m) port e.0 e.3 r.even
      (omega (arith, e.0, e.1, e.2, r.even, r.from_min)) (omega (arith, e.3, e.5, r.even, r.to_max))
      (omega arith)

pub granted-IsManager :
    (m : RtpManager) (idx : ℕ) → IsManager m → idx < even_count m → IsManager (granted m idx)
granted-IsManager m idx v h =
    let next = (idx + 1) % even_count m in
    let r = port_at-range m next v (omega arith) in
    record {
      low = v.low;
      ordered = v.ordered;
      high = v.high;
      next_even_port = rw (r.0) (r.2);
      next_lo = rw (r.0) (omega arith);
      next_hi = rw (r.0) (r.1);
    }

pair-ok :
    {m m' : RtpManager} {p q : ℕ}
    → ◌≡◌ {A = RtpManager × Result PortError ℕ} (m, ok p) (m', ok q)
    → (m ≡ m') × (p ≡ q)
pair-ok e = (cc, cc)

pair-err :
    {m m' : RtpManager} {q : ℕ} {x : PortError}
    → ◌≡◌ {A = RtpManager × Result PortError ℕ} (m, err x) (m', ok q)
    → ⊥
pair-err e = cc

-- A port that a call gives is an even port of the range that no listener had and that the system
-- let be bound; it is the only port that is added, and the manager stays well formed.
pub create_listener-ok :
    (bind : ℕ → Bool) (m m' : RtpManager) (port : ℕ)
    → IsManager m
    → create_listener bind m ≡ (m', ok port)
    → IsRtpPort m port
      × (in_use port m.ports ≡ false)
      × (bind port ≡ true)
      × (m'.ports ≡ port ∷ m.ports)
      × IsManager m'
create_listener-ok bind m m' port v e = elim (create_listener-cases bind m v) [
  | inl (_, q) ↦ absurd (pair-err (sym q ∙ e))
  | inr (idx, f, q) ↦
      let (j, lo, hi, at, free) =
        search_loop-some bind m.ports (first_even m) (even_count m)
          ((next_even m - first_even m) / 2) (even_count m) 0 idx f in
      let in_count : idx < even_count m = rw at (omega arith) in
      let here : Free bind m.ports (port_at m idx) = rw at free in
      let (em, ep) = pair-ok (sym q ∙ e) in
      rw (← em) (
        rw (← ep) (
          port_at-IsRtpPort m idx v in_count,
          here.0,
          here.1,
          refl,
          granted-IsManager m idx v in_count,
        ))
]

-- The round of the loop that reaches a given index.
rotate :
    (start idx count : ℕ)
    → start < count
    → idx < count
    → (j : ℕ) × (j < count) × ((start + j) % count ≡ idx)
rotate start idx count hs hi = elim (le-or-lt start idx) [
  | inl le ↦ (
    idx - start,
    omega arith,
    omega (arith, mod_cases (start + (idx - start)) count (omega arith)),
  )
  | inr gt ↦ (
    idx + count - start,
    omega arith,
    omega (arith, mod_cases (start + (idx + count - start)) count (omega arith)),
  )
]

next_index : (m : RtpManager) → IsManager m → (next_even m - first_even m) / 2 < even_count m
next_index m v =
    rw (next_even-next_port m v)
      (omega (arith, range_ends m v, v.next_lo, v.next_hi, v.next_even_port))

-- While some even port of the range is free and can be bound, a call succeeds.
pub create_listener-total :
    (bind : ℕ → Bool) (m : RtpManager) (port : ℕ)
    → IsManager m
    → IsRtpPort m port
    → in_use port m.ports ≡ false
    → bind port ≡ true
    → (m' : RtpManager) × (p : ℕ) × (create_listener bind m ≡ (m', ok p))
create_listener-total bind m port v r unused bound = elim (create_listener-cases bind m v) [
  | inl (f, _) ↦
      let (small, same) = index_of-port_at m port v r in
      let (j, hj, ej) =
        rotate ((next_even m - first_even m) / 2) ((port - first_even m) / 2) (even_count m)
          (next_index m v) small in
      absurd (
        search_loop-none bind m.ports (first_even m) (even_count m)
          ((next_even m - first_even m) / 2) (even_count m) 0 j f (omega arith) (omega arith)
          (rw ej (rw same (unused, bound))))
  | inr (idx, _, q) ↦ (granted m idx, port_at m idx, q)
]
