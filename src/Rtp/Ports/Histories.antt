-- ===== src/Rtp/Ports/Histories.antt =====
-- internal/rtp/rtp_manager.go: what holds after any sequence of calls.
use tele_portal.Common.{
  Bool, List, Option, [], arith, false, if◌then◌else◌, inl, inr, leb, ltb, none, refl, some, true,
  ℕ, ◌%◌, ◌<◌, ◌==◌, ◌||◌, ◌∷◌, ◌≡◌, ◌≤◌,
}
use tele_portal.Common.Result.{err, ok}
use tele_portal.Common.Words.{u16}
use tele_portal.Rtp.Ports.{
  RtpManager, create_listener, forget, in_use, invalid_port_range, new_rtp_manager, port_at,
  release_listener, round_up,
}
use tele_portal.Rtp.Ports.Allocate.{
  IsManager, create_listener-cases, create_listener-ok, granted, next_even-next_port,
}

pub data Call : Type 0 where
  create : (ℕ → Bool) → Call
  release : Option ℕ → Call

unfoldable pub run : RtpManager → List Call → RtpManager
run m [] = m
run m (create bind ∷ calls) = run (create_listener bind m).0 calls
run m (release port ∷ calls) = run (release_listener port m) calls

abbrev pub Distinct : List ℕ → Type 0
Distinct [] = Unit {0}
Distinct (p ∷ ps) = (in_use p ps ≡ false) × Distinct ps

abbrev pub AllPorts : ℕ → ℕ → List ℕ → Type 0
AllPorts lo hi [] = Unit {0}
AllPorts lo hi (p ∷ ps) = (p % 2 ≡ 0) × (lo ≤ p) × (p ≤ hi) × AllPorts lo hi ps

-- The ports in use are even ports of the range, each once.
pub record IsSound (lo hi : ℕ) (m : RtpManager) : Type 0 where
  pub manager : IsManager m
  pub same_min : m.port_min ≡ lo
  pub same_max : m.port_max ≡ hi
  pub distinct : Distinct m.ports
  pub in_range : AllPorts lo hi m.ports

-- Releasing a port frees that port and no other.
pub in_use-forget :
    (q p : ℕ) (ps : List ℕ) → in_use q (forget p ps) ≡ (if q == p then false else in_use q ps)
unfolding in_use forget
in_use-forget q p [] = ground arith
in_use-forget q p (x ∷ ps) = ground (arith, in_use-forget q p ps)

forget-Distinct : (p : ℕ) (ps : List ℕ) → Distinct ps → Distinct (forget p ps)
unfolding forget
forget-Distinct p [] d = tt
forget-Distinct p (x ∷ ps) d = ground (arith, in_use-forget x p ps, forget-Distinct p ps d.1)

forget-AllPorts : (p lo hi : ℕ) (ps : List ℕ) → AllPorts lo hi ps → AllPorts lo hi (forget p ps)
unfolding forget
forget-AllPorts p lo hi [] d = tt
forget-AllPorts p lo hi (x ∷ ps) d = ground (arith, forget-AllPorts p lo hi ps d.3)

abbrev fresh : ℕ → ℕ → RtpManager
fresh lo hi = record { ports = []; port_min = lo; port_max = hi; next_port = round_up lo }

fresh-IsManager :
    (lo hi : ℕ)
    → hi < 65536
    → (ltb lo 1024 || ltb hi 1024 || leb hi lo) ≡ false
    → IsManager (fresh lo hi)
fresh-IsManager lo hi h e = ground arith

new_rtp_manager-cases :
    (b : Bool) (x y : RtpManager)
    → (if b then err invalid_port_range else ok x) ≡ ok y
    → (b ≡ false) × (x ≡ y)
new_rtp_manager-cases true x y e = cc
new_rtp_manager-cases false x y e = (refl, cc)

new_rtp_manager-IsSound :
    (lo hi : ℕ) (m : RtpManager) → hi < 65536 → new_rtp_manager lo hi ≡ ok m → IsSound lo hi m
unfolding new_rtp_manager
new_rtp_manager-IsSound lo hi m h e =
    let (ok_range, same) = new_rtp_manager-cases _ (fresh lo hi) m e in
    rw (← same) (record {
      manager = fresh-IsManager lo hi h ok_range;
      same_min = refl;
      same_max = refl;
      distinct = tt;
      in_range = tt;
    })

pub create_listener-IsSound :
    (lo hi : ℕ) (bind : ℕ → Bool) (m : RtpManager)
    → IsSound lo hi m
    → IsSound lo hi (create_listener bind m).0
create_listener-IsSound lo hi bind m s = elim (create_listener-cases bind m s.manager) [
  | inl (_, q) ↦ rw q (rw (next_even-next_port m s.manager) s)
  | inr (idx, _, q) ↦
      let r = create_listener-ok bind m (granted m idx) (port_at m idx) s.manager q in
      rw q (record {
        manager = r.4;
        same_min = s.same_min;
        same_max = s.same_max;
        distinct = (r.1, s.distinct);
        in_range = (
          r.0.even,
          omega (arith, r.0.from_min, s.same_min),
          omega (arith, r.0.to_max, s.same_max),
          s.in_range,
        );
      })
]

pub release_listener-IsSound :
    (lo hi : ℕ) (port : Option ℕ) (m : RtpManager)
    → IsSound lo hi m
    → IsSound lo hi (release_listener port m)
unfolding release_listener
release_listener-IsSound lo hi none m s = s
release_listener-IsSound lo hi (some p) m s = record {
  manager = record {
    low = s.manager.low;
    ordered = s.manager.ordered;
    high = s.manager.high;
    next_even_port = s.manager.next_even_port;
    next_lo = s.manager.next_lo;
    next_hi = s.manager.next_hi;
  };
  same_min = s.same_min;
  same_max = s.same_max;
  distinct = forget-Distinct (u16 p) m.ports s.distinct;
  in_range = forget-AllPorts (u16 p) lo hi m.ports s.in_range;
}

run-keeps :
    (lo hi : ℕ) (m : RtpManager) (calls : List Call) → IsSound lo hi m → IsSound lo hi (run m calls)
unfolding run
run-keeps lo hi m [] s = s
run-keeps lo hi m (create bind ∷ calls) s =
    run-keeps lo hi (create_listener bind m).0 calls (create_listener-IsSound lo hi bind m s)
run-keeps lo hi m (release port ∷ calls) s =
    run-keeps lo hi (release_listener port m) calls (release_listener-IsSound lo hi port m s)

-- After any history of a new manager its ports in use are even ports of the configured range, and
-- no port is given twice at a time, whichever ports the system lets be bound.
pub run-IsSound :
    (lo hi : ℕ) (m : RtpManager) (calls : List Call)
    → hi < 65536
    → new_rtp_manager lo hi ≡ ok m
    → IsSound lo hi (run m calls)
run-IsSound lo hi m calls h e = run-keeps lo hi m calls (new_rtp_manager-IsSound lo hi m h e)
