-- ===== src/Audio/Pool/Classes.antt =====
-- pkg/audio/pool.go: which buffers a pool holds, and what its clients can count on.
use tele_portal.Audio.Pool.{
  Class, Pools, Slice, class_for, class_of, fit, get_buffer, new_size, pick, pool160, pool320,
  pool640, pool960, pool_default, pool_of, put_buffer, set_pool,
}
use tele_portal.Common.{
  Bool-cases, List, Option, [], arith, inl, inr, none, some, suc, zero, ℕ, ◌<◌, ◌==◌, ◌∷◌, ◌≡◌, ◌≤◌,
}

abbrev pub FromOn : ℕ → List ℕ → Type 0
FromOn n [] = Unit {0}
FromOn n (x ∷ xs) = (n ≤ x) × FromOn n xs

-- The smallest buffers that each pool takes.
unfoldable pub least : Class → ℕ
least pool160 = 1
least pool320 = 320
least pool640 = 640
least pool960 = 960
least pool_default = 2000

pub record IsPools (p : Pools) : Type 0 where
  pub at160 : FromOn 1 p.of160
  pub at320 : FromOn 320 p.of320
  pub at640 : FromOn 640 p.of640
  pub at960 : FromOn 960 p.of960
  pub at_default : FromOn 2000 p.of_default

set_pool-IsPools :
    (c : Class) (xs : List ℕ) (p : Pools)
    → FromOn (least c) xs
    → IsPools p
    → IsPools (set_pool c xs p)
unfolding set_pool least
set_pool-IsPools pool160 xs p h v = record {
  at160 = h;
  at320 = v.at320;
  at640 = v.at640;
  at960 = v.at960;
  at_default = v.at_default;
}
set_pool-IsPools pool320 xs p h v = record {
  at160 = v.at160;
  at320 = h;
  at640 = v.at640;
  at960 = v.at960;
  at_default = v.at_default;
}
set_pool-IsPools pool640 xs p h v = record {
  at160 = v.at160;
  at320 = v.at320;
  at640 = h;
  at960 = v.at960;
  at_default = v.at_default;
}
set_pool-IsPools pool960 xs p h v = record {
  at160 = v.at160;
  at320 = v.at320;
  at640 = v.at640;
  at960 = h;
  at_default = v.at_default;
}
set_pool-IsPools pool_default xs p h v = record {
  at160 = v.at160;
  at320 = v.at320;
  at640 = v.at640;
  at960 = v.at960;
  at_default = h;
}

pool_of-IsPools : (c : Class) (p : Pools) → IsPools p → FromOn (least c) (pool_of c p)
unfolding pool_of least
pool_of-IsPools pool160 p v = v.at160
pool_of-IsPools pool320 p v = v.at320
pool_of-IsPools pool640 p v = v.at640
pool_of-IsPools pool960 p v = v.at960
pool_of-IsPools pool_default p v = v.at_default

-- What is picked, and what stays, keeps the bound of the pool.
pick-FromOn :
    (choice : Option ℕ) (n fresh : ℕ) (xs : List ℕ)
    → n ≤ fresh
    → FromOn n xs
    → (n ≤ (pick choice fresh xs).0) × FromOn n (pick choice fresh xs).1
unfolding pick
pick-FromOn none n fresh xs h k = (h, k)
pick-FromOn (some i) n fresh [] h k = (h, k)
pick-FromOn (some zero) n fresh (x ∷ xs) h k = (k.0, k.1)
pick-FromOn (some (suc i)) n fresh (x ∷ xs) h k =
    let rest = pick-FromOn (some i) n fresh xs h (k.1) in (rest.0, (k.0, rest.1))

new_size-least : (c : Class) → least c ≤ new_size c
unfolding least new_size
new_size-least pool160 = omega arith
new_size-least pool320 = omega arith
new_size-least pool640 = omega arith
new_size-least pool960 = omega arith
new_size-least pool_default = omega arith

class_of-least : (c : ℕ) → 0 < c → least (class_of c) ≤ c
unfolding class_of least
class_of-least c h = ground arith

class_for-least : (n : ℕ) → 160 < n → n ≤ 2000 → n ≤ least (class_for n)
unfolding class_for least
class_for-least n h k = ground arith

-- Whatever the pool gives, `GetBuffer` keeps the pools.
pub get_buffer-IsPools :
    (choice : Option ℕ) (n : ℕ) (p : Pools) → IsPools p → IsPools (get_buffer choice n p).1
unfolding get_buffer
get_buffer-IsPools choice n p v =
    let c = class_for n in
    set_pool-IsPools c (pick choice (new_size c) (pool_of c p)).1 p
      (pick-FromOn choice (least c) (new_size c) (pool_of c p) (new_size-least c)
        (pool_of-IsPools c p v)).1
      v

-- Every buffer that is given back, also one that was cut or made elsewhere, keeps the pools.
pub put_buffer-IsPools : (b : Slice) (p : Pools) → IsPools p → IsPools (put_buffer b p)
unfolding put_buffer
put_buffer-IsPools b p v = elim (Bool-cases (b.cap == 0)) [
  | inl e ↦ rw e v
  | inr e ↦ rw e (
      let c = class_of b.cap in
      set_pool-IsPools c (b.cap ∷ pool_of c p) p
        (class_of-least b.cap (ground (arith, e)), pool_of-IsPools c p v) v)
]

-- The buffer has the length asked for and room for it, also when the pool held a smaller one.
pub get_buffer-fits :
    (choice : Option ℕ) (n : ℕ) (p : Pools)
    → ((get_buffer choice n p).0.len ≡ n) × (n ≤ (get_buffer choice n p).0.cap)
unfolding get_buffer
get_buffer-fits choice n p = ground arith

-- A use of the pools by the program.
pub data PoolEvent : Type 0 where
  get_event : Option ℕ → ℕ → PoolEvent
  put_event : Slice → PoolEvent

unfoldable pub use_pools : PoolEvent → Pools → Pools
unfolding get_buffer put_buffer
use_pools (get_event choice n) p = (get_buffer choice n p).1
use_pools (put_event b) p = put_buffer b p

unfoldable pub run_pools : List PoolEvent → Pools → Pools
unfolding use_pools
run_pools [] p = p
run_pools (e ∷ es) p = run_pools es (use_pools e p)

abbrev pub empty_pools : Pools
empty_pools = record { of160 = []; of320 = []; of640 = []; of960 = []; of_default = [] }

use_pools-IsPools : (e : PoolEvent) (p : Pools) → IsPools p → IsPools (use_pools e p)
unfolding use_pools get_buffer
use_pools-IsPools (get_event choice n) p v = get_buffer-IsPools choice n p v
use_pools-IsPools (put_event b) p v = put_buffer-IsPools b p v

run_pools-IsPools : (es : List PoolEvent) (p : Pools) → IsPools p → IsPools (run_pools es p)
unfolding run_pools
run_pools-IsPools [] p v = v
run_pools-IsPools (e ∷ es) p v = run_pools-IsPools es (use_pools e p) (use_pools-IsPools e p v)

kept_buffer : (n c : ℕ) → n ≤ c → fit n c ≡ record { len = n; cap = c }
kept_buffer n c h = ground arith

-- After any gets and puts, a request for more than 160 and at most 2000 bytes is served from its
-- pool and never replaced by a new buffer: whatever the pool gives, put back by whoever, is large
-- enough, and the slice has the length asked for.
pub run_pools-get_buffer :
    (es : List PoolEvent) (choice : Option ℕ) (n : ℕ)
    → 160 < n
    → n ≤ 2000
    → let p = run_pools es empty_pools in
      let c = class_for n in
      let given = (pick choice (new_size c) (pool_of c p)).0 in
      (n ≤ given) × ((get_buffer choice n p).0 ≡ record { len = n; cap = given })
unfolding get_buffer
run_pools-get_buffer es choice n h k =
    let p = run_pools es empty_pools in
    let c = class_for n in
    let empty_IsPools : IsPools empty_pools = record {
      at160 = record {};
      at320 = record {};
      at640 = record {};
      at960 = record {};
      at_default = record {};
    } in
    let v = run_pools-IsPools es empty_pools empty_IsPools in
    let enough =
      (pick-FromOn choice (least c) (new_size c) (pool_of c p) (new_size-least c)
        (pool_of-IsPools c p v)).0 in
    let room : n ≤ (pick choice (new_size c) (pool_of c p)).0 =
      omega (arith, class_for-least n h k, enough) in
    (room, kept_buffer n (pick choice (new_size c) (pool_of c p)).0 room)
