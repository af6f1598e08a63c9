-- ===== src/Audio/Pool.antt =====
-- pkg/audio/pool.go: the pools of audio buffers. A buffer stands for its length and its capacity,
-- and what a pool holds for the capacities.
pub mod Classes
use tele_portal.Call.Processor.Delivery.{wanted}
use tele_portal.Common.{
  List, Option, [], if◌then◌else◌, leb, ltb, none, some, suc, zero, ℕ, ◌==◌, ◌∷◌,
}

pub record Slice : Type 0 where
  pub len : ℕ
  pub cap : ℕ

pub data Class : Type 0 where
  pool160 pool320 pool640 pool960 pool_default : Class

pub record Pools : Type 0 where
  pub of160 : List ℕ
  pub of320 : List ℕ
  pub of640 : List ℕ
  pub of960 : List ℕ
  pub of_default : List ℕ

unfoldable pub pool_of : Class → Pools → List ℕ
pool_of pool160 p = p.of160
pool_of pool320 p = p.of320
pool_of pool640 p = p.of640
pool_of pool960 p = p.of960
pool_of pool_default p = p.of_default

unfoldable pub set_pool : Class → List ℕ → Pools → Pools
set_pool pool160 xs p = record p { of160 = xs }
set_pool pool320 xs p = record p { of320 = xs }
set_pool pool640 xs p = record p { of640 = xs }
set_pool pool960 xs p = record p { of960 = xs }
set_pool pool_default xs p = record p { of_default = xs }

-- What `New` of a pool makes.
unfoldable pub new_size : Class → ℕ
new_size pool160 = 160
new_size pool320 = 320
new_size pool640 = 640
new_size pool960 = 960
new_size pool_default = 2048

-- `Get` of a pool: the buffer at the place that the runtime chooses, or a new one when it chooses
-- none or the place is empty; and what stays in the pool.
unfoldable pub pick : Option ℕ → ℕ → List ℕ → ℕ × List ℕ
pick none fresh xs = (fresh, xs)
pick (some i) fresh [] = (fresh, [])
pick (some zero) fresh (x ∷ xs) = (x, xs)
pick (some (suc i)) fresh (x ∷ xs) = let rest = pick (some i) fresh xs in (rest.0, x ∷ rest.1)

unfoldable pub class_for : ℕ → Class
class_for wanted =
    if leb wanted 160
    then pool160
    else if leb wanted 320
    then pool320
    else if leb wanted 640
    then pool640
    else if leb wanted 960
    then pool960
    else pool_default

-- A buffer that is too small is dropped for a new one.
abbrev pub fit : ℕ → ℕ → Slice
fit wanted c =
    if ltb c wanted then record { len = wanted; cap = wanted } else record { len = wanted; cap = c }

unfoldable pub get_buffer : Option ℕ → ℕ → Pools → Slice × Pools
unfolding pool_of set_pool pick class_for new_size
get_buffer choice wanted p =
    let class = class_for wanted in
    let got = pick choice (new_size class) (pool_of class p) in
    (fit wanted (got.0), set_pool class (got.1) p)

unfoldable pub class_of : ℕ → Class
class_of c =
    if leb 2000 c
    then pool_default
    else if leb 960 c
    then pool960
    else if leb 640 c
    then pool640
    else if leb 320 c
    then pool320
    else pool160

-- A nil slice has capacity 0.
unfoldable pub put_buffer : Slice → Pools → Pools
unfolding pool_of set_pool class_of
put_buffer b p =
    if b.cap == 0
    then p
    else let class = class_of b.cap in set_pool class (b.cap ∷ pool_of class p) p
