-- ===== src/Bytes.antt =====
-- Buffers of bytes, as the C code sees them through its structs: a buffer is a function from
-- offsets, and a number stands in it with the lowest byte first.
pub mod Laws
use fio_ssd.Prelude.{
  ℕ, zero, suc, ◌+◌, ◌-◌, ◌*◌, ◌/◌, ◌%◌, Option, none, some, List, [], ◌∷◌, Bool, true, false, ◌&&◌,
  ◌||◌, ltb, leb, ◌==◌, if◌then◌else◌,
}

abbrev pub Mem : Type 0
Mem = ℕ → ℕ

-- The number in `n` bytes at `a`.
unfoldable pub get : ℕ → ℕ → Mem → ℕ
get zero a m = 0
get (suc n) a m = m a + 256 * get n (suc a) m

-- `v` is stored in `n` bytes at `a`.
unfoldable pub put : ℕ → ℕ → ℕ → Mem → Mem
put zero a v m = m
put (suc n) a v m = λ i. if i == a then v % 256 else put n (suc a) (v / 256) m i

-- The `n` bytes at `a`.
unfoldable pub bytes : ℕ → ℕ → Mem → List ℕ
bytes zero a m = []
bytes (suc n) a m = m a ∷ bytes n (suc a) m

-- Whether `i` is one of the `n` offsets from `a` on.
abbrev pub inside : ℕ → ℕ → ℕ → Bool
inside a n i = leb a i && ltb i (a + n)

-- The `len` bytes at `a` and at `b` change places.
unfoldable pub swap : ℕ → ℕ → ℕ → Mem → Mem
swap a b len m =
    λ i. if inside a len i then m (b + (i - a)) else if inside b len i then m (a + (i - b)) else m i

-- memswp of verify.c; `none` is the failed assert, or a memcpy between places that overlap.
unfoldable pub memswp : ℕ → ℕ → ℕ → Mem → Option Mem
memswp a b len m =
    if ltb 200 len || (ltb a (b + len) && ltb b (a + len)) then none else some (swap a b len m)
