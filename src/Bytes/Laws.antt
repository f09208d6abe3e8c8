-- ===== src/Bytes/Laws.antt =====
-- Stores and reads of a buffer.
use fio_ssd.Prelude.{
  arith, refl, ap, ℕ, zero, suc, ◌+◌, ◌-◌, ◌/◌, ◌%◌, ◌^◌, ◌≤◌, ◌<◌, ◌≡◌, ◌⊎◌, inl, inr, some,
  dec_lt,
}
use fio_ssd.Bytes.{Mem, get, put, bytes, swap, memswp}

-- Two buffers have the same bytes from `lo` on, below `hi`.
abbrev pub Agree : ℕ → ℕ → Mem → Mem → Type 0
Agree lo hi m m' = (i : ℕ) → lo ≤ i → i < hi → m i ≡ m' i

pub get-Agree : (n a : ℕ) (m m' : Mem) → Agree a (a + n) m m' → get n a m ≡ get n a m'
unfolding get
get-Agree zero a m m' h = refl
get-Agree (suc n) a m m' h = omega (
  arith,
  h a (omega arith) (omega arith),
  get-Agree n (suc a) m m' (λ i p q. h i (omega arith) (omega arith)),
)

pub bytes-Agree : (n a : ℕ) (m m' : Mem) → Agree a (a + n) m m' → bytes n a m ≡ bytes n a m'
unfolding bytes
bytes-Agree zero a m m' h = refl
bytes-Agree (suc n) a m m' h = rw (
  h a (omega arith) (omega arith),
  bytes-Agree n (suc a) m m' (λ i p q. h i (omega arith) (omega arith)),
)

pub put-below : (n a v : ℕ) (m : Mem) (i : ℕ) → i < a → put n a v m i ≡ m i
unfolding put
put-below zero a v m i h = refl
put-below (suc n) a v m i h = ground (arith, put-below n (suc a) (v / 256) m i)

pub put-above : (n a v : ℕ) (m : Mem) (i : ℕ) → a + n ≤ i → put n a v m i ≡ m i
unfolding put
put-above zero a v m i h = refl
put-above (suc n) a v m i h = ground (arith, put-above n (suc a) (v / 256) m i)

-- A store leaves what stands elsewhere.
pub get-put_apart :
    (n a k b v : ℕ) (m : Mem) → (a + n ≤ b) ⊎ (b + k ≤ a) → get n a (put k b v m) ≡ get n a m
get-put_apart n a k b v m (inl h) = get-Agree n a _ _ (λ i p q. put-below k b v m i (omega arith))
get-put_apart n a k b v m (inr h) = get-Agree n a _ _ (λ i p q. put-above k b v m i (omega arith))

pub bytes-put_apart :
    (n a k b v : ℕ) (m : Mem) → (a + n ≤ b) ⊎ (b + k ≤ a) → bytes n a (put k b v m) ≡ bytes n a m
bytes-put_apart n a k b v m (inl h) =
    bytes-Agree n a _ _ (λ i p q. put-below k b v m i (omega arith))
bytes-put_apart n a k b v m (inr h) =
    bytes-Agree n a _ _ (λ i p q. put-above k b v m i (omega arith))

put-first : (n a v : ℕ) (m : Mem) → put (suc n) a v m a ≡ v % 256
unfolding put
put-first n a v m = ground arith

put-rest :
    (n a v : ℕ) (m : Mem)
    → Agree (suc a) (suc a + n) (put (suc n) a v m) (put n (suc a) (v / 256) m)
unfolding put
put-rest n a v m i p q = ground arith

-- A number that fits is read back.
pub get-put : (n a v : ℕ) (m : Mem) → v < 256 ^ n → get n a (put n a v m) ≡ v
unfolding get
get-put zero a v m h = omega arith
get-put (suc n) a v m h = omega (
  arith,
  put-first n a v m,
  get-Agree n (suc a) _ _ (put-rest n a v m),
  get-put n (suc a) (v / 256) m (grind arith),
)

pub swap-Agree :
    (a b len lo hi : ℕ) (m m' : Mem)
    → lo ≤ a
    → a + len ≤ hi
    → lo ≤ b
    → b + len ≤ hi
    → Agree lo hi m m'
    → Agree lo hi (swap a b len m) (swap a b len m')
unfolding swap
swap-Agree a b len lo hi m m' ha ha' hb hb' h i p q =
    ground (arith, h (b + (i - a)), h (a + (i - b)), h i)

-- Places that do not overlap are swapped back.
pub swap-swap :
    (a b len : ℕ) (m : Mem) (i : ℕ) → a + len ≤ b → swap a b len (swap a b len m) i ≡ m i
unfolding swap
swap-swap a b len m i h = elim (dec_lt i a) [
  | yes p ↦ ground arith
  | no p ↦ elim (dec_lt i (a + len)) [
    | yes q ↦ let e : a + (b + (i - a) - b) ≡ i = omega arith in rw (← ap m e) (ground arith)
    | no q ↦ elim (dec_lt i b) [
      | yes r ↦ ground arith
      | no r ↦ elim (dec_lt i (b + len)) [
        | yes t ↦ let e : b + (a + (i - b) - a) ≡ i = omega arith in rw (← ap m e) (ground arith)
        | no t ↦ ground arith
      ]
    ]
  ]
]

pub swap_apart :
    (a b len : ℕ) (m : Mem) (i : ℕ) → (i < a) ⊎ (b + len ≤ i) → a + len ≤ b → swap a b len m i ≡ m i
unfolding swap
swap_apart a b len m i (inl h) k = ground arith
swap_apart a b len m i (inr h) k = ground arith

pub memswp-eq :
    (a b len : ℕ) (m : Mem) → len ≤ 200 → a + len ≤ b → memswp a b len m ≡ some (swap a b len m)
unfolding memswp
memswp-eq a b len m h k = ground arith
