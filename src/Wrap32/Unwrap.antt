-- ===== src/Wrap32/Unwrap.antt =====
-- `unwrap` against its specification: the number in the right class that is nearest the checkpoint.
use internet.Prelude.{ℕ, ◌+◌, ◌-◌, ◌^◌, ◌≤◌, ◌<◌, ◌≡◌, arith, u32_mod, u64_mod}
use internet.Wrap32.{Wrap32, wrap, unwrap}

-- A raw value of 32 bits.
abbrev pub IsWord : Wrap32 → Type 0
IsWord w = w.raw_value < u32_mod

pub wrap-IsWord : (n : ℕ) (z : Wrap32) → IsWord (wrap n z)
unfolding wrap
wrap-IsWord n z = omega arith

-- `|a - b|`.
abbrev pub gap : ℕ → ℕ → ℕ
gap a b = (a - b) + (b - a)

pub unwrap-lt :
    (w z : Wrap32) (checkpoint : ℕ) → checkpoint < u64_mod → unwrap w z checkpoint < u64_mod
unfolding unwrap
unwrap-lt w z checkpoint h = ground arith

-- With a 64-bit checkpoint and 32-bit raw values, what `unwrap` returns wraps to the number that
-- was unwrapped.
pub wrap-unwrap :
    (w z : Wrap32) (checkpoint : ℕ)
    → IsWord w
    → IsWord z
    → checkpoint < u64_mod
    → wrap (unwrap w z checkpoint) z ≡ w
unfolding wrap unwrap
wrap-unwrap w z checkpoint hw hz h = ground arith

unwrap-gap :
    (n : ℕ) (z : Wrap32) (checkpoint : ℕ)
    → IsWord z
    → n < u64_mod
    → checkpoint < u64_mod
    → gap (unwrap (wrap n z) z checkpoint) checkpoint ≤ gap n checkpoint
unfolding wrap unwrap
unwrap-gap n z checkpoint hz hn h = ground arith

-- For a 64-bit checkpoint and a 64-bit number, what `unwrap` returns for the wrapped number has 64
-- bits and wraps to the same value, and the number is not nearer to the checkpoint.
pub unwrap_nearest :
    (n : ℕ) (z : Wrap32) (checkpoint : ℕ)
    → IsWord z
    → n < u64_mod
    → checkpoint < u64_mod
    → let n' = unwrap (wrap n z) z checkpoint in
      (n' < u64_mod) × (wrap n' z ≡ wrap n z) × (gap n' checkpoint ≤ gap n checkpoint)
unwrap_nearest n z checkpoint hz hn h = (
  unwrap-lt (wrap n z) z checkpoint h,
  wrap-unwrap (wrap n z) z checkpoint (wrap-IsWord n z) hz h,
  unwrap-gap n z checkpoint hz hn h,
)

-- A 64-bit number that is less than 2^31 away from the 64-bit checkpoint is recovered from its
-- wrapped value.
pub unwrap-wrap :
    (n : ℕ) (z : Wrap32) (checkpoint : ℕ)
    → IsWord z
    → n < u64_mod
    → checkpoint < u64_mod
    → gap n checkpoint < 2 ^ 31
    → unwrap (wrap n z) z checkpoint ≡ n
unfolding wrap unwrap
unwrap-wrap n z checkpoint hz hn h near = ground arith
