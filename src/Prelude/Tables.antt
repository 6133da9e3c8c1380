-- ===== src/Prelude/Tables.antt =====
-- Facts about small numbers that are checked value by value.
use Prim.Native.Nat.{ℕ, zero, suc, ◌<◌, bit_xor}
use mathlib.Core.Path.{◌≡◌, refl}
use mathlib.Core.Bool.{Bool, true, ◌&&◌}
use native.Mathlib.Omega.{arith}
use echo_server_cpp.Prelude.Tests.{◌==◌, ==_iff}

unfoldable pub holds_below : (ℕ → Bool) → ℕ → Bool
holds_below test zero = true
holds_below test (suc n) = holds_below test n && test n

pub holds_below_lem :
    (test : ℕ → Bool) (n k : ℕ) → holds_below test n ≡ true → k < n → test k ≡ true
unfolding holds_below
holds_below_lem test zero k table less = absurd (omega arith)
holds_below_lem test (suc n) k table less = ground (arith, holds_below_lem test n k)

-- Masking with a key byte twice.
mask_test : ℕ → ℕ → Bool
mask_test key b = bit_xor (bit_xor b key) key == b

key_test : ℕ → Bool
unfolding mask_test
key_test key = holds_below (mask_test key) 256

key_table : holds_below key_test 256 ≡ true
unfolding holds_below key_test
key_table = refl

-- A byte that is masked twice by one key byte is as it was.
pub xor-xor : (b key : ℕ) → b < 256 → key < 256 → bit_xor (bit_xor b key) key ≡ b
unfolding key_test
xor-xor b key u v =
    (==_iff _ b).0
      (holds_below_lem (mask_test key) 256 b (holds_below_lem key_test 256 key key_table v) u)
