-- ===== src/Prelude/Modular.antt =====
-- Indices that go round a ring.
use native.Mathlib.Nat.{mod-eq_of_lt, mod-eq-sub-mod}
use Prim.Native.Nat.{ℕ, ◌+◌, ◌-◌, ◌%◌, ◌≤◌, ◌<◌}
use mathlib.Core.Path.{◌≡◌}
use mathlib.Core.Logic.{◌⊎◌, inl, inr}
use native.Mathlib.Omega.{arith}
use native.Mathlib.Decide.{dec_lt}

-- A step of less than a round either stays in range or goes round once.
pub wrap :
    (a i n : ℕ)
    → i < n
    → a ≤ n
    → (((a + i) % n ≡ a + i) × (a + i < n)) ⊎ (((a + i) % n + n ≡ a + i) × (n ≤ a + i))
wrap a i n h k = elim (dec_lt (a + i) n) [
  | yes w ↦ inl (mod-eq_of_lt w, w)
  | no w ↦
      let e = mod-eq-sub-mod {n = a + i} {m = n} (omega arith) in
      let f = mod-eq_of_lt {n = a + i - n} {m = n} (omega arith) in
      inr (omega (arith, e, f), omega arith)
]
