-- ===== src/Prelude/Store.antt =====
-- A memory of cells, one number at each address, and a write to it.
use Prim.Native.Nat.{ℕ}
use mathlib.Core.Path.{◌≡◌, fun_ext}
use native.Mathlib.Omega.{arith}
use finux.Prelude.Tests.{◌==◌, if◌then◌else◌}

abbrev pub update {ℓ} : {A : Type ℓ} → (ℕ → A) → ℕ → A → ℕ → A
update f p v q = if q == p then v else f q

pub update-update {ℓ} :
    {A : Type ℓ} (f : ℕ → A) (p : ℕ) (v w : A) → update (update f p v) p w ≡ update f p w
update-update f p v w = fun_ext λ q. ground arith
