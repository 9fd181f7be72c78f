-- ===== src/Text/Decimal.antt =====
-- `%d` of package fmt.
use csi_driver_bs.Base.{ℕ, zero, suc, ◌+◌, ◌/◌, ◌%◌, List, [], true, false, ◌∷◌, ltb, ◌≡◌, refl}
use csi_driver_bs.Text.{str}
use csi_driver_bs.Base.Int.{ℤ, pos, negsuc}

-- The digits of `n` in front of `out`; the fuel is the number of digits at most.
digits_onto : ℕ → ℕ → List ℕ → List ℕ
digits_onto zero n out = out
digits_onto (suc fuel) n out = elim (ltb n 10) [
  | true ↦ (b'0' + n) ∷ out
  | false ↦ digits_onto fuel (n / 10) ((b'0' + n % 10) ∷ out)
]

unfoldable pub decimal : ℕ → List ℕ
unfolding digits_onto
decimal n = digits_onto (suc n) n []

unfoldable pub decimal_ℤ : ℤ → List ℕ
unfolding decimal
decimal_ℤ (pos n) = decimal n
decimal_ℤ (negsuc n) = b'-' ∷ decimal (suc n)

decimal_test : decimal 1503 ≡ str "1503"
unfolding decimal str
decimal_test = refl
