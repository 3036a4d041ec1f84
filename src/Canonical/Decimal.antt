-- ===== src/Canonical/Decimal.antt =====
-- Decimal texts, as `BigInt.prototype.toString` and `String` write them.
use Prim.Native.Nat.{◌/◌, ◌%◌}
use coreguard.Prelude.{ℕ, zero, suc, ◌+◌, List, [], ◌∷◌, ◌++◌, ltb, if◌then◌else◌}

-- The digits of `n`, on fuel.
unfoldable pub decimal_on : ℕ → ℕ → List ℕ
decimal_on zero n = []
decimal_on (suc fuel) n =
    let more = decimal_on fuel (n / 10) ++ (b'0' + n % 10) ∷ [] in
    if ltb n 10 then (b'0' + n) ∷ [] else more

-- `n.toString()`: a number has at most as many digits as it counts, and one.
unfoldable pub to_decimal : ℕ → List ℕ
to_decimal n = decimal_on (suc n) n
