-- ===== src/Prelude/Text.antt =====
-- What the program does with texts: equality, and the decimal notation that an f-string writes.
use Prim.Native.Nat.{ℕ, zero, suc, ◌/◌, ◌%◌}
use Prim.Native.String.{String, ◌++◌ as ◌<>◌}
use mathlib.Core.Path.{◌≡◌, refl}
use promptql.Prelude.Tests.{ltb, if◌then◌else◌}
pub use text.Mathlib.Text.{◌==◌}
pub use text.Mathlib.TextEquality.{eq_iff}

digit : ℕ → String
digit zero = "0"
digit (suc zero) = "1"
digit (suc (suc zero)) = "2"
digit (suc (suc (suc zero))) = "3"
digit (suc (suc (suc (suc zero)))) = "4"
digit (suc (suc (suc (suc (suc zero))))) = "5"
digit (suc (suc (suc (suc (suc (suc zero)))))) = "6"
digit (suc (suc (suc (suc (suc (suc (suc zero))))))) = "7"
digit (suc (suc (suc (suc (suc (suc (suc (suc zero)))))))) = "8"
digit n = "9"

-- one round for each digit, so `suc n` rounds are enough for `n`
decimal : ℕ → ℕ → String → String
decimal zero n rest = rest
decimal (suc fuel) n rest =
    let more = decimal fuel (n / 10) (digit (n % 10) <> rest) in
    if ltb n 10 then digit n <> rest else more

-- `str(n)`
unfoldable pub show_nat : ℕ → String
unfolding decimal digit
show_nat n = decimal (suc n) n ""

show_nat_test : show_nat 1907 ≡ "1907"
unfolding show_nat
show_nat_test = refl
