-- ===== src/Base/Decimal.antt =====
-- Decimal and hexadecimal print, as strconv.Itoa and the `%04x` verb of package fmt write it.
use Prim.Native.Nat.{ℕ, zero, suc, ◌+◌, ◌-◌, ◌/◌, ◌%◌}
use mathlib.Core.List.{[], ◌∷◌}
use aquila.Base.Tests.{ltb, if◌then◌else◌}
use aquila.Base.Lists.{length}
use aquila.Base.Text.{Str}
use aquila.Base.Int.{ℤ, pos, negsuc}

abbrev digit : ℕ → ℕ
digit d = if ltb d 10 then b'0' + d else b'a' + (d - 10)

-- The digits of `n` in a base, before those in `acc`; a number has fewer digits than `n + 1`.
digits_from : ℕ → ℕ → ℕ → Str → Str
digits_from base zero n acc = acc
digits_from base (suc fuel) n acc =
    let more = digits_from base fuel (n / base) (digit (n % base) ∷ acc) in
    if ltb n base then digit n ∷ acc else more

unfoldable pub decimal : ℕ → Str
unfolding digits_from
decimal n = digits_from 10 (suc n) n []

unfoldable pub itoa : ℤ → Str
unfolding decimal
itoa (pos n) = decimal n
itoa (negsuc n) = b'-' ∷ decimal (suc n)

pad_zeros : ℕ → Str → Str
pad_zeros zero s = s
pad_zeros (suc k) s = b'0' ∷ pad_zeros k s

-- `fmt.Sprintf("%04x", n)`.
unfoldable pub hex4 : ℕ → Str
unfolding digits_from pad_zeros
hex4 n = let s = digits_from 16 (suc n) n [] in pad_zeros (4 - length s) s
