-- ===== src/Prelude/Decimal.antt =====
-- Decimal numerals, and the text of a time.Duration.
use Prim.Native.Nat.{ℕ, zero, suc, ◌/◌, ◌%◌, ◌^◌}
use Prim.Native.String.{String}
use mathlib.Core.Path.{◌≡◌, refl}
use mathlib.Core.Bool.{◌&&◌}
use text.Mathlib.Text.{◌==◌}
use go_clean_arch_template.Prelude.Tests.{ltb, nat_eq, if◌then◌else◌}
use go_clean_arch_template.Prelude.Text.{◌^^◌}
use go_clean_arch_template.Prelude.Int.{ℤ, pos, negsuc}

unfoldable pub digit_text : ℕ → String
digit_text n =
    if nat_eq n 0
    then "0"
    else if nat_eq n 1
    then "1"
    else if nat_eq n 2
    then "2"
    else if nat_eq n 3
    then "3"
    else if nat_eq n 4
    then "4"
    else if nat_eq n 5
    then "5"
    else if nat_eq n 6
    then "6"
    else if nat_eq n 7
    then "7"
    else if nat_eq n 8
    then "8"
    else "9"

-- the digits of `n` before `acc`; a number has at most as many digits as its value and one
digits_from : ℕ → ℕ → String → String
digits_from zero n acc = acc
digits_from (suc fuel) n acc =
    let longer = digits_from fuel (n / 10) (digit_text (n % 10) ^^ acc) in
    if ltb n 10 then digit_text n ^^ acc else longer

unfoldable pub decimal : ℕ → String
unfolding digits_from digit_text
decimal n = digits_from (suc n) n ""

-- fmtFrac: the last `prec` digits of `n` behind a point, without trailing zeros
fraction : ℕ → ℕ → String → String
fraction zero n acc = if acc == "" then "" else "." ^^ acc
fraction (suc prec) n acc =
    fraction prec (n / 10)
      (if nat_eq (n % 10) 0 && (acc == "") then "" else digit_text (n % 10) ^^ acc)

-- `n` over `10 ^ prec`
ratio_text : ℕ → ℕ → String
unfolding decimal fraction
ratio_text prec n = decimal (n / 10 ^ prec) ^^ fraction prec n ""

minutes_text : ℕ → String
unfolding decimal
minutes_text m =
    if ltb 59 m then decimal (m / 60) ^^ "h" ^^ decimal (m % 60) ^^ "m" else decimal m ^^ "m"

seconds_text : ℕ → String
unfolding ratio_text minutes_text
seconds_text n =
    let m = n / 60000000000 in
    (if ltb 0 m then minutes_text m else "") ^^ ratio_text 9 (n % 60000000000) ^^ "s"

magnitude_text : ℕ → String
unfolding ratio_text seconds_text
magnitude_text n =
    if nat_eq n 0
    then "0s"
    else if ltb n 1000
    then decimal n ^^ "ns"
    else if ltb n 1000000
    then ratio_text 3 n ^^ "µs"
    else if ltb n 1000000000
    then ratio_text 6 n ^^ "ms"
    else seconds_text n

-- time.Duration.String
unfoldable pub duration_text : ℤ → String
unfolding magnitude_text
duration_text (pos n) = magnitude_text n
duration_text (negsuc n) = "-" ^^ magnitude_text (suc n)

duration_text_test : duration_text (pos 5523500000000) ≡ "1h32m3.5s"
unfolding duration_text
duration_text_test = refl

duration_text_small_test : duration_text (negsuc 1499) ≡ "-1.5µs"
unfolding duration_text
duration_text_small_test = refl
