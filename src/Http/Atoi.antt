-- ===== src/Http/Atoi.antt =====
-- strconv.Atoi and atoiDefault of internal/adapter/http/account.go.
use Prim.Native.Char.{code}
use Prim.Native.String.{[], ◌∷◌}
use go_clean_arch_template.Prelude.{
  ℕ, zero, suc, String, Option, none, some, ◌==◌, if◌then◌else◌, nat_eq, leb, ltb, ◌&&◌, ◌≡◌, refl,
  ◌-◌, ◌+◌, ◌*◌, ◌^◌,
}
use go_clean_arch_template.Prelude.Int.{ℤ, pos, negsuc}

-- the value of decimal digits after `acc`; nothing if another character stands among them
unfoldable pub digits : ℕ → String → Option ℕ
digits acc [] = some acc
digits acc (c ∷ s) =
    let rest = digits (acc * 10 + (code c - 48)) s in
    if leb 48 (code c) && leb (code c) 57 then rest else none

pub data Sign : Type 0 where
  plus : Sign
  minus : Sign

-- -n
negate : ℕ → ℤ
negate zero = pos zero
negate (suc n) = negsuc n

-- a number of 64 bits
signed : Sign → ℕ → Option ℤ
unfolding negate
signed plus n = if ltb n (2 ^ 63) then some (pos n) else none
signed minus n = if leb n (2 ^ 63) then some (negate n) else none

read_digits : Sign → String → Option ℤ
unfolding digits signed
read_digits sign s =
    if s == "" then none else elim (digits 0 s) [ none ↦ none | some n ↦ signed sign n ]

-- the number that strconv.Atoi returns, nothing if it returns an error
unfoldable pub atoi : String → Option ℤ
unfolding read_digits
atoi [] = none
atoi (c ∷ s) =
    if nat_eq (code c) 45
    then read_digits minus s
    else if nat_eq (code c) 43
    then read_digits plus s
    else read_digits plus (c ∷ s)

-- atoiDefault
unfoldable pub atoi_default : String → ℤ → ℤ
unfolding atoi
atoi_default s def = if s == "" then def else elim (atoi s) [ none ↦ def | some v ↦ v ]

atoi_test : atoi "-120" ≡ some (negsuc 119)
unfolding atoi
atoi_test = refl

atoi_range_test : atoi "9223372036854775808" ≡ none
unfolding atoi
atoi_range_test = refl

atoi_default_test : atoi_default "1_000" (pos 0) ≡ pos 0
unfolding atoi_default
atoi_default_test = refl
