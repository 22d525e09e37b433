-- ===== src/Randx.antt =====
-- internal/infra/randx/rand.go. rand.Int on crypto/rand's reader is a parameter. The alphabets are
-- ASCII, so that a character is one byte.
pub mod Bounds
use Prim.Native.Char.{Char}
use Prim.Native.String.{[], ◌∷◌}
use go_clean_arch_template.Prelude.{ℕ, zero, suc, String, Option, none, some}
use go_clean_arch_template.Prelude.Int.{ℤ, pos, negsuc}
use go_clean_arch_template.Prelude.Text.{byte_len}
use go_clean_arch_template.Effect.{Result, ok, err, M}

abbrev pub alphanumeric : String
alphanumeric = "ABCDEFGHIJKLMNOPQRSTUVWXYZabcdefghijklmnopqrstuvwxyz0123456789"

abbrev pub digits : String
digits = "0123456789"

-- s[k] of an ASCII text; nothing past its end, where Go panics
abbrev pub char_at : String → ℕ → Option Char
char_at [] k = none
char_at (c ∷ s) zero = some c
char_at (c ∷ s) (suc k) = char_at s k

abbrev pub put_first : Option Char → Option String → Option String
put_first none o = none
put_first (some c) none = none
put_first (some c) (some s) = some (c ∷ s)

-- the index for what rand.Int returned; an error falls back to the first character
abbrev pub index_of : Result ℕ → ℕ
index_of (ok k) = k
index_of (err e) = 0

module _ {S : Type 0} (int : (max : ℕ) → M S ℕ) where
  -- the loop over `out`; nothing if an index is out of range
  unfoldable pub fill : (alphabet : String) (n : ℕ) → S → Option String × S
  fill alphabet zero s = (some [], s)
  fill alphabet (suc n) s =
      let (r, s') = int (byte_len alphabet) s in
      let (rest, s'') = fill alphabet n s' in (put_first (char_at alphabet (index_of r)) rest, s'')

  -- fromAlphabet
  unfoldable pub from_alphabet : ℤ → String → S → Option String × S
  unfolding fill
  from_alphabet (pos n) alphabet s = fill alphabet n s
  from_alphabet (negsuc n) alphabet s = (some [], s)

  -- String
  unfoldable pub string : ℤ → S → Option String × S
  unfolding from_alphabet
  string n = from_alphabet n alphanumeric

  -- Digits
  unfoldable pub digits_text : ℤ → S → Option String × S
  unfolding from_alphabet
  digits_text n = from_alphabet n digits
