-- ===== src/Prelude/Text.antt =====
-- Go's `strings` functions that the program calls, over native texts. `len` counts bytes, as Go's
-- does.
use Prim.Native.Nat.{ℕ}
use Prim.Native.Char.{Char, code}
use Prim.Native.String
use Prim.Native.String.{String, [], ◌∷◌}
use mathlib.Core.Path.{◌≡◌, refl, ◌∙◌, sym, ap}
use mathlib.Core.Logic.{◌≢◌}
use mathlib.Core.Bool.{Bool, true, false, ◌&&◌, ◌||◌}
use text.Mathlib.Text.{◌==◌}
use text.Mathlib.TextLemmas.{append_cancel_left, append_assoc, cons-append, cons-eq-cons}
use native.Mathlib.Omega.{arith}
use go_clean_arch_template.Prelude.Letters.{upper_letters, lower_letters}
use go_clean_arch_template.Prelude.Tests.{nat_eq, leb, if◌then◌else◌}

infixl 65 ◌^^◌
-- s + t
abbrev pub ◌^^◌ : String → String → String
s ^^ t = String.◌++◌ s t

-- len(s)
abbrev pub byte_len : String → ℕ
byte_len = String.len

-- the character that stands in `to` where `c` stands in `from`
unfoldable pub translate : String → String → Char → Char
translate [] to c = c
translate (a ∷ from) [] c = c
translate (a ∷ from) (b ∷ to) c = if nat_eq (code a) (code c) then b else translate from to c

unfoldable pub map_text : (Char → Char) → String → String
map_text f [] = []
map_text f (c ∷ s) = f c ∷ map_text f s

-- unicode.ToLower
unfoldable pub to_lower_letter : Char → Char
unfolding translate
to_lower_letter c = elim (leb (code c) 0x7f) [
  | true ↦ translate "ABCDEFGHIJKLMNOPQRSTUVWXYZ" "abcdefghijklmnopqrstuvwxyz" c
  | false ↦ translate upper_letters lower_letters c
]

-- strings.ToLower
unfoldable pub to_lower : String → String
unfolding to_lower_letter map_text
to_lower = map_text to_lower_letter

-- strings.Contains(s, t) for a text t of the one character c
unfoldable pub contains_code : ℕ → String → Bool
contains_code c [] = false
contains_code c (d ∷ s) = nat_eq (code d) c || contains_code c s

-- s[a:b], by bytes
abbrev pub slice : String → ℕ → ℕ → String
slice = String.slice

-- unicode.IsSpace
unfoldable pub is_space : Char → Bool
is_space ch =
    let c = code ch in
    (leb 9 c && leb c 13)
    || nat_eq c 32
    || nat_eq c 0x85
    || nat_eq c 0xa0
    || nat_eq c 0x1680
    || (leb 0x2000 c && leb c 0x200a)
    || nat_eq c 0x2028
    || nat_eq c 0x2029
    || nat_eq c 0x202f
    || nat_eq c 0x205f
    || nat_eq c 0x3000

unfoldable pub trim_left : String → String
trim_left [] = []
trim_left (c ∷ s) = if is_space c then trim_left s else c ∷ s

unfoldable pub trim_right : String → String
trim_right [] = []
trim_right (c ∷ s) = let rest = trim_right s in if is_space c && (rest == "") then [] else c ∷ rest

-- strings.TrimSpace
unfoldable pub trim_space : String → String
unfolding trim_left trim_right is_space
trim_space s = trim_right (trim_left s)

to_lower_test : to_lower "Jane@Example.com" ≡ "jane@example.com"
unfolding to_lower
to_lower_test = refl

to_lower_letters : to_lower "ÉmileΩ@Ж.Dž" ≡ "émileω@ж.dž"
unfolding to_lower
to_lower_letters = refl

trim_space_test : trim_space "  Jane Doe " ≡ "Jane Doe"
unfolding trim_space
trim_space_test = refl

-- Texts that begin with distinct characters are distinct.
pub append-ne_of_heads :
    (c d : Char) (s t u v : String) → code c ≢ code d → (c ∷ s) ^^ u ≢ (d ∷ t) ^^ v
append-ne_of_heads c d s t u v h e =
    h (ap code (cons-eq-cons.0 (sym (cons-append c s u) ∙ e ∙ cons-append d t v)).0)

-- Texts that go on differently after a common beginning are distinct.
pub append-ne_of_prefix : (p s t u v : String) → s ^^ u ≢ t ^^ v → (p ^^ s) ^^ u ≢ (p ^^ t) ^^ v
append-ne_of_prefix p s t u v h e =
    h (append_cancel_left p (s ^^ u) (t ^^ v) (sym (append_assoc p s u) ∙ e ∙ append_assoc p t v))

test : (a b : String) → "account:id:" ^^ a ≢ "account:email:" ^^ b
test a b =
    append-ne_of_prefix "account:" "id:" "email:" a b
      (append-ne_of_heads _ _ "d:" "mail:" a b (omega arith))
