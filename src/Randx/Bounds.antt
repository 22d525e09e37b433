-- ===== src/Randx/Bounds.antt =====
-- How long the random texts are, and what they consist of.
use Prim.Native.Char.{Char}
use Prim.Native.String.{[], ◌∷◌, count}
use text.Mathlib.TextLemmas.{length-nil, length-cons}
use go_clean_arch_template.Prelude.{
  ℕ, zero, suc, ◌<◌, String, ◌≡◌, refl, ap, ◌∙◌, subst, arith, Option, some,
}
use go_clean_arch_template.Prelude.Int.{ℤ, pos, negsuc}
use go_clean_arch_template.Prelude.Text.{byte_len}
use go_clean_arch_template.Effect.{Result, ok, err, M}
use go_clean_arch_template.Randx.{
  index_of, put_first, char_at, fill, from_alphabet, string, digits_text, alphanumeric, digits,
}

-- A character of a text.
pub data Occurs (c : Char) : String → Type 0 where
  here : (s : String) → Occurs c (c ∷ s)
  there : (d : Char) (s : String) → Occurs c s → Occurs c (d ∷ s)

-- A text of characters of an alphabet.
pub data IsOver (alphabet : String) : String → Type 0 where
  empty : IsOver alphabet []
  next : (c : Char) (s : String) → Occurs c alphabet → IsOver alphabet s → IsOver alphabet (c ∷ s)

-- how many characters are asked for
abbrev pub size : ℤ → ℕ
size (pos n) = n
size (negsuc n) = 0

-- A random text of a length: there is one, so no index was out of range.
pub data IsRandom (alphabet : String) (n : ℤ) : Option String → Type 0 where
  random :
      (text : String) → count text ≡ size n → IsOver alphabet text → IsRandom alphabet n (some text)

-- within the text there is a character
char_at-Occurs :
    (s : String) (k : ℕ) → k < count s → (c : Char) × (char_at s k ≡ some c) × Occurs c s
char_at-Occurs [] k h = absurd (none_below (subst (λ x. k < x) length-nil h))
  where
    none_below : k < 0 → ⊥
    none_below h = omega arith
char_at-Occurs (c ∷ s) zero h = (c, refl, here s)
char_at-Occurs (c ∷ s) (suc k) h =
    let (d, at, occurs) = char_at-Occurs s k (below (subst (λ x. suc k < x) (length-cons c s) h)) in
    (d, at, there c s occurs)
  where
    below : {a b : ℕ} → suc a < suc b → a < b
    below h = omega arith

module _ {S : Type 0} (int : (max : ℕ) → M S ℕ)
    (bounded : (max k : ℕ) (s : S) → (int max s).0 ≡ ok k → k < max) (alphabet : String)
    (ascii : byte_len alphabet ≡ count alphabet) (filled : 0 < count alphabet) where
  index-below :
      (r : Result ℕ) (s : S) → (int (byte_len alphabet) s).0 ≡ r → index_of r < count alphabet
  index-below (ok k) s h = subst (λ x. k < x) ascii (bounded _ k s h)
  index-below (err e) s h = filled

  extended :
      (n : ℕ) (o : Option Char) (rest : Option String)
      → ((c : Char) × (o ≡ some c) × Occurs c alphabet)
      → IsRandom alphabet (pos n) rest
      → IsRandom alphabet (pos (suc n)) (put_first o rest)
  extended n o _ (c, at, occurs) (random text long over) =
      rw at (random (c ∷ text) (length-cons c text ∙ ap suc long) (next c text occurs over))

  fill-IsRandom : (n : ℕ) (s : S) → IsRandom alphabet (pos n) (fill int alphabet n s).0
  unfolding fill
  fill-IsRandom zero s = random [] length-nil empty
  fill-IsRandom (suc n) s =
      let p = int (byte_len alphabet) s in
      extended n _ _ (char_at-Occurs alphabet (index_of p.0) (index-below p.0 s refl))
        (fill-IsRandom n p.1)

  from_alphabet-IsRandom : (n : ℤ) (s : S) → IsRandom alphabet n (from_alphabet int n alphabet s).0
  unfolding from_alphabet
  from_alphabet-IsRandom (pos n) s = fill-IsRandom n s
  from_alphabet-IsRandom (negsuc n) s = random [] length-nil empty

module _ {S : Type 0} (int : (max : ℕ) → M S ℕ)
    (bounded : (max k : ℕ) (s : S) → (int max s).0 ≡ ok k → k < max) where
  -- While rand.Int returns numbers below its bound or fails: String and Digits return exactly as many
  -- characters as are asked for, none if that is not positive, all of them of their alphabet,
  -- and no index is out of range, also when the source of randomness fails.
  pub string-IsRandom :
      (n : ℤ) (s : S)
      → IsRandom alphanumeric n (string int n s).0 × IsRandom digits n (digits_text int n s).0
  unfolding string digits_text
  string-IsRandom n s = (
    from_alphabet-IsRandom int bounded alphanumeric refl (omega arith) n s,
    from_alphabet-IsRandom int bounded digits refl (omega arith) n s,
  )
