-- ===== src/Tests/Random.antt =====
-- Random texts from a source that counts up and fails where it has no number in range.
use go_clean_arch_template.Prelude.{
  ℕ, ◌+◌, ◌≡◌, refl, subst, some, ltb, if◌then◌else◌, ◌<◌, arith, Bool-cases, inl, inr,
}
use go_clean_arch_template.Prelude.Int.{pos}
use go_clean_arch_template.Apperr.{Error, other}
use go_clean_arch_template.Effect.{Result, ok, err, M, ok_inj}
use go_clean_arch_template.Randx.{digits_text, string, alphanumeric, digits}
use go_clean_arch_template.Randx.Bounds.{IsRandom, string-IsRandom}

abbrev counting : (max : ℕ) → M ℕ ℕ
counting max s = if ltb s max then (ok s, s + 1) else (err (other "rand" "closed"), s + 1)

digits_test : (digits_text counting (pos 4) 7).0 ≡ some "7890"
unfolding digits_text
digits_test = refl

counting-below : (max k : ℕ) (s : ℕ) → (counting max s).0 ≡ ok k → k < max
counting-below max k s h = elim (Bool-cases (ltb s max)) [
  | inl below ↦ subst (λ x. x < max) (ok_inj (rw below at h)) (ground arith)
  | inr past ↦ absurd (failed (rw past at h))
]
  where
    failed : {e : Error} → ◌≡◌ {A = Result ℕ} (err e) (ok k) → ⊥
    failed h = cc

string-IsRandom_example :
    IsRandom alphanumeric (pos 4) (string counting (pos 4) 60).0
    × IsRandom digits (pos 4) (digits_text counting (pos 4) 60).0
string-IsRandom_example = string-IsRandom counting counting-below (pos 4) 60
