-- ===== src/Prelude/Lists.antt =====
-- Cutting lists at native numbers.
use Prim.Native.Nat.{ℕ, zero, suc}
use mathlib.Core.Path.{◌≡◌, refl, sym, ◌∙◌, ap}
use mathlib.Core.Logic.{◌≢◌}
use mathlib.Core.List.{List, [], ◌∷◌, map}
use go_clean_arch_template.Prelude.Tests.{length}

module _ {ℓ} {A : Type ℓ} where
  abbrev pub take : ℕ → List A → List A
  take zero xs = []
  take (suc n) [] = []
  take (suc n) (x ∷ xs) = x ∷ take n xs

  abbrev pub drop : ℕ → List A → List A
  drop zero xs = xs
  drop (suc n) [] = []
  drop (suc n) (x ∷ xs) = drop n xs

  -- every element has the property
  pub data All {ℓ'} (P : A → Type ℓ') : List A → Type (ℓ ⊔ ℓ') where
    nil : All P []
    cons : (x : A) (xs : List A) → P x → All P xs → All P (x ∷ xs)

pub map-All :
    {A B : Type 0} {P : A → Type 0} (Q : B → Type 0) (g : A → B) (xs : List A)
    → ((x : A) → P x → Q (g x))
    → All P xs
    → All Q (map g xs)
map-All Q g _ each nil = nil
map-All Q g _ each (cons x xs p h) = cons (g x) _ (each x p) (map-All Q g xs each h)

pub length-map {ℓ} : {A B : Type ℓ} (f : A → B) (xs : List A) → length (map f xs) ≡ length xs
length-map f [] = refl
length-map f (x ∷ xs) = ap suc (length-map f xs)

-- `x` is one of the elements.
pub data In {ℓ} {A : Type ℓ} (x : A) : List A → Type ℓ where
  in_head : (xs : List A) → In x (x ∷ xs)
  in_tail : (y : A) (xs : List A) → In x xs → In x (y ∷ xs)

-- No two elements have the same key.
pub data Once {ℓ ℓ'} {A : Type ℓ} {K : Type ℓ'} (key : A → K) : List A → Type (ℓ ⊔ ℓ') where
  once_nil : Once key []
  once_cons : (x : A) (xs : List A) → All (λ y. key y ≢ key x) xs → Once key xs → Once key (x ∷ xs)

pub map-In {ℓ} : {A B : Type ℓ} (f : A → B) {x : A} {xs : List A} → In x xs → In (f x) (map f xs)
map-In f (in_head xs) = in_head (map f xs)
map-In f (in_tail y xs h) = in_tail (f y) (map f xs) (map-In f h)

pub map-Once :
    {A B K : Type 0} (f : A → B) (key : A → K) (key' : B → K)
    → ((x : A) → key' (f x) ≡ key x)
    → {xs : List A} → Once key xs
    → Once key' (map f xs)
map-Once f key key' same once_nil = once_nil
map-Once f key key' same (once_cons x xs others rest) =
    once_cons (f x) (map f xs)
      (map-All _ f xs (λ y differ e. differ (sym (same y) ∙ e ∙ same x)) others)
      (map-Once f key key' same rest)

pub map-take {ℓ} :
    {A B : Type ℓ} (f : A → B) (n : ℕ) (xs : List A) → map f (take n xs) ≡ take n (map f xs)
map-take f zero xs = refl
map-take f (suc n) [] = refl
map-take f (suc n) (x ∷ xs) = ap (λ ys. f x ∷ ys) (map-take f n xs)

pub map-drop {ℓ} :
    {A B : Type ℓ} (f : A → B) (n : ℕ) (xs : List A) → map f (drop n xs) ≡ drop n (map f xs)
map-drop f zero xs = refl
map-drop f (suc n) [] = refl
map-drop f (suc n) (x ∷ xs) = map-drop f n xs
