-- ===== src/Prelude/Counts.antt =====
-- How many elements of a list pass a test; two lists with equal counts for every test hold the same
-- elements, in any order.
use hyperbot.Prelude.{ℕ, ◌+◌, ◌≡◌, refl, Bool, true, List, [], ◌∷◌, ◌++◌, if◌then◌else◌, arith}

module _ {ℓ} {A : Type ℓ} where
  abbrev pub count : (A → Bool) → List A → ℕ
  count p [] = 0
  count p (x ∷ xs) = (if p x then 1 else 0) + count p xs

  abbrev pub SameElements : List A → List A → Type ℓ
  SameElements xs ys = (p : A → Bool) → count p xs ≡ count p ys

  pub count-append : (p : A → Bool) (xs ys : List A) → count p (xs ++ ys) ≡ count p xs + count p ys
  count-append p [] ys = omega arith
  count-append p (x ∷ xs) ys = omega (arith, count-append p xs ys)

  -- A test that implies another that nothing passes.
  pub count_none :
      (p q : A → Bool)
      → ((x : A) → q x ≡ true → p x ≡ true)
      → (xs : List A) → count p xs ≡ 0
      → count q xs ≡ 0
  count_none p q h [] e = refl
  count_none p q h (x ∷ xs) e = ground (arith, h x, count_none p q h xs)
