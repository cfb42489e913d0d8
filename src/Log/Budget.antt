-- ===== src/Log/Budget.antt =====
-- log.c: how many blocks the operations in progress may still write, as a list of numbers.
use test_ascii.Common.{
  ℕ, zero, suc, ◌+◌, ◌*◌, ◌≡◌, refl, ap, ◌≤◌, arith, some, List, [], ◌∷◌, length, get_elem?, set,
}
use test_ascii.Log.{max_op_blocks}

abbrev pub sum : List ℕ → ℕ
sum [] = 0
sum (x ∷ xs) = x + sum xs

abbrev pub remove : List ℕ → ℕ → List ℕ
remove [] i = []
remove (x ∷ xs) zero = xs
remove (x ∷ xs) (suc i) = x ∷ remove xs i

pub sum-set :
    (xs : List ℕ) (i k : ℕ) → get_elem? xs i ≡ some (suc k) → sum (set xs i k) + 1 ≡ sum xs
sum-set [] i k e = absurd (cc)
sum-set (x ∷ xs) zero k e = ground arith
sum-set (x ∷ xs) (suc i) k e = omega (arith, sum-set xs i k e)

pub sum-remove : (xs : List ℕ) (i : ℕ) → sum (remove xs i) ≤ sum xs
sum-remove [] i = omega arith
sum-remove (x ∷ xs) zero = omega arith
sum-remove (x ∷ xs) (suc i) = omega (arith, sum-remove xs i)

pub length-remove :
    (xs : List ℕ) (i k : ℕ) → get_elem? xs i ≡ some k → length (remove xs i) + 1 ≡ length xs
length-remove [] i k e = absurd (cc)
length-remove (x ∷ xs) zero k e = omega arith
length-remove (x ∷ xs) (suc i) k e = omega (arith, length-remove xs i k e)

pub get_elem?-le-sum : (xs : List ℕ) (i k : ℕ) → get_elem? xs i ≡ some k → k ≤ sum xs
get_elem?-le-sum [] i k e = absurd (cc)
get_elem?-le-sum (x ∷ xs) zero k e = ground arith
get_elem?-le-sum (x ∷ xs) (suc i) k e = omega (arith, get_elem?-le-sum xs i k e)

abbrev pub Capped : List ℕ → Type 0
Capped [] = Unit
Capped (x ∷ xs) = (x ≤ max_op_blocks) × Capped xs

pub Capped-set :
    (xs : List ℕ) (i k : ℕ) → Capped xs → get_elem? xs i ≡ some (suc k) → Capped (set xs i k)
Capped-set [] i k c e = tt
Capped-set (x ∷ xs) zero k c e = (ground arith, c.1)
Capped-set (x ∷ xs) (suc i) k c e = (c.0, Capped-set xs i k c.1 e)

pub Capped-remove : (xs : List ℕ) (i : ℕ) → Capped xs → Capped (remove xs i)
Capped-remove [] i c = tt
Capped-remove (x ∷ xs) zero c = c.1
Capped-remove (x ∷ xs) (suc i) c = (c.0, Capped-remove xs i c.1)

pub sum-le_of_Capped : (xs : List ℕ) → Capped xs → sum xs ≤ length xs * max_op_blocks
sum-le_of_Capped [] c = omega arith
sum-le_of_Capped (x ∷ xs) c = omega (arith, sum-le_of_Capped xs c.1, c.0)

pub length-set_ : (xs : List ℕ) (i k : ℕ) → length (set xs i k) ≡ length xs
length-set_ [] i k = refl
length-set_ (x ∷ xs) zero k = refl
length-set_ (x ∷ xs) (suc i) k = ap suc (length-set_ xs i k)
