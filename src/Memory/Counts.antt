-- ===== src/Memory/Counts.antt =====
-- How often an entry stands in a list of entries: the lists of src/memory.rs as multisets.
use igb_driver.Prelude.{
  ℕ, zero, suc, ◌+◌, ◌<◌, ◌≡◌, ◌↔◌, refl, true, some, List, [], ◌∷◌, ◌++◌, ltb, ◌==◌, if◌then◌else◌,
  arith, get_elem?, set, length, take, drop,
}
use igb_driver.Memory.{range_from, extend, contains}

unfoldable pub count : ℕ → List ℕ → ℕ
count a [] = 0
count a (x ∷ xs) = (if x == a then 1 else 0) + count a xs

pub count-append : (a : ℕ) (xs ys : List ℕ) → count a (xs ++ ys) ≡ count a xs + count a ys
unfolding count
count-append a [] ys = omega arith
count-append a (x ∷ xs) ys = omega (arith, count-append a xs ys)

pub count-extend : (a : ℕ) (xs ys : List ℕ) → count a (extend xs ys) ≡ count a xs + count a ys
unfolding count extend
count-extend a [] ys = omega arith
count-extend a (x ∷ xs) ys = omega (arith, count-extend a xs (x ∷ ys))

pub count-range :
    (a i n : ℕ) → count a (range_from i n) ≡ (if ltb a i then 0 else if ltb a (i + n) then 1 else 0)
unfolding count range_from
count-range a i zero = ground arith
count-range a i (suc n) = ground (arith, count-range a (i + 1) n)

pub contains_iff : (xs : List ℕ) (a : ℕ) → (contains xs a ≡ true) ↔ (0 < count a xs)
unfolding count contains
contains_iff [] a = ground arith
contains_iff (x ∷ xs) a = ground (arith, contains_iff xs a)

-- Replacing the element at an index takes that element out and puts the new one in.
pub count-set :
    (a : ℕ) (xs : List ℕ) (i old new : ℕ)
    → get_elem? xs i ≡ some old
    → count a (set xs i new) + (if old == a then 1 else 0)
      ≡ count a xs + (if new == a then 1 else 0)
unfolding count
count-set a [] i old new e = ground arith
count-set a (x ∷ xs) zero old new e = ground arith
count-set a (x ∷ xs) (suc i) old new e = omega (arith, count-set a xs i old new e)

pub count-take-drop :
    (a n : ℕ) (xs : List ℕ) → count a (take n xs) + count a (drop n xs) ≡ count a xs
unfolding count
count-take-drop a zero xs = omega arith
count-take-drop a (suc n) [] = omega arith
count-take-drop a (suc n) (x ∷ xs) = omega (arith, count-take-drop a n xs)

pub count-get_elem? : (xs : List ℕ) (i : ℕ) {a : ℕ} → get_elem? xs i ≡ some a → 0 < count a xs
unfolding count
count-get_elem? [] i e = ground arith
count-get_elem? (x ∷ xs) zero e = ground arith
count-get_elem? (x ∷ xs) (suc i) e = omega (arith, count-get_elem? xs i e)

pub length-range : (i n : ℕ) → length (range_from i n) ≡ n
unfolding range_from
length-range i zero = refl
length-range i (suc n) = omega (arith, length-range (i + 1) n)

pub get_elem?-range : (i n k : ℕ) → k < n → get_elem? (range_from i n) k ≡ some (i + k)
unfolding range_from
get_elem?-range i zero k h = absurd (omega arith)
get_elem?-range i (suc n) zero h = ground arith
get_elem?-range i (suc n) (suc k) h = ground (arith, get_elem?-range (i + 1) n k)
