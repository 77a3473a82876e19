-- ===== src/Common/Sorting.antt =====
-- sorted() on numbers: insertion sort. Python's order of equal numbers cannot be told apart.
use torch_slicer.Common.{
  length, ap, true, inl, inr, Bool-cases, zero, false, some, get_elem?, All, All-elem, elem-All,
  sym, ◌∙◌, some_injective, ℕ, suc, ◌≤◌, ◌<◌, ◌≡◌, refl, List, [], ◌∷◌, arith, leb, if◌then◌else◌,
  elem, ◌||◌, ◌==◌,
}

pub insert : ℕ → List ℕ → List ℕ
insert a [] = a ∷ []
insert a (x ∷ xs) = if leb a x then a ∷ x ∷ xs else x ∷ insert a xs

-- sorted(xs)
unfoldable pub sorted : List ℕ → List ℕ
unfolding insert
sorted [] = []
sorted (x ∷ xs) = insert x (sorted xs)

-- Strictly increasing, and everything at least `low`.
abbrev pub IsIncreasing : ℕ → List ℕ → Type 0
IsIncreasing low [] = Unit
IsIncreasing low (x ∷ xs) = (low ≤ x) × IsIncreasing (suc x) xs

insert-below : (a low : ℕ) (xs : List ℕ) → IsIncreasing low xs → a < low → insert a xs ≡ a ∷ xs
unfolding insert
insert-below a low [] h lt = refl
insert-below a low (x ∷ xs) h lt = ground arith

pub sorted-IsIncreasing : (low : ℕ) (xs : List ℕ) → IsIncreasing low xs → sorted xs ≡ xs
unfolding sorted
sorted-IsIncreasing low [] h = refl
sorted-IsIncreasing low (x ∷ xs) h =
    rw (sorted-IsIncreasing (suc x) xs h.1) (insert-below x (suc x) xs h.1 (omega arith))

elem-insert : (n a : ℕ) (xs : List ℕ) → elem n (insert a xs) ≡ (n == a || elem n xs)
unfolding insert
elem-insert n a [] = refl
elem-insert n a (x ∷ xs) = ground (arith, elem-insert n a xs)

pub elem-sorted : (n : ℕ) (xs : List ℕ) → elem n (sorted xs) ≡ elem n xs
unfolding sorted
elem-sorted n [] = refl
elem-sorted n (x ∷ xs) = rw (elem-insert n x (sorted xs), elem-sorted n xs)

insert-top :
    (a low : ℕ) (xs : List ℕ)
    → IsIncreasing low xs
    → All (λ x. x < a) xs
    → low ≤ a
    → IsIncreasing low (insert a xs)
unfolding insert
insert-top a low [] up below le = (le, tt)
insert-top a low (x ∷ xs) up below le =
    let test : leb a x ≡ false = let lt = below.0 in ground arith in
    rw test (up.0, insert-top a (suc x) xs up.1 below.1 (omega arith))

-- To sort a list of which the first is the greatest.
pub sorted-top :
    (a : ℕ) (xs : List ℕ)
    → IsIncreasing 0 (sorted xs)
    → All (λ x. x < a) xs
    → IsIncreasing 0 (sorted (a ∷ xs))
unfolding sorted
sorted-top a xs up below =
    insert-top a 0 (sorted xs) up
      (All-elem (λ x. x < a) (sorted xs)
        λ n mem. elem-All (λ x. x < a) xs n below (sym (elem-sorted n xs) ∙ mem))
      (omega arith)

pub IsIncreasing-at_low :
    (low : ℕ) (xs : List ℕ) (i x : ℕ) → IsIncreasing low xs → get_elem? xs i ≡ some x → low ≤ x
IsIncreasing-at_low low [] i x up at = absurd (cc)
IsIncreasing-at_low low (y ∷ xs) zero x up at =
    let h = up.0 in let e : y ≡ x = some_injective at in omega arith
IsIncreasing-at_low low (y ∷ xs) (suc i) x up at =
    let rest = IsIncreasing-at_low (suc y) xs i x up.1 at in let h = up.0 in omega arith

-- A later element of an increasing list is greater.
pub IsIncreasing-at :
    (low : ℕ) (xs : List ℕ) (i k x y : ℕ)
    → IsIncreasing low xs
    → i < k
    → get_elem? xs i ≡ some x
    → get_elem? xs k ≡ some y
    → x < y
IsIncreasing-at low [] i k x y up lt at_i at_k = absurd (cc)
IsIncreasing-at low (z ∷ xs) i zero x y up lt at_i at_k = absurd (omega arith)
IsIncreasing-at low (z ∷ xs) zero (suc k) x y up lt at_i at_k =
    let e : z ≡ x = some_injective at_i in
    let rest = IsIncreasing-at_low (suc z) xs k y up.1 at_k in omega arith
IsIncreasing-at low (z ∷ xs) (suc i) (suc k) x y up lt at_i at_k =
    IsIncreasing-at (suc z) xs i k x y up.1 (omega arith) at_i at_k

length-insert : (a : ℕ) (xs : List ℕ) → length (insert a xs) ≡ suc (length xs)
unfolding insert
length-insert a [] = refl
length-insert a (x ∷ xs) = elim (Bool-cases (leb a x)) [
  | inl le ↦ rw le refl
  | inr gt ↦ rw gt (ap suc (length-insert a xs))
]

pub length-sorted : (xs : List ℕ) → length (sorted xs) ≡ length xs
unfolding sorted
length-sorted [] = refl
length-sorted (x ∷ xs) = length-insert x (sorted xs) ∙ ap suc (length-sorted xs)

pub elem-at : (xs : List ℕ) (i k : ℕ) → get_elem? xs i ≡ some k → elem k xs ≡ true
elem-at [] i k at = absurd (cc)
elem-at (x ∷ xs) zero k at = let e : x ≡ k = some_injective at in ground arith
elem-at (x ∷ xs) (suc i) k at = let rest = elem-at xs i k at in ground arith

-- set(xs), as a list
unfoldable pub distinct : List ℕ → List ℕ
distinct [] = []
distinct (x ∷ xs) = if elem x xs then distinct xs else x ∷ distinct xs

elem-distinct : (n : ℕ) (xs : List ℕ) → elem n (distinct xs) ≡ true → elem n xs ≡ true
unfolding distinct
elem-distinct n [] mem = absurd (cc)
elem-distinct n (x ∷ xs) mem = ground (arith, elem-distinct n xs)

insert-IsIncreasing :
    (a low : ℕ) (xs : List ℕ)
    → IsIncreasing low xs
    → low ≤ a
    → elem a xs ≡ false
    → IsIncreasing low (insert a xs)
unfolding insert
insert-IsIncreasing a low [] up le fresh = (le, tt)
insert-IsIncreasing a low (x ∷ xs) up le fresh = elim (Bool-cases (leb a x)) [
  | inl below ↦ rw below (le, let lt : a < x = ground arith in (lt, up.1))
  | inr above ↦ rw above (up.0, insert-IsIncreasing a (suc x) xs up.1 (ground arith) (ground arith))
]

-- The members of a set, sorted, strictly increase.
pub sorted-distinct : (xs : List ℕ) → IsIncreasing 0 (sorted (distinct xs))
unfolding sorted distinct
sorted-distinct [] = tt
sorted-distinct (x ∷ xs) = elim (Bool-cases (elem x xs)) [
  | inl again ↦ rw again (sorted-distinct xs)
  | inr fresh ↦ rw fresh (
      insert-IsIncreasing x 0 (sorted (distinct xs)) (sorted-distinct xs) (omega arith)
        (elem-sorted x (distinct xs) ∙ ground (arith, elem-distinct x xs)))
]
