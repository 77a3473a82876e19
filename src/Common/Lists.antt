-- ===== src/Common/Lists.antt =====
-- Lists measured and indexed by native numbers, under the library's names.
use Prim.Native.Nat.{ℕ, zero, suc, ◌+◌, ◌-◌, ◌≤◌, ◌<◌, min}
use mathlib.Core.Path.{◌∙◌, ◌≡◌, refl, sym, ap, ap₂, subst}
use mathlib.Core.Logic.{◌↔◌, inl, inr}
use mathlib.Core.Bool.{Bool, true, false, ◌||◌, ◌&&◌}
use mathlib.Core.List.{List, [], ◌∷◌, ◌++◌, map}
use mathlib.Core.Option.{Option, none, some}
use native.Mathlib.Nat.{add-zero, zero-add}
use native.Mathlib.Omega.{arith}
use torch_slicer.Common.Tests.{◌==◌, ==_iff, ==_refl, Bool-cases, and-eq-true}

module _ {ℓ} {A : Type ℓ} where
  abbrev pub length : List A → ℕ
  length [] = 0
  length (x ∷ xs) = suc (length xs)

  abbrev pub get_elem? : List A → ℕ → Option A
  get_elem? [] i = none
  get_elem? (x ∷ xs) zero = some x
  get_elem? (x ∷ xs) (suc i) = get_elem? xs i

  -- A write out of bounds changes nothing.
  abbrev pub set : List A → ℕ → A → List A
  set [] i v = []
  set (x ∷ xs) zero v = v ∷ xs
  set (x ∷ xs) (suc i) v = x ∷ set xs i v

  abbrev pub get_or : List A → ℕ → A → A
  get_or [] i d = d
  get_or (x ∷ xs) zero d = x
  get_or (x ∷ xs) (suc i) d = get_or xs i d

  abbrev pub take : ℕ → List A → List A
  take zero xs = []
  take (suc n) [] = []
  take (suc n) (x ∷ xs) = x ∷ take n xs

  abbrev pub drop : ℕ → List A → List A
  drop zero xs = xs
  drop (suc n) [] = []
  drop (suc n) (x ∷ xs) = drop n xs

  abbrev pub replicate : ℕ → A → List A
  replicate zero a = []
  replicate (suc n) a = a ∷ replicate n a

  abbrev pub is_nil : List A → Bool
  is_nil [] = true
  is_nil (x ∷ xs) = false

  abbrev pub any : (A → Bool) → List A → Bool
  any p [] = false
  any p (x ∷ xs) = p x || any p xs

  abbrev pub all : (A → Bool) → List A → Bool
  all p [] = true
  all p (x ∷ xs) = p x && all p xs

  abbrev pub last? : List A → Option A
  last? [] = none
  last? (x ∷ []) = some x
  last? (x ∷ y ∷ xs) = last? (y ∷ xs)

-- A predicate by recursion computes to tuples, which the tactics read and build.
abbrev pub All {ℓ κ} : {A : Type ℓ} → (A → Type κ) → List A → Type κ
All P [] = Unit
All P (x ∷ xs) = P x × All P xs

-- `i in xs` on a list or a set of numbers.
abbrev pub elem : ℕ → List ℕ → Bool
elem n [] = false
elem n (x ∷ xs) = n == x || elem n xs

-- The numbers `i, i + 1, ...`, `n` of them.
abbrev pub count_up : ℕ → ℕ → List ℕ
count_up i zero = []
count_up i (suc n) = i ∷ count_up (suc i) n

-- range(a, b)
abbrev pub range : ℕ → ℕ → List ℕ
range a b = count_up a (b - a)

module _ {ℓ} {A : Type ℓ} where
  pub length-append : (xs ys : List A) → length (xs ++ ys) ≡ length xs + length ys
  length-append [] ys = omega arith
  length-append (x ∷ xs) ys = omega (arith, length-append xs ys)

  pub take-append-drop : (n : ℕ) (xs : List A) → take n xs ++ drop n xs ≡ xs
  take-append-drop zero xs = refl
  take-append-drop (suc n) [] = refl
  take-append-drop (suc n) (x ∷ xs) = rw (take-append-drop n xs)

  pub length-take : (n : ℕ) (xs : List A) → length (take n xs) ≡ min n (length xs)
  length-take zero xs = omega arith
  length-take (suc n) [] = omega arith
  length-take (suc n) (x ∷ xs) = omega (arith, length-take n xs)

  pub length-drop : (n : ℕ) (xs : List A) → length (drop n xs) ≡ length xs - n
  length-drop zero xs = omega arith
  length-drop (suc n) [] = omega arith
  length-drop (suc n) (x ∷ xs) = omega (arith, length-drop n xs)

  pub get_elem?-append_left :
      (xs ys : List A) (i : ℕ) → i < length xs → get_elem? (xs ++ ys) i ≡ get_elem? xs i
  get_elem?-append_left [] ys i h = elim h [ ]
  get_elem?-append_left (x ∷ xs) ys zero h = refl
  get_elem?-append_left (x ∷ xs) ys (suc i) h = get_elem?-append_left xs ys i (omega arith)

  pub get_elem?-append_right :
      (xs ys : List A) (i j : ℕ) → i ≡ length xs + j → get_elem? (xs ++ ys) i ≡ get_elem? ys j
  get_elem?-append_right [] ys i j e = ap (get_elem? ys) (omega arith)
  get_elem?-append_right (x ∷ xs) ys zero j e = absurd (omega arith)
  get_elem?-append_right (x ∷ xs) ys (suc i) j e = get_elem?-append_right xs ys i j (omega arith)

  pub last?-get_elem? : (xs : List A) (k : ℕ) → length xs ≡ suc k → last? xs ≡ get_elem? xs k
  last?-get_elem? [] k e = absurd (omega arith)
  last?-get_elem? (x ∷ []) zero e = refl
  last?-get_elem? (x ∷ []) (suc k) e = absurd (omega arith)
  last?-get_elem? (x ∷ y ∷ xs) zero e = absurd (omega arith)
  last?-get_elem? (x ∷ y ∷ xs) (suc k) e = last?-get_elem? (y ∷ xs) k (omega arith)

  -- An index is in range exactly when something is there.
  pub get_elem?-some : (xs : List A) (i : ℕ) → i < length xs → (x : A) × (get_elem? xs i ≡ some x)
  get_elem?-some [] i h = elim h [ ]
  get_elem?-some (x ∷ xs) zero h = (x, refl)
  get_elem?-some (x ∷ xs) (suc i) h = get_elem?-some xs i (omega arith)

  pub lt_of_get_elem? : (xs : List A) (i : ℕ) {x : A} → get_elem? xs i ≡ some x → i < length xs
  lt_of_get_elem? [] i h = absurd (cc)
  lt_of_get_elem? (x ∷ xs) zero h = omega arith
  lt_of_get_elem? (x ∷ xs) (suc i) h = omega (arith, lt_of_get_elem? xs i h)

  pub length-replicate : (n : ℕ) (a : A) → length (replicate n a) ≡ n
  length-replicate zero a = refl
  length-replicate (suc n) a = ap suc (length-replicate n a)

  pub length-map {κ} : {B : Type κ} (f : A → B) (xs : List A) → length (map f xs) ≡ length xs
  length-map f [] = refl
  length-map f (x ∷ xs) = ap suc (length-map f xs)

  pub All-append {κ} : (P : A → Type κ) (xs ys : List A) → All P xs → All P ys → All P (xs ++ ys)
  All-append P [] ys h k = k
  All-append P (x ∷ xs) ys h k = (h.0, All-append P xs ys h.1 k)

  pub All-at {κ} :
      (P : A → Type κ) (xs : List A) (i : ℕ) {x : A} → All P xs → get_elem? xs i ≡ some x → P x
  All-at P [] i h e = absurd (cc)
  All-at P (y ∷ xs) zero {x} h e = let same : y ≡ x = cc in subst P same h.0
  All-at P (y ∷ xs) (suc i) h e = All-at P xs i h.1 e

module _ {ℓ κ} {A : Type ℓ} (P : A → Type κ) where
  pub at-All : (xs : List A) → ((i : ℕ) (x : A) → get_elem? xs i ≡ some x → P x) → All P xs
  at-All [] h = tt
  at-All (x ∷ xs) h = (h 0 x refl, at-All xs (λ i y e. h (suc i) y e))

pub map-All {ℓ κ μ} :
    {A : Type ℓ} {P : A → Type κ} {Q : A → Type μ}
    → ((x : A) → P x → Q x)
    → (xs : List A) → All P xs
    → All Q xs
map-All f [] h = tt
map-All f (x ∷ xs) h = (f x h.0, map-All f xs h.1)

pub zip-All {ℓ κ μ} :
    {A : Type ℓ} (P : A → Type κ) (Q : A → Type μ) (xs : List A)
    → All P xs
    → All Q xs
    → All (λ x. P x × Q x) xs
zip-All P Q [] h k = tt
zip-All P Q (x ∷ xs) h k = ((h.0, k.0), zip-All P Q xs h.1 k.1)

pub length-count_up : (i n : ℕ) → length (count_up i n) ≡ n
length-count_up i zero = refl
length-count_up i (suc n) = ap suc (length-count_up (suc i) n)

or-true : (b : Bool) {c : Bool} → c ≡ true → (b || c) ≡ true
or-true true e = refl
or-true false e = e

pub elem-All : (P : ℕ → Type 0) (xs : List ℕ) (n : ℕ) → All P xs → elem n xs ≡ true → P n
elem-All P [] n h e = absurd (cc)
elem-All P (x ∷ xs) n h e = elim (Bool-cases (n == x)) [
  | inl same ↦ subst P (sym ((==_iff n x).0 same)) h.0
  | inr other ↦ elem-All P xs n h.1 (rw other at e)
]

pub All-elem : (P : ℕ → Type 0) (xs : List ℕ) → ((n : ℕ) → elem n xs ≡ true → P n) → All P xs
All-elem P [] h = tt
All-elem P (x ∷ xs) h = (h x (rw (==_refl x)), All-elem P xs (λ n e. h n (or-true (n == x) e)))

pub elem-append : (n : ℕ) (xs ys : List ℕ) → elem n (xs ++ ys) ≡ (elem n xs || elem n ys)
elem-append n [] ys = refl
elem-append n (x ∷ xs) ys = ground (arith, elem-append n xs ys)

pub elem-count_up : (n a len : ℕ) → (elem n (count_up a len) ≡ true) ↔ ((a ≤ n) × (n < a + len))
elem-count_up n a zero = (λ h. absurd (cc), λ h. absurd (omega arith))
elem-count_up n a (suc len) = ground (arith, elem-count_up n (suc a) len)

pub last?-count_up : (a len : ℕ) → last? (count_up a (suc len)) ≡ some (a + len)
last?-count_up a zero = rw (add-zero a)
last?-count_up a (suc len) = last?-count_up (suc a) len ∙ ap some (omega arith)

module _ (p : ℕ → Bool) where
  pub all-of_elem : (xs : List ℕ) → ((x : ℕ) → elem x xs ≡ true → p x ≡ true) → all p xs ≡ true
  all-of_elem [] h = refl
  all-of_elem (x ∷ xs) h =
      rw (h x (rw (==_refl x) refl)) (all-of_elem xs (λ y e. h y (or-true (y == x) e)))

pub count_up-append : (a m k : ℕ) → count_up a m ++ count_up (a + m) k ≡ count_up a (m + k)
count_up-append a zero k = rw (add-zero a, zero-add k) refl
count_up-append a (suc m) k =
    let shift : a + suc m ≡ suc a + m = omega arith in
    let sum : suc m + k ≡ suc (m + k) = omega arith in
    rw (shift, sum) (ap (λ l. a ∷ l) (count_up-append (suc a) m k))

-- A front of a run of numbers is a run, and so is the rest.
pub count_up-split :
    (a k : ℕ) (xs ys : List ℕ)
    → xs ++ ys ≡ count_up a k
    → (xs ≡ count_up a (length xs))
      × (ys ≡ count_up (a + length xs) (k - length xs))
      × (length xs ≤ k)
count_up-split a k [] ys e =
    (refl, rw (add-zero a) (e ∙ ap (count_up a) (omega arith)), omega arith)
count_up-split a zero (x ∷ xs) ys e = absurd (cc)
count_up-split a (suc k) (x ∷ xs) ys e =
    let head : x ≡ a = cc in
    let rest : xs ++ ys ≡ count_up (suc a) k = cc in
    let (front, back, fits) = count_up-split (suc a) k xs ys rest in
    (ap₂ (λ u v. u ∷ v) head front, back ∙ ap₂ count_up (omega arith) (omega arith), omega arith)

pub all-elem :
    (p : ℕ → Bool) (xs : List ℕ) (x : ℕ) → all p xs ≡ true → elem x xs ≡ true → p x ≡ true
all-elem p [] x h e = absurd (cc)
all-elem p (y ∷ ys) x h e = elim (Bool-cases (x == y)) [
  | inl same ↦
      subst (λ z. p z ≡ true) (sym ((==_iff x y).0 same)) (and-eq-true (p y) (all p ys) h).0
  | inr other ↦ all-elem p ys x (and-eq-true (p y) (all p ys) h).1 (rw other at e)
]

pub all-map {ℓ} :
    {A : Type ℓ} (p : A → Bool) (f : ℕ → A) (xs : List ℕ) → all p (map f xs) ≡ all (λ x. p (f x)) xs
all-map p f [] = refl
all-map p f (x ∷ xs) = rw (all-map p f xs) refl
