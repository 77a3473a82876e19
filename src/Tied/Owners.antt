-- ===== src/Tied/Owners.antt =====
-- core/tied.py, TiedGroup.owner: the lowest partition of a group.
use torch_slicer.Common.{
  ℕ, ◌≤◌, ◌==◌, ==_iff, ==_refl, Bool, true, false, ◌||◌, List, [], ◌∷◌, if◌then◌else◌, ◌≡◌, refl,
  sym, ap, ◌∙◌, Bool-cases, arith, inl, inr, Option, some, elem, subst, ltb, String, ◌⊎◌, ltb_iff,
}
use torch_slicer.Tied.{keys, least, owner}

not_less : (a b : ℕ) → ltb a b ≡ false → b ≤ a
not_less a b e = ground arith

or-true : (b : Bool) {c : Bool} → c ≡ true → (b || c) ≡ true
or-true true e = refl
or-true false e = e

or-middle : (a b c : Bool) → (a || c) ≡ true → (a || (b || c)) ≡ true
or-middle true b c e = refl
or-middle false true c e = refl
or-middle false false c e = e

in-cons : (m k : ℕ) (ms : List ℕ) → elem m (k ∷ ms) ≡ true → (m ≡ k) ⊎ (elem m ms ≡ true)
in-cons m k ms e = elim (Bool-cases (m == k)) [
  | inl same ↦ inl ((==_iff m k).0 same)
  | inr other ↦ inr (ap (λ b. b || elem m ms) (sym other) ∙ e)
]

-- The least of a number and others is at most each of them, and one of them.
least_below : (n : ℕ) (ms : List ℕ) (m : ℕ) → (m ≡ n) ⊎ (elem m ms ≡ true) → least n ms ≤ m
unfolding least
least_below n [] m (inl e) = omega arith
least_below n [] m (inr e) = absurd (cc)
least_below n (k ∷ ms) m which = elim (Bool-cases (ltb k n)) [
  | inl lt ↦ rw lt (
      let below = least_below k ms in
      elim which [
        | inl e ↦ let bound = below k (inl refl) in let step = (ltb_iff k n).0 lt in omega arith
        | inr e ↦ below m (in-cons m k ms e)
      ])
  | inr ge ↦ rw ge (
      let below = least_below n ms in
      elim which [
        | inl e ↦ below m (inl e)
        | inr e ↦ elim (in-cons m k ms e) [
          | inl same ↦ let bound = below n (inl refl) in let step = not_less k n ge in omega arith
          | inr there ↦ below m (inr there)
        ]
      ])
]

least-smaller : (n k : ℕ) (ms : List ℕ) → ltb k n ≡ true → least n (k ∷ ms) ≡ least k ms
unfolding least
least-smaller n k ms e = ap (λ b. least (if b then k else n) ms) e

least-other : (n k : ℕ) (ms : List ℕ) → ltb k n ≡ false → least n (k ∷ ms) ≡ least n ms
unfolding least
least-other n k ms e = ap (λ b. least (if b then k else n) ms) e

least_among : (n : ℕ) (ms : List ℕ) → elem (least n ms) (n ∷ ms) ≡ true
unfolding least
least_among n [] = rw (==_refl n) refl
least_among n (k ∷ ms) = elim (Bool-cases (ltb k n)) [
  | inl lt ↦
      subst (λ x. elem x (n ∷ k ∷ ms) ≡ true) (sym (least-smaller n k ms lt))
        (or-true (least k ms == n) (least_among k ms))
  | inr ge ↦
      subst (λ x. elem x (n ∷ k ∷ ms) ≡ true) (sym (least-other n k ms ge))
        (or-middle (least n ms == n) (least n ms == k) (elem (least n ms) ms) (least_among n ms))
]

-- An owner: one of the partitions, and the lowest of them.
abbrev pub IsLowest : Option ℕ → List ℕ → Type 0
IsLowest o ps =
    (q : ℕ) × ((o ≡ some q) × ((elem q ps ≡ true) × ((p : ℕ) → elem p ps ≡ true → q ≤ p)))

pub owner-IsLowest :
    (id : ℕ) (members : List (ℕ × List String)) (p : ℕ)
    → elem p (keys members) ≡ true
    → IsLowest (owner (record { group_id = id; members = members })) (keys members)
unfolding owner
owner-IsLowest id [] p e = absurd (cc)
owner-IsLowest id ((q, names) ∷ rest) p e =
    let below = λ (m : ℕ) (there : elem m (q ∷ keys rest) ≡ true).
      least_below q (keys rest) m (in-cons m q (keys rest) there) in
    (least q (keys rest), (refl, (least_among q (keys rest), below)))

pub IsLowest-of_same :
    (o : Option ℕ) (ps qs : List ℕ)
    → ((x : ℕ) → elem x ps ≡ elem x qs)
    → IsLowest o ps
    → IsLowest o qs
IsLowest-of_same o ps qs same (q, (is_q, (among, below))) =
    (q, (is_q, (sym (same q) ∙ among, λ p e. below p (same p ∙ e))))
