-- ===== src/Tied/Dicts.antt =====
-- core/tied.py: dictionaries of lists, which setdefault and append fill.
use mathlib.Core.List.{append-nil, append_assoc}
use torch_slicer.Common.{
  ℕ, zero, suc, ◌==◌, ==_iff, Bool, true, false, ◌||◌, List, [], ◌∷◌, ◌++◌, if◌then◌else◌, ◌≡◌,
  refl, sym, ap, ◌∙◌, Bool-cases, arith, inl, inr, some, get_elem?, elem, subst, some_injective,
  map,
}
use torch_slicer.Tied.{append_at, append_all, keys}

one_key : (x key k : ℕ) → (x == k) ≡ true → (key == k) ≡ false → (x == key) ≡ false
one_key x key k e other = ground arith

flip : (key k : ℕ) → (key == k) ≡ false → (k == key) ≡ false
flip key k other = ground arith

false-true : (false ≡ true) → ⊥
false-true e = absurd (cc)

or-false : (b : Bool) → (b || false) ≡ b
or-false true = refl
or-false false = refl

or-absorb : (b c : Bool) → (b || c) ≡ ((b || c) || b)
or-absorb true c = refl
or-absorb false true = refl
or-absorb false false = refl

or_assoc : (a b c : Bool) → (a || (b || c)) ≡ ((a || b) || c)
or_assoc true b c = refl
or_assoc false b c = refl

module _ {V : Type 0} where
  -- What a dictionary of lists holds at a key, nothing when the key is missing.
  abbrev pub at_key : ℕ → List (ℕ × List V) → List V
  at_key key [] = []
  at_key key ((k, vs) ∷ rest) = if key == k then vs else at_key key rest

  -- The values of the items with a key, in their order.
  abbrev pub values_of : ℕ → List (ℕ × V) → List V
  values_of key [] = []
  values_of key ((k, v) ∷ items) = if key == k then v ∷ values_of key items else values_of key items

  abbrev pub IsDict : List (ℕ × List V) → Type 0
  IsDict [] = Unit
  IsDict ((k, vs) ∷ rest) = (elem k (keys rest) ≡ false) × IsDict rest

  append_at-same :
      (key : ℕ) (v : V) (k : ℕ) (vs : List V) (rest : List (ℕ × List V))
      → (key == k) ≡ true
      → append_at key v ((k, vs) ∷ rest) ≡ (k, vs ++ v ∷ []) ∷ rest
  unfolding append_at
  append_at-same key v k vs rest e = rw e refl

  append_at-other :
      (key : ℕ) (v : V) (k : ℕ) (vs : List V) (rest : List (ℕ × List V))
      → (key == k) ≡ false
      → append_at key v ((k, vs) ∷ rest) ≡ (k, vs) ∷ append_at key v rest
  unfolding append_at
  append_at-other key v k vs rest e = rw e refl

  -- Appending changes what is at that key only.
  at_key-append_at :
      (x key : ℕ) (v : V) (dict : List (ℕ × List V))
      → at_key x (append_at key v dict)
        ≡ (if x == key then at_key x dict ++ v ∷ [] else at_key x dict)
  unfolding append_at
  at_key-append_at x key v [] = refl
  at_key-append_at x key v ((k, vs) ∷ rest) = elim (Bool-cases (key == k)) [
    | inl same ↦
        rw (append_at-same key v k vs rest same, (==_iff key k).0 same)
          (elim (Bool-cases (x == k)) [ inl e ↦ rw e refl | inr e ↦ rw e refl ])
    | inr other ↦ rw (append_at-other key v k vs rest other) (elim (Bool-cases (x == k)) [
      | inl e ↦ rw (e, one_key x key k e other) refl
      | inr e ↦ rw e (at_key-append_at x key v rest)
    ])
  ]

  elem-append_at :
      (x key : ℕ) (v : V) (dict : List (ℕ × List V))
      → elem x (keys (append_at key v dict)) ≡ (elem x (keys dict) || x == key)
  unfolding append_at
  elem-append_at x key v [] = or-false (x == key)
  elem-append_at x key v ((k, vs) ∷ rest) = elim (Bool-cases (key == k)) [
    | inl same ↦
        rw (append_at-same key v k vs rest same, (==_iff key k).0 same)
          (or-absorb (x == k) (elem x (keys rest)))
    | inr other ↦
        rw (append_at-other key v k vs rest other, elem-append_at x key v rest)
          (or_assoc (x == k) (elem x (keys rest)) (x == key))
  ]

  append_at-IsDict :
      (key : ℕ) (v : V) (dict : List (ℕ × List V)) → IsDict dict → IsDict (append_at key v dict)
  unfolding append_at
  append_at-IsDict key v [] d = (refl, tt)
  append_at-IsDict key v ((k, vs) ∷ rest) d = elim (Bool-cases (key == k)) [
    | inl same ↦ subst IsDict (sym (append_at-same key v k vs rest same)) d
    | inr other ↦
        subst IsDict (sym (append_at-other key v k vs rest other)) (
          rw (elem-append_at k key v rest, d.0) (flip key k other),
          append_at-IsDict key v rest d.1,
        )
  ]

  pub append_all-IsDict :
      (items : List (ℕ × V)) (dict : List (ℕ × List V))
      → IsDict dict
      → IsDict (append_all dict items)
  unfolding append_all
  append_all-IsDict [] dict d = d
  append_all-IsDict ((key, v) ∷ items) dict d =
      append_all-IsDict items (append_at key v dict) (append_at-IsDict key v dict d)

  -- What is in a dictionary is found at its key.
  pub get_elem?-at_key :
      (dict : List (ℕ × List V)) (i k : ℕ) (vs : List V)
      → IsDict dict
      → get_elem? dict i ≡ some (k, vs)
      → (at_key k dict ≡ vs) × (elem k (keys dict) ≡ true)
  get_elem?-at_key [] i k vs d there = absurd (cc)
  get_elem?-at_key ((k', vs') ∷ rest) zero k vs d there =
      let same_key = ap (λ (e : ℕ × List V). e.0) (some_injective there) in
      let test = (==_iff k k').1 (sym same_key) in
      (rw test (ap (λ (e : ℕ × List V). e.1) (some_injective there)), rw test refl)
  get_elem?-at_key ((k', vs') ∷ rest) (suc i) k vs d there =
      let later = get_elem?-at_key rest i k vs d.1 there in
      elim (Bool-cases (k == k')) [
        | inl same ↦ absurd (
            false-true
              (sym d.0 ∙ ap (λ x. elem x (keys rest)) (sym ((==_iff k k').0 same)) ∙ later.1))
        | inr other ↦ (rw other later.0, rw other later.1)
      ]

  pub at_key-append_all :
      (key : ℕ) (items : List (ℕ × V)) (dict : List (ℕ × List V))
      → at_key key (append_all dict items) ≡ at_key key dict ++ values_of key items
  unfolding append_all
  at_key-append_all key [] dict = sym (append-nil (at_key key dict))
  at_key-append_all key ((k, v) ∷ items) dict =
      rw (at_key-append_all key items (append_at k v dict), at_key-append_at key k v dict)
        (elim (Bool-cases (key == k)) [
          | inl e ↦ rw e (append_assoc (at_key key dict) (v ∷ []) (values_of key items))
          | inr e ↦ rw e refl
        ])

pub elem-append_all :
    {V : Type 0}
    → (x : ℕ) (items : List (ℕ × V)) (dict : List (ℕ × List V))
    → elem x (keys (append_all dict items))
      ≡ (elem x (keys dict) || elem x (map (λ (e : ℕ × V). e.0) items))
unfolding append_all
elem-append_all x [] dict = sym (or-false (elem x (keys dict)))
elem-append_all {V} x ((key, v) ∷ items) dict =
    elem-append_all x items (append_at key v dict)
    ∙ ap (λ b. b || elem x (map (λ (e : ℕ × V). e.0) items)) (elem-append_at x key v dict)
    ∙ sym (or_assoc (elem x (keys dict)) (x == key) (elem x (map (λ (e : ℕ × V). e.0) items)))
