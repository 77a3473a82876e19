-- ===== src/Offload/Layouts.antt =====
-- offload/pager.py, _Layout: the tensors of a region do not overlap, and each is aligned.
use mathlib.Core.List.{append-nil}
use torch_slicer.Common.{
  map, ℕ, zero, suc, ◌+◌, ◌-◌, ◌*◌, ◌/◌, ◌≤◌, ◌<◌, ◌≡◌, refl, sym, ap, ◌∙◌, some, List, [], ◌∷◌,
  ◌++◌, length, get_elem?, lt_of_get_elem?, some_injective, subst, arith, ◌⊎◌, inl, map, inr,
}
use torch_slicer.Offload.{Entry, Layout, empty, add, add_all}

-- A multiple of the alignment.
abbrev pub IsAligned : ℕ → Type 0
IsAligned n = (k : ℕ) × (n ≡ k * 256)

pub record IsLaidOut (layout : Layout) : Type 0 where
  pub end_aligned : IsAligned layout.nbytes
  pub aligned : (i : ℕ) (e : Entry) → get_elem? layout.entries i ≡ some e → IsAligned e.offset
  pub within :
      (i : ℕ) (e : Entry)
      → get_elem? layout.entries i ≡ some e
      → e.offset + e.nbytes ≤ layout.nbytes
  pub apart :
      (i j : ℕ) (a b : Entry)
      → i < j
      → get_elem? layout.entries i ≡ some a
      → get_elem? layout.entries j ≡ some b
      → a.offset + a.nbytes ≤ b.offset

-- An entry of a list with one more at the end is an old one or the new one.
at_end :
    (xs : List Entry) (x e : Entry) (i : ℕ)
    → get_elem? (xs ++ x ∷ []) i ≡ some e
    → (get_elem? xs i ≡ some e) ⊎ ((i ≡ length xs) × (x ≡ e))
at_end [] x e zero at = inr (refl, some_injective at)
at_end [] x e (suc i) at = absurd (cc)
at_end (y ∷ xs) x e zero at = inl at
at_end (y ∷ xs) x e (suc i) at = elim (at_end xs x e i at) [
  | inl old ↦ inl old
  | inr (last, new) ↦ inr (ap suc last, new)
]

add-IsLaidOut : (layout : Layout) (size : ℕ) → IsLaidOut layout → IsLaidOut (add layout size)
unfolding add
add-IsLaidOut layout size l = record {
  end_aligned = ((layout.nbytes + size + 256 - 1) / 256, refl);
  aligned = λ i e at. elim (at_end layout.entries new e i at) [
    | inl old ↦ l.aligned i e old
    | inr (last, is_new) ↦ subst (λ (x : Entry). IsAligned x.offset) is_new l.end_aligned
  ];
  within = λ i e at. elim (at_end layout.entries new e i at) [
    | inl old ↦ let fits = l.within i e old in omega arith
    | inr (last, is_new) ↦
        subst (λ (x : Entry). x.offset + x.nbytes ≤ (add layout size).nbytes) is_new (omega arith)
  ];
  apart = λ i j a b lt at_i at_j. elim (at_end layout.entries new a i at_i) [
    | inr (last_i, _) ↦ absurd (elim (at_end layout.entries new b j at_j) [
      | inl old ↦ let bound = lt_of_get_elem? layout.entries j old in omega arith
      | inr (last_j, _) ↦ omega arith
    ])
    | inl old_i ↦ elim (at_end layout.entries new b j at_j) [
      | inl old_j ↦ l.apart i j a b lt old_i old_j
      | inr (last, is_new) ↦
          subst (λ (x : Entry). a.offset + a.nbytes ≤ x.offset) is_new (l.within i a old_i)
    ]
  ];
}
  where
    new : Entry
    new = record { offset = layout.nbytes; nbytes = size }

add_all-IsLaidOut :
    (sizes : List ℕ) (layout : Layout) → IsLaidOut layout → IsLaidOut (add_all layout sizes)
unfolding add_all
add_all-IsLaidOut [] layout l = l
add_all-IsLaidOut (size ∷ sizes) layout l =
    add_all-IsLaidOut sizes (add layout size) (add-IsLaidOut layout size l)

empty-IsLaidOut : IsLaidOut empty
empty-IsLaidOut = record {
  end_aligned = (0, refl);
  aligned = λ i e at. absurd (cc);
  within = λ i e at. absurd (cc);
  apart = λ i j a b lt at_i at_j. absurd (cc);
}

map_shift :
    (xs : List Entry) (x : Entry) (sizes : List ℕ)
    → map (λ (e : Entry). e.nbytes) (xs ++ x ∷ []) ++ sizes
      ≡ map (λ (e : Entry). e.nbytes) xs ++ x.nbytes ∷ sizes
map_shift [] x sizes = refl
map_shift (y ∷ xs) x sizes = ap (λ rest. y.nbytes ∷ rest) (map_shift xs x sizes)

kept_sizes :
    (sizes : List ℕ) (layout : Layout)
    → map (λ (e : Entry). e.nbytes) (add_all layout sizes).entries
      ≡ map (λ (e : Entry). e.nbytes) layout.entries ++ sizes
unfolding add_all add
kept_sizes [] layout = sym (append-nil (map (λ (e : Entry). e.nbytes) layout.entries))
kept_sizes (size ∷ sizes) layout =
    kept_sizes sizes (add layout size)
    ∙ map_shift layout.entries (record { offset = layout.nbytes; nbytes = size }) sizes

-- The region of any tensors has one entry for each, of its size and in their order. The entries start
-- at multiples of 256, end before the next one starts, and lie within the region.
pub add_all_lem :
    (sizes : List ℕ)
    → IsLaidOut (add_all empty sizes)
      × (map (λ (e : Entry). e.nbytes) (add_all empty sizes).entries ≡ sizes)
add_all_lem sizes = (add_all-IsLaidOut sizes empty empty-IsLaidOut, kept_sizes sizes empty)
