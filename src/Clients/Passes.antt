-- ===== src/Clients/Passes.antt =====
-- sl/clients.py, ClientSession._order: what one pass over the clients does for each of them.
use torch_slicer.Common.{
  ℕ, ◌≡◌, refl, sym, ap, ◌∙◌, Bool, true, false, not, ◌&&◌, List, [], ◌∷◌, ◌++◌, ◌==◌, ==_refl,
  ==_iff, if◌then◌else◌, is_nil, elem, arith, Bool-cases, inl, inr, subst, ◌⊎◌,
}
use torch_slicer.Clients.Views.{batches_of}
use torch_slicer.Clients.Order.{remove, all_of, Pass, left, pass}

-- No client twice.
abbrev pub IsDistinct : List ℕ → Type 0
IsDistinct [] = Unit
IsDistinct (x ∷ xs) = (elem x xs ≡ false) × IsDistinct xs

elem-remove :
    (j k : ℕ) (xs : List ℕ) → IsDistinct xs → elem j (remove k xs) ≡ (elem j xs && not (j == k))
unfolding remove
elem-remove j k [] d = refl
elem-remove j k (x ∷ xs) d =
    let rest = elem-remove j k xs d.1 in
    elim (Bool-cases (x == k)) [
      | inl e ↦ rw e (elim (Bool-cases (j == k)) [
        | inl at ↦
            let here : x ≡ j = (==_iff x k).0 e ∙ sym ((==_iff j k).0 at) in
            let fresh : elem j xs ≡ false = subst (λ y. elem y xs ≡ false) here d.0 in ground arith
        | inr away ↦ ground arith
      ])
      | inr ne ↦ rw (ne, rest) (ground arith)
    ]

remove-IsDistinct : (k : ℕ) (xs : List ℕ) → IsDistinct xs → IsDistinct (remove k xs)
unfolding remove
remove-IsDistinct k [] d = tt
remove-IsDistinct k (x ∷ xs) d = elim (Bool-cases (x == k)) [
  | inl e ↦ rw e d.1
  | inr ne ↦
      rw ne (elem-remove x k xs d.1 ∙ ap (λ b. b && not (x == k)) d.0, remove-IsDistinct k xs d.1)
]

module _ {B : Type 0} where
  pub batches_of-append :
      (k : ℕ) (xs ys : List (ℕ × B)) → batches_of k (xs ++ ys) ≡ batches_of k xs ++ batches_of k ys
  unfolding batches_of
  batches_of-append k [] ys = refl
  batches_of-append k ((c, b) ∷ xs) ys = elim (Bool-cases (c == k)) [
    | inl e ↦ rw e (ap (λ bs. b ∷ bs) (batches_of-append k xs ys))
    | inr ne ↦ rw ne (batches_of-append k xs ys)
  ]

  pub batches_of-all_of : (k : ℕ) (bs : List B) → batches_of k (all_of k bs) ≡ bs
  unfolding batches_of all_of
  batches_of-all_of k [] = refl
  batches_of-all_of k (b ∷ bs) = rw (==_refl k) (ap (λ xs. b ∷ xs) (batches_of-all_of k bs))

  pub batches_of-other :
      (k j : ℕ) (bs : List B) → (j == k) ≡ false → batches_of k (all_of j bs) ≡ []
  unfolding batches_of all_of
  batches_of-other k j [] ne = refl
  batches_of-other k j (b ∷ bs) ne = rw ne (batches_of-other k j bs ne)

  pub List-cases : (xs : List B) → (xs ≡ []) ⊎ ((b : B) × (bs : List B) × (xs ≡ b ∷ bs))
  List-cases [] = inl refl
  List-cases (b ∷ bs) = inr (b, bs, refl)

  module _ (k : ℕ) (ks live : List ℕ) (its : ℕ → List B) where
    abbrev go : List B → Pass B
    go bs = elim bs [
      | [] ↦ pass ks (remove k live) its
      | batch ∷ rest ↦
          let next = pass ks live (left k rest its) in
          record next { yielded = (k, batch) ∷ next.yielded }
    ]

    pass-done : its k ≡ [] → pass (k ∷ ks) live its ≡ pass ks (remove k live) its
    unfolding pass
    pass-done e = ap go e

    pass-more :
        (b : B) (bs : List B)
        → its k ≡ b ∷ bs
        → pass (k ∷ ks) live its ≡ (
            let next = pass ks live (left k bs its) in
            record next { yielded = (k, b) ∷ next.yielded })
    unfolding pass
    pass-more b bs e = ap go e

  pub pass-IsDistinct :
      (ks live : List ℕ) (its : ℕ → List B) → IsDistinct live → IsDistinct (pass ks live its).live
  unfolding pass
  pass-IsDistinct [] live its d = d
  pass-IsDistinct (k ∷ ks) live its d = elim (List-cases (its k)) [
    | inl e ↦
        subst (λ (p : Pass B). IsDistinct p.live) (sym (pass-done k ks live its e))
          (pass-IsDistinct ks (remove k live) its (remove-IsDistinct k live d))
    | inr (b, bs, e) ↦
        subst (λ (p : Pass B). IsDistinct p.live) (sym (pass-more k ks live its b bs e))
          (pass-IsDistinct ks live (left k bs its) d)
  ]

  -- What a pass does for a client: its turns, what is left of its loader, and whether it is left.
  pub record Served (j : ℕ) (p : Pass B) (batches rest : List B) (stays : Bool) : Type 0 where
    pub turns : batches_of j p.yielded ≡ batches
    pub rest_eq : p.its j ≡ rest
    pub live_eq : elem j p.live ≡ stays

  -- One turn of client `k` before a pass.
  Served-more :
      (j k : ℕ) (b : B) (next : Pass B) (batches rest : List B) (stays : Bool)
      → Served j next batches rest stays
      → Served j
          (record next { yielded = (k, b) ∷ next.yielded })
          (if k == j then b ∷ batches else batches)
          rest
          stays
  unfolding batches_of
  Served-more j k b next batches rest stays s = record {
    turns = ap (λ bs. if k == j then b ∷ bs else bs) s.turns;
    rest_eq = s.rest_eq;
    live_eq = s.live_eq;
  }

  -- A client that the pass does not reach.
  pub pass-outside :
      (j : ℕ) (ks live : List ℕ) (its : ℕ → List B)
      → IsDistinct live
      → elem j ks ≡ false
      → Served j (pass ks live its) [] (its j) (elem j live)
  unfolding pass batches_of
  pass-outside j [] live its d out = record { turns = refl; rest_eq = refl; live_eq = refl }
  pass-outside j (k ∷ ks) live its d out =
      let away : k == j ≡ false = ground arith in
      let away' : j == k ≡ false = ground arith in
      let later : elem j ks ≡ false = ground arith in
      elim (List-cases (its k)) [
        | inl e ↦
            let rest = pass-outside j ks (remove k live) its (remove-IsDistinct k live d) later in
            let still : elem j (remove k live) ≡ elem j live =
              elem-remove j k live d ∙ ground arith in
            subst (λ p. Served j p [] (its j) (elem j live)) (sym (pass-done k ks live its e))
              (subst (Served j (pass ks (remove k live) its) [] (its j)) still rest)
        | inr (b, bs, e) ↦
            let rest = pass-outside j ks live (left k bs its) d later in
            let kept : left k bs its j ≡ its j = rw away' refl in
            let more =
              Served-more j k b (pass ks live (left k bs its)) [] (its j) (elem j live) (
                subst (λ l. Served j (pass ks live (left k bs its)) [] l (elem j live)) kept
                  rest) in
            subst (λ p. Served j p [] (its j) (elem j live)) (sym (pass-more k ks live its b bs e))
              (rw away at more)
      ]

  -- The batch that a pass takes from a loader, and what it leaves.
  abbrev pub taken : List B → List B
  taken [] = []
  taken (b ∷ bs) = b ∷ []

  abbrev pub kept_back : List B → List B
  kept_back [] = []
  kept_back (b ∷ bs) = bs

  -- A client that the pass reaches once.
  pub pass-inside :
      (j : ℕ) (ks live : List ℕ) (its : ℕ → List B)
      → IsDistinct ks
      → IsDistinct live
      → elem j ks ≡ true
      → Served j
          (pass ks live its)
          (taken (its j))
          (kept_back (its j))
          (if is_nil (its j) then false else elem j live)
  pass-inside j [] live its dk d mem = absurd (cc)
  pass-inside j (k ∷ ks) live its dk d mem = elim (Bool-cases (k == j)) [
    | inl here ↦
        let same : k ≡ j = (==_iff k j).0 here in
        let gone : elem j ks ≡ false = subst (λ x. elem x ks ≡ false) same dk.0 in
        let here' : j == k ≡ true = ground arith in
        elim (List-cases (its k)) [
          | inl e ↦
              let at : its j ≡ [] = subst (λ x. its x ≡ []) same e in
              let rest = pass-outside j ks (remove k live) its (remove-IsDistinct k live d) gone in
              let out : elem j (remove k live) ≡ false = elem-remove j k live d ∙ ground arith in
              subst
                (λ p.
                  Served j p (taken (its j)) (kept_back (its j))
                    (if is_nil (its j) then false else elem j live))
                (sym (pass-done k ks live its e))
                (rw at (
                  subst (Served j (pass ks (remove k live) its) [] []) out (
                    subst
                      (λ l. Served j (pass ks (remove k live) its) [] l (elem j (remove k live))) at
                      rest)))
          | inr (b, bs, e) ↦
              let at : its j ≡ b ∷ bs = subst (λ x. its x ≡ b ∷ bs) same e in
              let rest = pass-outside j ks live (left k bs its) d gone in
              let mine : left k bs its j ≡ bs = rw here' refl in
              let more = Served-more j k b (pass ks live (left k bs its)) [] bs (elem j live) (
                subst (λ l. Served j (pass ks live (left k bs its)) [] l (elem j live)) mine
                  rest) in
              subst
                (λ p.
                  Served j p (taken (its j)) (kept_back (its j))
                    (if is_nil (its j) then false else elem j live))
                (sym (pass-more k ks live its b bs e)) (rw at (rw here at more))
        ]
    | inr away ↦
        let away' : j == k ≡ false = ground arith in
        let later : elem j ks ≡ true = ground arith in
        elim (List-cases (its k)) [
          | inl e ↦
              let rest =
                pass-inside j ks (remove k live) its dk.1 (remove-IsDistinct k live d) later in
              let still : elem j (remove k live) ≡ elem j live =
                elem-remove j k live d ∙ ground arith in
              subst
                (λ p.
                  Served j p (taken (its j)) (kept_back (its j))
                    (if is_nil (its j) then false else elem j live))
                (sym (pass-done k ks live its e))
                (subst
                  (λ s.
                    Served j (pass ks (remove k live) its) (taken (its j)) (kept_back (its j))
                      (if is_nil (its j) then false else s))
                  still rest)
          | inr (b, bs, e) ↦
              let rest = pass-inside j ks live (left k bs its) dk.1 d later in
              let kept : left k bs its j ≡ its j = rw away' refl in
              let rest' =
                subst
                  (λ l.
                    Served j (pass ks live (left k bs its)) (taken l) (kept_back l)
                      (if is_nil l then false else elem j live))
                  kept rest in
              let more =
                Served-more j k b (pass ks live (left k bs its)) (taken (its j)) (kept_back (its j))
                  (if is_nil (its j) then false else elem j live) rest' in
              subst
                (λ p.
                  Served j p (taken (its j)) (kept_back (its j))
                    (if is_nil (its j) then false else elem j live))
                (sym (pass-more k ks live its b bs e)) (rw away at more)
        ]
  ]
