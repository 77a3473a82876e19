-- ===== src/Clients/Fair.antt =====
-- sl/clients.py, ClientSession._order: every batch of every client comes once, and a client's batches
-- come in its loader's order.
use torch_slicer.Common.{
  ℕ, zero, suc, ◌<◌, ◌≡◌, refl, sym, ap, ap₂, ◌∙◌, true, false, List, [], ◌∷◌, ◌++◌, ◌==◌, ==_iff,
  length, elem, arith, Bool-cases, inl, inr, subst,
}
use mathlib.Core.List.{append-nil}
use torch_slicer.Clients.{Mode, sequential, parallel}
use torch_slicer.Clients.Views.{batches_of}
use torch_slicer.Clients.Order.{all_of, one_by_one, pass, in_turn, order}
use torch_slicer.Clients.Passes.{
  IsDistinct, batches_of-append, batches_of-all_of, batches_of-other, List-cases, pass-IsDistinct,
  pass-outside, pass-inside,
}

module _ {B : Type 0} where
  in_turn-outside :
      (j rounds : ℕ) (live : List ℕ) (its : ℕ → List B)
      → IsDistinct live
      → elem j live ≡ false
      → batches_of j (in_turn rounds live its) ≡ []
  unfolding in_turn batches_of
  in_turn-outside j zero live its d out = refl
  in_turn-outside j (suc rounds) [] its d out = refl
  in_turn-outside j (suc rounds) (k ∷ ks) its d out =
      let live = k ∷ ks in
      let p = pass live live its in
      let s = pass-outside j live live its d out in
      let later =
        in_turn-outside j rounds p.live p.its (pass-IsDistinct live live its d) (s.live_eq ∙ out) in
      batches_of-append j p.yielded (in_turn rounds p.live p.its)
      ∙ ap₂ (λ xs ys. xs ++ ys) s.turns later

  in_turn-inside :
      (j rounds : ℕ) (live : List ℕ) (its : ℕ → List B)
      → IsDistinct live
      → elem j live ≡ true
      → length (its j) < rounds
      → batches_of j (in_turn rounds live its) ≡ its j
  unfolding in_turn
  in_turn-inside j zero live its d mem lt = absurd (omega arith)
  in_turn-inside j (suc rounds) [] its d mem lt = absurd (cc)
  in_turn-inside j (suc rounds) (k ∷ ks) its d mem lt =
      let live = k ∷ ks in
      let p = pass live live its in
      let s = pass-inside j live live its d d mem in
      let next = pass-IsDistinct live live its d in
      batches_of-append j p.yielded (in_turn rounds p.live p.its) ∙ (elim (List-cases (its j)) [
        | inl e ↦
            let out : elem j p.live ≡ false = rw e at s.live_eq in
            ap₂ (λ xs ys. xs ++ ys) s.turns (in_turn-outside j rounds p.live p.its next out)
            ∙ rw e refl
        | inr (b, bs, e) ↦
            let still : elem j p.live ≡ true = (rw e at s.live_eq) ∙ mem in
            let rest : p.its j ≡ bs = rw e at s.rest_eq in
            let shorter : length (p.its j) < rounds =
              let whole = ap length e in let left_over = ap length rest in omega arith in
            ap₂ (λ xs ys. xs ++ ys) s.turns
              (in_turn-inside j rounds p.live p.its next still shorter ∙ rest)
            ∙ rw e refl
      ])

  one_by_one-outside :
      (j : ℕ) (loaders : ℕ → List B) (ks : List ℕ)
      → elem j ks ≡ false
      → batches_of j (one_by_one loaders ks) ≡ []
  unfolding one_by_one batches_of
  one_by_one-outside j loaders [] out = refl
  one_by_one-outside j loaders (k ∷ ks) out =
      batches_of-append j (all_of k (loaders k)) (one_by_one loaders ks)
      ∙ ap₂ (λ xs ys. xs ++ ys) (batches_of-other j k (loaders k) (ground arith))
          (one_by_one-outside j loaders ks (ground arith))

  one_by_one-inside :
      (j : ℕ) (loaders : ℕ → List B) (ks : List ℕ)
      → IsDistinct ks
      → elem j ks ≡ true
      → batches_of j (one_by_one loaders ks) ≡ loaders j
  unfolding one_by_one
  one_by_one-inside j loaders [] d mem = absurd (cc)
  one_by_one-inside j loaders (k ∷ ks) d mem =
      batches_of-append j (all_of k (loaders k)) (one_by_one loaders ks)
      ∙ elim (Bool-cases (k == j)) [
        | inl here ↦
            let same : k ≡ j = (==_iff k j).0 here in
            let gone : elem j ks ≡ false = subst (λ x. elem x ks ≡ false) same d.0 in
            let mine : batches_of j (all_of k (loaders k)) ≡ loaders j =
              subst (λ x. batches_of j (all_of x (loaders x)) ≡ loaders j) (sym same)
                (batches_of-all_of j (loaders j)) in
            ap₂ (λ xs ys. xs ++ ys) mine (one_by_one-outside j loaders ks gone)
            ∙ append-nil (loaders j)
        | inr away ↦
            ap₂ (λ xs ys. xs ++ ys) (batches_of-other j k (loaders k) away)
              (one_by_one-inside j loaders ks d.1 (ground arith))
      ]

  -- In both modes every batch of a participating client comes once, in the order of the client's
  -- loader; the clients are distinct, and in a parallel round there are more passes than the client
  -- has batches.
  pub order_lem :
      (mode : Mode) (rounds : ℕ) (loaders : ℕ → List B) (clients : List ℕ) (j : ℕ)
      → IsDistinct clients
      → elem j clients ≡ true
      → length (loaders j) < rounds
      → batches_of j (order mode rounds loaders clients) ≡ loaders j
  unfolding order
  order_lem sequential rounds loaders clients j d mem lt = one_by_one-inside j loaders clients d mem
  order_lem parallel rounds loaders clients j d mem lt =
      in_turn-inside j rounds clients loaders d mem lt
