-- ===== src/Worker/Pipeline/Layering.antt =====
-- executors/worker.py: a pipeline whose layers and sums of losses are replaced.
use torch_slicer.Common.{
  ℕ, suc, Bool, true, false, List, [], ◌∷◌, is_nil, length, ◌≡◌, refl, ap, ◌∙◌, arith,
}
use torch_slicer.Worker.Stages.{Network, Servicer, Dict}
use torch_slicer.Worker.Pipeline.Backprop.{backprop}
use torch_slicer.Worker.Pipeline.Hops.{with_state}
use torch_slicer.Worker.Pipeline.Chains.{Part, IsChain, layers, losses, with_layers}

module _ {T F Layer : Type 0} where
  Part-with_state :
      {n batch : ℕ} {p last : Bool}
      → (w : Servicer T F Layer) (y : Layer) (d : Dict F) → Part n batch p last w
      → Part n batch p last (with_state w y d)
  Part-with_state w y d h = record {
    has_prev_eq = h.has_prev_eq;
    is_last_eq = h.is_last_eq;
    n_micro_eq = h.n_micro_eq;
    no_output = h.no_output;
    no_label = h.no_label;
  }

  IsChain-cons :
      {n batch : ℕ} {p : Bool}
      → (w : Servicer T F Layer) (us : List (Servicer T F Layer)) → Part n batch p false w
      → IsChain n batch true us
      → IsChain n batch p (w ∷ us)
  IsChain-cons w [] part chain = absurd chain
  IsChain-cons w (u ∷ us) part chain = (part, chain)

  pub IsChain-with_layers :
      (n batch : ℕ) (p : Bool) (ws : List (Servicer T F Layer)) (ys : List Layer) (d : Dict F)
      → IsChain n batch p ws
      → IsChain n batch p (with_layers ws ys d)
  IsChain-with_layers n batch p [] ys d chain = absurd chain
  IsChain-with_layers n batch p (w ∷ []) [] d h = h
  IsChain-with_layers n batch p (w ∷ v ∷ ws) [] d h = h
  IsChain-with_layers n batch p (w ∷ []) (y ∷ ys) d h = Part-with_state w y d h
  IsChain-with_layers n batch p (w ∷ v ∷ ws) (y ∷ ys) d h =
      IsChain-cons (with_state w y w.micro_losses) (with_layers (v ∷ ws) ys d)
        (Part-with_state w y w.micro_losses h.0)
        (IsChain-with_layers n batch true (v ∷ ws) ys d h.1)

  -- The last worker is not the first one, if there are others.
  is_nil-with_layers :
      (w : Servicer T F Layer) (ws : List (Servicer T F Layer)) (ys : List Layer) (d : Dict F)
      → is_nil (with_layers (w ∷ ws) ys d) ≡ false
  is_nil-with_layers w [] [] d = refl
  is_nil-with_layers w (v ∷ ws) [] d = refl
  is_nil-with_layers w [] (y ∷ ys) d = refl
  is_nil-with_layers w (v ∷ ws) (y ∷ ys) d = refl

  losses-cons :
      (w : Servicer T F Layer) (us : List (Servicer T F Layer))
      → is_nil us ≡ false
      → losses (w ∷ us) ≡ losses us
  losses-cons w [] e = absurd (cc)
  losses-cons w (u ∷ us) e = refl

  with_layers-cons :
      (w : Servicer T F Layer) (us : List (Servicer T F Layer)) (z : Layer) (zs : List Layer)
      (e : Dict F)
      → is_nil us ≡ false
      → with_layers (w ∷ us) (z ∷ zs) e ≡ with_state w z w.micro_losses ∷ with_layers us zs e
  with_layers-cons w [] z zs e more = absurd (cc)
  with_layers-cons w (u ∷ us) z zs e more = refl

  pub layers-with_layers :
      (ws : List (Servicer T F Layer)) (ys : List Layer) (d : Dict F)
      → length ys ≡ length ws
      → layers (with_layers ws ys d) ≡ ys
  layers-with_layers [] [] d e = refl
  layers-with_layers [] (y ∷ ys) d e = absurd (omega arith)
  layers-with_layers (w ∷ ws) [] d e = absurd (omega arith)
  layers-with_layers (w ∷ []) (y ∷ []) d e = refl
  layers-with_layers (w ∷ []) (y ∷ z ∷ ys) d e = absurd (omega arith)
  layers-with_layers (w ∷ v ∷ ws) (y ∷ ys) d e =
      ap (λ zs. y ∷ zs) (layers-with_layers (v ∷ ws) ys d (omega arith))

  losses-with_layers :
      (w : Servicer T F Layer) (ws : List (Servicer T F Layer)) (ys : List Layer) (d : Dict F)
      → length ys ≡ length (w ∷ ws)
      → losses (with_layers (w ∷ ws) ys d) ≡ d
  losses-with_layers w ws [] d e = absurd (omega arith)
  losses-with_layers w [] (y ∷ ys) d e = refl
  losses-with_layers w (v ∷ ws) (y ∷ ys) d e =
      losses-cons (with_state w y w.micro_losses) (with_layers (v ∷ ws) ys d)
        (is_nil-with_layers v ws ys d)
      ∙ losses-with_layers v ws ys d (omega arith)

  pub losses-IsChain :
      (n batch : ℕ) (p : Bool) (ws : List (Servicer T F Layer)) (ys : List Layer) (d : Dict F)
      → IsChain n batch p ws
      → length ys ≡ length ws
      → losses (with_layers ws ys d) ≡ d
  losses-IsChain n batch p [] ys d chain e = absurd chain
  losses-IsChain n batch p (w ∷ ws) ys d chain e = losses-with_layers w ws ys d e

  pub with_layers-with_layers :
      (ws : List (Servicer T F Layer)) (ys zs : List Layer) (d e : Dict F)
      → length ys ≡ length ws
      → length zs ≡ length ws
      → with_layers (with_layers ws ys d) zs e ≡ with_layers ws zs e
  with_layers-with_layers [] ys zs d e p q = refl
  with_layers-with_layers (w ∷ ws) [] zs d e p q = absurd (omega arith)
  with_layers-with_layers (w ∷ ws) (y ∷ ys) [] d e p q = absurd (omega arith)
  with_layers-with_layers (w ∷ []) (y ∷ ys) (z ∷ zs) d e p q = refl
  with_layers-with_layers (w ∷ v ∷ ws) (y ∷ ys) (z ∷ zs) d e p q =
      with_layers-cons (with_state w y w.micro_losses) (with_layers (v ∷ ws) ys d) z zs e
        (is_nil-with_layers v ws ys d)
      ∙ ap (λ us. with_state w z w.micro_losses ∷ us)
          (with_layers-with_layers (v ∷ ws) ys zs d e (omega arith) (omega arith))

module _ {T F Layer : Type 0} (net : Network T F Layer) where
  pub length-backprop :
      (n : ℕ) (last : Bool) (ys : List Layer) (x l : T)
      → length (backprop net n last ys x l).0 ≡ length ys
  length-backprop n last [] x l = refl
  length-backprop n last (y ∷ []) x l = refl
  length-backprop n last (y ∷ z ∷ ys) x l =
      ap suc (length-backprop n last (z ∷ ys) (net.output y x) l)
