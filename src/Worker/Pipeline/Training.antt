-- ===== src/Worker/Pipeline/Training.antt =====
-- executors/distributed.py, _send_batch: the micro-batches of a batch, one after the other.
use mathlib.Core.List.{map-id}
use native.Mathlib.Nat.{
  div-eq_of_lt, mod-eq_of_lt, mul-add-div_right, mul-add-mod_self_right, add-zero,
}
use torch_slicer.Common.{
  ℕ, zero, suc, ◌+◌, ◌-◌, ◌*◌, ◌%◌, ◌<◌, ltb, leb, ◌==◌, Bool, true, false, Option, none, some,
  List, [], ◌∷◌, ◌++◌, length, length-map, ◌≡◌, refl, sym, ap, ap₂, ◌∙◌, arith,
}
use torch_slicer.Worker.Stages.{
  Network, Servicer, Dict, with_key, is_last_micro, full_batch, loss_or, report_metrics, batch_done,
  no_hooks,
}
use torch_slicer.Worker.Dicts.{with_key-twice, with_key-same}
use torch_slicer.Worker.Pipeline.{Passed, Sent, pass_through, send_micros}
use torch_slicer.Worker.Pipeline.Backprop.{backprop, added_loss, train_step}
use torch_slicer.Worker.Pipeline.Chains.{
  IsChain, layers, losses, with_layers, settled, pass_through-eq,
}
use torch_slicer.Worker.Pipeline.Layering.{
  IsChain-with_layers, layers-with_layers, losses-IsChain, with_layers-with_layers, length-backprop,
}

-- The ids of the micro-batches of a batch.
module _ (n batch m : ℕ) (big : 1 < n) (here : m < n) where
  full_batch-id : full_batch n (batch * n + m) ≡ batch
  full_batch-id =
      let more : ltb 1 n ≡ true = ground arith in
      rw more (
        mul-add-div_right (omega arith) batch m
        ∙ ap (λ q. batch + q) (div-eq_of_lt here)
        ∙ add-zero batch)

  id-mod : (batch * n + m) % n ≡ m
  id-mod = mul-add-mod_self_right batch n m ∙ mod-eq_of_lt here

  is_last_micro-id : is_last_micro n (batch * n + m) ≡ (suc m == n)
  is_last_micro-id = let more : leb n 1 ≡ false = ground arith in rw more (rw id-mod (ground arith))

module _ {T F Layer : Type 0} (net : Network T F Layer) where
  length-train_step :
      (n b : ℕ) (ys : List Layer) (sum : F) (mains labels : List T)
      → length (train_step net n b ys sum mains labels).0 ≡ length ys
  length-train_step n b ys sum [] labels = refl
  length-train_step n b ys sum (x ∷ mains) [] = refl
  length-train_step n b ys sum (x ∷ []) (l ∷ labels) =
      length-map (net.optimize b) (backprop net n true ys x l).0 ∙ length-backprop net n true ys x l
  length-train_step n b ys sum (x ∷ v ∷ mains) (l ∷ labels) =
      length-train_step n b (backprop net n false ys x l).0 (added_loss net sum ys x l) (v ∷ mains)
        labels
      ∙ length-backprop net n false ys x l

  -- The result of a training step from some layers, sums of losses and a sum so far: the layers after it, and
  -- the average loss, which is reported once.
  abbrev pub stepped_to :
      (n last_id batch : ℕ) (mains labels : List T)
      → List (Servicer T F Layer)
      → List Layer
      → Dict F
      → Option F
      → Sent net
  stepped_to n last_id batch mains labels ws ys d sum =
      let step = train_step net n last_id ys (loss_or net.no_loss sum) mains labels in
      record {
        pipeline = with_layers ws step.0 (with_key d batch none);
        heard = report_metrics last_id (net.divide step.1 n) ∷ batch_done last_id ∷ [];
        complete = true;
      }

  abbrev pub trained :
      (n last_id batch : ℕ) (mains labels : List T) → List (Servicer T F Layer) → Sent net
  trained n last_id batch mains labels ws =
      stepped_to n last_id batch mains labels ws (layers ws) (losses ws) (losses ws batch)

  module _ (early : ℕ → Bool) (n batch last_id : ℕ) where
    -- A pipeline after a micro-batch that was not the last one, and the training step from there.
    trained-suc :
        (x v l : T) (mains labels : List T) (ws : List (Servicer T F Layer))
        → IsChain n batch false ws
        → trained n last_id batch (v ∷ mains) labels (
            with_layers ws (backprop net n false (layers ws) x l).0 (
              with_key
                (losses ws)
                batch
                (some (added_loss net (loss_or net.no_loss (losses ws batch)) (layers ws) x l))))
          ≡ trained n last_id batch (x ∷ v ∷ mains) (l ∷ labels) ws
    trained-suc x v l mains labels ws chain =
        let ys = (backprop net n false (layers ws) x l).0 in
        let sum = added_loss net (loss_or net.no_loss (losses ws batch)) (layers ws) x l in
        let d = with_key (losses ws) batch (some sum) in
        let us = with_layers ws ys d in
        let size = length-backprop net n false (layers ws) x l ∙ length-map (λ w. w.layer) ws in
        let steps = train_step net n last_id ys sum (v ∷ mains) labels in
        let fits = length-train_step n last_id ys sum (v ∷ mains) labels ∙ size in
        ap₂ (λ zs e. stepped_to n last_id batch (v ∷ mains) labels us zs e (e batch))
          (layers-with_layers ws ys d size) (losses-IsChain n batch false ws ys d chain size)
        ∙ ap (stepped_to n last_id batch (v ∷ mains) labels us ys d)
            (with_key-same (losses ws) batch (some sum))
        ∙ ap
            (λ us. record {
              pipeline = us;
              heard = report_metrics last_id (net.divide steps.1 n) ∷ batch_done last_id ∷ [];
              complete = true;
            })
            (with_layers-with_layers ws ys steps.0 d (with_key d batch none) size fits
              ∙ ap (with_layers ws steps.0) (with_key-twice (losses ws) batch (some sum) none))

    -- The loop goes on with the workers as a message's pass left them.
    abbrev rest_of : (m k : ℕ) → (mains labels : List T) → Passed T F Layer → Sent net
    rest_of m k mains labels ran =
        let rest = send_micros net no_hooks early n batch (m + 1) k mains labels ran.workers in
        record {
          pipeline = rest.pipeline;
          heard = ran.told ++ rest.heard;
          complete = rest.complete;
        }

    module _ (big : 1 < n) (ends_at : last_id ≡ batch * n + (n - 1)) where
      micro-eq :
          (m : ℕ) (x l : T) (ws : List (Servicer T F Layer))
          → m < n
          → IsChain n batch false ws
          → pass_through net no_hooks
              (early (batch * n + m))
              ws
              ((batch * n + m, x) ∷ [])
              ((batch * n + m, l) ∷ [])
            ≡ settled net (suc m == n) n (batch * n + m) batch false ws x l
      micro-eq m x l ws here chain =
          pass_through-eq net (early (batch * n + m)) false n (batch * n + m) batch ws x l
            (full_batch-id n batch m big here) chain
          ∙ ap (λ t. settled net t n (batch * n + m) batch false ws x l)
              (is_last_micro-id n batch m big here)

      pub micros-eq :
          (k m : ℕ) (mains labels : List T) (ws : List (Servicer T F Layer))
          → m + suc k ≡ n
          → length mains ≡ suc k
          → length labels ≡ suc k
          → IsChain n batch false ws
          → send_micros net no_hooks early n batch m (suc k) mains labels ws
            ≡ trained n last_id batch mains labels ws
      unfolding send_micros
      micros-eq k m [] labels ws ends e f chain = absurd (omega arith)
      micros-eq k m (x ∷ mains) [] ws ends e f chain = absurd (omega arith)
      micros-eq zero m (x ∷ v ∷ mains) (l ∷ labels) ws ends e f chain = absurd (omega arith)
      micros-eq zero m (x ∷ []) (l ∷ u ∷ labels) ws ends e f chain = absurd (omega arith)
      micros-eq (suc k) m (x ∷ []) (l ∷ labels) ws ends e f chain = absurd (omega arith)
      micros-eq zero m (x ∷ []) (l ∷ []) ws ends e f chain =
          let last : (suc m == n) ≡ true = ground arith in
          let at_end : batch * n + m ≡ last_id =
            ap (λ i. batch * n + i) (omega arith) ∙ sym ends_at in
          ap (rest_of m 0 [] []) (micro-eq m x l ws (omega arith) chain)
          ∙ ap (λ t. rest_of m 0 [] [] (settled net t n (batch * n + m) batch false ws x l)) last
          ∙ ap (λ i. trained n i batch (x ∷ []) (l ∷ []) ws) at_end
      micros-eq (suc k) m (x ∷ v ∷ mains) (l ∷ labels) ws ends e f chain =
          let early_one : (suc m == n) ≡ false = ground arith in
          let ys = (backprop net n false (layers ws) x l).0 in
          let sum = added_loss net (loss_or net.no_loss (losses ws batch)) (layers ws) x l in
          let d = with_key (losses ws) batch (some sum) in
          let rest = rest_of m (suc k) (v ∷ mains) labels in
          ap rest (micro-eq m x l ws (omega arith) chain)
          ∙ ap (λ t. rest (settled net t n (batch * n + m) batch false ws x l)) early_one
          ∙ ap
              (λ zs.
                send_micros net no_hooks early n batch (m + 1) (suc k) (v ∷ mains) labels
                  (with_layers ws zs d))
              (map-id ys)
          ∙ micros-eq k (m + 1) (v ∷ mains) labels (with_layers ws ys d) (omega arith) (omega arith)
              (omega arith) (IsChain-with_layers n batch false ws ys d chain)
          ∙ trained-suc x v l mains labels ws chain
