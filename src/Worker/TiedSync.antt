-- ===== src/Worker/TiedSync.antt =====
-- executors/worker.py: the optimizer step of workers that hold copies of one parameter.
use torch_slicer.Common.{
  ℕ, ltb, ◌==◌, ◌&&◌, Bool, not, Option, none, some, List, [], ◌∷◌, ◌++◌, if◌then◌else◌, is_nil,
  length, Result, ok, require, ◌>>=◌, ◌>>◌,
}

-- A worker's part in a tied group: `stubs` are the workers of the other copies.
pub record TiedRef : Type 0 where
  pub group : ℕ
  pub owner : Bool
  pub stubs : List ℕ
  pub requires_grad : Bool

pub record Copies (V G : Type 0) : Type 0 where
  pub token : ℕ
  pub tied : List TiedRef
  -- the tied parameters and their gradients, by group
  pub values : ℕ → V
  pub grads : ℕ → Option G
  -- _tied_grads, by group and key
  pub inbox : ℕ → ℕ → List G

pub data TiedError : Type 0 where
  missing_gradient : TiedError

-- What the code calls of torch: `step` and `cleared` are layer.optimize on the tied parameters.
pub record Optimizer (V G : Type 0) : Type 0 where
  pub zeros_like : V → G
  pub plus : G → G → G
  pub step : (ℕ → V) → (ℕ → Option G) → ℕ → V
  pub cleared : (ℕ → Option G) → ℕ → Option G

-- The workers.
abbrev pub System : Type 0 → Type 0 → Type 0
System V G = ℕ → Copies V G

abbrev pub put_value : {A : Type 0} → (ℕ → A) → ℕ → A → ℕ → A
put_value f k a x = if x == k then a else f x

abbrev pub synced : List TiedRef → List TiedRef
synced [] = []
synced (t ∷ ts) = if not (is_nil t.stubs) && t.requires_grad then t ∷ synced ts else synced ts

-- t["stubs"][0]
abbrev pub first_stub : {A : Type 0} → List ℕ → (ℕ → A) → A → A
first_stub [] f a = a
first_stub (s ∷ ss) f a = f s

abbrev pub grad_or : {G : Type 0} → G → Option G → G
grad_or zeros none = zeros
grad_or zeros (some g) = g

module _ {V G : Type 0} where
  abbrev pub with_inbox : Copies V G → ℕ → ℕ → List G → Copies V G
  with_inbox c group key gs = record {
    token = c.token;
    tied = c.tied;
    values = c.values;
    grads = c.grads;
    inbox = λ g k. if (g == group) && (k == key) then gs else c.inbox g k;
  }

  abbrev pub with_grad : Copies V G → ℕ → Option G → Copies V G
  with_grad c group g = record {
    token = c.token;
    tied = c.tied;
    values = c.values;
    grads = put_value c.grads group g;
    inbox = c.inbox;
  }

  abbrev pub with_value : Copies V G → ℕ → V → Copies V G
  with_value c group v = record {
    token = c.token;
    tied = c.tied;
    values = put_value c.values group v;
    grads = c.grads;
    inbox = c.inbox;
  }

  unfoldable pub tied_grad : (token group key : ℕ) → G → Copies V G → Copies V G
  tied_grad token group key g c =
      if token == c.token then with_inbox c group key (c.inbox group key ++ g ∷ []) else c

  -- The loop that copies the value into the parameter of the group.
  abbrev pub copy_to : List TiedRef → ℕ → V → Copies V G → Copies V G
  copy_to [] group v c = c
  copy_to (t ∷ ts) group v c =
      copy_to ts group v (if t.group == group then with_value c group v else c)

  unfoldable pub tied_update : (token group : ℕ) → V → Copies V G → Copies V G
  tied_update token group v c = if token == c.token then copy_to c.tied group v c else c

  -- A call changes one worker.
  abbrev pub on_worker : ℕ → (Copies V G → Copies V G) → System V G → System V G
  on_worker i f sys = put_value sys i (f (sys i))

module _ {V G : Type 0} (opt : Optimizer V G) where
  -- _optimize of worker `i`, the loop that hands the replicas' gradients over
  unfoldable pub hand_over : ℕ → ℕ → List TiedRef → System V G → System V G
  unfolding tied_grad
  hand_over i key [] sys = sys
  hand_over i key (t ∷ ts) sys =
      let c = sys i in
      let g = grad_or (opt.zeros_like (c.values t.group)) (c.grads t.group) in
      let sent = first_stub t.stubs (λ s. on_worker s (tied_grad c.token t.group key g) sys) sys in
      hand_over i key ts (if t.owner then sys else on_worker i (λ d. with_grad d t.group none) sent)

  abbrev pub total_of : G → List G → G
  total_of g [] = g
  total_of g (h ∷ hs) = total_of (opt.plus g h) hs

  -- p.grad = total if p.grad is None else p.grad + total
  abbrev pub with_own : Option G → List G → Option G
  with_own own [] = own
  with_own none (g ∷ gs) = some (total_of g gs)
  with_own (some own) (g ∷ gs) = some (opt.plus own (total_of g gs))

  -- the owner's loop: the wait ends with the gradients, or with its timeout
  unfoldable pub collect : ℕ → List TiedRef → Copies V G → Result TiedError (Copies V G)
  collect key [] c = ok c
  collect key (t ∷ ts) c =
      let gs = c.inbox t.group key in
      let taken = with_grad (with_inbox c t.group key []) t.group (with_own (c.grads t.group) gs) in
      if t.owner
      then require (not (ltb (length gs) (length t.stubs))) missing_gradient >> collect key ts taken
      else collect key ts c

  -- self.layer.optimize()
  abbrev pub stepped : Copies V G → Copies V G
  stepped c = record {
    token = c.token;
    tied = c.tied;
    values = opt.step c.values c.grads;
    grads = opt.cleared c.grads;
    inbox = c.inbox;
  }

  abbrev pub push_to : List ℕ → (token group : ℕ) → V → System V G → System V G
  push_to [] token group v sys = sys
  push_to (s ∷ ss) token group v sys =
      push_to ss token group v (on_worker s (tied_update token group v) sys)

  -- the loop that pushes the owner's values
  unfoldable pub publish : ℕ → List TiedRef → System V G → System V G
  unfolding tied_update
  publish i [] sys = sys
  publish i (t ∷ ts) sys =
      publish i ts (
        if t.owner then push_to t.stubs (sys i).token t.group ((sys i).values t.group) sys else sys)

  -- _optimize from the owner's loop on
  unfoldable pub finish_optimize : ℕ → ℕ → System V G → Result TiedError (System V G)
  unfolding collect publish
  finish_optimize i key sys = collect key (synced (sys i).tied) (sys i) >>= λ c.
      ok (publish i (synced c.tied) (on_worker i (λ d. stepped c) sys))

  -- _optimize of the replicas, in the order of the list: each hands over and takes its own step.
  unfoldable pub hand_all : ℕ → List ℕ → System V G → System V G
  unfolding hand_over
  hand_all key [] sys = sys
  hand_all key (r ∷ rs) sys =
      hand_all key rs (on_worker r (λ d. stepped d) (hand_over r key (synced (sys r).tied) sys))
