-- ===== src/Worker/Dispatch.antt =====
-- executors/worker.py, _handle_tensor_conn: the first byte of a frame says how to read the rest.
use torch_slicer.Common.{
  inl, ℕ, suc, ◌-◌, min, ◌≡◌, refl, ap, ◌∙◌, subst, arith, true, Option, some, List, [], ◌∷◌, ◌++◌,
  length, take, drop, ok, raise, Bool,
}
use torch_slicer.Worker.Wire.{
  Tensor, Direction, forward, backward, Body, by_value, by_handle, Message, kind_byte, lower_case,
  frame_of,
}
use torch_slicer.Worker.Frames.{
  Event, arrived, Read, stream_closed, Work, fill, read_tensor_frame_rest, read_ipc_frame_rest,
  read_rest, read_frame,
}
use torch_slicer.Worker.Arrivals.{IsServed, Gives, fill-arrived}
use torch_slicer.Worker.Delivery.{IsTensor, work_of}
use torch_slicer.Worker.Cuts.{Fails, IsMissing}
use torch_slicer.Worker.Messages.{Carries, value_frame, handle_frame}

abbrev pub tensor_of : Body → Tensor
tensor_of (by_value t) = t
tensor_of (by_handle t) = t

-- What the message is for the worker that gets it.
abbrev pub delivered : Message → Work
delivered m = work_of m.direction m.batch_id (tensor_of m.body) m.context

module _ (dumps : Tensor → List ℕ) (loads : List ℕ → Option Tensor) (acks : List ℕ → Bool) where
  -- A tensor with elements, or a handle that the receiver can open and answer.
  abbrev pub IsSent : Body → Type 0
  IsSent (by_value t) = IsTensor t
  IsSent (by_handle t) = (loads (dumps t) ≡ some t) × (acks (dumps t) ≡ true)

  fill_kind :
      (k : ℕ) (events : List Event) (b : ℕ) (s : List ℕ)
      → fill true [] 1 (arrived k ∷ events) (b ∷ s) ≡ ok (b ∷ [], events, s)
  unfolding fill
  fill_kind k events b s =
      fill-arrived true [] 0 k events b s
      ∙ ap
          (λ m.
            fill true ([] ++ (b ∷ take m s)) (0 - length (take m s)) events
              (drop (length (take m s)) s))
          (let e : min k 0 ≡ 0 = omega arith in e)

  read_frame-kind :
      (k : ℕ) (events : List Event) (kind : ℕ) (s : List ℕ)
      → read_frame loads acks (arrived k ∷ events) (kind ∷ s)
        ≡ read_rest loads acks (kind ∷ []) events s
  unfolding read_frame
  read_frame-kind k events kind s = rw (fill_kind k events kind s) refl

  pub read_frame-ended :
      (k : ℕ) (events : List Event)
      → read_frame loads acks (arrived k ∷ events) [] ≡ raise stream_closed
  unfolding read_frame fill
  read_frame-ended k events = rw (let e : min (suc k) 1 ≡ 1 = omega arith in e) refl

  -- What reads a message's frame after its kind.
  abbrev pub reader : Message → List Event → List ℕ → Read Work
  reader m = elim m.body [
    | by_value t ↦ read_tensor_frame_rest m.direction
    | by_handle t ↦ read_ipc_frame_rest loads acks m.direction
  ]

  abbrev pub kind_of : Message → ℕ
  kind_of m = elim m.body [
    | by_value t ↦ kind_byte m.direction
    | by_handle t ↦ lower_case (kind_byte m.direction)
  ]

  read_rest-reader :
      (direction : Direction) (id : ℕ) (body : Body) (c : List ℕ) (events : List Event) (s : List ℕ)
      → let m : Message = record {
        direction = direction;
        batch_id = id;
        body = body;
        context = c;
      } in
        read_rest loads acks (kind_of m ∷ []) events s ≡ reader m events s
  unfolding read_rest
  read_rest-reader forward id (by_value t) c events s = refl
  read_rest-reader backward id (by_value t) c events s = refl
  read_rest-reader forward id (by_handle t) c events s = refl
  read_rest-reader backward id (by_handle t) c events s = refl

  pub frame-Carries :
      (direction : Direction) (id : ℕ) (body : Body) (c : List ℕ) {frame : List ℕ}
      → IsSent body
      → let m : Message = record {
        direction = direction;
        batch_id = id;
        body = body;
        context = c;
      } in
        frame_of dumps m ≡ ok frame → Carries (reader m) (kind_of m) (delivered m) frame
  unfolding frame_of
  frame-Carries direction id (by_value t) c h e =
      value_frame direction (kind_byte direction) id t c h e
  frame-Carries direction id (by_handle t) c h e =
      handle_frame dumps loads acks direction (lower_case (kind_byte direction)) id t c h.0 h.1 e

  module _ (m : Message) (k : ℕ) (events : List Event) (frame : List ℕ)
      (carries : Carries (reader m) (kind_of m) (delivered m) frame) where
    begin_frame :
        (s : List ℕ)
        → read_frame loads acks (arrived k ∷ events) (kind_of m ∷ s) ≡ reader m events s
    begin_frame s =
        read_frame-kind k events (kind_of m) s
        ∙ read_rest-reader m.direction m.batch_id m.body m.context events s

    pub read_frame_lem :
        (rest : List ℕ)
        → IsServed (frame ++ rest) (arrived k ∷ events)
        → Gives
            (read_frame loads acks (arrived k ∷ events) (frame ++ rest))
            (delivered m)
            events
            rest
    read_frame_lem rest served =
        let front : frame ++ rest ≡ kind_of m ∷ (carries.0 ++ rest) =
          ap (λ f. f ++ rest) carries.1 in
        let there = subst (λ s. IsServed s (arrived k ∷ events)) front served in
        let r = carries.2 events rest (omega arith) in
        (
          r.0,
          ap (read_frame loads acks (arrived k ∷ events)) front
              ∙ begin_frame (carries.0 ++ rest)
              ∙ r.1,
          r.2,
          r.3,
        )

    -- The frame without its end, or nothing of it.
    pub read_frame_cut :
        (p q : List ℕ)
        → p ++ q ≡ frame
        → IsMissing q
        → IsServed p (arrived k ∷ events)
        → Fails (read_frame loads acks (arrived k ∷ events) p)
    read_frame_cut [] q whole missing served = (stream_closed, read_frame-ended k events, inl refl)
    read_frame_cut (b ∷ p) q whole missing served =
        let same : b ≡ kind_of m = let e = whole ∙ carries.1 in cc in
        let back : p ++ q ≡ carries.0 = let e = whole ∙ carries.1 in cc in
        let r = carries.3 events p q back missing (omega arith) in
        (
          r.0,
          ap (λ x. read_frame loads acks (arrived k ∷ events) (x ∷ p)) same ∙ begin_frame p ∙ r.1,
          r.2,
        )
