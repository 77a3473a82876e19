-- ===== src/Worker/Connections.antt =====
-- executors/worker.py: a tensor connection delivers the messages that were sent, in their order.
use mathlib.Core.List.{append_assoc, append-nil}
use torch_slicer.Common.{
  inl, inr, ◌⊎◌, is_nil, false, ℕ, zero, suc, ◌≤◌, ◌<◌, ◌≡◌, refl, sym, ap, ◌∙◌, subst, arith,
  Option, List, [], ◌∷◌, ◌++◌, map, All, length, ok, raise, >>=-eq-ok, ok_injective, Bool,
}
use torch_slicer.Worker.Wire.{Tensor, Message, frame_of, stream_of}
use torch_slicer.Worker.Frames.{
  Event, timeout, arrived, RecvError, stream_closed, Work, fill, read_frame, handle_tensor_conn,
  stream_error,
}
use torch_slicer.Worker.Arrivals.{arrivals, IsServed}
use torch_slicer.Worker.Cuts.{IsEnd}
use torch_slicer.Worker.Dispatch.{
  delivered, IsSent, frame-Carries, read_frame-ended, read_frame_lem, read_frame_cut,
}

module _ (dumps : Tensor → List ℕ) (loads : List ℕ → Option Tensor) (acks : List ℕ → Bool) where
  handle-frame :
      (fuel : ℕ) (events : List Event) (stream rest : List ℕ) (work : Work) (later : List Event)
      → read_frame loads acks events stream ≡ ok (work, later, rest)
      → {following : List Work × RecvError}
      → handle_tensor_conn loads acks fuel later rest ≡ following
      → handle_tensor_conn loads acks (suc fuel) events stream ≡ (work ∷ following.0, following.1)
  unfolding handle_tensor_conn
  handle-frame fuel events stream rest work later read {following} e =
      rw (read, handle_tensor_conn) (rw e refl)

  handle-ended :
      (fuel : ℕ) (events : List Event) (stream : List ℕ) (e : RecvError)
      → IsEnd e
      → read_frame loads acks events stream ≡ raise e
      → handle_tensor_conn loads acks (suc fuel) events stream ≡ ([], e)
  unfolding handle_tensor_conn
  handle-ended fuel events stream e (inl closed) ended =
      rw (ended ∙ ap raise closed, handle_tensor_conn) (ap (λ x. ([], x)) (sym closed))
  handle-ended fuel events stream e (inr broken) ended =
      rw (ended ∙ ap raise broken, handle_tensor_conn) (ap (λ x. ([], x)) (sym broken))

  handle-timeout :
      (fuel : ℕ) (events : List Event) (stream : List ℕ)
      → handle_tensor_conn loads acks (suc fuel) (timeout ∷ events) stream
        ≡ handle_tensor_conn loads acks fuel events stream
  unfolding handle_tensor_conn read_frame fill
  handle-timeout fuel events stream = refl

  -- The loop, from any point between two frames, on frames with a tail after them that ends it.
  module _ (P : RecvError → Type 0) (are_ends : (e : RecvError) → P e → IsEnd e) (tail : List ℕ)
      (ends : (k : ℕ) (events : List Event)
        → IsServed tail (arrived k ∷ events)
        → (e : RecvError) × (read_frame loads acks (arrived k ∷ events) tail ≡ raise e) × P e) where
    handle-stream :
        (fuel : ℕ) (events : List Event) (ms : List Message) {stream : List ℕ}
        → length events < fuel
        → All (λ m. IsSent dumps loads acks m.body) ms
        → stream_of dumps ms ≡ ok stream
        → IsServed (stream ++ tail) events
        → (e : RecvError) × (handle_tensor_conn loads acks fuel events (stream ++ tail)
            ≡ (map delivered ms, e))
          × P e
    unfolding stream_of
    handle-stream zero events ms lt sent packed served = absurd (omega arith)
    handle-stream (suc fuel) [] ms lt sent packed served = absurd (omega arith)
    handle-stream (suc fuel) (timeout ∷ events) ms {stream} lt sent packed served =
        let r = handle-stream fuel events ms (omega arith) sent packed served in
        (r.0, handle-timeout fuel events (stream ++ tail) ∙ r.1, r.2)
    handle-stream (suc fuel) (arrived k ∷ events) [] {stream} lt sent packed served =
        let only : stream ++ tail ≡ tail = ap (λ s. s ++ tail) (sym (ok_injective packed)) in
        let r = ends k events (subst (λ s. IsServed s (arrived k ∷ events)) only served) in
        (
          r.0,
          handle-ended fuel (arrived k ∷ events) (stream ++ tail) r.0 (are_ends r.0 r.2)
              (ap (read_frame loads acks (arrived k ∷ events)) only ∙ r.1),
          r.2,
        )
    handle-stream (suc fuel) (arrived k ∷ events) (m ∷ ms) {stream} lt sent packed served =
        let p1 = >>=-eq-ok (frame_of dumps m) _ packed in
        let p2 = >>=-eq-ok (stream_of dumps ms) _ p1.2 in
        let same : stream ++ tail ≡ p1.0 ++ (p2.0 ++ tail) =
          ap (λ s. s ++ tail) (sym (ok_injective p2.2)) ∙ append_assoc p1.0 p2.0 tail in
        let carries =
          frame-Carries dumps loads acks m.direction m.batch_id m.body m.context sent.0 p1.1 in
        let r =
          read_frame_lem dumps loads acks m k events p1.0 carries (p2.0 ++ tail)
            (subst (λ s. IsServed s (arrived k ∷ events)) same served) in
        let fits : length r.0 ≤ length events = r.3 in
        let following = handle-stream fuel r.0 ms (omega arith) sent.1 p2.1 r.2 in
        (
          following.0,
          handle-frame fuel (arrived k ∷ events) (stream ++ tail) (p2.0 ++ tail) (delivered m) r.0
              (ap (read_frame loads acks (arrived k ∷ events)) same ∙ r.1) following.1,
          following.2,
        )

  -- If the frames of some messages are what a connection carries before it ends, then whatever portions
  -- the bytes arrive in and however often the socket times out, the worker gets these messages, each as it
  -- was sent and in their order, and then sees the connection close. The conditions are that the bytes and
  -- the end do arrive, that the peer takes the byte that answers a handle, that each tensor has elements and a dtype that the code knows, and that handles
  -- open as the tensors they were made of.
  pub handle_tensor_conn_lem :
      (ms : List Message) (events : List Event) {stream : List ℕ}
      → All (λ m. IsSent dumps loads acks m.body) ms
      → stream_of dumps ms ≡ ok stream
      → length stream < arrivals events
      → handle_tensor_conn loads acks (suc (length events)) events stream
        ≡ (map delivered ms, stream_closed)
  handle_tensor_conn_lem ms events {stream} sent packed served =
      let whole = append-nil stream in
      let r =
        handle-stream (λ e. e ≡ stream_closed) (λ e h. inl h) []
          (λ k ev s. (stream_closed, read_frame-ended dumps loads acks k ev, refl))
          (suc (length events)) events ms (omega arith) sent packed
          (subst (λ s. IsServed s events) (sym whole) served) in
      ap (handle_tensor_conn loads acks (suc (length events)) events) (sym whole)
      ∙ r.1
      ∙ ap (λ e. (map delivered ms, e)) r.2

  -- If a connection breaks within the frame of a message, or before it, then whatever portions the bytes
  -- arrive in, the worker gets exactly the messages before it, each as it was sent and in their order,
  -- nothing is made of the bytes of the broken frame, and the loop ends with stream_closed or stream_error.
  -- The conditions are as for a connection that does not break.
  pub handle_tensor_conn_cut :
      (ms : List Message) (m : Message) (events : List Event) (p q : List ℕ) {stream : List ℕ}
      → All (λ n. IsSent dumps loads acks n.body) ms
      → IsSent dumps loads acks m.body
      → stream_of dumps ms ≡ ok stream
      → frame_of dumps m ≡ ok (p ++ q)
      → is_nil q ≡ false
      → length (stream ++ p) < arrivals events
      → (e : RecvError) × (handle_tensor_conn loads acks (suc (length events)) events (stream ++ p)
          ≡ (map delivered ms, e))
        × ((e ≡ stream_closed) ⊎ (e ≡ stream_error))
  handle_tensor_conn_cut ms m events p q sent sent_m packed frame missing served =
      handle-stream IsEnd (λ e h. h) p
        (λ k ev s.
          read_frame_cut dumps loads acks m k ev (p ++ q)
            (frame-Carries dumps loads acks m.direction m.batch_id m.body m.context sent_m frame) p
            q refl missing s)
        (suc (length events)) events ms (omega arith) sent packed served
