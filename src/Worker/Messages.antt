-- ===== src/Worker/Messages.antt =====
-- executors/worker.py: messages come out of a connection as they went in.
use mathlib.Core.List.{append_assoc, append-nil, []}
use torch_slicer.Common.{
  ℕ, ◌≡◌, refl, sym, ap, ◌∙◌, subst, arith, Option, some, List, ◌∷◌, ◌++◌, length, length-append,
  take, drop, ok, >>=-eq-ok, ok_injective, inl, inr, Bool, true,
}
use torch_slicer.Worker.Wire.{
  Tensor, Direction, code_of_dtype, of_bytes, pack, pack_dims, pack_tensor_frame, pack_ipc_frame,
}
use torch_slicer.Worker.Frames.{Event, Read, Work, read_tensor_frame_rest, read_ipc_frame_rest}
use torch_slicer.Worker.Arrivals.{IsServed, Gives, received}
use torch_slicer.Worker.Bytes.{pack_lem, pack_dims_lem, take-front, drop-front}
use torch_slicer.Worker.Heads.{parts_of}
use torch_slicer.Worker.Cuts.{Fails, IsMissing, recv_or_fail, none_missing}
use torch_slicer.Worker.Delivery.{IsTensor, work_of, read_value, read_value_cut}

-- A packed frame is the byte of its kind, and then what `read` makes the work of, and only if all is there.
abbrev pub Carries : (List Event → List ℕ → Read Work) → ℕ → Work → List ℕ → Type 0
Carries read kind work frame =
    (body : List ℕ) × (frame ≡ kind ∷ body)
    × ((events : List Event) (rest : List ℕ)
        → IsServed (body ++ rest) events
        → Gives (read events (body ++ rest)) work events rest)
    × ((events : List Event) (p q : List ℕ)
        → p ++ q ≡ body
        → IsMissing q
        → IsServed p events
        → Fails (read events p))

pub value_frame :
    (direction : Direction) (kind batch_id : ℕ) (t : Tensor) (context : List ℕ) {frame : List ℕ}
    → IsTensor t
    → pack_tensor_frame kind batch_id t context ≡ ok frame
    → Carries (read_tensor_frame_rest direction) kind (work_of direction batch_id t context) frame
unfolding pack_tensor_frame
value_frame direction kind batch_id t context {frame} h packed =
    let p1 = >>=-eq-ok (pack 4 batch_id) _ packed in
    let p2 = >>=-eq-ok (pack 1 (code_of_dtype t.dtype)) _ p1.2 in
    let p3 = >>=-eq-ok (pack 2 (length t.shape)) _ p2.2 in
    let p4 = >>=-eq-ok (pack 2 (length context)) _ p3.2 in
    let p5 = >>=-eq-ok (pack_dims t.shape) _ p4.2 in
    let p6 = >>=-eq-ok (pack 8 (length t.payload)) _ p5.2 in
    let id = pack_lem 4 batch_id p1.1 in
    (
      parts_of p1.0 p2.0 p3.0 p4.0 context p5.0 p6.0 t.payload,
      sym (ok_injective p6.2),
      λ events rest served.
          subst
            (λ b.
              Gives
                (read_tensor_frame_rest direction events
                  (parts_of p1.0 p2.0 p3.0 p4.0 context p5.0 p6.0 t.payload ++ rest))
                (work_of direction b t context) events rest)
            id.1
            (read_value direction t h context p1.0 p2.0 p3.0 p4.0 p5.0 p6.0 rest id.0
              (pack_lem 1 (code_of_dtype t.dtype) p2.1) (pack_lem 2 (length t.shape) p3.1)
              (pack_lem 2 (length context) p4.1) (pack_dims_lem t.shape p5.1)
              (pack_lem 8 (length t.payload) p6.1) events served),
      read_value_cut direction t h context p1.0 p2.0 p3.0 p4.0 p5.0 p6.0 [] id.0
          (pack_lem 1 (code_of_dtype t.dtype) p2.1) (pack_lem 2 (length t.shape) p3.1)
          (pack_lem 2 (length context) p4.1) (pack_dims_lem t.shape p5.1)
          (pack_lem 8 (length t.payload) p6.1),
    )

module _ (dumps : Tensor → List ℕ) (loads : List ℕ → Option Tensor) (acks : List ℕ → Bool)
    (t : Tensor) (same : loads (dumps t) ≡ some t) (answered : acks (dumps t) ≡ true)
    (direction : Direction) (context id hsize csize rest : List ℕ) (id4 : length id ≡ 4)
    (hsize4 : (length hsize ≡ 4) × (of_bytes 0 hsize ≡ length (dumps t)))
    (csize2 : (length csize ≡ 2) × (of_bytes 0 csize ≡ length context)) where
  front-length : length (id ++ hsize ++ csize) ≡ 10
  front-length = omega (arith, length-append (id ++ hsize) csize, length-append id hsize)

  csize_read : of_bytes 0 (drop 8 (id ++ hsize ++ csize)) ≡ length context
  csize_read =
      ap (of_bytes 0) (drop-front 8 (id ++ hsize) csize (omega (arith, length-append id hsize)))
      ∙ csize2.1

  hsize_read : of_bytes 0 (take 4 (drop 4 (id ++ hsize ++ csize))) ≡ length (dumps t)
  hsize_read =
      ap (λ b. of_bytes 0 (take 4 (drop 4 b))) (append_assoc id hsize csize)
      ∙ ap (λ b. of_bytes 0 (take 4 b)) (drop-front 4 id (hsize ++ csize) id4)
      ∙ ap (of_bytes 0) (take-front 4 hsize csize hsize4.0)
      ∙ hsize4.1

  read_handle :
      (events : List Event)
      → IsServed (id ++ hsize ++ csize ++ context ++ dumps t ++ rest) events
      → Gives
          (read_ipc_frame_rest loads acks direction events
            (id ++ hsize ++ csize ++ context ++ dumps t ++ rest))
          (work_of direction (of_bytes 0 id) t context)
          events
          rest
  unfolding read_ipc_frame_rest
  read_handle events served =
      let front = id ++ hsize ++ csize in
      let tail1 = context ++ (dumps t ++ rest) in
      let nested : id ++ hsize ++ csize ++ context ++ dumps t ++ rest ≡ front ++ tail1 =
        simp append_assoc refl in
      let r1 =
        received 10 front tail1 events front-length
          (subst (λ s. IsServed s events) nested served) in
      let id_read : take 4 front ≡ id =
        ap (take 4) (append_assoc id hsize csize) ∙ take-front 4 id (hsize ++ csize) id4 in
      let r2 = received (length context) context (dumps t ++ rest) r1.0 refl r1.2 in
      let r3 = received (length (dumps t)) (dumps t) rest r2.0 refl r2.2 in
      (
        r3.0,
        rw (nested, r1.1, csize_read, r2.1, hsize_read, r3.1, same, answered, id_read) refl,
        r3.2,
        omega (arith, r1.3, r2.3, r3.3),
      )

  read_handle_cut :
      (events : List Event) (p q : List ℕ)
      → p ++ q ≡ id ++ hsize ++ csize ++ context ++ dumps t
      → IsMissing q
      → IsServed p events
      → Fails (read_ipc_frame_rest loads acks direction events p)
  unfolding read_ipc_frame_rest
  read_handle_cut events p q whole missing served =
      let front = id ++ hsize ++ csize in
      let nested = append_assoc front context (dumps t) in
      elim (recv_or_fail 10 front (context ++ dumps t) p q events front-length (whole ∙ nested)
        served) [
          | inl (e, r, ends) ↦ (e, rw r refl, ends)
          | inr (e1, p1, r1, w1, s1) ↦ rw r1 (
              rw csize_read
                (elim (recv_or_fail (length context) context (dumps t) p1 q e1 refl w1 s1) [
                  | inl (e, r, ends) ↦ (e, rw r refl, ends)
                  | inr (e2, p2, r2, w2, s2) ↦ rw r2 (
                      rw hsize_read
                        (elim (recv_or_fail (length (dumps t)) (dumps t) [] p2 q e2 refl
                          (w2 ∙ sym (append-nil (dumps t))) s2) [
                            | inl (e, r, ends) ↦ (e, rw r refl, ends)
                            | inr (e3, p3, r3, w3, s3) ↦ absurd (none_missing p3 q w3 missing)
                          ]))
                ]))
        ]

pub handle_frame :
    (dumps : Tensor → List ℕ) (loads : List ℕ → Option Tensor) (acks : List ℕ → Bool)
    (direction : Direction) (kind batch_id : ℕ) (t : Tensor) (context : List ℕ) {frame : List ℕ}
    → loads (dumps t) ≡ some t
    → acks (dumps t) ≡ true
    → pack_ipc_frame kind batch_id (dumps t) context ≡ ok frame
    → Carries
        (read_ipc_frame_rest loads acks direction)
        kind
        (work_of direction batch_id t context)
        frame
unfolding pack_ipc_frame
handle_frame dumps loads acks direction kind batch_id t context {frame} same answered packed =
    let p1 = >>=-eq-ok (pack 4 batch_id) _ packed in
    let p2 = >>=-eq-ok (pack 4 (length (dumps t))) _ p1.2 in
    let p3 = >>=-eq-ok (pack 2 (length context)) _ p2.2 in
    let id = pack_lem 4 batch_id p1.1 in
    let body = p1.0 ++ p2.0 ++ p3.0 ++ context ++ dumps t in
    (
      body,
      sym (ok_injective p3.2),
      λ events rest served.
          subst
            (λ b.
              Gives (read_ipc_frame_rest loads acks direction events (body ++ rest))
                (work_of direction b t context) events rest)
            id.1
            (read_handle dumps loads acks t same answered direction context p1.0 p2.0 p3.0 rest id.0
              (pack_lem 4 (length (dumps t)) p2.1) (pack_lem 2 (length context) p3.1) events
              served),
      read_handle_cut dumps loads acks t same answered direction context p1.0 p2.0 p3.0 [] id.0
          (pack_lem 4 (length (dumps t)) p2.1) (pack_lem 2 (length context) p3.1),
    )
