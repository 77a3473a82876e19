-- ===== src/Worker/Examples.antt =====
-- executors/worker.py: an activation sent by value and a gradient sent by its handle.
use torch_slicer.Common.{
  ℕ, ◌≡◌, refl, arith, Option, some, none, List, [], ◌∷◌, ◌++◌, map, replicate, ok, ◌≢◌, take, drop,
  ◌⊎◌, Bool, true, false,
}
use torch_slicer.Worker.Wire.{
  float16, int8, Tensor, forward, backward, by_value, by_handle, Message, stream_of, frame_of,
  pack_tensor_frame, pack_ipc_frame, pack_dims, pack, other,
}
use torch_slicer.Worker.Frames.{
  Event, timeout, arrived, stream_closed, stream_error, RecvError, handle_tensor_conn, read_frame,
  read_rest, read_tensor_frame_rest, read_ipc_frame_rest, unpack_dims, fill, not_answered,
}
use torch_slicer.Worker.Dispatch.{delivered}
use torch_slicer.Worker.Connections.{handle_tensor_conn_lem, handle_tensor_conn_cut}

abbrev halves : Tensor
halves = record { dtype = float16; shape = 1 ∷ 2 ∷ []; payload = 0 ∷ 60 ∷ 0 ∷ 64 ∷ [] }

abbrev one_byte : Tensor
one_byte = record { dtype = int8; shape = []; payload = 7 ∷ [] }

abbrev pickled : Tensor → List ℕ
pickled t = t.payload ++ 255 ∷ []

abbrev opened : List ℕ → Option Tensor
opened [] = none
opened (b ∷ bs) = some (record { dtype = int8; shape = []; payload = b ∷ [] })

abbrev answered : List ℕ → Bool
answered handle = true

-- A peer that is gone before it gets an answer: the message is lost, and the loop ends.
abbrev unanswered : List ℕ → Bool
unanswered handle = false

abbrev second_message : Message
second_message = record {
  direction = backward;
  batch_id = 2;
  body = by_handle one_byte;
  context = [];
}

abbrev messages : List Message
messages =
    record { direction = forward; batch_id = 300; body = by_value halves; context = 9 ∷ [] }
    ∷ second_message
    ∷ []

abbrev first_frame : List ℕ
first_frame =
    70 ∷ 0 ∷ 0 ∷ 1 ∷ 44 ∷ 1 ∷ 0 ∷ 2 ∷ 0 ∷ 1 ∷ 9 ∷ 0 ∷ 0 ∷ 0 ∷ 0 ∷ 0 ∷ 0 ∷ 0 ∷ 1 ∷ 0 ∷ 0 ∷ 0 ∷ 0 ∷ 0
    ∷ 0 ∷ 0 ∷ 2 ∷ 0 ∷ 0 ∷ 0 ∷ 0 ∷ 0 ∷ 0 ∷ 0 ∷ 4 ∷ 0 ∷ 60 ∷ 0 ∷ 64 ∷ []

abbrev second_frame : List ℕ
second_frame = 98 ∷ 0 ∷ 0 ∷ 0 ∷ 2 ∷ 0 ∷ 0 ∷ 0 ∷ 2 ∷ 0 ∷ 0 ∷ 7 ∷ 255 ∷ []

packed : stream_of pickled messages ≡ ok (first_frame ++ second_frame)
unfolding stream_of frame_of pack_tensor_frame pack_ipc_frame pack_dims pack
packed = refl

abbrev arrivals_in_pieces : List Event
arrivals_in_pieces = timeout ∷ replicate 20 (arrived 1) ++ (timeout ∷ replicate 40 (arrived 0))

float16_known : float16 ≢ other
float16_known e = absurd (cc)

handle_tensor_conn_lem_example :
    handle_tensor_conn opened answered 63 arrivals_in_pieces (first_frame ++ second_frame)
    ≡ (map delivered messages, stream_closed)
handle_tensor_conn_lem_example =
    handle_tensor_conn_lem pickled opened answered messages arrivals_in_pieces
      ((float16_known, omega arith, refl), ((refl, refl), tt)) packed (omega arith)

-- The second frame breaks off after the header, before the handle.
one_packed : stream_of pickled (take 1 messages) ≡ ok first_frame
unfolding stream_of frame_of pack_tensor_frame pack_ipc_frame pack_dims pack
one_packed = refl

second_packed : frame_of pickled second_message ≡ ok (take 11 second_frame ++ drop 11 second_frame)
unfolding frame_of pack_tensor_frame pack_ipc_frame pack_dims pack
second_packed = refl

handle_tensor_conn_cut_example :
    (e : RecvError) × (handle_tensor_conn opened answered 63 arrivals_in_pieces
        (first_frame ++ take 11 second_frame)
      ≡ (map delivered (take 1 messages), e))
    × ((e ≡ stream_closed) ⊎ (e ≡ stream_error))
handle_tensor_conn_cut_example =
    handle_tensor_conn_cut pickled opened answered (take 1 messages) second_message
      arrivals_in_pieces (take 11 second_frame) (drop 11 second_frame)
      ((float16_known, omega arith, refl), tt) (refl, refl) one_packed second_packed refl
      (omega arith)

-- There the loop ends as if the peer had closed the connection between two frames.
broken_yet_closed :
    handle_tensor_conn opened answered 63 arrivals_in_pieces (first_frame ++ take 11 second_frame)
    ≡ (map delivered (take 1 messages), stream_closed)
unfolding handle_tensor_conn read_frame read_rest read_tensor_frame_rest read_ipc_frame_rest
    unpack_dims fill
broken_yet_closed = refl

lost_without_answer :
    handle_tensor_conn opened unanswered 63 arrivals_in_pieces (first_frame ++ second_frame)
    ≡ (map delivered (take 1 messages), not_answered)
unfolding handle_tensor_conn read_frame read_rest read_tensor_frame_rest read_ipc_frame_rest
    unpack_dims fill
lost_without_answer = refl
