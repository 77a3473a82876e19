-- ===== src/Worker/Frames.antt =====
-- executors/worker.py: the receiving end of a tensor connection.
use torch_slicer.Common.{
  ℕ, zero, suc, ◌*◌, ◌-◌, ◌^◌, min, ltb, ◌==◌, Bool, true, false, ◌&&◌, Option, none, some, List,
  [], ◌∷◌, ◌++◌, length, take, drop, is_nil, Result, ok, raise, require, ◌>>=◌, ◌>>◌, if◌then◌else◌,
}
use torch_slicer.Worker.Wire.{
  DType, float32, float16, bfloat16, float64, int64, int32, uint8, int8, bool, other, Tensor,
  Direction, forward, backward, of_bytes, dtype_of_code,
}

-- What the socket answers a recv: that nothing came within its timeout, or that `k + 1` bytes are there,
-- if the peer has not closed.
pub data Event : Type 0 where
  timeout : Event
  arrived : ℕ → Event

pub data RecvError : Type 0 where
  -- socket.timeout, with what happens after it
  timed_out : List Event → RecvError
  -- the call still waits when the events end
  blocked stream_closed stream_error unknown_kind bad_tensor bad_handle not_answered : RecvError

-- What a read gives: a value, the events after it, and the bytes that are still to come.
abbrev pub Read : Type 0 → Type 0
Read A = Result RecvError (A × List Event × List ℕ)

-- _recv_into: `got` is view[:offset], and `n` bytes of the view are to be filled.
unfoldable pub fill : Bool → List ℕ → ℕ → List Event → List ℕ → Read (List ℕ)
fill idle got zero events stream = ok (got, events, stream)
fill idle got (suc n) [] stream = raise blocked
fill idle got (suc n) (timeout ∷ events) stream =
    let later = fill idle got (suc n) events stream in
    if idle && is_nil got then raise (timed_out events) else later
fill idle got (suc n) (arrived k ∷ events) stream =
    let part = take (min (suc k) (suc n)) stream in
    let later = fill idle (got ++ part) (suc n - length part) events (drop (length part) stream) in
    if is_nil part then (if is_nil got then raise stream_closed else raise stream_error) else later

-- _recv_into with its default
abbrev pub recv_into : ℕ → List Event → List ℕ → Read (List ℕ)
recv_into n events stream = fill false [] n events stream

-- What follows a read.
infixl 5 ◌>>-◌
abbrev pub ◌>>-◌ : {A B : Type 0} → Read A → (A → List Event → List ℕ → Read B) → Read B
call >>- next = call >>= λ r. next r.0 r.1 r.2

abbrev pub item_size : DType → ℕ
item_size float32 = 4
item_size float16 = 2
item_size bfloat16 = 2
item_size float64 = 8
item_size int64 = 8
item_size int32 = 4
item_size uint8 = 1
item_size int8 = 1
item_size bool = 1
item_size other = 1

abbrev pub product : List ℕ → ℕ
product [] = 1
product (d ∷ ds) = d * product ds

-- torch.frombuffer(...).reshape(shape): an empty buffer is refused, and the bytes must be those of the
-- shape.
abbrev pub tensor_from : DType → List ℕ → List ℕ → Result RecvError Tensor
tensor_from dtype shape payload =
    require (ltb 0 (length payload) && (length payload == item_size dtype * product shape))
      bad_tensor
    >> ok (record { dtype = dtype; shape = shape; payload = payload })

-- [_SHAPE_ITEM.unpack_from(...) for i in range(ndim)]; that a dimension is negative, which no tensor's
-- is, is refused here.
unfoldable pub unpack_dims : ℕ → List ℕ → Result RecvError (List ℕ)
unpack_dims zero bytes = ok []
unpack_dims (suc ndim) bytes =
    let d = of_bytes 0 (take 8 bytes) in
    require (ltb d (2 ^ 63)) bad_tensor >> (unpack_dims ndim (drop 8 bytes) >>= λ ds. ok (d ∷ ds))

-- What is submitted to the pool, for _forward_tensor or _backward_tensor.
pub record Work : Type 0 where
  pub direction : Direction
  pub batch_id : ℕ
  pub tensor : Tensor
  pub context : List ℕ

-- _read_tensor_frame_rest; the buffer is copied, so its reuse does not matter.
unfoldable pub read_tensor_frame_rest : Direction → List Event → List ℕ → Read Work
unfolding unpack_dims
read_tensor_frame_rest direction events stream = recv_into 9 events stream >>- λ head events stream.
    recv_into (of_bytes 0 (drop 7 head)) events stream >>- λ context events stream.
    recv_into (8 * of_bytes 0 (take 2 (drop 5 head))) events stream >>- λ items events stream.
    unpack_dims (of_bytes 0 (take 2 (drop 5 head))) items >>= λ shape.
    recv_into 8 events stream >>- λ size events stream.
    recv_into (of_bytes 0 size) events stream >>- λ payload events stream.
    tensor_from (dtype_of_code (of_bytes 0 (take 1 (drop 4 head)))) shape payload >>= λ tensor. ok (
      record {
        direction = direction;
        batch_id = of_bytes 0 (take 4 head);
        tensor = tensor;
        context = context;
      },
      events,
      stream,
    )

-- _read_ipc_frame_rest; `loads` is pickle.loads, and `acks` says whether the byte that answers a handle
-- can be sent, which is an OSError if not.
unfoldable pub read_ipc_frame_rest :
    (List ℕ → Option Tensor) → (List ℕ → Bool) → Direction → List Event → List ℕ → Read Work
read_ipc_frame_rest loads acks direction events stream =
    recv_into 10 events stream >>- λ head events stream.
    recv_into (of_bytes 0 (drop 8 head)) events stream >>- λ context events stream.
    recv_into (of_bytes 0 (take 4 (drop 4 head))) events stream >>- λ handle events stream.
    elim (loads handle) [
      | none ↦ raise bad_handle
      | some tensor ↦
          require (acks handle) not_answered
          >> ok (
            record {
              direction = direction;
              batch_id = of_bytes 0 (take 4 head);
              tensor = tensor;
              context = context;
            },
            events,
            stream,
          )
    ]

-- The branches of _handle_tensor_conn on the first byte of a frame.
unfoldable pub read_rest :
    (List ℕ → Option Tensor) → (List ℕ → Bool) → List ℕ → List Event → List ℕ → Read Work
unfolding read_tensor_frame_rest read_ipc_frame_rest
read_rest loads acks [] events stream = raise unknown_kind
read_rest loads acks (kind ∷ more) events stream =
    if kind == 70
    then read_tensor_frame_rest forward events stream
    else if kind == 66
    then read_tensor_frame_rest backward events stream
    else if kind == 102
    then read_ipc_frame_rest loads acks forward events stream
    else if kind == 98
    then read_ipc_frame_rest loads acks backward events stream
    else raise unknown_kind

-- One round of the loop: a timeout ends it only before the first byte.
unfoldable pub read_frame :
    (List ℕ → Option Tensor) → (List ℕ → Bool) → List Event → List ℕ → Read Work
unfolding read_rest fill
read_frame loads acks events stream = fill true [] 1 events stream >>- read_rest loads acks

-- _handle_tensor_conn, until the connection ends: what it submits, in order, and why it ends. Each round
-- takes an event, so one more than the events is fuel enough. The generation that goes with each frame,
-- and the stop of the worker, are left out.
unfoldable pub handle_tensor_conn :
    (List ℕ → Option Tensor) → (List ℕ → Bool) → ℕ → List Event → List ℕ → List Work × RecvError
unfolding read_frame
handle_tensor_conn loads acks zero events stream = ([], blocked)
handle_tensor_conn loads acks (suc fuel) events stream =
    elim (read_frame loads acks events stream) [
      | ok (work, later, rest) ↦
          let following = handle_tensor_conn loads acks fuel later rest in
          (work ∷ following.0, following.1)
      | raise (timed_out later) ↦ handle_tensor_conn loads acks fuel later stream
      | raise blocked ↦ ([], blocked)
      | raise stream_closed ↦ ([], stream_closed)
      | raise stream_error ↦ ([], stream_error)
      | raise unknown_kind ↦ ([], unknown_kind)
      | raise bad_tensor ↦ ([], bad_tensor)
      | raise bad_handle ↦ ([], bad_handle)
      | raise not_answered ↦ ([], not_answered)
    ]
