-- ===== src/Worker/Wire.antt =====
-- executors/worker.py: the bytes of a tensor frame. struct packs numbers in network order.
use torch_slicer.Common.{
  ℕ, zero, suc, ◌+◌, ◌*◌, ◌/◌, ◌%◌, ◌^◌, ltb, ◌==◌, List, [], ◌∷◌, ◌++◌, length, Result, ok,
  require, ◌>>=◌, ◌>>◌, if◌then◌else◌,
}

-- The dtypes that the code knows, and any other.
pub data DType : Type 0 where
  float32 float16 bfloat16 float64 int64 int32 uint8 int8 bool other : DType

-- A contiguous tensor: its bytes in row-major order.
pub record Tensor : Type 0 where
  pub dtype : DType
  pub shape : List ℕ
  pub payload : List ℕ

pub data Direction : Type 0 where
  forward backward : Direction

-- What a peer sends: a tensor by its bytes, or a tensor on a GPU by the bytes of a handle.
pub data Body : Type 0 where
  by_value by_handle : Tensor → Body

pub record Message : Type 0 where
  pub direction : Direction
  pub batch_id : ℕ
  pub body : Body
  -- the bytes that the tracer injects
  pub context : List ℕ

pub data StructError : Type 0 where
  out_of_range : StructError

-- `n` in `width` bytes
abbrev pub to_bytes : ℕ → ℕ → List ℕ
to_bytes zero n = []
to_bytes (suc width) n = to_bytes width (n / 256) ++ (n % 256) ∷ []

abbrev pub of_bytes : ℕ → List ℕ → ℕ
of_bytes acc [] = acc
of_bytes acc (b ∷ bs) = of_bytes (acc * 256 + b) bs

-- struct raises for a number that does not fit.
unfoldable pub pack : ℕ → ℕ → Result StructError (List ℕ)
pack width n = require (ltb n (256 ^ width)) out_of_range >> ok (to_bytes width n)

-- _SHAPE_ITEM: a signed number of 8 bytes, of which a dimension has the lower_case half
unfoldable pub pack_dims : List ℕ → Result StructError (List ℕ)
unfolding pack
pack_dims [] = ok []
pack_dims (d ∷ ds) =
    require (ltb d (2 ^ 63)) out_of_range
    >> (pack 8 d >>= λ item. pack_dims ds >>= λ items. ok (item ++ items))

-- _dtype_to_code
abbrev pub code_of_dtype : DType → ℕ
code_of_dtype float32 = 0
code_of_dtype float16 = 1
code_of_dtype bfloat16 = 2
code_of_dtype float64 = 3
code_of_dtype int64 = 4
code_of_dtype int32 = 5
code_of_dtype uint8 = 6
code_of_dtype int8 = 7
code_of_dtype bool = 8
code_of_dtype other = 0

-- _code_to_dtype
abbrev pub dtype_of_code : ℕ → DType
dtype_of_code c =
    if c == 1
    then float16
    else if c == 2
    then bfloat16
    else if c == 3
    then float64
    else if c == 4
    then int64
    else if c == 5
    then int32
    else if c == 6
    then uint8
    else if c == 7
    then int8
    else if c == 8
    then bool
    else float32

-- The first byte of a frame: F or B, and f or b for a handle.
abbrev pub kind_byte : Direction → ℕ
kind_byte forward = 70
kind_byte backward = 66

-- kind.lower_case()
abbrev pub lower_case : ℕ → ℕ
lower_case kind = kind + 32

-- _pack_tensor_frame, joined as _send_cpu sends it
unfoldable pub pack_tensor_frame :
    (kind batch_id : ℕ) → Tensor → List ℕ → Result StructError (List ℕ)
unfolding pack pack_dims
pack_tensor_frame kind batch_id t context = pack 4 batch_id >>= λ id.
    pack 1 (code_of_dtype t.dtype) >>= λ code. pack 2 (length t.shape) >>= λ ndim.
    pack 2 (length context) >>= λ context_size. pack_dims t.shape >>= λ dims.
    pack 8 (length t.payload) >>= λ size.
    ok (kind ∷ id ++ code ++ ndim ++ context_size ++ context ++ dims ++ size ++ t.payload)

-- The frame of _IpcPeerClient.send_tensor, with the bytes of the handle.
unfoldable pub pack_ipc_frame :
    (kind batch_id : ℕ) → (handle context : List ℕ) → Result StructError (List ℕ)
unfolding pack
pack_ipc_frame kind batch_id handle context = pack 4 batch_id >>= λ id.
    pack 4 (length handle) >>= λ handle_size. pack 2 (length context) >>= λ context_size.
    ok (kind ∷ id ++ handle_size ++ context_size ++ context ++ handle)

-- send_tensor, of the client that the message's body goes with; `dumps` is ForkingPickler.
unfoldable pub frame_of : (Tensor → List ℕ) → Message → Result StructError (List ℕ)
unfolding pack_tensor_frame pack_ipc_frame
frame_of dumps m = elim m.body [
  | by_value t ↦ pack_tensor_frame (kind_byte m.direction) m.batch_id t m.context
  | by_handle t ↦ pack_ipc_frame (lower_case (kind_byte m.direction)) m.batch_id (dumps t) m.context
]

-- What a connection carries: the frames one after the other.
unfoldable pub stream_of : (Tensor → List ℕ) → List Message → Result StructError (List ℕ)
unfolding frame_of
stream_of dumps [] = ok []
stream_of dumps (m ∷ ms) =
    frame_of dumps m >>= λ bytes. stream_of dumps ms >>= λ rest. ok (bytes ++ rest)
