-- ===== src/Worker/Delivery.antt =====
-- executors/worker.py: the parts of a frame are read one by one, and a frame that is cut is not read.
use mathlib.Core.List.{append_assoc, append-nil, []}
use torch_slicer.Common.{
  ℕ, ◌*◌, ◌<◌, ◌≡◌, ◌≢◌, refl, sym, ap, ◌∙◌, subst, arith, List, ◌++◌, length, ok, ==_iff, ltb_iff,
  inl, inr,
}
use torch_slicer.Worker.Wire.{
  DType, float32, float16, bfloat16, float64, int64, int32, uint8, int8, bool, other, Tensor,
  Direction, code_of_dtype, dtype_of_code, of_bytes,
}
use torch_slicer.Worker.Frames.{
  Event, Work, item_size, product, tensor_from, unpack_dims, read_tensor_frame_rest,
}
use torch_slicer.Worker.Arrivals.{IsServed, Gives, received}
use torch_slicer.Worker.Heads.{
  head_of, head-length, head-id, head-code, head-ndim, head-context, parts_of,
}
use torch_slicer.Worker.Cuts.{Fails, IsMissing, recv_or_fail, none_missing}

-- What torch guarantees of a tensor that has elements, of one of the dtypes that the code knows.
abbrev pub IsTensor : Tensor → Type 0
IsTensor t =
    (t.dtype ≢ other)
    × (0 < length t.payload)
    × (length t.payload ≡ item_size t.dtype * product t.shape)

dtype_lem : (d : DType) → d ≢ other → dtype_of_code (code_of_dtype d) ≡ d
dtype_lem float32 known = refl
dtype_lem float16 known = refl
dtype_lem bfloat16 known = refl
dtype_lem float64 known = refl
dtype_lem int64 known = refl
dtype_lem int32 known = refl
dtype_lem uint8 known = refl
dtype_lem int8 known = refl
dtype_lem bool known = refl
dtype_lem other known = absurd (known refl)

tensor_from_lem : (t : Tensor) → IsTensor t → tensor_from t.dtype t.shape t.payload ≡ ok t
tensor_from_lem t h =
    rw ((ltb_iff 0 (length t.payload)).1 h.1)
      (rw ((==_iff (length t.payload) (item_size t.dtype * product t.shape)).1 h.2) refl)

abbrev pub work_of : Direction → ℕ → Tensor → List ℕ → Work
work_of direction batch_id t context = record {
  direction = direction;
  batch_id = batch_id;
  tensor = t;
  context = context;
}

module _ (direction : Direction) (t : Tensor) (h : IsTensor t)
    (context id code ndim csize dims size rest : List ℕ) (id4 : length id ≡ 4)
    (code1 : (length code ≡ 1) × (of_bytes 0 code ≡ code_of_dtype t.dtype))
    (ndim2 : (length ndim ≡ 2) × (of_bytes 0 ndim ≡ length t.shape))
    (csize2 : (length csize ≡ 2) × (of_bytes 0 csize ≡ length context))
    (dims_ : (length dims ≡ 8 * length t.shape) × (unpack_dims (length t.shape) dims ≡ ok t.shape))
    (size8 : (length size ≡ 8) × (of_bytes 0 size ≡ length t.payload)) where
  pub read_value :
      (events : List Event)
      → IsServed (parts_of id code ndim csize context dims size t.payload ++ rest) events
      → Gives
          (read_tensor_frame_rest direction events
            (parts_of id code ndim csize context dims size t.payload ++ rest))
          (work_of direction (of_bytes 0 id) t context)
          events
          rest
  unfolding read_tensor_frame_rest
  read_value events served =
      let front = head_of id code ndim csize in
      let tail4 = t.payload ++ rest in
      let tail3 = size ++ tail4 in
      let tail2 = dims ++ tail3 in
      let tail1 = context ++ tail2 in
      let nested : parts_of id code ndim csize context dims size t.payload ++ rest
          ≡ front ++ tail1 =
        simp append_assoc refl in
      let r1 =
        received 9 front tail1 events (head-length id code ndim csize id4 code1.0 ndim2.0 csize2.0)
          (subst (λ s. IsServed s events) nested served) in
      let csize_read =
        ap (of_bytes 0) (head-context id code ndim csize id4 code1.0 ndim2.0 csize2.0) ∙ csize2.1 in
      let ndim_read =
        ap (of_bytes 0) (head-ndim id code ndim csize id4 code1.0 ndim2.0 csize2.0) ∙ ndim2.1 in
      let code_read =
        ap (of_bytes 0) (head-code id code ndim csize id4 code1.0 ndim2.0 csize2.0) ∙ code1.1 in
      let r2 = received (length context) context tail2 r1.0 refl r1.2 in
      let r3 = received (8 * length t.shape) dims tail3 r2.0 dims_.0 r2.2 in
      let r4 = received 8 size tail4 r3.0 size8.0 r3.2 in
      let r5 = received (length t.payload) t.payload rest r4.0 refl r4.2 in
      (
        r5.0,
        rw nested (
            rw r1.1 (
              rw csize_read (
                rw r2.1 (
                  rw ndim_read (
                    rw r3.1 (
                      rw dims_.1 (
                        rw r4.1 (
                          rw size8.1 (
                            rw r5.1 (
                              rw code_read (
                                rw (dtype_lem t.dtype h.0) (
                                  rw (tensor_from_lem t h) (
                                    rw (head-id id code ndim csize id4 code1.0 ndim2.0 csize2.0)
                                      refl))))))))))))),
        r5.2,
        omega (arith, r1.3, r2.3, r3.3, r4.3, r5.3),
      )

  pub read_value_cut :
      (events : List Event) (p q : List ℕ)
      → p ++ q ≡ parts_of id code ndim csize context dims size t.payload
      → IsMissing q
      → IsServed p events
      → Fails (read_tensor_frame_rest direction events p)
  unfolding read_tensor_frame_rest
  read_value_cut events p q whole missing served =
      let front = head_of id code ndim csize in
      let tail3 = size ++ t.payload in
      let tail2 = dims ++ tail3 in
      let nested : parts_of id code ndim csize context dims size t.payload
          ≡ front ++ (context ++ tail2) =
        simp append_assoc refl in
      let csize_read =
        ap (of_bytes 0) (head-context id code ndim csize id4 code1.0 ndim2.0 csize2.0) ∙ csize2.1 in
      let ndim_read =
        ap (of_bytes 0) (head-ndim id code ndim csize id4 code1.0 ndim2.0 csize2.0) ∙ ndim2.1 in
      elim (recv_or_fail 9 front (context ++ tail2) p q events
        (head-length id code ndim csize id4 code1.0 ndim2.0 csize2.0) (whole ∙ nested) served) [
          | inl (e, r, ends) ↦ (e, rw r refl, ends)
          | inr (e1, p1, r1, w1, s1) ↦ rw r1 (
              rw csize_read (elim (recv_or_fail (length context) context tail2 p1 q e1 refl w1 s1) [
                | inl (e, r, ends) ↦ (e, rw r refl, ends)
                | inr (e2, p2, r2, w2, s2) ↦ rw r2 (
                    rw ndim_read
                      (elim (recv_or_fail (8 * length t.shape) dims tail3 p2 q e2 dims_.0 w2 s2) [
                        | inl (e, r, ends) ↦ (e, rw r refl, ends)
                        | inr (e3, p3, r3, w3, s3) ↦ rw r3 (
                            rw dims_.1 (elim (recv_or_fail 8 size t.payload p3 q e3 size8.0 w3 s3) [
                              | inl (e, r, ends) ↦ (e, rw r refl, ends)
                              | inr (e4, p4, r4, w4, s4) ↦ rw r4 (
                                  rw size8.1
                                    (elim (recv_or_fail (length t.payload) t.payload [] p4 q e4 refl
                                      (w4 ∙ sym (append-nil t.payload)) s4) [
                                        | inl (e, r, ends) ↦ (e, rw r refl, ends)
                                        | inr (e5, p5, r5, w5, s5) ↦
                                            absurd (none_missing p5 q w5 missing)
                                      ]))
                            ]))
                      ]))
              ]))
        ]
