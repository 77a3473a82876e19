-- ===== src/Worker/Heads.antt =====
-- executors/worker.py: the fields of a frame's header.
use mathlib.Core.List.{append_assoc}
use torch_slicer.Common.{ℕ, ◌≡◌, ap, ◌∙◌, arith, List, ◌++◌, length, length-append, take, drop}
use torch_slicer.Worker.Bytes.{take-front, drop-front}

abbrev pub head_of : (id code ndim context_size : List ℕ) → List ℕ
head_of id code ndim context_size = id ++ code ++ ndim ++ context_size

module _ (id code ndim context_size : List ℕ) (id4 : length id ≡ 4) (code1 : length code ≡ 1)
    (ndim2 : length ndim ≡ 2) (size2 : length context_size ≡ 2) where
  pub head-length : length (head_of id code ndim context_size) ≡ 9
  head-length = omega (
    arith,
    length-append (id ++ code ++ ndim) context_size,
    length-append (id ++ code) ndim,
    length-append id code,
  )

  pub head-id : take 4 (head_of id code ndim context_size) ≡ id
  head-id = simp append_assoc (take-front 4 id (code ++ (ndim ++ context_size)) id4)

  pub head-code : take 1 (drop 4 (head_of id code ndim context_size)) ≡ code
  head-code = simp append_assoc (
      ap (take 1) (drop-front 4 id (code ++ (ndim ++ context_size)) id4)
      ∙ take-front 1 code (ndim ++ context_size) code1)

  pub head-ndim : take 2 (drop 5 (head_of id code ndim context_size)) ≡ ndim
  head-ndim =
      ap (λ b. take 2 (drop 5 b)) (append_assoc (id ++ code) ndim context_size)
      ∙ ap (take 2) (
          drop-front 5 (id ++ code) (ndim ++ context_size)
            (length-append id code ∙ (let a = id4 in let b = code1 in omega arith)))
      ∙ take-front 2 ndim context_size ndim2

  pub head-context : drop 7 (head_of id code ndim context_size) ≡ context_size
  head-context =
      drop-front 7 (id ++ code ++ ndim) context_size
        (omega (arith, length-append (id ++ code) ndim, length-append id code))

-- A frame's parts, in the order in which they come.
abbrev pub parts_of : (id code ndim csize context dims size payload : List ℕ) → List ℕ
parts_of id code ndim csize context dims size payload =
    head_of id code ndim csize ++ context ++ dims ++ size ++ payload
