-- ===== src/Worker/Bytes.antt =====
-- executors/worker.py: numbers and dimensions come back from the bytes that struct packs them in.
use native.Mathlib.Numerals.{unary_clauses}
use torch_slicer.Common.{
  ℕ, zero, suc, ◌+◌, ◌*◌, ◌/◌, ◌%◌, ◌^◌, ◌<◌, ltb, ◌≡◌, refl, sym, ap, ◌∙◌, arith, List, [], ◌∷◌,
  ◌++◌, length, length-append, take, drop, ok, require, require-eq-ok, >>-eq-ok, >>=-eq-ok,
  ok_injective, ltb_iff, ◌>>◌, ◌>>=◌,
}
use torch_slicer.Worker.Wire.{out_of_range, to_bytes, of_bytes, pack, pack_dims}
use torch_slicer.Worker.Frames.{unpack_dims, bad_tensor}

length-to_bytes : (width n : ℕ) → length (to_bytes width n) ≡ width
length-to_bytes zero n = refl
length-to_bytes (suc width) n =
    length-append (to_bytes width (n / 256)) ((n % 256) ∷ [])
    ∙ (let ih = length-to_bytes width (n / 256) in omega arith)

of_bytes-append :
    (acc : ℕ) (xs : List ℕ) (b : ℕ) → of_bytes acc (xs ++ b ∷ []) ≡ of_bytes acc xs * 256 + b
of_bytes-append acc [] b = refl
of_bytes-append acc (x ∷ xs) b = of_bytes-append (acc * 256 + x) xs b

quotient-lt : (width n : ℕ) → n < 256 ^ suc width → n / 256 < 256 ^ width
quotient-lt width n fits =
    let e : 256 ^ suc width ≡ 256 * 256 ^ width = simp unary_clauses (omega arith) in omega arith

of_bytes-to_bytes : (width n : ℕ) → n < 256 ^ width → of_bytes 0 (to_bytes width n) ≡ n
of_bytes-to_bytes zero n fits = omega (arith, (let e : 256 ^ 0 ≡ 1 = omega arith in e))
of_bytes-to_bytes (suc width) n fits =
    of_bytes-append 0 (to_bytes width (n / 256)) (n % 256)
    ∙ (let ih = of_bytes-to_bytes width (n / 256) (quotient-lt width n fits) in omega arith)

pub pack_lem :
    (width n : ℕ) {bytes : List ℕ}
    → pack width n ≡ ok bytes
    → (length bytes ≡ width) × (of_bytes 0 bytes ≡ n)
unfolding pack
pack_lem width n e =
    let ran = >>-eq-ok (require (ltb n (256 ^ width)) out_of_range) _ e in
    let fits = (ltb_iff n (256 ^ width)).0 (require-eq-ok _ out_of_range ran.0) in
    let same = ok_injective ran.1 in
    (
      ap length (sym same) ∙ length-to_bytes width n,
      ap (of_bytes 0) (sym same) ∙ of_bytes-to_bytes width n fits,
    )

-- The first bytes of a list are taken off it.
pub take-front : (n : ℕ) (xs ys : List ℕ) → length xs ≡ n → take n (xs ++ ys) ≡ xs
take-front zero [] ys e = refl
take-front zero (x ∷ xs) ys e = absurd (omega arith)
take-front (suc n) [] ys e = absurd (omega arith)
take-front (suc n) (x ∷ xs) ys e = ap (λ r. x ∷ r) (take-front n xs ys (omega arith))

pub drop-front : (n : ℕ) (xs ys : List ℕ) → length xs ≡ n → drop n (xs ++ ys) ≡ ys
drop-front zero [] ys e = refl
drop-front zero (x ∷ xs) ys e = absurd (omega arith)
drop-front (suc n) [] ys e = absurd (omega arith)
drop-front (suc n) (x ∷ xs) ys e = drop-front n xs ys (omega arith)

pub pack_dims_lem :
    (ds : List ℕ) {bytes : List ℕ}
    → pack_dims ds ≡ ok bytes
    → (length bytes ≡ 8 * length ds) × (unpack_dims (length ds) bytes ≡ ok ds)
unfolding pack_dims unpack_dims
pack_dims_lem [] e = (ap length (sym (ok_injective e)), refl)
pack_dims_lem (d ∷ ds) {bytes} e =
    let ran = >>-eq-ok (require (ltb d (2 ^ 63)) out_of_range) _ e in
    let small = require-eq-ok _ out_of_range ran.0 in
    let first = >>=-eq-ok (pack 8 d) _ ran.1 in
    let later = >>=-eq-ok (pack_dims ds) _ first.2 in
    let same = ok_injective later.2 in
    let here = pack_lem 8 d first.1 in
    let ih = pack_dims_lem ds later.1 in
    let value : of_bytes 0 (take 8 bytes) ≡ d =
      ap (λ b. of_bytes 0 (take 8 b)) (sym same)
      ∙ ap (of_bytes 0) (take-front 8 first.0 later.0 here.0)
      ∙ here.1 in
    let left : drop 8 bytes ≡ later.0 =
      ap (drop 8) (sym same) ∙ drop-front 8 first.0 later.0 here.0 in
    (
      ap length (sym same)
          ∙ length-append first.0 later.0
          ∙ (let a = here.0 in let b = ih.0 in omega arith),
      ap
            (λ d2.
              require (ltb d2 (2 ^ 63)) bad_tensor
              >> (unpack_dims (length ds) (drop 8 bytes) >>= λ r. ok (d2 ∷ r)))
            value
          ∙ rw left (rw small (rw ih.1 refl)),
    )
