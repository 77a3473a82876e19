-- ===== src/Strategy/Uniform/Sizes.antt =====
-- strategies/uniform.py: the sizes of the partitions use up the layers, and not too early.
use native.Mathlib.Nat.{
  mul-le-mul_right, le-div_iff_mul-le, lt-mul-div-succ, lt-div-mul-add, mod-eq-sub-div-mul,
  div-mul-le_self, suc-mul, mul-add, mul-one, zero-mul, mul_comm,
}
use torch_slicer.Common.{
  ℕ, zero, suc, ◌+◌, ◌-◌, ◌*◌, ◌/◌, ◌%◌, ◌≤◌, ◌<◌, min, ◌≡◌, refl, arith, Bool-cases, inl, inr, ltb,
}
use torch_slicer.Strategy.Uniform.{ceil_div, spread, sizes}

-- The layers before partition `i`.
unfoldable pub total : (ℕ → ℕ) → ℕ → ℕ
total size_of zero = 0
total size_of (suc i) = total size_of i + size_of i

pub total-zero : (size_of : ℕ → ℕ) → total size_of 0 ≡ 0
unfolding total
total-zero size_of = refl

-- All `n` partitions start before the last layer ends, and together they reach it.
pub record Exhausts (size_of : ℕ → ℕ) (n layers : ℕ) : Type 0 where
  pub starts : (i : ℕ) → i < n → total size_of i < layers
  pub grows : (i : ℕ) → i < n → 0 < size_of i
  pub ends : layers ≤ total size_of n

total-even : (size i : ℕ) → total (λ i. size) i ≡ i * size
unfolding total
total-even size zero = omega arith
total-even size (suc i) = let e = total-even size i in let m = suc-mul i size in omega arith

times-le : (i k size : ℕ) → i ≤ k → i * size ≤ k * size
times-le i k size le = mul-le-mul_right size le

divides : (a n : ℕ) → 0 < n → (a ≡ a / n * n + a % n) × (a % n < n)
divides a n pos =
    let e = mod-eq-sub-div-mul a n in
    let le = div-mul-le_self a n in
    let lt = lt-div-mul-add {a = a} {b = n} pos in (omega arith, omega arith)

total-spread : (layers n i : ℕ) → total (spread layers n) i ≡ i * (layers / n) + min i (layers % n)
unfolding total
total-spread layers n zero = let z = zero-mul (layers / n) in omega arith
total-spread layers n (suc i) =
    let e = total-spread layers n i in let m = suc-mul i (layers / n) in ground arith

module _ (layers n : ℕ) (pos : 0 < n) (fits : n ≤ layers) where
  -- The spread sizes add up to the layers.
  pub total-spread_all : total (spread layers n) n ≡ layers
  total-spread_all =
      let (whole, small) = divides layers n pos in
      let e = total-spread layers n n in let c = mul_comm n (layers / n) in omega arith

  pub spread-Exhausts : Exhausts (spread layers n) n layers
  spread-Exhausts =
      let (whole, small) = divides layers n pos in
      let size_pos : 1 ≤ layers / n = (le-div_iff_mul-le pos).1 (omega arith) in
      record {
        starts = λ i lt.
            let e = total-spread layers n i in
            let m = times-le (suc i) n (layers / n) lt in
            let s = suc-mul i (layers / n) in let c = mul_comm n (layers / n) in omega arith;
        grows = λ i lt. omega arith;
        ends = let e = total-spread layers n n in let c = mul_comm n (layers / n) in omega arith;
      }

  even-Exhausts :
      n ≤ (layers - 1) / ceil_div layers n + 1 → Exhausts (λ i. ceil_div layers n) n layers
  even-Exhausts enough =
      let size = ceil_div layers n in
      let over = lt-mul-div-succ (layers + n - 1) {b = n} pos in
      let split = mul-add n size 1 in
      let one = mul-one n in
      let size_pos : 1 ≤ size = (le-div_iff_mul-le pos).1 (omega arith) in
      let below =
        (le-div_iff_mul-le {k = size} {x = n - 1} {y = layers - 1} size_pos).0 (omega arith) in
      record {
        starts = λ i lt.
            let e = total-even size i in
            let m = times-le i (n - 1) size (omega arith) in omega arith;
        grows = λ i lt. size_pos;
        ends = let e = total-even size n in omega arith;
      }

  pub sizes-Exhausts : Exhausts (sizes layers n) n layers
  unfolding sizes
  sizes-Exhausts = elim (Bool-cases (ltb ((layers - 1) / ceil_div layers n + 1) n)) [
    | inl short ↦ rw short spread-Exhausts
    | inr enough ↦ rw enough (even-Exhausts (ground arith))
  ]
