-- ===== src/Worker/Arrivals.antt =====
-- executors/worker.py, _recv_into: what it reads does not depend on how the bytes arrive.
use mathlib.Core.List.{append-nil, append_assoc}
use torch_slicer.Common.{
  ℕ, zero, suc, ◌+◌, ◌-◌, ◌≤◌, ◌<◌, min, ◌≡◌, refl, sym, ap, ◌∙◌, arith, Bool, false, List, [], ◌∷◌,
  ◌++◌, length, length-append, take, drop, ok, length-drop, length-take, take-append-drop,
}
use torch_slicer.Worker.Frames.{Event, timeout, arrived, fill, recv_into, Read}

-- How many of the events bring bytes, or the end of the stream.
abbrev pub arrivals : List Event → ℕ
arrivals [] = 0
arrivals (timeout ∷ events) = arrivals events
arrivals (arrived k ∷ events) = suc (arrivals events)

-- Enough arrive for all the bytes and for the end after them.
abbrev pub IsServed : List ℕ → List Event → Type 0
IsServed stream events = length stream < arrivals events

take-append_le : (n : ℕ) (xs ys : List ℕ) → n ≤ length xs → take n (xs ++ ys) ≡ take n xs
take-append_le zero xs ys le = refl
take-append_le (suc n) [] ys le = absurd (omega arith)
take-append_le (suc n) (x ∷ xs) ys le = ap (λ r. x ∷ r) (take-append_le n xs ys (omega arith))

drop-append_le : (n : ℕ) (xs ys : List ℕ) → n ≤ length xs → drop n (xs ++ ys) ≡ drop n xs ++ ys
drop-append_le zero xs ys le = refl
drop-append_le (suc n) [] ys le = absurd (omega arith)
drop-append_le (suc n) (x ∷ xs) ys le = drop-append_le n xs ys (omega arith)

min-suc : (k n : ℕ) → min (suc k) (suc n) ≡ suc (min k n)
min-suc k n = omega arith

minus_suc : (a b : ℕ) → suc a - suc b ≡ a - b
minus_suc a b = omega arith

-- An arrival at a stream that has not ended.
pub fill-arrived :
    (idle : Bool) (got : List ℕ) (n k : ℕ) (events : List Event) (b : ℕ) (s : List ℕ)
    → fill idle got (suc n) (arrived k ∷ events) (b ∷ s)
      ≡ fill idle
          (got ++ (b ∷ take (min k n) s))
          (n - length (take (min k n) s))
          events
          (drop (length (take (min k n) s)) s)
unfolding fill
fill-arrived idle got n k events b s = rw (min-suc k n) (
    ap
      (λ m. fill idle (got ++ (b ∷ take (min k n) s)) m events (drop (length (take (min k n) s)) s))
      (minus_suc n (length (take (min k n) s))))

fill-part :
    (idle : Bool) (got : List ℕ) (k : ℕ) (events : List Event) (b : ℕ) (bs rest : List ℕ)
    → fill idle got (suc (length bs)) (arrived k ∷ events) (b ∷ (bs ++ rest))
      ≡ fill idle
          (got ++ (b ∷ take (min k (length bs)) bs))
          (length (drop (min k (length bs)) bs))
          events
          (drop (min k (length bs)) bs ++ rest)
fill-part idle got k events b bs rest =
    let j = min k (length bs) in
    let within : j ≤ length bs = omega arith in
    let taken : length (take j bs) ≡ j =
      length-take j bs ∙ (let e : min j (length bs) ≡ j = omega arith in e) in
    fill-arrived idle got (length bs) k events b (bs ++ rest)
    ∙ rw (take-append_le j bs rest within) (
        rw taken (
          rw (drop-append_le j bs rest within) (
            ap (λ n. fill idle (got ++ (b ∷ take j bs)) n events (drop j bs ++ rest))
              (sym (length-drop j bs)))))

-- A read of bytes that are in front of others gives just these.
abbrev pub Filled : List ℕ → List Event → List ℕ → List ℕ → Type 0
Filled rest events got bytes =
    (later : List Event) × (fill false got (length bytes) events (bytes ++ rest)
      ≡ ok (got ++ bytes, later, rest))
    × (length rest < arrivals later)
    × (length later ≤ length events)

module _ (rest : List ℕ) where
  pub fill_lem :
      (events : List Event) (got bytes : List ℕ)
      → length bytes + length rest < arrivals events
      → Filled rest events got bytes
  unfolding fill
  fill_lem events got [] enough =
      (events, ap (λ g. ok (g, events, rest)) (sym (append-nil got)), omega arith, omega arith)
  fill_lem [] got (b ∷ bs) enough = absurd (omega arith)
  fill_lem (timeout ∷ events) got (b ∷ bs) enough =
      let ih = fill_lem events got (b ∷ bs) enough in (ih.0, ih.1, ih.2, omega arith)
  fill_lem (arrived k ∷ events) got (b ∷ bs) enough =
      let j = min k (length bs) in
      let size = length-drop j bs in
      let ih = fill_lem events (got ++ (b ∷ take j bs)) (drop j bs) (omega arith) in
      (
        ih.0,
        fill-part false got k events b bs rest
            ∙ ih.1
            ∙ ap (λ g. ok (g, ih.0, rest))
                (append_assoc got (b ∷ take j bs) (drop j bs)
                  ∙ ap (λ r. got ++ (b ∷ r)) (take-append-drop j bs)),
        ih.2,
        omega arith,
      )

-- The next bytes of a stream are read, and what is left is still served.
abbrev pub Received : List Event → List ℕ → List ℕ → Type 0
Received events bytes rest =
    (later : List Event) × (recv_into (length bytes) events (bytes ++ rest)
      ≡ ok (bytes, later, rest))
    × IsServed rest later
    × (length later ≤ length events)

pub recv_into_lem :
    (bytes rest : List ℕ) (events : List Event)
    → IsServed (bytes ++ rest) events
    → Received events bytes rest
recv_into_lem bytes rest events served =
    fill_lem rest events [] bytes (omega (arith, length-append bytes rest))

-- The read of `call` gives the value, leaves `rest` with enough to come, and uses up events only.
abbrev pub Gives : {A : Type 0} → Read A → A → List Event → List ℕ → Type 0
Gives call value events rest =
    (later : List Event) × (call ≡ ok (value, later, rest))
    × IsServed rest later
    × (length later ≤ length events)

pub received :
    (n : ℕ) (bytes rest : List ℕ) (events : List Event)
    → length bytes ≡ n
    → IsServed (bytes ++ rest) events
    → Gives (recv_into n events (bytes ++ rest)) bytes events rest
received n bytes rest events size served =
    let r = recv_into_lem bytes rest events served in
    (r.0, ap (λ k. recv_into k events (bytes ++ rest)) (sym size) ∙ r.1, r.2, r.3)
