-- ===== src/Offload/RoundTrip.antt =====
-- offload/pager.py, _FileHome.io: what is written to a file is read back, however the calls split it.
use mathlib.Core.List.{append-nil}
use torch_slicer.Common.{
  dec_le, ◌⊎◌, ℕ, zero, suc, ◌+◌, ◌-◌, ◌≤◌, ◌<◌, ◌==◌, min, false, List, [], ◌∷◌, ◌++◌,
  if◌then◌else◌, length, take, drop, ok, ◌>>=◌, ◌≡◌, refl, sym, ap, ap₂, ◌∙◌, arith, inl, inr,
  length-take, length-drop, take-append-drop,
}
use torch_slicer.Offload.FileHome.{
  File, write_bytes, read_bytes, Counts, full_write, full_read, parts, write_parts, read_parts,
  io_write, io_read,
}

write_bytes-append :
    (f : File) (o : ℕ) (xs ys : List ℕ)
    → write_bytes f o (xs ++ ys) ≡ write_bytes (write_bytes f o xs) (o + length xs) ys
unfolding write_bytes
write_bytes-append f o [] ys = ap (λ n. write_bytes f n ys) (omega arith)
write_bytes-append f o (x ∷ xs) ys =
    write_bytes-append (λ y. if y == o then x else f y) (suc o) xs ys
    ∙ ap (λ n. write_bytes (write_bytes f o (x ∷ xs)) n ys) (omega arith)

read_bytes-append :
    (f : File) (o m n : ℕ) → read_bytes f o (m + n) ≡ read_bytes f o m ++ read_bytes f (o + m) n
unfolding read_bytes
read_bytes-append f o zero n = ap₂ (read_bytes f) (omega arith) (omega arith)
read_bytes-append f o (suc m) n =
    ap (read_bytes f o) (let e : suc m + n ≡ suc (m + n) = omega arith in e)
    ∙ ap (λ bs. f o ∷ bs)
        (read_bytes-append f (suc o) m n
          ∙ ap (λ k. read_bytes f (suc o) m ++ read_bytes f k n) (omega arith))

-- What a write leaves elsewhere, and where it wrote.
write_bytes-outside :
    (f : File) (o : ℕ) (bs : List ℕ) (x : ℕ)
    → (x < o) ⊎ (o + length bs ≤ x)
    → write_bytes f o bs x ≡ f x
unfolding write_bytes
write_bytes-outside f o [] x out = refl
write_bytes-outside f o (b ∷ bs) x (inl lt) =
    write_bytes-outside (λ y. if y == o then b else f y) (suc o) bs x (inl (omega arith))
    ∙ ground arith
write_bytes-outside f o (b ∷ bs) x (inr le) =
    write_bytes-outside (λ y. if y == o then b else f y) (suc o) bs x (inr (omega arith))
    ∙ ground arith

read_bytes-write_bytes :
    (f : File) (o : ℕ) (bs : List ℕ) → read_bytes (write_bytes f o bs) o (length bs) ≡ bs
unfolding read_bytes write_bytes
read_bytes-write_bytes f o [] = refl
read_bytes-write_bytes f o (b ∷ bs) =
    ap₂ (λ x xs. x ∷ xs)
      (write_bytes-outside (λ y. if y == o then b else f y) (suc o) bs o (inl (omega arith))
        ∙ ground arith)
      (read_bytes-write_bytes (λ y. if y == o then b else f y) (suc o) bs)

not_zero : (c n : ℕ) → 0 < c → (min c (suc n) == 0) ≡ false
not_zero c n pos = ground arith

-- A front and a rest of what is written.
write_bytes-split :
    (f : File) (o c : ℕ) (bs : List ℕ)
    → c ≤ length bs
    → write_bytes (write_bytes f o (take c bs)) (o + c) (drop c bs) ≡ write_bytes f o bs
write_bytes-split f o c bs le =
    let count : length (take c bs) ≡ c = length-take c bs ∙ omega arith in
    ap (λ n. write_bytes (write_bytes f o (take c bs)) (o + n) (drop c bs)) (sym count)
    ∙ sym (write_bytes-append f o (take c bs) (drop c bs))
    ∙ ap (write_bytes f o) (take-append-drop c bs)

take_all : (n : ℕ) (xs : List ℕ) → length xs ≤ n → (take n xs ≡ xs) × (drop n xs ≡ [])
take_all zero [] le = (refl, refl)
take_all (suc n) [] le = (refl, refl)
take_all zero (x ∷ xs) le = absurd (omega arith)
take_all (suc n) (x ∷ xs) le =
    let (front, back) = take_all n xs (omega arith) in (ap (λ l. x ∷ l) front, back)

write_bytes-front_rest :
    (f : File) (o c : ℕ) (bs : List ℕ)
    → write_bytes (write_bytes f o (take c bs)) (o + c) (drop c bs) ≡ write_bytes f o bs
unfolding write_bytes
write_bytes-front_rest f o c bs = elim (dec_le c (length bs)) [
  | yes le ↦ write_bytes-split f o c bs le
  | no gt ↦
      let (front, back) = take_all c bs (omega arith) in
      ap₂ (λ x y. write_bytes (write_bytes f o x) (o + c) y) front back
]

full_write_lem :
    (counts : Counts) (fuel n : ℕ) (f : File) (o : ℕ) (bs : List ℕ)
    → ((m : ℕ) → 0 < counts m)
    → length bs ≤ fuel
    → full_write counts fuel n f o bs ≡ ok (write_bytes f o bs)
unfolding full_write write_bytes
full_write_lem counts zero n f o [] pos enough = refl
full_write_lem counts (suc fuel) n f o [] pos enough = refl
full_write_lem counts zero n f o (b ∷ bs) pos enough = absurd (omega arith)
full_write_lem counts (suc fuel) n f o (b ∷ bs) pos enough =
    let k = min (counts n) (suc (length bs)) in
    let some_bytes = pos n in
    let left : length (drop k (b ∷ bs)) ≤ fuel = omega (arith, length-drop k (b ∷ bs)) in
    rw (not_zero (counts n) (length bs) (pos n)) (
      full_write_lem counts fuel (suc n) (write_bytes f o (take k (b ∷ bs))) (o + k)
        (drop k (b ∷ bs)) pos left
      ∙ ap ok (write_bytes-split f o k (b ∷ bs) (omega arith)))

read_bytes-front_rest :
    (f : File) (o c : ℕ) (bs : List ℕ)
    → read_bytes f o (length (take c bs)) ++ read_bytes f (o + c) (length (drop c bs))
      ≡ read_bytes f o (length bs)
unfolding read_bytes
read_bytes-front_rest f o c bs = elim (dec_le c (length bs)) [
  | yes le ↦
      let front : length (take c bs) ≡ c = length-take c bs ∙ omega arith in
      ap₂ (λ m n. read_bytes f o m ++ read_bytes f (o + c) n) front (length-drop c bs)
      ∙ sym (read_bytes-append f o c (length bs - c))
      ∙ ap (read_bytes f o) (omega arith)
  | no gt ↦
      let (front, back) = take_all c bs (omega arith) in
      ap₂ (λ x y. read_bytes f o (length x) ++ read_bytes f (o + c) (length y)) front back
      ∙ append-nil (read_bytes f o (length bs))
]

full_read_lem :
    (counts : Counts) (fuel n : ℕ) (f : File) (o left : ℕ)
    → ((m : ℕ) → 0 < counts m)
    → left ≤ fuel
    → full_read counts fuel n f o left ≡ ok (read_bytes f o left)
unfolding full_read read_bytes
full_read_lem counts zero n f o zero pos enough = refl
full_read_lem counts (suc fuel) n f o zero pos enough = refl
full_read_lem counts zero n f o (suc left) pos enough = absurd (omega arith)
full_read_lem counts (suc fuel) n f o (suc left) pos enough =
    let k = min (counts n) (suc left) in
    let some_bytes = pos n in
    rw (not_zero (counts n) left (pos n)) (
      ap (λ r. r >>= λ bs. ok (read_bytes f o k ++ bs))
        (full_read_lem counts fuel (suc n) f (o + k) (suc left - k) pos (omega arith))
      ∙ ap ok (
          sym (read_bytes-append f o k (suc left - k))
          ∙ ap (read_bytes f o) (let e : k + (suc left - k) ≡ suc left = omega arith in e)))

write_parts_lem :
    (size : ℕ) (counts : ℕ → Counts) (fuel job : ℕ) (f : File) (o : ℕ) (bs : List ℕ)
    → 0 < size
    → ((j m : ℕ) → 0 < counts j m)
    → length bs ≤ fuel
    → write_parts counts job f (parts size fuel o bs) ≡ ok (write_bytes f o bs)
unfolding write_parts parts write_bytes
write_parts_lem size counts zero job f o [] some_size pos enough = refl
write_parts_lem size counts (suc fuel) job f o [] some_size pos enough = refl
write_parts_lem size counts zero job f o (b ∷ bs) some_size pos enough = absurd (omega arith)
write_parts_lem size counts (suc fuel) job f o (b ∷ bs) some_size pos enough =
    let front = take size (b ∷ bs) in
    ap
      (λ r. r >>= λ f'.
        write_parts counts (suc job) f' (parts size fuel (o + size) (drop size (b ∷ bs))))
      (full_write_lem (counts job) (length front) 0 f o front (pos job) (omega arith))
    ∙ write_parts_lem size counts fuel (suc job) (write_bytes f o front) (o + size)
        (drop size (b ∷ bs)) some_size pos (omega (arith, length-drop size (b ∷ bs)))
    ∙ ap ok (write_bytes-front_rest f o size (b ∷ bs))

read_parts_lem :
    (size : ℕ) (counts : ℕ → Counts) (fuel job : ℕ) (f : File) (o : ℕ) (bs : List ℕ)
    → 0 < size
    → ((j m : ℕ) → 0 < counts j m)
    → length bs ≤ fuel
    → read_parts counts job f (parts size fuel o bs) ≡ ok (read_bytes f o (length bs))
unfolding read_parts parts read_bytes
read_parts_lem size counts zero job f o [] some_size pos enough = refl
read_parts_lem size counts (suc fuel) job f o [] some_size pos enough = refl
read_parts_lem size counts zero job f o (b ∷ bs) some_size pos enough = absurd (omega arith)
read_parts_lem size counts (suc fuel) job f o (b ∷ bs) some_size pos enough =
    let front = take size (b ∷ bs) in
    let back = drop size (b ∷ bs) in
    ap
      (λ r. r >>= λ x.
        read_parts counts (suc job) f (parts size fuel (o + size) back) >>= λ y. ok (x ++ y))
      (full_read_lem (counts job) (length front) 0 f o (length front) (pos job) (omega arith))
    ∙ ap (λ r. r >>= λ y. ok (read_bytes f o (length front) ++ y))
        (read_parts_lem size counts fuel (suc job) f (o + size) back some_size pos
          (omega (arith, length-drop size (b ∷ bs))))
    ∙ ap ok (read_bytes-front_rest f o size (b ∷ bs))

-- Whatever the calls transfer, as long as each transfers something: a buffer that io writes in chunks
-- of some size is what io reads back from the same place, and nothing else of the file changes.
pub io_roundtrip :
    (size : ℕ) (writes reads : ℕ → Counts) (f : File) (o : ℕ) (buf : List ℕ)
    → 0 < size
    → ((j m : ℕ) → 0 < writes j m)
    → ((j m : ℕ) → 0 < reads j m)
    → (f' : File) × ((io_write size writes f o buf ≡ ok f')
        × ((io_read size reads f' o buf ≡ ok buf)
            × ((x : ℕ) → (x < o) ⊎ (o + length buf ≤ x) → f' x ≡ f x)))
io_roundtrip size writes reads f o buf some_size w r = (
  write_bytes f o buf,
  (
    write_parts_lem size writes (length buf) 0 f o buf some_size w (omega arith),
    (
      read_parts_lem size reads (length buf) 0 (write_bytes f o buf) o buf some_size r (omega arith)
          ∙ ap ok (read_bytes-write_bytes f o buf),
      write_bytes-outside f o buf,
    ),
  ),
)
