-- ===== src/Offload/FileHome.antt =====
-- offload/pager.py, _FileHome.io and _full: a buffer is written to a file, and read back, in chunks,
-- each by calls that may transfer less than they are asked for.
use torch_slicer.Common.{
  ◌^◌, ℕ, zero, suc, ◌+◌, ◌-◌, ◌*◌, ◌==◌, min, List, [], ◌∷◌, ◌++◌, if◌then◌else◌, length, take,
  drop, Result, ok, raise, ◌>>=◌,
}

pub data IoError : Type 0 where
  short_transfer out_of_fuel : IoError

-- The bytes of a file, by their offset.
abbrev pub File : Type 0
File = ℕ → ℕ

unfoldable pub write_bytes : File → ℕ → List ℕ → File
write_bytes f o [] = f
write_bytes f o (b ∷ bs) = write_bytes (λ x. if x == o then b else f x) (suc o) bs

unfoldable pub read_bytes : File → ℕ → ℕ → List ℕ
read_bytes f o zero = []
read_bytes f o (suc n) = f o ∷ read_bytes f (suc o) n

-- What the calls of pwritev or preadv transfer at most, by the number of the call.
abbrev pub Counts : Type 0
Counts = ℕ → ℕ

-- _full with pwritev: the bytes left are written from `o` on. A call transfers no more than is left.
unfoldable pub full_write : Counts → ℕ → ℕ → File → ℕ → List ℕ → Result IoError File
full_write counts fuel n f o [] = ok f
full_write counts zero n f o (b ∷ bs) = raise out_of_fuel
full_write counts (suc fuel) n f o (b ∷ bs) =
    let k = min (counts n) (length (b ∷ bs)) in
    let rest =
      full_write counts fuel (suc n) (write_bytes f o (take k (b ∷ bs))) (o + k)
        (drop k (b ∷ bs)) in
    if k == 0 then raise short_transfer else rest

-- _full with preadv: `left` bytes are read from `o` on.
unfoldable pub full_read : Counts → ℕ → ℕ → File → ℕ → ℕ → Result IoError (List ℕ)
full_read counts fuel n f o zero = ok []
full_read counts zero n f o (suc left) = raise out_of_fuel
full_read counts (suc fuel) n f o (suc left) =
    let k = min (counts n) (suc left) in
    let rest = full_read counts fuel (suc n) f (o + k) (suc left - k) >>= λ bs.
    ok (read_bytes f o k ++ bs) in
    if k == 0 then raise short_transfer else rest

-- _CHUNK: one request
abbrev pub chunk : ℕ
chunk = 16 * 2 ^ 20

-- The parts of a buffer with their places in the file: for a in range(0, n, size). The fuel is the
-- length of the buffer.
unfoldable pub parts : (size fuel o : ℕ) → List ℕ → List (ℕ × List ℕ)
parts size fuel o [] = []
parts size zero o (b ∷ bs) = []
parts size (suc fuel) o (b ∷ bs) =
    (o, take size (b ∷ bs)) ∷ parts size fuel (o + size) (drop size (b ∷ bs))

-- The jobs of a write, one after the other; `counts` of each job. They touch different bytes.
unfoldable pub write_parts : (ℕ → Counts) → ℕ → File → List (ℕ × List ℕ) → Result IoError File
write_parts counts job f [] = ok f
write_parts counts job f ((o, bs) ∷ rest) =
    full_write (counts job) (length bs) 0 f o bs >>= λ f'. write_parts counts (suc job) f' rest

unfoldable pub read_parts : (ℕ → Counts) → ℕ → File → List (ℕ × List ℕ) → Result IoError (List ℕ)
read_parts counts job f [] = ok []
read_parts counts job f ((o, bs) ∷ rest) =
    full_read (counts job) (length bs) 0 f o (length bs) >>= λ front.
    read_parts counts (suc job) f rest >>= λ back. ok (front ++ back)

-- io with write=True
abbrev pub io_write : ℕ → (ℕ → Counts) → File → ℕ → List ℕ → Result IoError File
io_write size counts f o buf = write_parts counts 0 f (parts size (length buf) o buf)

-- io with write=False, into a buffer, of which only the length matters
abbrev pub io_read : ℕ → (ℕ → Counts) → File → ℕ → List ℕ → Result IoError (List ℕ)
io_read size counts f o buf = read_parts counts 0 f (parts size (length buf) o buf)
