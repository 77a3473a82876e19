-- ===== src/Offload/Examples.antt =====
-- offload/pager.py: three tensors in a region.
use torch_slicer.Offload.FileHome.{File, io_write, io_read}
use torch_slicer.Offload.RoundTrip.{io_roundtrip}
use torch_slicer.Common.{
  count_up, ok, ◌<◌, ◌⊎◌, ◌+◌, ◌≤◌, arith, length, ℕ, List, [], ◌∷◌, ◌≡◌, refl, map,
}
use torch_slicer.Offload.{Entry, empty, add_all}
use torch_slicer.Offload.Layouts.{IsLaidOut, add_all_lem}

abbrev tensors : List ℕ
tensors = 300 ∷ 256 ∷ 7 ∷ []

laid_out :
    (add_all empty tensors).entries
    ≡ record { offset = 0; nbytes = 300 }
      ∷ record { offset = 512; nbytes = 256 }
      ∷ record { offset = 768; nbytes = 7 }
      ∷ []
unfolding add_all
laid_out = refl

add_all_lem_example :
    IsLaidOut (add_all empty tensors)
    × (map (λ (e : Entry). e.nbytes) (add_all empty tensors).entries ≡ tensors)
add_all_lem_example = add_all_lem tensors

-- Ten bytes at offset 5, in chunks of four; the calls write one byte each and read three at most.
io_roundtrip_example :
    (f' : File) × ((io_write 4 (λ j m. 1) (λ x. 0) 5 (count_up 30 10) ≡ ok f')
      × ((io_read 4 (λ j m. 3) f' 5 (count_up 30 10) ≡ ok (count_up 30 10))
          × ((x : ℕ) → (x < 5) ⊎ (5 + length (count_up 30 10) ≤ x) → f' x ≡ 0)))
io_roundtrip_example =
    io_roundtrip 4 (λ j m. 1) (λ j m. 3) (λ x. 0) 5 (count_up 30 10) (omega arith)
      (λ j m. omega arith) (λ j m. omega arith)
