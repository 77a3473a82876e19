-- ===== src/Offload.antt =====
-- offload/pager.py: how the tensors of a slice are laid out in a region of bytes.
pub mod Layouts
pub mod Pager
pub mod FileHome
pub mod RoundTrip
mod Examples
use torch_slicer.Common.{ℕ, ◌+◌, ◌-◌, ◌*◌, ◌/◌, List, [], ◌∷◌, ◌++◌}

abbrev pub alignment : ℕ
alignment = 256

-- _round
abbrev pub round_up : ℕ → ℕ → ℕ
round_up n a = (n + a - 1) / a * a

-- Where a tensor sits; how it is read and re-pointed is left out.
pub record Entry : Type 0 where
  pub offset : ℕ
  pub nbytes : ℕ

pub record Layout : Type 0 where
  pub entries : List Entry
  pub nbytes : ℕ

abbrev pub empty : Layout
empty = record { entries = []; nbytes = 0 }

-- _Layout.add, for a tensor of the given size
unfoldable pub add : Layout → ℕ → Layout
add layout size = record {
  entries = layout.entries ++ record { offset = layout.nbytes; nbytes = size } ∷ [];
  nbytes = round_up (layout.nbytes + size) alignment;
}

-- The entries of a page: one add for each tensor. The sizes are those of the
-- tensors that are neither kept on the device nor met before, parameters first.
unfoldable pub add_all : Layout → List ℕ → Layout
unfolding add
add_all layout [] = layout
add_all layout (size ∷ sizes) = add_all (add layout size) sizes
