-- ===== src/Tied/Examples.antt =====
-- core/tied.py: an embedding that the head of the last partition shares.
use torch_slicer.Common.{ℕ, List, [], ◌∷◌, ◌≡◌, refl, some, ap, get_elem?}
use torch_slicer.Tied.{
  Use, TiedGroup, find_tied_parameters, owner, append_all, append_at, tied_groups, least,
}
use torch_slicer.Tied.Dicts.{values_of}
use torch_slicer.Tied.Groups.{IsCollected, find_tied_parameters_lem}

-- Parameter 7 is used in the partitions 2 and 0, parameter 8 once, in partition 1.
abbrev shared : List Use
shared = (7, (2, "head")) ∷ (8, (1, "block")) ∷ (7, (0, "embedding")) ∷ []

abbrev tied_group : TiedGroup
tied_group = record { group_id = 0; members = (2, "head" ∷ []) ∷ (0, "embedding" ∷ []) ∷ [] }

one_group : find_tied_parameters shared ≡ tied_group ∷ []
unfolding tied_groups append_all append_at
one_group = refl

its_owner : owner tied_group ≡ some 0
unfolding owner least
its_owner = refl

find_tied_parameters_lem_example : (key : ℕ) × IsCollected 0 tied_group (values_of key shared)
find_tied_parameters_lem_example =
    find_tied_parameters_lem shared 0 tied_group (ap (λ gs. get_elem? gs 0) one_group)
