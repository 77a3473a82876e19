-- ===== src/Tied.antt =====
-- core/tied.py: the parameters that several names reach, and who owns them.
mod Dicts
mod Owners
pub mod Groups
mod Examples
use torch_slicer.Common.{
  ℕ, zero, suc, ◌+◌, ◌==◌, ltb, List, [], ◌∷◌, ◌++◌, if◌then◌else◌, String, length, Option, none,
  some,
}

-- `d.setdefault(key, []).append(value)`
unfoldable pub append_at : {V : Type 0} → ℕ → V → List (ℕ × List V) → List (ℕ × List V)
append_at key value [] = (key, value ∷ []) ∷ []
append_at key value ((k, vs) ∷ rest) =
    let later = append_at key value rest in
    if key == k then (k, vs ++ value ∷ []) ∷ rest else (k, vs) ∷ later

-- One append after the other.
unfoldable pub append_all : {V : Type 0} → List (ℕ × List V) → List (ℕ × V) → List (ℕ × List V)
append_all dict [] = dict
append_all dict ((key, value) ∷ items) = append_all (append_at key value dict) items

-- A use of a parameter, by the parameter's id: in which partition, and under which name. The uses
-- stand in the order of the partitions, and in each as named_parameters gives them.
abbrev pub Use : Type 0
Use = ℕ × (ℕ × String)

-- Whether the parameter is frozen is left out.
pub record TiedGroup : Type 0 where
  pub group_id : ℕ
  pub members : List (ℕ × List String)

-- The keys of a dictionary, in their order.
abbrev pub keys : {V : Type 0} → List (ℕ × List V) → List ℕ
keys [] = []
keys ((k, vs) ∷ rest) = k ∷ keys rest

-- The least of a number and others.
unfoldable pub least : ℕ → List ℕ → ℕ
least n [] = n
least n (m ∷ ms) = least (if ltb m n then m else n) ms

-- min(self.members), which has no value when there are none
unfoldable pub owner : TiedGroup → Option ℕ
owner g = elim g.members [ [] ↦ none | (p, names) ∷ rest ↦ some (least p (keys rest)) ]

-- The group of the uses of one parameter.
abbrev pub group : ℕ → List (ℕ × String) → TiedGroup
group id uses = record { group_id = id; members = append_all [] uses }

-- The loop over by_param, after `id` groups.
unfoldable pub tied_groups : ℕ → List (ℕ × List (ℕ × String)) → List TiedGroup
tied_groups id [] = []
tied_groups id ((key, uses) ∷ rest) =
    let without = tied_groups id rest in
    let later = tied_groups (suc id) rest in
    if ltb (length uses) 2 then without else group id uses ∷ later

abbrev pub find_tied_parameters : List Use → List TiedGroup
find_tied_parameters uses = tied_groups 0 (append_all [] uses)
