-- ===== src/Tied/Groups.antt =====
-- core/tied.py, find_tied_parameters: the groups collect the uses of each parameter.
use torch_slicer.Common.{
  ℕ, zero, suc, ◌+◌, ◌≤◌, ==_refl, Bool, true, false, ◌||◌, List, [], ◌∷◌, if◌then◌else◌, ◌≡◌, refl,
  sym, ap, ◌∙◌, Bool-cases, arith, length, inl, inr, some, get_elem?, elem, subst, ltb, String,
  some_injective, map,
}
use torch_slicer.Tied.{
  append_all, keys, owner, Use, TiedGroup, group, tied_groups, find_tied_parameters,
}
use torch_slicer.Tied.Dicts.{
  at_key, values_of, append_all-IsDict, get_elem?-at_key, at_key-append_all, elem-append_all,
}
use torch_slicer.Tied.Owners.{IsLowest, owner-IsLowest, IsLowest-of_same}

-- A group that collects the uses of one parameter, at least two of them: the names under each partition
-- are those of the uses there, and the owner is the lowest partition of a use.
abbrev pub IsCollected : ℕ → TiedGroup → List (ℕ × String) → Type 0
IsCollected i g us =
    (2 ≤ length us)
    × ((g.group_id ≡ i)
        × (((p : ℕ) → at_key p g.members ≡ values_of p us)
            × IsLowest (owner g) (map (λ (u : ℕ × String). u.0) us)))

group-IsCollected : (i : ℕ) (us : List (ℕ × String)) → 2 ≤ length us → IsCollected i (group i us) us
group-IsCollected i [] two = absurd (omega arith)
group-IsCollected i ((p, name) ∷ us) two =
    let all_uses = (p, name) ∷ us in
    let same = λ (x : ℕ). elem-append_all x all_uses [] in
    let first = ap (λ b. b || elem p (map (λ (u : ℕ × String). u.0) us)) (==_refl p) in
    (
      two,
      (
        refl,
        (
          λ q. at_key-append_all q all_uses [],
          IsLowest-of_same (owner (group i all_uses)) (keys (append_all [] all_uses))
              (map (λ (u : ℕ × String). u.0) all_uses) same
              (owner-IsLowest i (append_all [] all_uses) p (same p ∙ first)),
        ),
      ),
    )

at_least_two : (n : ℕ) → ltb n 2 ≡ false → 2 ≤ n
at_least_two n e = ground arith

module _ (id key : ℕ) (us : List (ℕ × String)) (rest : List (ℕ × List (ℕ × String))) where
  abbrev found : Bool → List TiedGroup
  found few = if few then tied_groups id rest else group id us ∷ tied_groups (suc id) rest

  tied_groups-few :
      ltb (length us) 2 ≡ true → tied_groups id ((key, us) ∷ rest) ≡ tied_groups id rest
  unfolding tied_groups
  tied_groups-few e = ap found e

  tied_groups-tied :
      ltb (length us) 2 ≡ false
      → tied_groups id ((key, us) ∷ rest) ≡ group id us ∷ tied_groups (suc id) rest
  unfolding tied_groups
  tied_groups-tied e = ap found e

-- A group comes from an entry with two uses or more.
abbrev CameFrom : ℕ → List (ℕ × List (ℕ × String)) → TiedGroup → Type 0
CameFrom id dict g =
    (key : ℕ) × ((us : List (ℕ × String)) × ((j : ℕ) × ((get_elem? dict j ≡ some (key, us))
          × ((2 ≤ length us) × (g ≡ group id us)))))

came_later :
    (id : ℕ) (e : ℕ × List (ℕ × String)) (rest : List (ℕ × List (ℕ × String))) (g : TiedGroup)
    → CameFrom id rest g
    → CameFrom id (e ∷ rest) g
came_later id e rest g (key, (us, (j, at))) = (key, (us, (suc j, at)))

group-CameFrom :
    (dict : List (ℕ × List (ℕ × String))) (id i : ℕ) (g : TiedGroup)
    → get_elem? (tied_groups id dict) i ≡ some g
    → CameFrom (id + i) dict g
unfolding tied_groups
group-CameFrom [] id i g there = absurd (cc)
group-CameFrom ((key, us) ∷ rest) id i g there = elim (Bool-cases (ltb (length us) 2)) [
  | inl few ↦
      came_later (id + i) (key, us) rest g
        (group-CameFrom rest id i g
          (sym (ap (λ gs. get_elem? gs i) (tied_groups-few id key us rest few)) ∙ there))
  | inr tied ↦
      at_place i (sym (ap (λ gs. get_elem? gs i) (tied_groups-tied id key us rest tied)) ∙ there)
        tied (λ i. group-CameFrom rest (suc id) i g)
]
  where
    at_place :
        (i : ℕ)
        → get_elem? (group id us ∷ tied_groups (suc id) rest) i ≡ some g
        → ltb (length us) 2 ≡ false
        → ((i : ℕ)
            → get_elem? (tied_groups (suc id) rest) i ≡ some g
            → CameFrom (suc id + i) rest g)
        → CameFrom (id + i) ((key, us) ∷ rest) g
    at_place zero at tied later = (
      key,
      (
        us,
        (
          0,
          (
            refl,
            (
              at_least_two (length us) tied,
              sym (some_injective at) ∙ ap (λ n. group n us) (omega arith),
            ),
          ),
        ),
      ),
    )
    at_place (suc i) at tied later =
        subst (λ n. CameFrom n ((key, us) ∷ rest) g) (omega arith)
          (came_later (suc id + i) (key, us) rest g (later i at))

-- Every group that find_tied_parameters returns belongs to one parameter with two uses or more. Its id
-- is its position. Under each partition it has the names of the parameter's uses there, in their order,
-- and its owner is the lowest partition that uses the parameter.
pub find_tied_parameters_lem :
    (uses : List Use) (i : ℕ) (g : TiedGroup)
    → get_elem? (find_tied_parameters uses) i ≡ some g
    → (key : ℕ) × IsCollected i g (values_of key uses)
find_tied_parameters_lem uses i g there =
    let (key, (us, (j, (at, (two, is_group))))) = group-CameFrom (append_all [] uses) 0 i g there in
    let found_uses =
      sym (get_elem?-at_key (append_all [] uses) j key us (append_all-IsDict uses [] tt) at).0
      ∙ at_key-append_all key uses [] in
    (
      key,
      subst (λ vs. IsCollected i g vs) found_uses
          (subst (λ h. IsCollected i h us) (sym (is_group ∙ ap (λ n. group n us) (omega arith)))
            (group-IsCollected i us two)),
    )
