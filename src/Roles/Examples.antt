-- ===== src/Roles/Examples.antt =====
-- sl/roles.py: a U-shaped placement of four slices.
use torch_slicer.Common.{◌≡◌, refl, String, str_eq, some, ok, false, true, arith}
use torch_slicer.Roles.{u_shaped, allowed, resolve_setting, Placement, new_placement, inputs_leave}
use torch_slicer.Roles.Leaves.{Leaves, resolve_setting-Leaves}

abbrev four_slices : Placement
four_slices = record { setting = u_shaped; n_slices = 4 }

abbrev unchanged : String → String
unchanged s = s

resolved : resolve_setting unchanged (some "ushaped") "p2p" ≡ ok u_shaped
unfolding resolve_setting allowed
resolved = refl

placed : new_placement u_shaped 4 ≡ ok four_slices
unfolding new_placement
placed = refl

resolve_setting-Leaves_example :
    Leaves four_slices 4 × (str_eq "p2p" "p2p" ≡ true → inputs_leave four_slices ≡ false)
resolve_setting-Leaves_example =
    resolve_setting-Leaves unchanged (some "ushaped") "p2p" 4 resolved placed (omega arith)
