-- ===== src/Roles.antt =====
-- sl/roles.py: which slices the data owner hosts, and what leaves it.
pub mod Leaves
mod Examples
use torch_slicer.Common.{
  ℕ, ◌+◌, ◌-◌, ltb, ◌==◌, Bool, true, false, not, ◌&&◌, String, str_eq, Option, none, some, List,
  [], ◌∷◌, elem, if◌then◌else◌, Result, ok, raise, require, ◌>>◌,
}

pub data Setting : Type 0 where
  pipeline vanilla u_shaped : Setting

pub data RoleError : Type 0 where
  unknown_setting pipeline_in_p2p too_few_slices : RoleError

-- SETTINGS
abbrev pub setting_of : String → Option Setting
setting_of s =
    if str_eq s "pipeline"
    then some pipeline
    else if str_eq s "vanilla"
    then some vanilla
    else if str_eq s "u_shaped"
    then some u_shaped
    else none

abbrev pub is_pipeline : Setting → Bool
is_pipeline pipeline = true
is_pipeline vanilla = false
is_pipeline u_shaped = false

-- The end of resolve_setting, for a setting that is not empty.
unfoldable pub allowed : Option Setting → String → Result RoleError Setting
allowed none topology = raise unknown_setting
allowed (some s) topology =
    require (not (is_pipeline s && str_eq topology "p2p")) pipeline_in_p2p >> ok s

abbrev pub text_or_empty : Option String → String
text_or_empty none = ""
text_or_empty (some s) = s

-- s = "u_shaped" if it is "ushaped"
abbrev pub with_underscore : String → String
with_underscore s = if str_eq s "ushaped" then "u_shaped" else s

-- resolve_setting; `normal` is strip, lower and the replacement of dashes
unfoldable pub resolve_setting :
    (normal : String → String) → Option String → (topology : String) → Result RoleError Setting
unfolding allowed
resolve_setting normal setting topology =
    let s = with_underscore (normal (text_or_empty setting)) in
    if str_eq s ""
    then ok (if str_eq topology "centralized" then pipeline else vanilla)
    else allowed (setting_of s) topology

pub record Placement : Type 0 where
  pub setting : Setting
  pub n_slices : ℕ

-- Placement(setting, n_slices) with __post_init__, whose first test every Setting passes
unfoldable pub new_placement : Setting → ℕ → Result RoleError Placement
new_placement u_shaped n =
    require (not (ltb n 3)) too_few_slices >> ok (record { setting = u_shaped; n_slices = n })
new_placement s n = ok (record { setting = s; n_slices = n })

unfoldable pub client_slices : Placement → List ℕ
client_slices p = elim p.setting [
  | pipeline ↦ []
  | vanilla ↦ 0 ∷ []
  | u_shaped ↦ 0 ∷ (p.n_slices - 1) ∷ []
]

unfoldable pub inputs_leave : Placement → Bool
inputs_leave p = is_pipeline p.setting

unfoldable pub labels_leave : Placement → Bool
labels_leave p = elim p.setting [ pipeline ↦ true | vanilla ↦ true | u_shaped ↦ false ]

unfoldable pub is_client : Placement → ℕ → Bool
unfolding client_slices
is_client p i = elem i (client_slices p)

-- self.is_client(cut) != self.is_client(cut + 1)
unfoldable pub cut_crosses_owner : Placement → ℕ → Bool
unfolding is_client
cut_crosses_owner p cut =
    if is_client p cut then not (is_client p (cut + 1)) else is_client p (cut + 1)
