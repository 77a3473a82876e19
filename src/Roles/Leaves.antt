-- ===== src/Roles/Leaves.antt =====
-- sl/roles.py: what leaves the data owner is what the slices it does not host take.
use text.Mathlib.TextEquality.{eq_iff}
use torch_slicer.Common.{
  if◌then◌else◌, ℕ, ◌+◌, ◌-◌, ◌≤◌, ◌<◌, ltb, ◌==◌, ◌||◌, ◌&&◌, Bool, true, false, not, String,
  str_eq, Option, none, some, ◌≡◌, refl, sym, ap, ◌∙◌, subst, inl, inr, Bool-cases, ok, require,
  require-eq-ok, >>-eq-ok, ok_injective, arith,
}
use torch_slicer.Roles.{
  Setting, pipeline, vanilla, u_shaped, pipeline_in_p2p, too_few_slices, setting_of, is_pipeline,
  allowed, text_or_empty, with_underscore, resolve_setting, Placement, new_placement, client_slices,
  inputs_leave, labels_leave, is_client, cut_crosses_owner,
}

-- The slices of a placement, and the cuts between them.
abbrev pub Leaves : Placement → ℕ → Type 0
Leaves p n =
    (inputs_leave p ≡ not (is_client p 0))
    × (labels_leave p ≡ not (is_client p (n - 1)))
    × ((i : ℕ) → 0 < i → i + 1 < n → is_client p i ≡ false)
    × ((cut : ℕ)
        → cut + 1 < n
        → cut_crosses_owner p cut
          ≡ (((cut == 0) && not (inputs_leave p)) || ((cut + 2 == n) && not (labels_leave p))))

Leaves-pipeline : (n : ℕ) → 2 ≤ n → Leaves (record { setting = pipeline; n_slices = n }) n
unfolding inputs_leave labels_leave client_slices is_client cut_crosses_owner
Leaves-pipeline n many = (refl, refl, λ i low high. refl, λ cut lt. ground arith)

Leaves-vanilla : (n : ℕ) → 2 ≤ n → Leaves (record { setting = vanilla; n_slices = n }) n
unfolding inputs_leave labels_leave client_slices is_client cut_crosses_owner
Leaves-vanilla n many = (refl, ground arith, λ i low high. ground arith, λ cut lt. ground arith)

Leaves-u_shaped : (n : ℕ) → 3 ≤ n → Leaves (record { setting = u_shaped; n_slices = n }) n
unfolding inputs_leave labels_leave client_slices is_client cut_crosses_owner
Leaves-u_shaped n many = (refl, ground arith, λ i low high. ground arith, λ cut lt. ground arith)

new_placement-Leaves :
    (s : Setting) (n : ℕ) {p : Placement}
    → new_placement s n ≡ ok p
    → 2 ≤ n
    → Leaves p n × (p.setting ≡ s)
unfolding new_placement
new_placement-Leaves pipeline n e many =
    subst (λ p. Leaves p n × (p.setting ≡ pipeline)) (ok_injective e) (Leaves-pipeline n many, refl)
new_placement-Leaves vanilla n e many =
    subst (λ p. Leaves p n × (p.setting ≡ vanilla)) (ok_injective e) (Leaves-vanilla n many, refl)
new_placement-Leaves u_shaped n e many =
    let ran = >>-eq-ok (require (not (ltb n 3)) too_few_slices) _ e in
    let large = require-eq-ok _ too_few_slices ran.0 in
    subst (λ p. Leaves p n × (p.setting ≡ u_shaped)) (ok_injective ran.1)
      (Leaves-u_shaped n (ground arith), refl)

no_pipeline :
    (s : Setting) (in_p2p : Bool)
    → not (is_pipeline s && in_p2p) ≡ true
    → in_p2p ≡ true
    → is_pipeline s ≡ false
no_pipeline pipeline true e h = absurd (cc)
no_pipeline pipeline false e h = absurd (cc)
no_pipeline vanilla in_p2p e h = refl
no_pipeline u_shaped in_p2p e h = refl

allowed-p2p :
    (o : Option Setting) (topology : String) {s : Setting}
    → allowed o topology ≡ ok s
    → str_eq topology "p2p" ≡ true
    → is_pipeline s ≡ false
unfolding allowed
allowed-p2p none topology e h = absurd (cc)
allowed-p2p (some t) topology e h =
    let ran =
      >>-eq-ok (require (not (is_pipeline t && str_eq topology "p2p")) pipeline_in_p2p) _ e in
    ap is_pipeline (sym (ok_injective ran.1))
    ∙ no_pipeline t (str_eq topology "p2p") (require-eq-ok _ pipeline_in_p2p ran.0) h

default-p2p :
    (topology : String)
    → str_eq topology "p2p" ≡ true
    → is_pipeline (if str_eq topology "centralized" then pipeline else vanilla) ≡ false
default-p2p topology h =
    subst (λ t. is_pipeline (if str_eq t "centralized" then pipeline else vanilla) ≡ false)
      (sym ((eq_iff topology "p2p").0 h)) refl

resolve_setting-p2p :
    (normal : String → String) (setting : Option String) (topology : String) {s : Setting}
    → resolve_setting normal setting topology ≡ ok s
    → str_eq topology "p2p" ≡ true
    → is_pipeline s ≡ false
unfolding resolve_setting
resolve_setting-p2p normal setting topology e h =
    let text = with_underscore (normal (text_or_empty setting)) in
    elim (Bool-cases (str_eq text "")) [
      | inl empty ↦ ap is_pipeline (sym (ok_injective (rw empty at e))) ∙ default-p2p topology h
      | inr given ↦ allowed-p2p (setting_of text) topology (rw given at e) h
    ]

-- With a setting that resolves and a placement that is made, of two slices or more: the inputs leave
-- exactly if the data owner does not host the first slice, and the labels exactly if it does not host the
-- last; it hosts no other slice; the cuts between its slices and the others' are the first cut if the
-- inputs stay, and the last if the labels stay; and in P2P the inputs stay, whatever the setting.
pub resolve_setting-Leaves :
    (normal : String → String) (setting : Option String) (topology : String) (n : ℕ) {s : Setting}
    {p : Placement}
    → resolve_setting normal setting topology ≡ ok s
    → new_placement s n ≡ ok p
    → 2 ≤ n
    → Leaves p n × (str_eq topology "p2p" ≡ true → inputs_leave p ≡ false)
unfolding inputs_leave
resolve_setting-Leaves normal setting topology n resolved placed many =
    let leaves = new_placement-Leaves _ n placed many in
    (
      leaves.0,
      λ h. ap is_pipeline leaves.1 ∙ resolve_setting-p2p normal setting topology resolved h,
    )
