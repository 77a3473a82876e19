-- ===== src/Transport/Routes.antt =====
-- transport/tunnel.py, Router: the dictionary of routes, and lists of addresses.
use text.Mathlib.TextEquality.{eq_iff}
use torch_slicer.Common.{
  ◌⊎◌, ℕ, Bool, true, false, ◌||◌, Option, none, some, List, [], ◌∷◌, ◌++◌, if◌then◌else◌, String,
  str_eq, ◌≡◌, refl, sym, ap, ◌∙◌, subst, arith, Bool-cases, inl, inr,
}
use torch_slicer.Transport.Routers.{
  get, put_key, among, announce, joined, is_to, remove_key, drop_route, drop_routes,
}

get-put_key :
    {A : Type 0}
    → (x key : String) (v : A) (d : List (String × A))
    → get x (put_key key v d) ≡ (if str_eq key x then some v else get x d)
get-put_key x key v [] = refl
get-put_key x key v ((k, w) ∷ rest) =
    ground (arith, eq_iff k key, eq_iff k x, eq_iff key x, get-put_key x key v rest)

pub get-announce :
    (x : String) (i : ℕ) (addresses : List String) (routes : List (String × ℕ))
    → get x (announce i addresses routes) ≡ (if among x addresses then some i else get x routes)
unfolding announce
get-announce x i [] routes = refl
get-announce x i (a ∷ as_) routes =
    get-announce x i as_ (put_key a i routes)
    ∙ ap (λ o. if among x as_ then some i else o) (get-put_key x a i routes)
    ∙ either (among x as_) (str_eq a x)
  where
    either :
        (b c : Bool)
        → (if b then some i else (if c then some i else get x routes))
          ≡ (if c || b then some i else get x routes)
    either true true = refl
    either true false = refl
    either false true = refl
    either false false = refl

get-remove_key :
    {A : Type 0}
    → (x a : String) (d : List (String × A))
    → get x (remove_key a d) ≡ (if str_eq a x then none else get x d)
unfolding remove_key
get-remove_key x a [] = ground arith
get-remove_key x a ((k, w) ∷ rest) =
    ground (arith, eq_iff k a, eq_iff k x, eq_iff a x, get-remove_key x a rest)

-- The address is given up if it was routed to the tunnel.
abbrev pub given_up_by : ℕ → Option ℕ → Option ℕ
given_up_by i o = if is_to i o then none else o

get-drop_route_self :
    (x : String) (i : ℕ) (routes : List (String × ℕ))
    → get x (drop_route i x routes) ≡ given_up_by i (get x routes)
unfolding drop_route
get-drop_route_self x i routes = elim (Bool-cases (is_to i (get x routes))) [
  | inl e ↦
      rw e (
        get-remove_key x x routes
        ∙ ap (λ b. if b then none else get x routes) ((eq_iff x x).1 refl))
  | inr e ↦ rw e refl
]

get-drop_route :
    (x : String) (i : ℕ) (a : String) (routes : List (String × ℕ))
    → get x (drop_route i a routes)
      ≡ (if str_eq a x then given_up_by i (get x routes) else get x routes)
unfolding drop_route
get-drop_route x i a routes = elim (Bool-cases (str_eq a x)) [
  | inl same ↦
      subst (λ k. get x (drop_route i k routes) ≡ given_up_by i (get x routes))
        (sym ((eq_iff a x).0 same)) (get-drop_route_self x i routes)
      ∙ sym (ap (λ b. if b then given_up_by i (get x routes) else get x routes) same)
  | inr other ↦
      kept (is_to i (get a routes)) other
      ∙ sym (ap (λ b. if b then given_up_by i (get x routes) else get x routes) other)
]
  where
    kept :
        (b : Bool)
        → str_eq a x ≡ false
        → get x (if b then remove_key a routes else routes) ≡ get x routes
    kept true other = get-remove_key x a routes ∙ ap (λ c. if c then none else get x routes) other
    kept false other = refl

given_up_twice : (i : ℕ) (o : Option ℕ) → given_up_by i (given_up_by i o) ≡ given_up_by i o
given_up_twice i o = elim (Bool-cases (is_to i o)) [ inl e ↦ rw e refl | inr e ↦ rw (e, e) refl ]

pub get-drop_routes :
    (x : String) (i : ℕ) (addresses : List String) (routes : List (String × ℕ))
    → get x (drop_routes i addresses routes)
      ≡ (if among x addresses then given_up_by i (get x routes) else get x routes)
unfolding drop_routes
get-drop_routes x i [] routes = refl
get-drop_routes x i (a ∷ as_) routes =
    get-drop_routes x i as_ (drop_route i a routes)
    ∙ ap (λ o. if among x as_ then given_up_by i o else o) (get-drop_route x i a routes)
    ∙ either (among x as_) (str_eq a x)
  where
    either :
        (b c : Bool)
        → (if b
            then given_up_by i (if c then given_up_by i (get x routes) else get x routes)
            else (if c then given_up_by i (get x routes) else get x routes))
          ≡ (if c || b then given_up_by i (get x routes) else get x routes)
    either true true = given_up_twice i (get x routes)
    either true false = refl
    either false true = refl
    either false false = refl

among-append :
    (x a : String) (known : List String) → among x (known ++ a ∷ []) ≡ (among x known || str_eq a x)
among-append x a [] = ground arith
among-append x a (k ∷ known) = ground (arith, among-append x a known)

pub among-joined :
    (x : String) (known new : List String)
    → among x (joined known new) ≡ (among x known || among x new)
unfolding joined
among-joined x known [] = ground arith
among-joined x known (a ∷ as_) = elim (Bool-cases (among a known)) [
  | inl there ↦
      ap (λ b. among x (joined (if b then known else known ++ a ∷ []) as_)) there
      ∙ among-joined x known as_
      ∙ again (Bool-cases (str_eq a x)) there
  | inr new ↦
      ap (λ b. among x (joined (if b then known else known ++ a ∷ []) as_)) new
      ∙ among-joined x (known ++ a ∷ []) as_
      ∙ ap (λ b. b || among x as_) (among-append x a known)
      ∙ assoc (among x known) (str_eq a x) (among x as_)
]
  where
    again :
        ((str_eq a x ≡ true) ⊎ (str_eq a x ≡ false))
        → among a known ≡ true
        → (among x known || among x as_) ≡ (among x known || (str_eq a x || among x as_))
    again (inl same) there =
        let known_x = subst (λ y. among y known ≡ true) ((eq_iff a x).0 same) there in
        rw known_x refl
    again (inr other) there = rw other refl

    assoc : (a b c : Bool) → ((a || b) || c) ≡ (a || (b || c))
    assoc true b c = refl
    assoc false b c = refl
