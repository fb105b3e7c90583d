-- ===== src/Permission/Wildcard.antt =====
-- What a resource pattern covers, as a relation.
use idpforge.Base.{
  ◌≡◌, ap, ◌∙◌, ◌||◌, ◌&&◌, refl, sym, inl, inr, ◌↔◌, true, List, [], ◌∷◌, ◌++◌, arith, Str, In,
  str_eq, str_eq_iff, has_prefix, has_prefix_iff, cut_suffix, cut_suffix_iff, Bool-cases,
  Option-cases, append_assoc,
}
use idpforge.Permission.{Permission, star, slash, slash_star, matches, has_in, Resolved, has}

-- A pattern covers itself; "*" covers every resource; "folder/*" covers the folder and what is in it.
pub data Covers (pattern resource : Str) : Type 0 where
  same : pattern ≡ resource → Covers pattern resource
  everything : pattern ≡ star → Covers pattern resource
  folder : pattern ≡ resource ++ slash_star → Covers pattern resource
  inside :
      (prefix rest : Str)
      → pattern ≡ prefix ++ slash_star
      → resource ≡ prefix ++ slash ∷ rest
      → Covers pattern resource

in_folder :
    (pattern resource prefix : Str)
    → pattern ≡ prefix ++ slash_star
    → (str_eq resource prefix || has_prefix resource (prefix ++ slash ∷ [])) ≡ true
    → Covers pattern resource
in_folder pattern resource prefix e h = elim (Bool-cases (str_eq resource prefix)) [
  | inl at ↦ folder (e ∙ ap (λ t. t ++ slash_star) (sym ((str_eq_iff _ _).0 at)))
  | inr off ↦
      let (rest, f) = (has_prefix_iff resource (prefix ++ slash ∷ [])).0 (ground arith) in
      inside prefix rest e (f ∙ append_assoc prefix (slash ∷ []) rest)
]

pub matches_sound :
    (p : Permission) (resource : Str) → matches p resource ≡ true → Covers p.resource resource
unfolding matches
matches_sound p resource h = elim (Bool-cases (str_eq p.resource resource)) [
  | inl e ↦ same ((str_eq_iff _ _).0 e)
  | inr e ↦ elim (Bool-cases (str_eq p.resource star)) [
    | inl f ↦ everything ((str_eq_iff _ _).0 f)
    | inr f ↦ elim (Option-cases (cut_suffix p.resource slash_star)) [
      | inl missed ↦ ground arith
      | inr (prefix, found) ↦
          in_folder p.resource resource prefix ((cut_suffix_iff _ _ _).0 found) (ground arith)
    ]
  ]
]

pub matches_complete :
    (p : Permission) (resource : Str) → Covers p.resource resource → matches p resource ≡ true
unfolding matches
matches_complete p resource (same e) = ground (arith, str_eq_iff p.resource resource)
matches_complete p resource (everything e) = ground (arith, str_eq_iff p.resource star)
matches_complete p resource (folder e) =
    ground
      (arith, (cut_suffix_iff p.resource slash_star resource).1 e, str_eq_iff resource resource)
matches_complete p resource (inside prefix rest e f) =
    let inside_prefix =
      (has_prefix_iff resource (prefix ++ slash ∷ [])).1
        (rest, f ∙ sym (append_assoc prefix (slash ∷ []) rest)) in
    ground (arith, (cut_suffix_iff p.resource slash_star prefix).1 e, inside_prefix)

-- `matches` decides what a pattern covers.
pub matches_iff :
    (p : Permission) (resource : Str) → (matches p resource ≡ true) ↔ Covers p.resource resource
matches_iff p resource = (matches_sound p resource, matches_complete p resource)

-- A permission of the list for this action, whose pattern covers the resource.
abbrev pub Grants : List Permission → Str → Str → Type 0
Grants ps resource action =
    (p : Permission) × In p ps × (p.action ≡ action) × Covers p.resource resource

has_in_sound :
    (ps : List Permission) (resource action : Str)
    → has_in ps resource action ≡ true
    → Grants ps resource action
unfolding has_in
has_in_sound [] resource action h = cc
has_in_sound (p ∷ ps) resource action h =
    elim (Bool-cases (str_eq p.action action && matches p resource)) [
      | inl here ↦
          (p, inl refl, (str_eq_iff _ _).0 (ground arith), matches_sound p resource (ground arith))
      | inr later ↦
          let (q, m, a, c) = has_in_sound ps resource action (ground arith) in (q, inr m, a, c)
    ]

has_in_complete :
    (ps : List Permission) (resource action : Str) (p : Permission)
    → In p ps
    → p.action ≡ action
    → Covers p.resource resource
    → has_in ps resource action ≡ true
unfolding has_in
has_in_complete [] resource action p m a c = elim m [ ]
has_in_complete (q ∷ ps) resource action p (inl e) a c =
    ground (arith, str_eq_iff q.action action, matches_complete p resource c)
has_in_complete (q ∷ ps) resource action p (inr m) a c =
    ground (arith, has_in_complete ps resource action p m a c)

-- `has` holds exactly when a permission for the action covers the resource.
pub has_iff :
    (r : Resolved) (resource action : Str)
    → (has r resource action ≡ true) ↔ Grants r.permissions resource action
unfolding has
has_iff r resource action = (
  has_in_sound r.permissions resource action,
  λ (p, m, a, c). has_in_complete r.permissions resource action p m a c,
)
