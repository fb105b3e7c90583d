-- ===== src/Permission/Tame.antt =====
-- internal/rbac/models.go: patterns that keep their meaning when a pattern is asked for as a resource.
use idpforge.Base.{
  ◌≡◌, sym, ap, ◌∙◌, inl, inr, Bool, true, ◌&&◌, none, some, [], ◌∷◌, ◌++◌, arith, not,
  append_assoc, Str, str_eq, subst, append-nil, str_eq_iff, cut_suffix, cut_suffix_iff,
  append_split, is_some, ◌⊎◌, ◌≢◌,
}
use idpforge.Permission.{star, slash, slash_star}
use idpforge.Permission.Wildcard.{Covers, same, everything, folder, inside}

-- A pattern whose wildcard stands for a folder: what comes before "/*" is neither "*" nor a
-- pattern of the same kind.
unfoldable pub is_tame : Str → Bool
is_tame pattern = elim (cut_suffix pattern slash_star) [
  | none ↦ true
  | some prefix ↦ not (str_eq prefix star) && not (is_some (cut_suffix prefix slash_star))
]

tame_prefix :
    (pattern prefix : Str)
    → is_tame pattern ≡ true
    → pattern ≡ prefix ++ slash_star
    → (prefix ≢ star) × ((q : Str) → prefix ≢ q ++ slash_star)
unfolding is_tame
tame_prefix pattern prefix t e =
    let found = (cut_suffix_iff pattern slash_star prefix).1 e in
    (
      λ f. ground (arith, str_eq_iff prefix star),
      λ q f. ground (arith, (cut_suffix_iff prefix slash_star q).1 f),
    )

-- A text "prefix/rest" that is itself "folder/*": the folder is the prefix, or lies in it.
inside_folder :
    (prefix rest q : Str)
    → prefix ++ slash ∷ rest ≡ q ++ slash_star
    → (q ≡ prefix) ⊎ ((t : Str) × (q ≡ prefix ++ slash ∷ t))
inside_folder prefix rest q e = elim (append_split prefix (slash ∷ rest) q slash_star e) [
  | inl ([], l, r) ↦ inl (l ∙ append-nil prefix)
  | inl (c ∷ t, l, r) ↦ inr (t, ground arith)
  | inr ([], l, r) ↦ inl (sym (l ∙ append-nil q))
  | inr (c ∷ [], l, r) ↦ ground arith
  | inr (c ∷ d ∷ [], l, r) ↦ ground arith
  | inr (c ∷ d ∷ b ∷ t, l, r) ↦ ground arith
]

not_star : (prefix rest : Str) → prefix ++ slash ∷ rest ≢ star
not_star [] rest e = ground arith
not_star (c ∷ []) rest e = ground arith
not_star (c ∷ d ∷ p) rest e = ground arith

-- What a tame pattern covers, taken as a pattern, covers no more.
pub Covers-trans :
    (pattern middle resource : Str)
    → is_tame pattern ≡ true
    → Covers pattern middle
    → Covers middle resource
    → Covers pattern resource
Covers-trans pattern middle resource t (same e) d = subst (λ p. Covers p resource) (sym e) d
Covers-trans pattern middle resource t (everything e) d = everything e
Covers-trans pattern middle resource t (folder e) (same f) = folder (rw (← f) e)
Covers-trans pattern middle resource t (folder e) (everything f) =
    absurd ((tame_prefix pattern middle t e).0 f)
Covers-trans pattern middle resource t (folder e) (folder f) =
    absurd ((tame_prefix pattern middle t e).1 resource f)
Covers-trans pattern middle resource t (folder e) (inside q rest f g) =
    absurd ((tame_prefix pattern middle t e).1 q f)
Covers-trans pattern middle resource t (inside p rest e f) (same g) = inside p rest e (sym g ∙ f)
Covers-trans pattern middle resource t (inside p rest e f) (everything g) =
    absurd (not_star p rest (sym f ∙ g))
Covers-trans pattern middle resource t (inside p rest e f) (folder g) =
    elim (inside_folder p rest resource (sym f ∙ g)) [
      | inl at ↦ folder (rw at e)
      | inr (u, under) ↦ inside p u e under
    ]
Covers-trans pattern middle resource t (inside p rest e f) (inside q more g h) =
    elim (inside_folder p rest q (sym f ∙ g)) [
      | inl at ↦ inside p more e (rw (← at) h)
      | inr (u, under) ↦
          inside p (u ++ slash ∷ more) e
            (h ∙ ap (λ v. v ++ slash ∷ more) under ∙ append_assoc p (slash ∷ u) (slash ∷ more))
    ]
