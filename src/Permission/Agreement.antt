-- ===== src/Permission/Agreement.antt =====
-- The three places that read a permission agree: the server's roles, an API client's scopes, and
-- the console.
use idpforge.Base.{
  ℕ, ◌+◌, ◌-◌, ◌≡◌, refl, sym, ap, ◌∙◌, inl, inr, true, false, ◌&&◌, none, some, List, [], ◌∷◌,
  ◌++◌, map, arith, ◌==◌, length, length-append, take, drop, take-append-drop, drop-length_append,
  Str, str_eq, str_eq_iff, str_eq_refl, cut, cut-append, cut_suffix, cut_suffix_iff, Free, All,
  Bool-cases, Option-cases,
}
use idpforge.Permission.{
  Permission, slash_star, colon, matches, to_string, has_in, scope_grants, has_scope, index_of,
  ends_with, grants_ui, has_permission_ui,
}

-- `indexOf` and the two slices are `Cut`.
cut-index_of :
    (sep : ℕ) (s : Str)
    → cut sep s ≡ elim (index_of sep s) [ none ↦ none | some i ↦ some (take i s, drop (i + 1) s) ]
unfolding cut index_of
cut-index_of sep [] = refl
cut-index_of sep (c ∷ s) = elim (Bool-cases (c == sep)) [
  | inl same ↦ ground arith
  | inr other ↦ elim (Option-cases (index_of sep s)) [
    | inl missed ↦ ground (arith, cut-index_of sep s)
    | inr (i, found) ↦ ground (arith, cut-index_of sep s)
  ]
]

ends_with-append : (p t : Str) → ends_with (p ++ t) t ≡ true
unfolding ends_with
ends_with-append p t =
    let e : length (p ++ t) - length t ≡ length p = omega (arith, length-append p t) in
    rw (e, drop-length_append p t) (ground (arith, length-append p t, str_eq_refl t))

-- A text that ends in another is cut before it by the slice.
ends_with_sound :
    (s t : Str) → ends_with s t ≡ true → cut_suffix s t ≡ some (take (length s - length t) s)
unfolding ends_with
ends_with_sound s t h =
    let tail : drop (length s - length t) s ≡ t = (str_eq_iff _ _).0 (ground arith) in
    (cut_suffix_iff s t _).1 (
      sym (take-append-drop (length s - length t) s)
      ∙ ap (λ u. take (length s - length t) s ++ u) tail)

not_ends_with : (s t : Str) → ends_with s t ≡ false → cut_suffix s t ≡ none
not_ends_with s t h = elim (Option-cases (cut_suffix s t)) [
  | inl missed ↦ missed
  | inr (p, found) ↦
      let e : s ≡ p ++ t = (cut_suffix_iff s t p).0 found in
      cc (ends_with-append p t, ap (λ u. ends_with u t) e)
]

-- The console reads one permission string as the server reads a scope.
pub grants_ui-eq-scope_grants :
    (s resource action : Str) → grants_ui s resource action ≡ scope_grants s resource action
unfolding grants_ui scope_grants
grants_ui-eq-scope_grants s resource action = elim (Option-cases (index_of colon s)) [
  | inl missed ↦ ground (arith, cut-index_of colon s)
  | inr (i, found) ↦ elim (Bool-cases (ends_with (take i s) slash_star)) [
    | inl folder ↦ ground (arith, cut-index_of colon s, ends_with_sound (take i s) slash_star)
    | inr plain ↦ ground (arith, cut-index_of colon s, not_ends_with (take i s) slash_star)
  ]
]

-- The console shows what an API client with the same strings as its scopes may do.
pub has_permission_ui-eq-has_scope :
    (ss : List Str) (resource action : Str)
    → has_permission_ui ss resource action ≡ has_scope ss resource action
unfolding has_permission_ui has_scope
has_permission_ui-eq-has_scope [] resource action = refl
has_permission_ui-eq-has_scope (s ∷ ss) resource action = ground (
  arith,
  grants_ui-eq-scope_grants s resource action,
  has_permission_ui-eq-has_scope ss resource action,
)

-- The permission as a scope, where its resource holds no colon.
pub scope_grants-to_string :
    (p : Permission) (resource action : Str)
    → Free colon p.resource
    → scope_grants (to_string p) resource action ≡ (str_eq p.action action && matches p resource)
unfolding scope_grants to_string matches
scope_grants-to_string p resource action f = ground (arith, cut-append colon p.resource p.action f)

-- Where no resource holds a colon, the console shows exactly what the server allows.
pub has_permission_ui-eq-has :
    (ps : List Permission) (resource action : Str)
    → All (λ p. Free colon p.resource) ps
    → has_permission_ui (map to_string ps) resource action ≡ has_in ps resource action
unfolding has_permission_ui has_in
has_permission_ui-eq-has [] resource action f = refl
has_permission_ui-eq-has (p ∷ ps) resource action (f, fs) = ground (
  arith,
  grants_ui-eq-scope_grants (to_string p) resource action,
  scope_grants-to_string p resource action f,
  has_permission_ui-eq-has ps resource action fs,
)
