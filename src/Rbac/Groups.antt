-- ===== src/Rbac/Groups.antt =====
-- internal/rbac/resolve.go, `expandAncestorGroups`: the groups that the walk up the parent links
-- collects from all the groups of a user.
use idpforge.Base.{ℕ, suc, ◌≡◌, refl, ◌≢◌, ◌↔◌, ◌⊎◌, inl, inr, List, [], ◌∷◌, Str, In, All}
use idpforge.Rbac.Climb.{
  Ancestor, self, up, Ends, Unique, Agrees, climb-Agrees, climb_keeps, Above, climb_sound, Closed,
  climb-Closed, climb_start,
}
use idpforge.Rbac.{Group, Walk, climb, climb_all, no_walk, max_depth, links, expand_ancestor_groups}

module _ (parent : Str → Str) where
  -- The same for the walk over a list of groups.
  climb_all_nil : (n : ℕ) (w : Walk) → climb_all n parent [] w ≡ w
  unfolding climb_all
  climb_all_nil n w = refl

  climb_all_cons :
      (n : ℕ) (g : Str) (gs : List Str) (w : Walk)
      → climb_all n parent (g ∷ gs) w ≡ climb_all n parent gs (climb n parent g w)
  unfolding climb_all
  climb_all_cons n g gs w = refl

  climb_all-Agrees :
      (n : ℕ) (gs : List Str) (w : Walk) → Agrees w → Agrees (climb_all n parent gs w)
  climb_all-Agrees n [] w a = rw (climb_all_nil n w) a
  climb_all-Agrees n (g ∷ gs) w a =
      rw (climb_all_cons n g gs w)
        (climb_all-Agrees n gs (climb n parent g w) (climb-Agrees parent n g w a))

  climb_all_sound :
      (n : ℕ) (gs : List Str) (k : Str) (w : Walk)
      → In k (climb_all n parent gs w).result
      → In k w.result ⊎ ((g : Str) × In g gs × Above parent g k)
  climb_all_sound n [] k w m = inl (rw (climb_all_nil n w) at m)
  climb_all_sound n (g ∷ gs) k w m =
      elim (climb_all_sound n gs k (climb n parent g w) (rw (climb_all_cons n g gs w) at m)) [
        | inr (h, l, p) ↦ inr (h, inr l, p)
        | inl old ↦ elim (climb_sound parent n g g k w self old) [
          | inl older ↦ inl older
          | inr p ↦ inr (g, inl refl, p)
        ]
      ]

  climb_all_keeps :
      (n : ℕ) (gs : List Str) (k : Str) (w : Walk)
      → In k w.result
      → In k (climb_all n parent gs w).result
  climb_all_keeps n [] k w m = rw (climb_all_nil n w) m
  climb_all_keeps n (g ∷ gs) k w m =
      rw (climb_all_cons n g gs w)
        (climb_all_keeps n gs k (climb n parent g w) (climb_keeps parent n g k w m))

  climb_all-Closed :
      (n : ℕ) (gs : List Str) (w : Walk)
      → Agrees w
      → All (Ends parent n) gs
      → Closed parent w
      → Closed parent (climb_all n parent gs w)
  climb_all-Closed n [] w a t c = rw (climb_all_nil n w) c
  climb_all-Closed n (g ∷ gs) w a (t, ts) c = rw (climb_all_cons n g gs w) (
      climb_all-Closed n gs (climb n parent g w) (climb-Agrees parent n g w a) ts (
        climb-Closed parent n g w a t
          (λ k m. elim (c k m) [ inl e ↦ inl e | inr h ↦ inr (inl h) ])))

  climb_all_start :
      (n : ℕ) (gs : List Str) (g : Str) (w : Walk)
      → Agrees w
      → In g gs
      → (g ≡ []) ⊎ In g (climb_all (suc n) parent gs w).result
  climb_all_start n [] g w a m = elim m [ ]
  climb_all_start n (h ∷ gs) g w a (inl e) = elim (climb_start parent n g w a) [
    | inl f ↦ inl f
    | inr m ↦ inr (
        rw (climb_all_cons (suc n) h gs w)
          (climb_all_keeps (suc n) gs g (climb (suc n) parent h w) (rw (← e) m)))
  ]
  climb_all_start n (h ∷ gs) g w a (inr m) =
      rw (climb_all_cons (suc n) h gs w)
        (climb_all_start n gs g (climb (suc n) parent h w) (climb-Agrees parent (suc n) h w a) m)

  Closed-up :
      (w : Walk) (a k : Str)
      → Closed parent w
      → In a w.result
      → Ancestor parent a k
      → (k ≡ []) ⊎ In k w.result
  Closed-up w a k c m self = inr m
  Closed-up w a k c m (up {b} p not_root) = elim (Closed-up w a b c m p) [
    | inl e ↦ absurd (not_root e)
    | inr h ↦ c b h
  ]

no_walk-Agrees : Agrees no_walk
no_walk-Agrees = record { listed = λ k h. cc; marked = λ k m. elim m [ ]; once = tt }

above_root : (parent : Str → Str) (a k : Str) → Ancestor parent a k → a ≡ [] → k ≡ []
above_root parent a k self e = e
above_root parent a k (up {b} p some_id) e = absurd (some_id (above_root parent a b p e))

collected :
    (groups : List Group) (g : Str) (gs : List Str) (k a : Str)
    → All (Ends (links groups) max_depth) (g ∷ gs)
    → k ≢ []
    → In a (g ∷ gs)
    → Ancestor (links groups) a k
    → In k (climb_all max_depth (links groups) (g ∷ gs) no_walk).result
collected groups g gs k a t some_id l p =
    let closed =
      climb_all-Closed (links groups) max_depth (g ∷ gs) no_walk no_walk-Agrees t
        (λ j m. elim m [ ]) in
    elim (climb_all_start (links groups) 99 (g ∷ gs) a no_walk no_walk-Agrees l) [
      | inl e ↦ absurd (some_id (above_root (links groups) a k p e))
      | inr m ↦
          elim (Closed-up (links groups) (climb_all max_depth (links groups) (g ∷ gs) no_walk) a k
            closed m p) [ inl e ↦ absurd (some_id e) | inr h ↦ h ]
    ]

-- The groups collected are those that the links reach.
pub expand_links_iff :
    (groups : List Group) (gs : List Str) (k : Str)
    → All (Ends (links groups) max_depth) gs
    → In k (expand_ancestor_groups groups gs)
      ↔ ((k ≢ []) × (g : Str) × In g gs × Ancestor (links groups) g k)
unfolding expand_ancestor_groups
expand_links_iff groups [] k t = ((λ m. elim m [ ]), λ h. elim h.2 [ ])
expand_links_iff groups (g ∷ gs) k t = (
  λ m. elim (climb_all_sound (links groups) max_depth (g ∷ gs) k no_walk m) [
    | inl h ↦ elim h [ ]
    | inr (a, l, (some_id, p)) ↦ (some_id, a, l, p)
  ],
  λ (some_id, a, l, p). collected groups g gs k a t some_id l p,
)

-- No group is collected twice, whatever the links, cycles included.
pub expand-Unique :
    (groups : List Group) (gs : List Str) → Unique (expand_ancestor_groups groups gs)
unfolding expand_ancestor_groups
expand-Unique groups [] = tt
expand-Unique groups (g ∷ gs) =
    (climb_all-Agrees (links groups) max_depth (g ∷ gs) no_walk no_walk-Agrees).once
