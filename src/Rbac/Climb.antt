-- ===== src/Rbac/Climb.antt =====
-- internal/rbac/resolve.go, `expandAncestorGroups`: the groups that the walk up the parent links
-- collects from one group.
use idpforge.Base.{
  ℕ, zero, suc, ◌≡◌, ◌∙◌, sym, ap, refl, ◌≢◌, ◌⊎◌, inl, inr, Bool, true, false, ◌||◌, List, [], ◌∷◌,
  ◌++◌, arith, if◌then◌else◌, Str, str_eq, str_eq_iff, str_eq_refl, In, In-append, In-append_left,
  In-append_right, Bool-cases, is_empty,
}
use idpforge.Rbac.{Walk, visit, climb}

-- `b` is `a` or an ancestor of it.
pub data Ancestor (parent : Str → Str) (a : Str) : Str → Type 0 where
  self : Ancestor parent a a
  up : {b : Str} → Ancestor parent a b → b ≢ [] → Ancestor parent a (parent b)

-- The chain of links from a group ends within so many steps.
pub data Ends (parent : Str → Str) : ℕ → Str → Type 0 where
  root : {n : ℕ} {c : Str} → c ≡ [] → Ends parent n c
  link : {n : ℕ} {c : Str} → Ends parent n (parent c) → Ends parent (suc n) c

-- No text stands twice in the list.
abbrev pub Unique : List Str → Type 0
Unique [] = Unit
Unique (x ∷ xs) = ¬ In x xs × Unique xs

Unique-append : (xs : List Str) (x : Str) → Unique xs → ¬ In x xs → Unique (xs ++ x ∷ [])
Unique-append [] x u h = ((λ m. m), tt)
Unique-append (y ∷ xs) x (n, u) h = (
  λ m. elim (In-append y xs (x ∷ []) m) [
    | inl old ↦ n old
    | inr (inl e) ↦ h (inl (sym e))
    | inr (inr e) ↦ e
  ],
  Unique-append xs x u (λ m. h (inr m)),
)

if_true : (b s : Bool) → s ≡ true → (if b then true else s) ≡ true
if_true true s h = refl
if_true false s h = h

is_empty_iff : (s : Str) → is_empty s ≡ true → s ≡ []
is_empty_iff [] h = refl
is_empty_iff (c ∷ s) h = cc

-- `seen` and `result` hold the same IDs, each once.
pub record Agrees (w : Walk) : Type 0 where
  pub listed : (k : Str) → w.seen k ≡ true → In k w.result
  pub marked : (k : Str) → In k w.result → w.seen k ≡ true
  pub once : Unique w.result

visit-Agrees : (cur : Str) (w : Walk) → Agrees w → w.seen cur ≡ false → Agrees (visit cur w)
visit-Agrees cur w a new = record {
  listed = λ k h. elim (Bool-cases (str_eq cur k)) [
    | inl e ↦ In-append_right k w.result (cur ∷ []) (inl (sym ((str_eq_iff cur k).0 e)))
    | inr e ↦ In-append_left k w.result (cur ∷ []) (a.listed k (rw e at h))
  ];
  marked = λ k m. elim (In-append k w.result (cur ∷ []) m) [
    | inl old ↦ if_true (str_eq cur k) (w.seen k) (a.marked k old)
    | inr (inl e) ↦ rw (e, str_eq_refl cur)
    | inr (inr h) ↦ elim h [ ]
  ];
  once = Unique-append w.result cur a.once (λ m. cc (a.marked cur m));
}

module _ (parent : Str → Str) where
  climb-stop :
      (n : ℕ) (cur : Str) (w : Walk)
      → (is_empty cur || w.seen cur) ≡ true
      → climb (suc n) parent cur w ≡ w
  unfolding climb
  climb-stop n cur w h = ground arith

  climb-go :
      (n : ℕ) (cur : Str) (w : Walk)
      → (is_empty cur || w.seen cur) ≡ false
      → climb (suc n) parent cur w ≡ climb n parent (parent cur) (visit cur w)
  unfolding climb
  climb-go n cur w h = ground arith

  -- One case of the loop: it stops at "" or at a seen group, or visits the group and goes on.
  climb_cases {ℓ} :
      (P : Walk → Type ℓ) (n : ℕ) (cur : Str) (w : Walk)
      → (cur ≡ [] → P w)
      → (w.seen cur ≡ true → P w)
      → (cur ≢ [] → w.seen cur ≡ false → P (climb n parent (parent cur) (visit cur w)))
      → P (climb (suc n) parent cur w)
  climb_cases P n cur w at_root at_seen go = elim (Bool-cases (is_empty cur)) [
    | inl e ↦ rw (climb-stop n cur w (ground arith)) (at_root (is_empty_iff cur e))
    | inr e ↦ elim (Bool-cases (w.seen cur)) [
      | inl s ↦ rw (climb-stop n cur w (ground arith)) (at_seen s)
      | inr s ↦ rw (climb-go n cur w (ground arith)) (go (λ f. cc (ap is_empty f)) s)
    ]
  ]

  climb_zero : (cur : Str) (w : Walk) → climb 0 parent cur w ≡ w
  unfolding climb
  climb_zero cur w = refl

  pub climb-Agrees : (n : ℕ) (cur : Str) (w : Walk) → Agrees w → Agrees (climb n parent cur w)
  climb-Agrees zero cur w a = rw (climb_zero cur w) a
  climb-Agrees (suc n) cur w a =
      climb_cases Agrees n cur w (λ _. a) (λ _. a)
        (λ _ s. climb-Agrees n (parent cur) (visit cur w) (visit-Agrees cur w a s))

  pub climb_keeps :
      (n : ℕ) (cur k : Str) (w : Walk) → In k w.result → In k (climb n parent cur w).result
  climb_keeps zero cur k w m = rw (climb_zero cur w) m
  climb_keeps (suc n) cur k w m =
      climb_cases (λ v. In k v.result) n cur w (λ _. m) (λ _. m)
        (λ _ _. climb_keeps n (parent cur) k (visit cur w) (In-append_left k w.result (cur ∷ []) m))

  -- What the walk adds is no "", and the group that it starts from or an ancestor of it.
  abbrev pub Above : Str → Str → Type 0
  Above a k = (k ≢ []) × Ancestor parent a k

  pub climb_sound :
      (n : ℕ) (a cur k : Str) (w : Walk)
      → Ancestor parent a cur
      → In k (climb n parent cur w).result
      → In k w.result ⊎ Above a k
  climb_sound zero a cur k w p m = inl (rw (climb_zero cur w) at m)
  climb_sound (suc n) a cur k w p m =
      climb_cases (λ v. In k v.result → In k w.result ⊎ Above a k) n cur w (λ _ h. inl h)
        (λ _ h. inl h)
        (λ some_id _ h. elim (climb_sound n a (parent cur) k (visit cur w) (up p some_id) h) [
          | inr new ↦ inr new
          | inl old ↦ elim (In-append k w.result (cur ∷ []) old) [
            | inl older ↦ inl older
            | inr (inl e) ↦ inr (rw e (some_id, p))
            | inr (inr absurdity) ↦ elim absurdity [ ]
          ]
        ])
        m

  -- Every collected group's parent is collected too, unless it is "" or the one to come.
  abbrev ClosedBut : Str → Walk → Type 0
  ClosedBut cur w =
      (k : Str) → In k w.result → (parent k ≡ []) ⊎ (In (parent k) w.result ⊎ (parent k ≡ cur))

  abbrev pub Closed : Walk → Type 0
  Closed w = (k : Str) → In k w.result → (parent k ≡ []) ⊎ In (parent k) w.result

  close : (cur : Str) (w : Walk) → (cur ≡ [] ⊎ In cur w.result) → ClosedBut cur w → Closed w
  close cur w stop c k m = elim (c k m) [
    | inl e ↦ inl e
    | inr (inl h) ↦ inr h
    | inr (inr e) ↦ elim stop [ inl f ↦ inl (e ∙ f) | inr f ↦ inr (rw e f) ]
  ]

  ClosedBut-visit : (cur : Str) (w : Walk) → ClosedBut cur w → ClosedBut (parent cur) (visit cur w)
  ClosedBut-visit cur w c k m = elim (In-append k w.result (cur ∷ []) m) [
    | inl old ↦ elim (c k old) [
      | inl e ↦ inl e
      | inr (inl h) ↦ inr (inl (In-append_left (parent k) w.result (cur ∷ []) h))
      | inr (inr e) ↦ inr (inl (In-append_right (parent k) w.result (cur ∷ []) (inl e)))
    ]
    | inr (inl e) ↦ inr (inr (ap parent e))
    | inr (inr h) ↦ elim h [ ]
  ]

  pub climb-Closed :
      (n : ℕ) (cur : Str) (w : Walk)
      → Agrees w
      → Ends parent n cur
      → ClosedBut cur w
      → Closed (climb n parent cur w)
  climb-Closed zero cur w a (root e) c = rw (climb_zero cur w) (close cur w (inl e) c)
  climb-Closed (suc n) cur w a (root e) c =
      climb_cases Closed n cur w (λ _. close cur w (inl e) c) (λ s. close cur w (inl e) c)
        (λ f _. absurd (f e))
  climb-Closed (suc n) cur w a (link t) c =
      climb_cases Closed n cur w (λ e. close cur w (inl e) c)
        (λ s. close cur w (inr (a.listed cur s)) c)
        (λ _ s.
          climb-Closed n (parent cur) (visit cur w) (visit-Agrees cur w a s) t
            (ClosedBut-visit cur w c))

  pub climb_start :
      (n : ℕ) (cur : Str) (w : Walk)
      → Agrees w
      → (cur ≡ []) ⊎ In cur (climb (suc n) parent cur w).result
  climb_start n cur w a =
      climb_cases (λ v. (cur ≡ []) ⊎ In cur v.result) n cur w (λ e. inl e)
        (λ s. inr (a.listed cur s))
        (λ _ _. inr (
          climb_keeps n (parent cur) cur (visit cur w)
            (In-append_right cur w.result (cur ∷ []) (inl refl))))
