-- ===== src/Router/Fiber.antt =====
-- What the router relies on of the web framework, and the handlers that it then runs.
use idpforge.Base.{
  ◌≡◌, refl, sym, ap, ◌∙◌, inl, inr, Bool, true, false, ◌&&◌, ◌||◌, not, List, [], ◌∷◌, ◌++◌, Str,
  if◌then◌else◌, Bool-cases, arith, append_assoc, append-nil,
}
use idpforge.Router.{
  Method, Segment, Handler, Registration, uses, route, method_eq, below, starts, fits,
}

-- The framework gives a request the handlers that match it, in the order of their registration. A
-- prefix matches the paths below it, and no path that does not start with its text; what lies
-- between is left open.
pub record Fiber : Type 0 where
  pub chain : List Registration → Method → List Str → List Handler
  pub chain_nil : (m : Method) (path : List Str) → chain [] m path ≡ []
  pub uses_below :
      (prefix : List Str) (hs : List Handler) (rs : List Registration) (m : Method)
      (path : List Str)
      → below prefix path ≡ true
      → chain (uses prefix hs ∷ rs) m path ≡ hs ++ chain rs m path
  pub uses_apart :
      (prefix : List Str) (hs : List Handler) (rs : List Registration) (m : Method)
      (path : List Str)
      → starts prefix path ≡ false
      → chain (uses prefix hs ∷ rs) m path ≡ chain rs m path
  pub route_fits :
      (n : Method) (pattern : List Segment) (hs : List Handler) (rs : List Registration)
      (m : Method) (path : List Str)
      → (method_eq n m && fits pattern path) ≡ true
      → chain (route n pattern hs ∷ rs) m path ≡ hs ++ chain rs m path
  pub route_misses :
      (n : Method) (pattern : List Segment) (hs : List Handler) (rs : List Registration)
      (m : Method) (path : List Str)
      → (method_eq n m && fits pattern path) ≡ false
      → chain (route n pattern hs ∷ rs) m path ≡ chain rs m path

-- The handlers that match a path which no prefix cuts inside a segment.
unfoldable pub dispatch : List Registration → Method → List Str → List Handler
dispatch [] m path = []
dispatch (uses prefix hs ∷ rs) m path =
    let rest = dispatch rs m path in if below prefix path then hs ++ rest else rest
dispatch (route n pattern hs ∷ rs) m path =
    let rest = dispatch rs m path in if method_eq n m && fits pattern path then hs ++ rest else rest

unfoldable pub is_clear : List Registration → List Str → Bool
is_clear [] path = true
is_clear (uses prefix hs ∷ rs) path =
    (below prefix path || not (starts prefix path)) && is_clear rs path
is_clear (route n pattern hs ∷ rs) path = is_clear rs path

-- The registrations before the tail, where no prefix among them cuts a segment of the path.
pub chain-append :
    (f : Fiber) (rs tail : List Registration) (m : Method) (path : List Str)
    → is_clear rs path ≡ true
    → f.chain (rs ++ tail) m path ≡ dispatch rs m path ++ f.chain tail m path
unfolding dispatch is_clear
chain-append f [] tail m path h = refl
chain-append f (uses prefix hs ∷ rs) tail m path h = elim (Bool-cases (below prefix path)) [
  | inl e ↦
      let rest = chain-append f rs tail m path (ground arith) in
      f.uses_below prefix hs (rs ++ tail) m path e
      ∙ ap (λ t. hs ++ t) rest
      ∙ sym (rw e (append_assoc hs (dispatch rs m path) (f.chain tail m path)))
  | inr e ↦
      let rest = chain-append f rs tail m path (ground arith) in
      f.uses_apart prefix hs (rs ++ tail) m path (ground arith) ∙ rest ∙ sym (rw e)
]
chain-append f (route n pattern hs ∷ rs) tail m path h =
    let rest = chain-append f rs tail m path h in
    elim (Bool-cases (method_eq n m && fits pattern path)) [
      | inl e ↦
          f.route_fits n pattern hs (rs ++ tail) m path e
          ∙ ap (λ t. hs ++ t) rest
          ∙ sym (rw e (append_assoc hs (dispatch rs m path) (f.chain tail m path)))
      | inr e ↦ f.route_misses n pattern hs (rs ++ tail) m path e ∙ rest ∙ sym (rw e)
    ]

pub chain-dispatch :
    (f : Fiber) (rs : List Registration) (m : Method) (path : List Str)
    → is_clear rs path ≡ true
    → f.chain rs m path ≡ dispatch rs m path
chain-dispatch f rs m path h =
    ap (λ t. f.chain t m path) (sym (append-nil rs))
    ∙ chain-append f rs [] m path h
    ∙ ap (λ t. dispatch rs m path ++ t) (f.chain_nil m path)
    ∙ append-nil (dispatch rs m path)
