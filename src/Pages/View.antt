-- ===== src/Pages/View.antt =====
-- What a page shows: its texts and its widgets in their order, without layout and style. A widget
-- carries the event that it raises.
use Prim.Native.String.{String}
use idpforge.Base.{
  ℕ, ◌≡◌, refl, sym, subst, ◌⊎◌, inl, inr, Bool, true, false, Option, none, some, List, [], ◌∷◌,
  ◌++◌, All, Str, codes, map, if◌then◌else◌,
}
use idpforge.Pages.{Footer, Choice, custom, shown_value}

-- Pairs that nest to the right.
infixr 6 ◌&◌
abbrev pub ◌&◌ {ℓ κ} : {A : Type ℓ} {B : Type κ} → A → B → A × B
a & b = (a, b)

pub data Tone : Type 0 where
  plain good danger : Tone

pub data Shown (Ev : Type 0) : Type 0 where
  -- A heading, and a text that is always the same.
  title text : String → Shown Ev
  value : Str → Shown Ev
  number : ℕ → Shown Ev
  badge : Tone → Str → Shown Ev
  -- Where it leads, and what it says.
  link : Str → Str → Shown Ev
  image : Str → Shown Ev
  -- A link that raises an event as well.
  link_to : Str → Str → Ev → Shown Ev
  -- A field with its text, and a list with its options and the chosen one.
  input : Str → (Str → Ev) → Shown Ev
  select : List (Str × Str) → Str → (Str → Ev) → Shown Ev
  checkbox : Str → Bool → Ev → Shown Ev
  -- A field for a file, which has its bytes and its type.
  file : (Option (Str × Str) → Ev) → Shown Ev
  -- A button, that of a form too; it is `false` where it is disabled or a required field is empty.
  button : Bool → String → Ev → Shown Ev
  -- A button that asks `confirm` first.
  ask : String → String → Ev → Shown Ev

module _ {Ev : Type 0} where
  -- `b && …`
  abbrev pub when : Bool → List (Shown Ev) → List (Shown Ev)
  when b xs = if b then xs else []

  abbrev pub each : {A : Type 0} → (A → List (Shown Ev)) → List A → List (Shown Ev)
  each f [] = []
  each f (x ∷ xs) = f x ++ each f xs

  -- One part of the page below another.
  abbrev pub sections : List (List (Shown Ev)) → List (Shown Ev)
  sections [] = []
  sections (x ∷ xs) = x ++ sections xs

  -- `Pagination` of ui.tsx
  abbrev pub page_footer : Option Footer → Ev → Ev → List (Shown Ev)
  page_footer none prev next = []
  page_footer (some f) prev next =
      text "Showing"
      ∷ number f.first
      ∷ text "–"
      ∷ number f.last
      ∷ button f.has_prev "Previous" prev
      ∷ button f.has_next "Next" next
      ∷ []

  -- `SelectOrCustom` of ui.tsx
  abbrev pub select_or_custom : List Str → Choice → (Str → Ev) → (Str → Ev) → List (Shown Ev)
  select_or_custom options c picked typed =
      select
        (([], codes "Select...") ∷ map (λ o. (o, o)) options
          ++ (custom, codes "Other (custom)") ∷ [])
        (shown_value c) picked
      ∷ when c.custom_mode (input c.value typed ∷ [])

  -- Whatever the user does with what is shown raises an event with this property.
  abbrev pub AllOffered : (Ev → Type 0) → List (Shown Ev) → Type 0
  AllOffered P [] = Unit
  AllOffered P (title t ∷ xs) = AllOffered P xs
  AllOffered P (text t ∷ xs) = AllOffered P xs
  AllOffered P (value t ∷ xs) = AllOffered P xs
  AllOffered P (number n ∷ xs) = AllOffered P xs
  AllOffered P (badge tone t ∷ xs) = AllOffered P xs
  AllOffered P (link to t ∷ xs) = AllOffered P xs
  AllOffered P (image src ∷ xs) = AllOffered P xs
  AllOffered P (input t e ∷ xs) = ((s : Str) → P (e s)) × AllOffered P xs
  AllOffered P (select options t e ∷ xs) = ((s : Str) → P (e s)) × AllOffered P xs
  AllOffered P (checkbox t b e ∷ xs) = P e × AllOffered P xs
  AllOffered P (link_to to t e ∷ xs) = P e × AllOffered P xs
  AllOffered P (file e ∷ xs) = ((f : Option (Str × Str)) → P (e f)) × AllOffered P xs
  AllOffered P (button b t e ∷ xs) = (b ≡ true → P e) × AllOffered P xs
  AllOffered P (ask t question e ∷ xs) = P e × AllOffered P xs

  pub AllOffered-append :
      (P : Ev → Type 0) (xs ys : List (Shown Ev))
      → AllOffered P xs
      → AllOffered P ys
      → AllOffered P (xs ++ ys)
  AllOffered-append P [] ys hx hy = hy
  AllOffered-append P (title t ∷ xs) ys hx hy = AllOffered-append P xs ys hx hy
  AllOffered-append P (text t ∷ xs) ys hx hy = AllOffered-append P xs ys hx hy
  AllOffered-append P (value t ∷ xs) ys hx hy = AllOffered-append P xs ys hx hy
  AllOffered-append P (number n ∷ xs) ys hx hy = AllOffered-append P xs ys hx hy
  AllOffered-append P (badge tone t ∷ xs) ys hx hy = AllOffered-append P xs ys hx hy
  AllOffered-append P (link to t ∷ xs) ys hx hy = AllOffered-append P xs ys hx hy
  AllOffered-append P (image src ∷ xs) ys hx hy = AllOffered-append P xs ys hx hy
  AllOffered-append P (input t e ∷ xs) ys (h, hx) hy = (h, AllOffered-append P xs ys hx hy)
  AllOffered-append P (select options t e ∷ xs) ys (h, hx) hy = (h, AllOffered-append P xs ys hx hy)
  AllOffered-append P (checkbox t b e ∷ xs) ys (h, hx) hy = (h, AllOffered-append P xs ys hx hy)
  AllOffered-append P (link_to to t e ∷ xs) ys (h, hx) hy = (h, AllOffered-append P xs ys hx hy)
  AllOffered-append P (file e ∷ xs) ys (h, hx) hy = (h, AllOffered-append P xs ys hx hy)
  AllOffered-append P (button b t e ∷ xs) ys (h, hx) hy = (h, AllOffered-append P xs ys hx hy)
  AllOffered-append P (ask t question e ∷ xs) ys (h, hx) hy = (h, AllOffered-append P xs ys hx hy)

  pub AllOffered-each :
      {A : Type 0} (P : Ev → Type 0) (f : A → List (Shown Ev)) (xs : List A)
      → All (λ x. AllOffered P (f x)) xs
      → AllOffered P (each f xs)
  AllOffered-each P f [] h = tt
  AllOffered-each P f (x ∷ xs) (h, hs) =
      AllOffered-append P (f x) (each f xs) h (AllOffered-each P f xs hs)

  pub AllOffered-sections :
      (P : Ev → Type 0) (xs : List (List (Shown Ev)))
      → All (λ x. AllOffered P x) xs
      → AllOffered P (sections xs)
  AllOffered-sections P [] h = tt
  AllOffered-sections P (x ∷ xs) (h, hs) =
      AllOffered-append P x (sections xs) h (AllOffered-sections P xs hs)

  pub AllOffered-when :
      (P : Ev → Type 0) (b : Bool) (xs : List (Shown Ev))
      → (b ≡ true → AllOffered P xs)
      → AllOffered P (when b xs)
  AllOffered-when P true xs h = h refl
  AllOffered-when P false xs h = tt

  pub AllOffered-if :
      (P : Ev → Type 0) (b : Bool) (xs ys : List (Shown Ev))
      → (b ≡ true → AllOffered P xs)
      → AllOffered P ys
      → AllOffered P (if b then xs else ys)
  AllOffered-if P true xs ys h k = h refl
  AllOffered-if P false xs ys h k = k

  pub AllOffered-map :
      (P Q : Ev → Type 0) (xs : List (Shown Ev))
      → ((e : Ev) → P e → Q e)
      → AllOffered P xs
      → AllOffered Q xs
  AllOffered-map P Q [] k h = tt
  AllOffered-map P Q (title t ∷ xs) k h = AllOffered-map P Q xs k h
  AllOffered-map P Q (text t ∷ xs) k h = AllOffered-map P Q xs k h
  AllOffered-map P Q (value t ∷ xs) k h = AllOffered-map P Q xs k h
  AllOffered-map P Q (number n ∷ xs) k h = AllOffered-map P Q xs k h
  AllOffered-map P Q (badge tone t ∷ xs) k h = AllOffered-map P Q xs k h
  AllOffered-map P Q (link to t ∷ xs) k h = AllOffered-map P Q xs k h
  AllOffered-map P Q (image src ∷ xs) k h = AllOffered-map P Q xs k h
  AllOffered-map P Q (input t e ∷ xs) k (h, hs) = (λ s. k (e s) (h s), AllOffered-map P Q xs k hs)
  AllOffered-map P Q (select options t e ∷ xs) k (h, hs) =
      (λ s. k (e s) (h s), AllOffered-map P Q xs k hs)
  AllOffered-map P Q (checkbox t b e ∷ xs) k (h, hs) = (k e h, AllOffered-map P Q xs k hs)
  AllOffered-map P Q (link_to to t e ∷ xs) k (h, hs) = (k e h, AllOffered-map P Q xs k hs)
  AllOffered-map P Q (file e ∷ xs) k (h, hs) = (λ f. k (e f) (h f), AllOffered-map P Q xs k hs)
  AllOffered-map P Q (ask t question e ∷ xs) k (h, hs) = (k e h, AllOffered-map P Q xs k hs)
  AllOffered-map P Q (button b t e ∷ xs) k (h, hs) = (λ on. k e (h on), AllOffered-map P Q xs k hs)

  pub AllOffered-page_footer :
      (P : Ev → Type 0) (f : Option Footer) (prev next : Ev)
      → P prev
      → P next
      → AllOffered P (page_footer f prev next)
  AllOffered-page_footer P none prev next p n = tt
  AllOffered-page_footer P (some f) prev next p n = (λ on. p, (λ on. n, tt))

  pub AllOffered-select_or_custom :
      (P : Ev → Type 0) (options : List Str) (c : Choice) (picked typed : Str → Ev)
      → ((s : Str) → P (picked s))
      → ((s : Str) → P (typed s))
      → AllOffered P (select_or_custom options c picked typed)
  AllOffered-select_or_custom P options c picked typed p t =
      (p, AllOffered-when P c.custom_mode (input c.value typed ∷ []) (λ on. (t, tt)))

  -- The user can raise the event on what is shown.
  abbrev pub Offered : Ev → List (Shown Ev) → Type 0
  Offered e [] = ⊥
  Offered e (title t ∷ xs) = Offered e xs
  Offered e (text t ∷ xs) = Offered e xs
  Offered e (value t ∷ xs) = Offered e xs
  Offered e (number n ∷ xs) = Offered e xs
  Offered e (badge tone t ∷ xs) = Offered e xs
  Offered e (link to t ∷ xs) = Offered e xs
  Offered e (image src ∷ xs) = Offered e xs
  Offered e (input t f ∷ xs) = ((s : Str) × (e ≡ f s)) ⊎ Offered e xs
  Offered e (select options t f ∷ xs) = ((s : Str) × (e ≡ f s)) ⊎ Offered e xs
  Offered e (file f ∷ xs) = ((x : Option (Str × Str)) × (e ≡ f x)) ⊎ Offered e xs
  Offered e (checkbox t b d ∷ xs) = (e ≡ d) ⊎ Offered e xs
  Offered e (ask t question d ∷ xs) = (e ≡ d) ⊎ Offered e xs
  Offered e (link_to to t d ∷ xs) = (e ≡ d) ⊎ Offered e xs
  Offered e (button b t d ∷ xs) = ((b ≡ true) × (e ≡ d)) ⊎ Offered e xs

  pub AllOffered-Offered :
      (P : Ev → Type 0) (e : Ev) (xs : List (Shown Ev)) → AllOffered P xs → Offered e xs → P e
  AllOffered-Offered P e [] h o = elim o [ ]
  AllOffered-Offered P e (title t ∷ xs) h o = AllOffered-Offered P e xs h o
  AllOffered-Offered P e (text t ∷ xs) h o = AllOffered-Offered P e xs h o
  AllOffered-Offered P e (value t ∷ xs) h o = AllOffered-Offered P e xs h o
  AllOffered-Offered P e (number n ∷ xs) h o = AllOffered-Offered P e xs h o
  AllOffered-Offered P e (badge tone t ∷ xs) h o = AllOffered-Offered P e xs h o
  AllOffered-Offered P e (link to t ∷ xs) h o = AllOffered-Offered P e xs h o
  AllOffered-Offered P e (image src ∷ xs) h o = AllOffered-Offered P e xs h o
  AllOffered-Offered P e (input t f ∷ xs) (h, hs) (inl (s, q)) = subst P (sym q) (h s)
  AllOffered-Offered P e (input t f ∷ xs) (h, hs) (inr o) = AllOffered-Offered P e xs hs o
  AllOffered-Offered P e (select options t f ∷ xs) (h, hs) (inl (s, q)) = subst P (sym q) (h s)
  AllOffered-Offered P e (select options t f ∷ xs) (h, hs) (inr o) = AllOffered-Offered P e xs hs o
  AllOffered-Offered P e (file f ∷ xs) (h, hs) (inl (s, q)) = subst P (sym q) (h s)
  AllOffered-Offered P e (file f ∷ xs) (h, hs) (inr o) = AllOffered-Offered P e xs hs o
  AllOffered-Offered P e (checkbox t b d ∷ xs) (h, hs) (inl q) = subst P (sym q) h
  AllOffered-Offered P e (checkbox t b d ∷ xs) (h, hs) (inr o) = AllOffered-Offered P e xs hs o
  AllOffered-Offered P e (ask t question d ∷ xs) (h, hs) (inl q) = subst P (sym q) h
  AllOffered-Offered P e (ask t question d ∷ xs) (h, hs) (inr o) = AllOffered-Offered P e xs hs o
  AllOffered-Offered P e (link_to to t d ∷ xs) (h, hs) (inl q) = subst P (sym q) h
  AllOffered-Offered P e (link_to to t d ∷ xs) (h, hs) (inr o) = AllOffered-Offered P e xs hs o
  AllOffered-Offered P e (button b t d ∷ xs) (h, hs) (inl (on, q)) = subst P (sym q) (h on)
  AllOffered-Offered P e (button b t d ∷ xs) (h, hs) (inr o) = AllOffered-Offered P e xs hs o

  pub Offered-append_right :
      (e : Ev) (xs ys : List (Shown Ev)) → Offered e ys → Offered e (xs ++ ys)
  Offered-append_right e [] ys o = o
  Offered-append_right e (title t ∷ xs) ys o = Offered-append_right e xs ys o
  Offered-append_right e (text t ∷ xs) ys o = Offered-append_right e xs ys o
  Offered-append_right e (value t ∷ xs) ys o = Offered-append_right e xs ys o
  Offered-append_right e (number n ∷ xs) ys o = Offered-append_right e xs ys o
  Offered-append_right e (badge tone t ∷ xs) ys o = Offered-append_right e xs ys o
  Offered-append_right e (link to t ∷ xs) ys o = Offered-append_right e xs ys o
  Offered-append_right e (image src ∷ xs) ys o = Offered-append_right e xs ys o
  Offered-append_right e (input t f ∷ xs) ys o = inr (Offered-append_right e xs ys o)
  Offered-append_right e (select options t f ∷ xs) ys o = inr (Offered-append_right e xs ys o)
  Offered-append_right e (file f ∷ xs) ys o = inr (Offered-append_right e xs ys o)
  Offered-append_right e (checkbox t b d ∷ xs) ys o = inr (Offered-append_right e xs ys o)
  Offered-append_right e (ask t question d ∷ xs) ys o = inr (Offered-append_right e xs ys o)
  Offered-append_right e (link_to to t d ∷ xs) ys o = inr (Offered-append_right e xs ys o)
  Offered-append_right e (button b t d ∷ xs) ys o = inr (Offered-append_right e xs ys o)
