-- ===== src/Settings/Load.antt =====
-- What `load_config` makes of the environment.
use mathlib.Core.Option.{some-injective}
use mathlib.Core.Path.{subst}
use mathlib.Core.List.{Memᴰ}
use lakshmana_core.Prelude.{
  ◌⊎◌, ℕ, Bool, true, false, not, ◌&&◌, String, str_eq, eq_iff, eq_refl, Option, none, some, List,
  [], ◌∷◌, any, ◌≡◌, refl, sym, ◌∙◌, ap, inl, inr, arith, All, All-map, All-zip, Bool-cases,
  Option-cases,
}
use lakshmana_core.Decisions.{get_or}
use lakshmana_core.Values.{Double, Value, text, integer, negative, real, boolean}
use lakshmana_core.Wire.Documents.{is_true}
use lakshmana_core.Settings.{
  Cast, as_str, as_int, as_float, as_bool, coerce, Setting, settings, Values, value_at, overwrite,
  resolve, resolve_all, with_project, load_config,
}

abbrev unique : List Setting → Bool
unique [] = true
unique (s ∷ rest) = not (any (λ r. str_eq s.key r.key) rest) && unique rest

apart :
    (s : Setting) (rest : List Setting)
    → any (λ r. str_eq s.key r.key) rest ≡ false
    → All (λ (r : Setting). str_eq s.key r.key ≡ false) rest
apart s [] h = tt
apart s (r ∷ rest) h = (ground arith, apart s rest (ground arith))

overwrite-value_at :
    (vs : Values) (key other : String) (v : Value)
    → str_eq key other ≡ false
    → value_at (overwrite vs key v) other ≡ value_at vs other
overwrite-value_at [] key other v h = refl
overwrite-value_at ((k, w) ∷ vs) key other v h = elim (Bool-cases (str_eq k key)) [
  | inl e ↦
      let e' : str_eq k other ≡ false = ap (λ x. str_eq x other) ((eq_iff k key).0 e) ∙ h in
      rw (overwrite, e, value_at, e') refl
  | inr e ↦ rw (overwrite, e, value_at, overwrite-value_at vs key other v h) refl
]

module _ (int : String → Option (ℕ ⊎ ℕ)) (float : String → Option Double)
    (lowered : String → String) (environ : String → Option String) where
  abbrev IsResolved : Values → Setting → Type 0
  IsResolved vs s =
      (v : Value) × (resolve int float lowered environ s ≡ some v) × (value_at vs s.key ≡ some v)

  -- Every setting of the table has its own key, so no value hides another.
  resolve_all-value_at :
      (ss : List Setting) (vs : Values)
      → unique ss ≡ true
      → resolve_all int float lowered environ ss ≡ some vs
      → All (IsResolved vs) ss
  unfolding resolve_all
  resolve_all-value_at [] vs u h = tt
  resolve_all-value_at (s ∷ rest) vs u h =
      elim (Option-cases (resolve int float lowered environ s)) [
        | inl e ↦ absurd (ground (arith, e, h))
        | inr (v, e) ↦ elim (Option-cases (resolve_all int float lowered environ rest)) [
          | inl f ↦ absurd (ground (arith, e, f, h))
          | inr (ws, f) ↦
              let same : (s.key, v) ∷ ws ≡ vs = ground (arith, e, f, h) in
              subst (λ vs. All (IsResolved vs) (s ∷ rest)) same
                (
                  (v, e, rw (value_at, eq_refl s.key) refl),
                  All-map _ _ rest (λ r both. (both.1.0, both.1.1, rw (value_at, both.0) both.1.2))
                      (All-zip _ _ rest (apart s rest (ground (arith, u)))
                        (resolve_all-value_at rest ws (ground (arith, u)) f)),
                )
        ]
      ]

  resolve_all-none :
      (s : Setting) (ss : List Setting)
      → resolve int float lowered environ s ≡ none
      → Memᴰ s ss
      → resolve_all int float lowered environ ss ≡ none
  unfolding resolve_all
  resolve_all-none s ss bad (Memᴰ.head {x = x} e) =
      let bad' : resolve int float lowered environ x ≡ none =
        ap (λ y. resolve int float lowered environ y) (sym e) ∙ bad in
      rw (resolve_all, bad') refl
  resolve_all-none s ss bad (Memᴰ.tail {x = x} {xs = rest} m) =
      let later = resolve_all-none s rest bad m in ground (arith, later)

  project-value_at :
      (vs : Values) (key : String)
      → str_eq "gatekeeper.firestore.project-id" key ≡ false
      → value_at (with_project int float lowered environ vs) key ≡ value_at vs key
  unfolding with_project
  project-value_at vs key h =
      elim (Bool-cases
        (is_true (get_or (value_at vs "gatekeeper.firestore.project-id") (text "")))) [
          | inl e ↦ rw (with_project, e) refl
          | inr e ↦
              rw (with_project, e) (overwrite-value_at vs "gatekeeper.firestore.project-id" key _ h)
        ]

  -- What a setting has when the environment does not set its variable, and when it does.
  pub data IsConfigured (s : Setting) : Option Value → Type 0 where
    kept : environ s.env ≡ none → IsConfigured s (some s.default)
    as_given :
        (raw : String)
        → environ s.env ≡ some raw
        → s.cast ≡ as_str
        → IsConfigured s (some (text raw))
    whole :
        (raw : String) (n : ℕ)
        → environ s.env ≡ some raw
        → s.cast ≡ as_int
        → int raw ≡ some (inl n)
        → IsConfigured s (some (integer n))
    below_zero :
        (raw : String) (n : ℕ)
        → environ s.env ≡ some raw
        → s.cast ≡ as_int
        → int raw ≡ some (inr n)
        → IsConfigured s (some (negative n))
    number :
        (raw : String) (x : Double)
        → environ s.env ≡ some raw
        → s.cast ≡ as_float
        → float raw ≡ some x
        → IsConfigured s (some (real x))
    switch :
        (raw : String)
        → environ s.env ≡ some raw
        → s.cast ≡ as_bool
        → IsConfigured s (
            some (
              boolean (any (λ word. str_eq (lowered raw) word) ("1" ∷ "true" ∷ "yes" ∷ "on" ∷ []))))

  coerce-IsConfigured :
      (s : Setting) (c : Cast) (raw : String) (v : Value)
      → s.cast ≡ c
      → environ s.env ≡ some raw
      → coerce int float lowered environ c raw ≡ some v
      → IsConfigured s (some v)
  unfolding coerce
  coerce-IsConfigured s as_str raw v p e h = subst (IsConfigured s) h (as_given raw e p)
  coerce-IsConfigured s as_int raw v p e h = elim (Option-cases (int raw)) [
    | inl f ↦ absurd (ground (arith, f, h))
    | inr (inl n, f) ↦ subst (IsConfigured s) (rw (coerce, f) at h) (whole raw n e p f)
    | inr (inr n, f) ↦ subst (IsConfigured s) (rw (coerce, f) at h) (below_zero raw n e p f)
  ]
  coerce-IsConfigured s as_float raw v p e h = elim (Option-cases (float raw)) [
    | inl f ↦ absurd (ground (arith, f, h))
    | inr (x, f) ↦ subst (IsConfigured s) (rw (coerce, f) at h) (number raw x e p f)
  ]
  coerce-IsConfigured s as_bool raw v p e h = subst (IsConfigured s) h (switch raw e p)

  resolve-IsConfigured :
      (s : Setting) (v : Value)
      → resolve int float lowered environ s ≡ some v
      → IsConfigured s (some v)
  unfolding resolve
  resolve-IsConfigured s v h = elim (Option-cases (environ s.env)) [
    | inl e ↦ subst (IsConfigured s) (rw (resolve, e) at h) (kept e)
    | inr (raw, e) ↦ coerce-IsConfigured s s.cast raw v refl e (rw (resolve, e) at h)
  ]

  -- An override that is not of its setting's type.
  abbrev pub IsRefused : Setting → String → Type 0
  IsRefused s raw =
      ((s.cast ≡ as_int) × (int raw ≡ none)) ⊎ ((s.cast ≡ as_float) × (float raw ≡ none))

  resolve-refused :
      (s : Setting) (raw : String)
      → environ s.env ≡ some raw
      → IsRefused s raw
      → resolve int float lowered environ s ≡ none
  unfolding resolve coerce
  resolve-refused s raw e (inl (p, f)) = rw (resolve, e, p, coerce, f) refl
  resolve-refused s raw e (inr (p, f)) = rw (resolve, e, p, coerce, f) refl

  -- The configuration is what the environment says, setting by setting: a key of the table has its
  -- default where its own variable is not set, and else the variable's text, or the number that it
  -- spells, of either sign, or whether it is one of the four words for true; the project's id alone may
  -- be filled in from elsewhere. An override that spells no number, where one is asked for, is never
  -- passed over: then nothing is loaded.
  pub load_config_lem :
      ((vs : Values)
        → load_config int float lowered environ ≡ some vs
        → All
            (λ (s : Setting).
              str_eq "gatekeeper.firestore.project-id" s.key ≡ false
              → IsConfigured s (value_at vs s.key))
            settings)
      × ((s : Setting) (raw : String)
          → Memᴰ s settings
          → environ s.env ≡ some raw
          → IsRefused s raw
          → load_config int float lowered environ ≡ none)
  unfolding load_config
  load_config_lem = (
    λ vs h. elim (Option-cases (resolve_all int float lowered environ settings)) [
      | inl e ↦ absurd (ground (arith, e, h))
      | inr (ws, e) ↦
          let same : with_project int float lowered environ ws ≡ vs =
            some-injective (with_project int float lowered environ ws) vs
              (rw (load_config, e) at h) in
          All-map (IsResolved ws)
            (λ (s : Setting).
              str_eq "gatekeeper.firestore.project-id" s.key ≡ false
              → IsConfigured s (value_at vs s.key))
            settings
            (λ s (v, found, here) other.
              subst (IsConfigured s)
                (sym (
                  ap (λ us. value_at us s.key) (sym same)
                  ∙ (project-value_at ws s.key other ∙ here)))
                (resolve-IsConfigured s v found))
            (resolve_all-value_at settings ws refl e)
    ],
    λ s raw m e bad.
        rw (load_config, resolve_all-none s settings (resolve-refused s raw e bad) m) refl,
  )
