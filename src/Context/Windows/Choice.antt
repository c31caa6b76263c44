-- ===== src/Context/Windows/Choice.antt =====
-- src/domain/context_management/window_manager.py: the model recommended for a number of tokens.
use ai_agent_code.Common.Dict
use ai_agent_code.Common.Dict.{Dict}
use ai_agent_code.Common.{
  ℕ, ◌≤◌, ◌<◌, ◌≡◌, ◌⊎◌, inl, inr, refl, ap, ◌∙◌, Bool, true, false, not, ◌&&◌, ◌||◌, Option, none,
  some, List, [], ◌∷◌, ◌++◌, map, arith, String, if◌then◌else◌, leb, ltb, ◌==◌, ◌≟◌, elem, All,
  Bool-cases, string_key, nat_key,
}
use ai_agent_code.Context.Windows.{
  ContextWindowManager, get_window, recommend, recommend_model_for_tokens, register_window,
}

module _ (lower : String → String) where
  -- A model that may be recommended.
  unfoldable pub suits : List String → ℕ → String × ℕ → Bool
  suits exclude required (model, window) = not (elem (lower model) exclude) && leb required window

  -- No entry that suits has a smaller window.
  unfoldable pub IsLeast : List String → ℕ → Dict String ℕ → ℕ → Type 0
  IsLeast exclude required d best =
      All (λ (e : String × ℕ). suits exclude required e ≡ false ⊎ best ≤ e.1) d

  -- An entry of the table that suits.
  unfoldable pub IsEntry : List String → ℕ → Dict String ℕ → String → ℕ → Type 0
  IsEntry exclude required d model window =
      (before : Dict String ℕ) × (after : Dict String ℕ) × (d ≡ before ++ (model, window) ∷ after)
      × (suits exclude required (model, window) ≡ true)

  next-IsEntry :
      (ex : List String) (n : ℕ) (e : String × ℕ) (d : Dict String ℕ) (model : String) (window : ℕ)
      → IsEntry ex n d model window
      → IsEntry ex n (e ∷ d) model window
  unfolding IsEntry
  next-IsEntry ex n e d model window (before, after, p, s) =
      (e ∷ before, after, ap (λ x. e ∷ x) p, s)

  here-IsEntry :
      (ex : List String) (n : ℕ) (model m' : String) (window w' : ℕ) (d : Dict String ℕ)
      → m' ≡ model
      → w' ≡ window
      → suits ex n (model, window) ≡ true
      → IsEntry ex n ((model, window) ∷ d) m' w'
  unfolding IsEntry
  here-IsEntry ex n model m' window w' d p q s = ([], d, rw (p, q) refl, rw (p, q) s)

  unfoldable pub IsPositive : Dict String ℕ → Type 0
  IsPositive d = All (λ (e : String × ℕ). 0 < e.1) d

  recommend-same :
      (ex : List String) (n : ℕ) (model : String) (window : ℕ) (d : Dict String ℕ)
      (o : Option String) (best : ℕ)
      → (suits ex n (model, window) && (best == 0 || ltb window best)) ≡ false
      → recommend lower ex n ((model, window) ∷ d) o best ≡ recommend lower ex n d o best
  unfolding recommend suits
  recommend-same ex n model window d o best b = ground arith

  recommend-other :
      (ex : List String) (n : ℕ) (model : String) (window : ℕ) (d : Dict String ℕ)
      (o : Option String) (best : ℕ)
      → (suits ex n (model, window) && (best == 0 || ltb window best)) ≡ true
      → recommend lower ex n ((model, window) ∷ d) o best
        ≡ recommend lower ex n d (some model) window
  unfolding recommend suits
  recommend-other ex n model window d o best b = ground arith

  -- The rest of the loop when there is a best model.
  recommend-best :
      (ex : List String) (n : ℕ) (d : Dict String ℕ) (b : String) (w : ℕ)
      → 0 < w
      → IsPositive d
      → (b' : String) × (w' : ℕ) × (recommend lower ex n d (some b) w ≡ (some b', w'))
        × (w' ≤ w)
        × IsLeast ex n d w'
        × (((b' ≡ b) × (w' ≡ w)) ⊎ IsEntry ex n d b' w')
  unfolding IsLeast IsPositive
  recommend-best ex n [] b w h p =
      (b, w, unfold recommend in refl, omega arith, tt, inl (refl, refl))
  recommend-best ex n ((model, window) ∷ d) b w h p =
      elim (Bool-cases (suits ex n (model, window) && (w == 0 || ltb window w))) [
        | inl c ↦
            let (b', w', r, le, l, o) = recommend-best ex n d model window p.0 p.1 in
            let s : suits ex n (model, window) ≡ true = ground arith in
            let mine : IsEntry ex n ((model, window) ∷ d) b' w' = elim o [
              | inl (p, q) ↦ here-IsEntry ex n model b' window w' d p q s
              | inr e ↦ next-IsEntry ex n (model, window) d b' w' e
            ] in
            (
              b',
              w',
              recommend-other ex n model window d (some b) w c ∙ r,
              ground arith,
              (inr le, l),
              inr mine,
            )
        | inr c ↦
            let (b', w', r, le, l, o) = recommend-best ex n d b w h p.1 in
            (
              b',
              w',
              recommend-same ex n model window d (some b) w c ∙ r,
              le,
              (ground arith, l),
              elim o [ inl e ↦ inl e | inr e ↦ inr (next-IsEntry ex n (model, window) d b' w' e) ],
            )
      ]

  -- What the loop comes to: nothing suits, or the model of an entry that suits and has the least window.
  unfoldable pub IsChoice : List String → ℕ → Dict String ℕ → Option String → Type 0
  IsChoice ex n d none = All (λ (e : String × ℕ). suits ex n e ≡ false) d
  IsChoice ex n d (some model) = (window : ℕ) × IsEntry ex n d model window × IsLeast ex n d window

  next-IsChoice :
      (ex : List String) (n : ℕ) (model : String) (window : ℕ) (d : Dict String ℕ)
      (o : Option String)
      → suits ex n (model, window) ≡ false
      → IsChoice ex n d o
      → IsChoice ex n ((model, window) ∷ d) o
  unfolding IsChoice IsLeast
  next-IsChoice ex n model window d none s c = (s, c)
  next-IsChoice ex n model window d (some b) s (w, e, l) =
      (w, next-IsEntry ex n (model, window) d b w e, (inl s, l))

  recommend-IsChoice :
      (ex : List String) (n : ℕ) (d : Dict String ℕ)
      → IsPositive d
      → IsChoice ex n d (recommend lower ex n d none 0).0
  unfolding IsPositive
  recommend-IsChoice ex n [] p = unfold IsChoice in unfold recommend in tt
  recommend-IsChoice ex n ((model, window) ∷ d) p = elim (Bool-cases (suits ex n (model, window))) [
    | inl s ↦
        let (b', w', r, le, l, o) = recommend-best ex n d model window p.0 p.1 in
        let mine : IsEntry ex n ((model, window) ∷ d) b' w' = elim o [
          | inl (p, q) ↦ here-IsEntry ex n model b' window w' d p q s
          | inr e ↦ next-IsEntry ex n (model, window) d b' w' e
        ] in
        rw (recommend-other ex n model window d none 0 (ground arith), r)
          (unfold IsChoice in (w', mine, unfold IsLeast in (inr le, l)))
    | inr s ↦ rw (recommend-same ex n model window d none 0 (ground arith)) (
        next-IsChoice ex n model window d (recommend lower ex n d none 0).0 s
          (recommend-IsChoice ex n d p.1))
  ]

  -- Whenever every window is positive, the recommended model is one of the table that is not excluded
  -- and whose window is enough, with the smallest such window; there is no recommendation exactly when
  -- the table has no such model.
  pub recommend_model_for_tokens-IsChoice :
      (m : ContextWindowManager) (required : ℕ) (exclude_models : List String)
      → IsPositive m.model_windows
      → IsChoice
          (map lower exclude_models)
          required
          m.model_windows
          (recommend_model_for_tokens lower m required exclude_models)
  unfolding recommend_model_for_tokens
  recommend_model_for_tokens-IsChoice m required exclude_models p =
      recommend-IsChoice (map lower exclude_models) required m.model_windows p

  -- A registered window is the window of that model from then on, in any case of its letters, and that
  -- of no model with another name in lower case.
  pub get_window-register_window :
      (m : ContextWindowManager) (model other : String) (window : ℕ)
      → get_window lower (register_window lower m model window) other
        ≡ (if lower other ≟ lower model then window else get_window lower m other)
  unfolding get_window register_window
  get_window-register_window m model other window =
      ground (arith, Dict.lookup-insert (lower other) (lower model) window m.windows_lower)
