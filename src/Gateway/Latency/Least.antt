-- ===== src/Gateway/Latency/Least.antt =====
-- src/ai_gateway/load_balancer.py: `LeastLatency.select` takes the least median, or else the last.
use ai_agent_code.Common.{
  ◌<◌, length, leb, List-cases, sym, ℕ, ◌≡◌, ◌⊎◌, inl, inr, refl, ap, ◌∙◌, true, Option, none, some,
  List, [], ◌∷◌, arith, String, if◌then◌else◌, ltb, elem, All, Bool-cases, string_key, nat_key,
}
use ai_agent_code.Gateway.Latency.Pick.{p50, pick, IsChosen, pick-elem, pick-IsChosen, one-IsChosen}
use ai_agent_code.Gateway.Latency.{
  P50, untested, tested, statistics_error, Selection, chosen, no_data, records_of, LeastLatency,
  p50_of, is_less, choose, select,
}

P50-cases : (x : P50) → (x ≡ untested) ⊎ ((x ≡ statistics_error) ⊎ ((p : ℕ) × (x ≡ tested p)))
P50-cases untested = inl refl
P50-cases statistics_error = inr (inl refl)
P50-cases (tested p) = inr (inr (p, refl))

module _ (median : ℕ → List ℕ → ℕ) (l : LeastLatency) where
  -- No median of the candidates raises.
  unfoldable pub IsMeasured : List String → Type 0
  IsMeasured cs =
      All (λ c. (p50_of median l c ≡ untested) ⊎ ((p : ℕ) × (p50_of median l c ≡ tested p))) cs

  -- A candidate without a sample counts as one with enough.
  unfoldable pub IsLacking : List String → Type 0
  IsLacking cs = (c : String) × (elem c cs ≡ true) × (l.min_samples ≡ 0) × (records_of l c ≡ [])

  p50_of-empty :
      (c : String)
      → records_of l c ≡ []
      → p50_of median l c ≡ (if leb l.min_samples 0 then statistics_error else untested)
  unfolding p50_of
  p50_of-empty c n = rw n refl

  p50_of-full :
      (c : String) (v : ℕ) (vs : List ℕ)
      → records_of l c ≡ v ∷ vs
      → p50_of median l c
        ≡ (if leb l.min_samples (length (v ∷ vs)) then tested (median v vs) else untested)
  unfolding p50_of
  p50_of-full c v vs n = rw n refl

  IsLacking-head :
      (c : String) (cs : List String) → p50_of median l c ≡ statistics_error → IsLacking (c ∷ cs)
  unfolding IsLacking
  IsLacking-head c cs e = elim (List-cases (records_of l c)) [
    | inl n ↦ (c, ground (arith, string_key.same_iff c c), ground (arith, p50_of-empty c n, e), n)
    | inr (v, vs, n) ↦ absurd (ground (arith, p50_of-full c v vs n, e))
  ]

  IsLacking-tail : (c : String) (cs : List String) → IsLacking cs → IsLacking (c ∷ cs)
  unfolding IsLacking
  IsLacking-tail c cs (d, i, z, n) = (d, ground (arith, i), z, n)

  -- What the loop comes to: the choice above, or the error of a median.
  Comes : Selection → String → List String → Type 0
  Comes r best cs = ((r ≡ chosen best) × IsMeasured cs) ⊎ ((r ≡ no_data) × IsLacking cs)

  p50-untested : (c : String) → p50_of median l c ≡ untested → p50 median l c ≡ none
  unfolding p50
  p50-untested c n = rw (p50, n) refl

  p50-tested : (c : String) (q : ℕ) → p50_of median l c ≡ tested q → p50 median l c ≡ some q
  unfolding p50
  p50-tested c q n = rw (p50, n) refl

  -- One round of the loop, when the median of the candidate does not raise: the best so far and its
  -- median in the next round.
  choose_round :
      (best : String) (o : Option ℕ) (c : String) (cs : List String)
      → (p50_of median l c ≡ untested) ⊎ ((p : ℕ) × (p50_of median l c ≡ tested p))
      → (best' : String) × (o' : Option ℕ) × (choose median l best o (c ∷ cs)
          ≡ choose median l best' o' cs)
        × (pick median l best o (c ∷ cs) ≡ pick median l best' o' cs)
  unfolding choose pick is_less
  choose_round best none c cs (inl n) =
      (c, none, rw (choose, n) refl, rw (pick, p50-untested c n) refl)
  choose_round best (some m) c cs (inl n) =
      (best, some m, rw (choose, n) refl, rw (pick, p50-untested c n) refl)
  choose_round best none c cs (inr (q, n)) =
      (c, some q, rw (choose, n) refl, rw (pick, p50-tested c q n) refl)
  choose_round best (some m) c cs (inr (q, n)) = elim (Bool-cases (ltb q m)) [
    | inl b ↦ (c, some q, rw (choose, n) (rw b refl), rw (pick, p50-tested c q n) (rw b refl))
    | inr b ↦ (best, some m, rw (choose, n) (rw b refl), rw (pick, p50-tested c q n) (rw b refl))
  ]

  choose-raises :
      (best : String) (o : Option ℕ) (c : String) (cs : List String)
      → p50_of median l c ≡ statistics_error
      → choose median l best o (c ∷ cs) ≡ no_data
  unfolding choose
  choose-raises best o c cs n = rw (choose, n) refl

  choose_step :
      (best : String) (o : Option ℕ) (c : String) (cs : List String)
      → (p50_of median l c ≡ untested) ⊎ ((p : ℕ) × (p50_of median l c ≡ tested p))
      → ((best' : String) (o' : Option ℕ)
          → Comes (choose median l best' o' cs) (pick median l best' o' cs) cs)
      → Comes (choose median l best o (c ∷ cs)) (pick median l best o (c ∷ cs)) (c ∷ cs)
  unfolding Comes IsMeasured
  choose_step best o c cs m rest =
      let (best', o', e, f) = choose_round best o c cs m in
      elim (rest best' o') [
        | inl (g, a) ↦ inl (e ∙ g ∙ ap chosen (sym f), (m, a))
        | inr (g, a) ↦ inr (e ∙ g, IsLacking-tail c cs a)
      ]

  choose-pick :
      (best : String) (o : Option ℕ) (cs : List String)
      → Comes (choose median l best o cs) (pick median l best o cs) cs
  unfolding Comes IsMeasured
  choose-pick best o [] = inl (unfold choose in unfold pick in refl, tt)
  choose-pick best o (c ∷ cs) = elim (P50-cases (p50_of median l c)) [
    | inl n ↦ choose_step best o c cs (inl n) (λ b o'. choose-pick b o' cs)
    | inr (inl n) ↦ inr (choose-raises best o c cs n, IsLacking-head c cs n)
    | inr (inr (q, n)) ↦ choose_step best o c cs (inr (q, n)) (λ b o'. choose-pick b o' cs)
  ]

  -- Of one candidate, `select` chooses it. Of more, it chooses one of them: of those with enough
  -- samples one with the least median, and the last of all when none has enough; so a candidate
  -- without enough samples is never chosen next to one that has them. Or else it raises the
  -- `StatisticsError`: then `min_samples` is 0 and one of the candidates has no sample, while a choice
  -- out of several means that no median raised.
  pub select-IsChosen :
      (c : String) (cs : List String)
      → ((r : String) × (select median l (c ∷ cs) ≡ chosen r)
          × (elem r (c ∷ cs) ≡ true)
          × IsChosen median l c (c ∷ cs) r
          × ((cs ≡ []) ⊎ IsMeasured (c ∷ cs)))
        ⊎ ((select median l (c ∷ cs) ≡ no_data) × (0 < length cs) × IsLacking (c ∷ cs))
  unfolding select Comes
  select-IsChosen c [] =
      inl (c, refl, ground (arith, string_key.same_iff c c), one-IsChosen median l c, inl refl)
  select-IsChosen c (d ∷ cs) = elim (choose-pick c none (c ∷ d ∷ cs)) [
    | inl (e, m) ↦ inl (
      pick median l c none (c ∷ d ∷ cs),
      e,
      ground (arith, pick-elem median l c none (c ∷ d ∷ cs)),
      pick-IsChosen median l c (c ∷ d ∷ cs),
      inr m,
    )
    | inr (e, m) ↦ inr (e, omega arith, m)
  ]
