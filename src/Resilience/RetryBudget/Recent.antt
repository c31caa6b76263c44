-- ===== src/Resilience/RetryBudget/Recent.antt =====
-- src/resilience/retry_budget.py: the requests of a window, in a queue whose times do not fall.
use ai_agent_code.Common.{
  keep-append, keep-keep, ℕ, ◌+◌, ◌≤◌, ◌≡◌, inl, inr, refl, Bool, not, List, [], ◌∷◌, ◌++◌, arith,
  keep, Bool-cases, string_key, nat_key,
}
use ai_agent_code.Resilience.RetryBudget.{stale, pop_stale}

-- The times of some requests do not fall, from a lower bound on.
unfoldable pub Ascending : ℕ → List (ℕ × Bool) → Type 0
Ascending lo [] = Unit
Ascending lo (r ∷ rs) = (lo ≤ r.0) × Ascending r.0 rs

-- No request is later than a time.
unfoldable pub Until : ℕ → List (ℕ × Bool) → Type 0
Until t [] = Unit
Until t (r ∷ rs) = (r.0 ≤ t) × Until t rs

-- The requests of the window that ends now.
unfoldable pub fresh : ℕ → ℕ → List (ℕ × Bool) → List (ℕ × Bool)
fresh window now rs = keep (λ r. not (stale window now r)) rs

pub fresh-all :
    (window now lo : ℕ) (rs : List (ℕ × Bool))
    → Ascending lo rs
    → now ≤ lo + window
    → fresh window now rs ≡ rs
unfolding Ascending fresh
fresh-all window now lo [] a h = refl
fresh-all window now lo (r ∷ rs) a h =
    let i = fresh-all window now r.0 rs a.1 (omega arith) in ground arith

-- Popping from the front drops what a filter would.
pub pop_stale-fresh :
    (window now lo : ℕ) (rs : List (ℕ × Bool))
    → Ascending lo rs
    → pop_stale window now rs ≡ fresh window now rs
unfolding Ascending pop_stale fresh
pop_stale-fresh window now lo [] a = refl
pop_stale-fresh window now lo (r ∷ rs) a =
    let i = pop_stale-fresh window now r.0 rs a.1 in
    let j = fresh-all window now r.0 rs a.1 in unfold fresh in ground arith

pub Ascending-weaken :
    (lo lo' : ℕ) (rs : List (ℕ × Bool)) → lo ≤ lo' → Ascending lo' rs → Ascending lo rs
unfolding Ascending
Ascending-weaken lo lo' [] h a = tt
Ascending-weaken lo lo' (r ∷ rs) h a = (omega arith, a.1)

pub Ascending-keep :
    (p : ℕ × Bool → Bool) (lo : ℕ) (rs : List (ℕ × Bool))
    → Ascending lo rs
    → Ascending lo (keep p rs)
unfolding Ascending
Ascending-keep p lo [] a = tt
Ascending-keep p lo (r ∷ rs) a = elim (Bool-cases (p r)) [
  | inl e ↦ rw e (a.0, Ascending-keep p r.0 rs a.1)
  | inr e ↦ rw e (Ascending-weaken lo r.0 (keep p rs) a.0 (Ascending-keep p r.0 rs a.1))
]

pub Ascending-snoc :
    (lo t : ℕ) (rs : List (ℕ × Bool)) (x : ℕ × Bool)
    → Ascending lo rs
    → Until t rs
    → lo ≤ x.0
    → t ≤ x.0
    → Ascending lo (rs ++ x ∷ [])
unfolding Ascending Until
Ascending-snoc lo t [] x a u l h = (l, tt)
Ascending-snoc lo t (r ∷ rs) x a u l h = (a.0, Ascending-snoc r.0 t rs x a.1 u.1 (omega arith) h)

pub Until-snoc :
    (t : ℕ) (rs : List (ℕ × Bool)) (x : ℕ × Bool) → Until t rs → t ≤ x.0 → Until x.0 (rs ++ x ∷ [])
unfolding Until
Until-snoc t [] x u h = (omega arith, tt)
Until-snoc t (r ∷ rs) x u h = (omega arith, Until-snoc t rs x u.1 h)

pub Until-weaken : (t t' : ℕ) (rs : List (ℕ × Bool)) → t ≤ t' → Until t rs → Until t' rs
unfolding Until
Until-weaken t t' [] h u = tt
Until-weaken t t' (r ∷ rs) h u = (omega arith, Until-weaken t t' rs h u.1)

pub Until-keep :
    (p : ℕ × Bool → Bool) (t : ℕ) (rs : List (ℕ × Bool)) → Until t rs → Until t (keep p rs)
unfolding Until
Until-keep p t [] u = tt
Until-keep p t (r ∷ rs) u = elim (Bool-cases (p r)) [
  | inl e ↦ rw e (u.0, Until-keep p t rs u.1)
  | inr e ↦ rw e (Until-keep p t rs u.1)
]

pub fresh-fresh :
    (window t now : ℕ) (rs : List (ℕ × Bool))
    → t ≤ now
    → fresh window now (fresh window t rs) ≡ fresh window now rs
unfolding fresh
fresh-fresh window t now rs h =
    keep-keep (λ r. not (stale window now r)) (λ r. not (stale window t r)) (λ r e. ground arith) rs

pub fresh-append :
    (window now : ℕ) (xs ys : List (ℕ × Bool))
    → fresh window now (xs ++ ys) ≡ fresh window now xs ++ fresh window now ys
unfolding fresh
fresh-append window now xs ys = keep-append (λ r. not (stale window now r)) xs ys

pub fresh-snoc :
    (window t now : ℕ) (rs : List (ℕ × Bool)) (x : ℕ × Bool)
    → t ≤ now
    → fresh window now (fresh window t rs ++ x ∷ []) ≡ fresh window now (rs ++ x ∷ [])
fresh-snoc window t now rs x h =
    rw
      (
        fresh-append window now (fresh window t rs) (x ∷ []),
        fresh-append window now rs (x ∷ []),
        fresh-fresh window t now rs h,
      )
      refl
