-- ===== src/Herms/TrafficTagger/Headers.antt =====
-- src/herms/traffic_tagger.py: tags sent as headers are received as they were.
use ai_agent_code.Common.Dict
use ai_agent_code.Common.Dict.{Dict}
use ai_agent_code.Common.Unique.{AreUnique}
use ai_agent_code.Common.{
  ◌≡◌, ◌≢◌, inl, inr, refl, sym, ap, ◌∙◌, true, none, [], ◌∷◌, arith, String, if◌then◌else◌, ◌≟◌,
  Bool-cases, string_key, nat_key,
}
use ai_agent_code.Herms.TrafficTagger.{
  TrafficTags, get_or_empty, or_else, get, from_headers, fields, non_empty, as_headers,
}

get-cons :
    (k j v : String) (d : Dict String String)
    → get_or_empty k ((j, v) ∷ d) ≡ (if k ≟ j then v else get_or_empty k d)
unfolding get_or_empty
get-cons k j v d = elim (Bool-cases (k ≟ j)) [
  | inl b ↦ rw (get_or_empty, b) refl
  | inr b ↦ rw (get_or_empty, b) refl
]

get-missing : (k : String) (d : Dict String String) → Dict.lookup k d ≡ none → get_or_empty k d ≡ ""
unfolding get_or_empty
get-missing k d e = rw (get_or_empty, e) refl

-- An empty value is read as a missing one.
get-empty :
    (k j v : String) (d : Dict String String)
    → (v ≟ "") ≡ true
    → Dict.lookup j d ≡ none
    → get_or_empty k d ≡ get_or_empty k ((j, v) ∷ d)
get-empty k j v d b n =
    let q : v ≡ "" = ground (arith, b, string_key.same_iff v "") in
    elim (Bool-cases (k ≟ j)) [
      | inl e ↦
          let r : k ≡ j = ground (arith, e, string_key.same_iff k j) in
          get-missing k d (ap (λ x. Dict.lookup x d) r ∙ n) ∙ sym (get-cons k j v d ∙ rw e q)
      | inr e ↦ sym (get-cons k j v d ∙ rw e refl)
    ]

-- To leave out empty values changes no value that is read.
get-non_empty :
    (k : String) (d : Dict String String)
    → AreUnique d
    → get_or_empty k (non_empty d) ≡ get_or_empty k d
unfolding non_empty AreUnique
get-non_empty k [] u = refl
get-non_empty k ((j, v) ∷ d) u = elim (Bool-cases (v ≟ "")) [
  | inl b ↦ rw b (get-non_empty k d u.1 ∙ get-empty k j v d b u.0)
  | inr b ↦ rw b (
      get-cons k j v (non_empty d)
      ∙ ap (λ x. if k ≟ j then v else x) (get-non_empty k d u.1)
      ∙ sym (get-cons k j v d))
]

fields-AreUnique : (t : TrafficTags) → AreUnique (fields t)
unfolding AreUnique fields
fields-AreUnique t = (refl, (refl, (refl, (refl, (refl, (refl, (refl, tt)))))))

or_else-empty : (x y : String) → y ≡ "" → or_else x y ≡ x
unfolding or_else
or_else-empty x y e = ground (arith, e, string_key.same_iff x "")

or_else-first : (x y : String) → x ≢ "" → or_else x y ≡ x
unfolding or_else
or_else-first x y e = ground (arith, e, string_key.same_iff x "")

get-as_headers :
    (t : TrafficTags) (key lower : String)
    → get_or_empty lower (fields t) ≡ ""
    → get (as_headers t) key lower ≡ get_or_empty key (fields t)
unfolding get as_headers
get-as_headers t key lower e =
    let p = get-non_empty key (fields t) (fields-AreUnique t) in
    let q = get-non_empty lower (fields t) (fields-AreUnique t) ∙ e in
    or_else-empty (get_or_empty key (non_empty (fields t)))
      (get_or_empty lower (non_empty (fields t))) q
    ∙ p

-- Tags with a trace identifier, sent as headers and extracted again, are the same tags.
pub from_headers-as_headers :
    (new_id : String) (t : TrafficTags) → t.trace_id ≢ "" → from_headers new_id (as_headers t) ≡ t
unfolding from_headers fields get_or_empty
from_headers-as_headers new_id t h =
    let g = λ (key lower : String) (e : get_or_empty lower (fields t) ≡ "").
      get-as_headers t key lower e in
    let first =
      ap (λ x. or_else x new_id) (g "X-Trace-Id" "x-trace-id" refl)
      ∙ or_else-first t.trace_id new_id h in
    let p1 = g "X-Tenant-Id" "x-tenant-id" refl in
    let p2 = g "X-Session-Id" "x-session-id" refl in
    let p3 = g "X-Task-Id" "x-task-id" refl in
    let p4 = g "X-Version-Set-Id" "x-version-set-id" refl in
    let p5 = g "X-Strategy-Id" "x-strategy-id" refl in
    let p6 = g "X-Experiment-Id" "x-experiment-id" refl in
    λ i. record {
      trace_id = first i;
      tenant_id = p1 i;
      session_id = p2 i;
      task_id = p3 i;
      version_set_id = p4 i;
      strategy_id = p5 i;
      experiment_id = p6 i;
    }
