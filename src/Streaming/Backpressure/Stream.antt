-- ===== src/Streaming/Backpressure/Stream.antt =====
-- src/streaming/backpressure.py: the stream that a controller carries, and its bounds.
use ai_agent_code.Common.{
  subst, length-append, ℕ, suc, ◌+◌, ◌≤◌, ◌<◌, ◌≡◌, ◌⊎◌, inl, inr, refl, sym, ◌∙◌, true, false,
  Option, none, some, List, [], ◌∷◌, ◌++◌, arith, String, if◌then◌else◌, leb, ltb, length,
  Bool-cases, string_key, nat_key,
}
use mathlib.Core.List.{append-nil, append_assoc}
use ai_agent_code.Streaming.Backpressure.{
  BackpressureController, init, produce, consume, try_produce, try_consume, close, pop, take,
  take_now, Produced, found_closed, enqueued, Turn, produces, tries_to_produce, consumes,
  tries_to_consume, closes, Moved, accepted, offered, delivered, obtained, step, run,
}

-- A controller that has carried a stream: what entered is what left and what still waits, in order.
pub record Carries (max_size : ℕ) (m : Moved) : Type 0 where
  pub fifo : m.entered ≡ m.left ++ m.controller.queue
  pub size : m.controller.max_size ≡ max_size
  pub bounded : length m.controller.queue ≤ max_size
  pub produced : m.controller.produced_count ≡ length m.entered
  pub consumed : m.controller.consumed_count ≡ length m.left
  pub above_queue : length m.controller.queue ≤ m.controller.high_water_mark
  pub mark_bounded : m.controller.high_water_mark ≤ max_size
  pub none_dropped : m.controller.dropped_count ≡ 0

-- A turn after a stream.
after : BackpressureController → List String → List String → Moved
after b ins outs = record { controller = b; entered = ins; left = outs }

enqueue-Carries :
    (n : ℕ) (b : BackpressureController) (x : String) (ins outs : List String)
    → length b.queue < n
    → Carries n (after b ins outs)
    → Carries n (
        after
          (record b {
            queue = b.queue ++ x ∷ [];
            produced_count = b.produced_count + 1;
            high_water_mark =
                (if ltb b.high_water_mark (length (b.queue ++ x ∷ []))
                  then length (b.queue ++ x ∷ [])
                  else b.high_water_mark);
          })
          (ins ++ x ∷ [])
          outs)
unfolding after
enqueue-Carries n b x ins outs h c = record {
  fifo = rw (c.fifo) (append_assoc outs b.queue (x ∷ []));
  size = c.size;
  bounded = omega (arith, length-append b.queue (x ∷ []));
  produced = omega (arith, c.produced, length-append ins (x ∷ []));
  consumed = c.consumed;
  above_queue = ground arith;
  mark_bounded = ground (arith, length-append b.queue (x ∷ []), c.mark_bounded);
  none_dropped = c.none_dropped;
}

pop-Carries :
    (n : ℕ) (b : BackpressureController) (x : String) (xs ins outs : List String)
    → b.queue ≡ x ∷ xs
    → Carries n (after b ins outs)
    → Carries n (after (pop b x xs) ins (outs ++ x ∷ []))
unfolding after pop
pop-Carries n b x xs ins outs q c =
    let l : length b.queue ≡ suc (length xs) = rw q refl in
    record {
      fifo = c.fifo ∙ rw q (sym (append_assoc outs (x ∷ []) xs));
      size = c.size;
      bounded = omega (arith, c.bounded);
      produced = c.produced;
      consumed = omega (arith, c.consumed, length-append outs (x ∷ []));
      above_queue = omega (arith, c.above_queue);
      mark_bounded = c.mark_bounded;
      none_dropped = c.none_dropped;
    }

idle-Carries :
    (n : ℕ) (b : BackpressureController) (ins outs : List String)
    → Carries n (after b ins outs)
    → Carries n (after b (ins ++ []) (outs ++ []))
idle-Carries n b ins outs c = rw (append-nil ins, append-nil outs) c

produce-cases :
    (b : BackpressureController) (x : String)
    → (produce b x ≡ (b, Produced.must_wait))
      ⊎ (produce b x ≡ (b, found_closed))
      ⊎ ((length b.queue < b.max_size)
          × (produce b x ≡ (
            record b {
              queue = b.queue ++ x ∷ [];
              produced_count = b.produced_count + 1;
              high_water_mark =
                  (if ltb b.high_water_mark (length (b.queue ++ x ∷ []))
                    then length (b.queue ++ x ∷ [])
                    else b.high_water_mark);
            },
            enqueued,
          )))
unfolding produce
produce-cases b x = elim (Bool-cases b.closed) [
  | inl d ↦ inr (inl (ground arith))
  | inr d ↦ elim (Bool-cases (leb b.max_size (length b.queue))) [
    | inl l ↦ inl (ground arith)
    | inr l ↦ inr (inr (ground arith, ground arith))
  ]
]

produce-Carries :
    (n : ℕ) (b : BackpressureController) (x : String) (ins outs : List String)
    → Carries n (after b ins outs)
    → Carries n (after (produce b x).0 (ins ++ accepted (produce b x).1 x) (outs ++ []))
unfolding accepted
produce-Carries n b x ins outs c = elim (produce-cases b x) [
  | inl e ↦ rw e (idle-Carries n b ins outs c)
  | inr (inl e) ↦ rw e (idle-Carries n b ins outs c)
  | inr (inr (l, e)) ↦
      let s : b.max_size ≡ n = (unfold after in c.size) in
      rw (e, append-nil outs) (enqueue-Carries n b x ins outs (omega arith) c)
]

take-empty : (b : BackpressureController) → ((take b []).0 ≡ b) × (delivered (take b []).1 ≡ [])
unfolding take delivered
take-empty b = elim (Bool-cases b.closed) [
  | inl d ↦ (ground arith, ground arith)
  | inr d ↦ (ground arith, ground arith)
]

take-Carries :
    (n : ℕ) (b : BackpressureController) (xs ins outs : List String)
    → b.queue ≡ xs
    → Carries n (after b ins outs)
    → Carries n (after (take b xs).0 (ins ++ []) (outs ++ delivered (take b xs).1))
unfolding take delivered
take-Carries n b [] ins outs q c =
    let e = take-empty b in rw (e.0, e.1) (idle-Carries n b ins outs c)
take-Carries n b (x ∷ xs) ins outs q c = rw (append-nil ins) (pop-Carries n b x xs ins outs q c)

take_now-Carries :
    (n : ℕ) (b : BackpressureController) (xs ins outs : List String)
    → b.queue ≡ xs
    → Carries n (after b ins outs)
    → Carries n (after (take_now b xs).0 (ins ++ []) (outs ++ obtained (take_now b xs).1))
unfolding take_now obtained
take_now-Carries n b [] ins outs q c = idle-Carries n b ins outs c
take_now-Carries n b (x ∷ xs) ins outs q c = rw (append-nil ins) (pop-Carries n b x xs ins outs q c)

close-Carries :
    (n : ℕ) (b : BackpressureController) (ins outs : List String)
    → Carries n (after b ins outs)
    → Carries n (after (close b) (ins ++ []) (outs ++ []))
unfolding close after
close-Carries n b ins outs c =
    rw (append-nil ins, append-nil outs)
      (record {
        fifo = c.fifo;
        size = c.size;
        bounded = c.bounded;
        produced = c.produced;
        consumed = c.consumed;
        above_queue = c.above_queue;
        mark_bounded = c.mark_bounded;
        none_dropped = c.none_dropped;
      })

try_produce-full :
    (b : BackpressureController) (x : String)
    → leb b.max_size (length b.queue) ≡ true
    → (try_produce b x).0 ≡ b
unfolding try_produce
try_produce-full b x l = rw l refl

try_produce-room :
    (b : BackpressureController) (x : String)
    → leb b.max_size (length b.queue) ≡ false
    → (try_produce b x).0 ≡ (produce b x).0
unfolding try_produce
try_produce-room b x l = rw l refl

offered-full :
    (b : BackpressureController) (x : String)
    → leb b.max_size (length b.queue) ≡ true
    → offered b x ≡ []
unfolding offered
offered-full b x l = rw l refl

offered-room :
    (b : BackpressureController) (x : String)
    → leb b.max_size (length b.queue) ≡ false
    → offered b x ≡ accepted (produce b x).1 x
unfolding offered
offered-room b x l = rw (offered, l) refl

init-Carries : (n : ℕ) (b : BackpressureController) → init n ≡ some b → Carries n (after b [] [])
unfolding init after
init-Carries n b e = elim (Bool-cases (ltb n 1)) [
  | inl l ↦
      absurd (let f : ◌≡◌ {A = Option BackpressureController} none (some b) = ground arith in cc)
  | inr l ↦
      let fresh : BackpressureController = record {
        max_size = n;
        queue = [];
        produced_count = 0;
        consumed_count = 0;
        dropped_count = 0;
        high_water_mark = 0;
        closed = false;
      } in
      let f : ◌≡◌ {A = Option BackpressureController} (some fresh) (some b) = ground arith in
      let same : fresh ≡ b = cc in
      subst (λ (x : BackpressureController). Carries n (after x [] [])) same
        (unfold after in
          record {
            fifo = refl;
            size = refl;
            bounded = omega arith;
            produced = refl;
            consumed = refl;
            above_queue = omega arith;
            mark_bounded = omega arith;
            none_dropped = refl;
          })
]

step-Carries :
    (n : ℕ) (b : BackpressureController) (t : Turn) (ins outs : List String)
    → Carries n (after b ins outs)
    → let m = step b t in Carries n (after m.controller (ins ++ m.entered) (outs ++ m.left))
unfolding step consume try_consume
step-Carries n b (produces x) ins outs c = produce-Carries n b x ins outs c
step-Carries n b (tries_to_produce x) ins outs c =
    elim (Bool-cases (leb b.max_size (length b.queue))) [
      | inl l ↦ rw (try_produce-full b x l, offered-full b x l) (idle-Carries n b ins outs c)
      | inr l ↦ rw (try_produce-room b x l, offered-room b x l) (produce-Carries n b x ins outs c)
    ]
step-Carries n b consumes ins outs c = take-Carries n b b.queue ins outs refl c
step-Carries n b tries_to_consume ins outs c = take_now-Carries n b b.queue ins outs refl c
step-Carries n b closes ins outs c = close-Carries n b ins outs c

run_keeps :
    (n : ℕ) (b : BackpressureController) (ts : List Turn) (ins outs : List String)
    → Carries n (after b ins outs)
    → Carries n (run b ts ins outs)
unfolding run
run_keeps n b [] ins outs c = unfold after in c
run_keeps n b (t ∷ ts) ins outs c =
    run_keeps n (step b t).controller ts (ins ++ (step b t).entered) (outs ++ (step b t).left)
      (step-Carries n b t ins outs c)

-- However the turns of the tasks interleave, the tokens that entered a new controller are those
-- that left it followed by those that wait, in order; at most `max_size` wait, the counters are
-- the numbers of tokens, and the high-water mark is between the queue and `max_size`.
pub run-Carries :
    (n : ℕ) (b : BackpressureController) (ts : List Turn)
    → init n ≡ some b
    → Carries n (run b ts [] [])
run-Carries n b ts e = run_keeps n b ts [] [] (init-Carries n b e)
