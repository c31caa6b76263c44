-- ===== src/Streaming/Backpressure.antt =====
-- src/streaming/backpressure.py: `BackpressureController`, a bounded queue of tokens.
-- A coroutine runs without interruption between two awaits, so a call of the controller is a
-- sequence of turns: a turn of `produce` or `consume` looks at the queue once, and either waits to
-- be resumed, or finishes. Any interleaving of tasks is a sequence of such turns.
mod Stream
mod Tests
use ai_agent_code.Common.{
  ℕ, zero, suc, ◌+◌, ◌-◌, ◌*◌, ◌≤◌, ◌<◌, min, max, ◌≡◌, ◌≢◌, ◌⊎◌, ◌↔◌, inl, inr, refl, sym, ap, ◌∙◌,
  Bool, true, false, not, ◌&&◌, ◌||◌, Option, none, some, List, [], ◌∷◌, ◌++◌, map, reverse, arith,
  String, if◌then◌else◌, leb, ltb, ◌==◌, ◌≟◌, elem, length, drop, keep, count, get_last?,
  slice_last, All, Bool-cases, Option-cases, Key, string_key, nat_key,
}

pub record BackpressureController : Type 0 where
  pub max_size : ℕ
  pub queue : List String
  pub produced_count : ℕ
  pub consumed_count : ℕ
  pub dropped_count : ℕ
  pub high_water_mark : ℕ
  pub closed : Bool

-- `__init__`: `none` is the `ValueError`.
pub init : ℕ → Option BackpressureController
init max_size =
    if ltb max_size 1
    then none
    else some (record {
      max_size = max_size;
      queue = [];
      produced_count = 0;
      consumed_count = 0;
      dropped_count = 0;
      high_water_mark = 0;
      closed = false;
    })

-- What a turn of `produce` comes to: it waits, it finds the stream closed, or it enqueues.
pub data Produced : Type 0 where
  must_wait found_closed enqueued : Produced

-- A turn of `produce`
pub produce : BackpressureController → String → BackpressureController × Produced
produce b token =
    if leb b.max_size (length b.queue) && not b.closed
    then (b, must_wait)
    else if b.closed
    then (b, found_closed)
    else (
      record b {
        queue = b.queue ++ token ∷ [];
        produced_count = b.produced_count + 1;
        high_water_mark =
            (if ltb b.high_water_mark (length (b.queue ++ token ∷ []))
              then length (b.queue ++ token ∷ [])
              else b.high_water_mark);
      },
      enqueued,
    )

-- What a turn of `consume` comes to: it waits, it raises `QueueEmpty`, or it returns a token.
pub data Consumed : Type 0 where
  must_wait queue_empty : Consumed
  got : String → Consumed

-- The popped token, with the counters after it.
pop : BackpressureController → String → List String → BackpressureController
pop b x xs = record b { queue = xs; consumed_count = b.consumed_count + 1 }

take : BackpressureController → List String → BackpressureController × Consumed
unfolding pop
take b [] = if b.closed then (b, queue_empty) else (b, must_wait)
take b (x ∷ xs) = (pop b x xs, got x)

-- A turn of `consume`
pub consume : BackpressureController → BackpressureController × Consumed
unfolding take
consume b = take b b.queue

-- `try_produce`: the awaited `produce` finds room, since no turn of another task comes between.
pub try_produce : BackpressureController → String → BackpressureController × Bool
unfolding produce
try_produce b token =
    if leb b.max_size (length b.queue) then (b, false) else ((produce b token).0, true)

take_now : BackpressureController → List String → BackpressureController × Option String
unfolding pop
take_now b [] = (b, none)
take_now b (x ∷ xs) = (pop b x xs, some x)

-- `try_consume`
pub try_consume : BackpressureController → BackpressureController × Option String
unfolding take_now
try_consume b = take_now b b.queue

-- `close`
pub close : BackpressureController → BackpressureController
close b = record b { closed = true }

-- A turn of some task.
pub data Turn : Type 0 where
  produces tries_to_produce : String → Turn
  consumes tries_to_consume closes : Turn

-- The controller after a turn, with the token that entered the queue and the one that left it.
pub record Moved : Type 0 where
  pub controller : BackpressureController
  pub entered : List String
  pub left : List String

accepted : Produced → String → List String
accepted must_wait x = []
accepted found_closed x = []
accepted enqueued x = x ∷ []

-- What `try_produce` enqueues, whatever it returns.
offered : BackpressureController → String → List String
unfolding produce accepted
offered b x = if leb b.max_size (length b.queue) then [] else accepted (produce b x).1 x

delivered : Consumed → List String
delivered must_wait = []
delivered queue_empty = []
delivered (got x) = x ∷ []

obtained : Option String → List String
obtained none = []
obtained (some x) = x ∷ []

pub step : BackpressureController → Turn → Moved
unfolding produce consume try_consume try_produce close accepted offered delivered obtained
step b (produces x) =
    let (b', r) = produce b x in record { controller = b'; entered = accepted r x; left = [] }
step b (tries_to_produce x) = record {
  controller = (try_produce b x).0;
  entered = offered b x;
  left = [];
}
step b consumes =
    let (b', r) = consume b in record { controller = b'; entered = []; left = delivered r }
step b tries_to_consume =
    let (b', r) = try_consume b in record { controller = b'; entered = []; left = obtained r }
step b closes = record { controller = close b; entered = []; left = [] }

-- The controller after some turns, and all tokens that entered and left.
pub run : BackpressureController → List Turn → List String → List String → Moved
unfolding step
run b [] ins outs = record { controller = b; entered = ins; left = outs }
run b (t ∷ ts) ins outs =
    let m = step b t in run m.controller ts (ins ++ m.entered) (outs ++ m.left)
