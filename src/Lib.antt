-- ===== src/Lib.antt =====
-- A model of parts of the LLM platform under src/, with proofs of what they do.
--
-- The parts. Requests of tenants enter the gateway (src/ai_gateway): the rate limiter charges the
-- tenant's token buckets, the load balancer picks a provider by weight, the circuit breaker of that
-- provider admits or refuses the call, the retry handler repeats a call that fails, and the fallback
-- chain goes on with other models. Around an agent's run stand the harness (src/harness: transactions,
-- checkpoints and hard limits), the resilience layer (src/resilience: retry budget, reclamation of resources,
-- recovery, table of timeouts), the dialog state machine (src/domain/conversation/fsm.py), the bounded
-- queue of streamed tokens (src/streaming/backpressure.py), the guard against loops and overuse
-- (src/agents/safety.py), the window of a conversation (src/memory/short_term.py), the cache
-- of query results (src/rag/caching/exact_cache.py) and the gate for tool calls that a user
-- has to approve (src/mcp/approval.py). The agents of a run are watched by the heartbeat monitor and
-- the deadlock detector (src/agents/communication); a dialog fills the slots of a form
-- (src/domain/conversation/slot_filling.py); the sliding window and the table of model windows decide
-- what of a conversation is sent (src/domain/context_management), and the token budget shares the
-- window out (src/domain/token_management/budget.py); documents are split into chunks before they are
-- indexed (src/rag/chunking); a request is checked against the permissions of its role
-- (src/security/rbac_manager.py), and sent to a version of the system by weight, with tags that
-- go from service to service as headers (src/herms). The harness calls the safety guard, the rate limiter its
-- token buckets; the other parts meet only through calls that the model has as parameters (the call
-- of a provider, an undo, a cleanup, a resume), so each is a module of its own.
--
-- Files and code.
--   Common: lists measured by native numbers, Python's slices, integers, keys, and a dict as an
--     association list in insertion order, with the lists whose keys are different (Unique).
--   Gateway/Breaker: src/ai_gateway/circuit_breaker.py. `CircuitBreaker` has the fields of the class;
--     before_call, on_success, on_failure, failure_count and reset keep their names; Breaker/Manager
--     is `CircuitBreakerManager`, with get_or_create, manage (the calls by name) and reset_all.
--   Gateway/Fallback: src/ai_gateway/fallback.py, with get_chain, resolve_model and execute.
--   Gateway/Retry: src/ai_gateway/retry.py, with is_retryable and execute_with_retry.
--   Gateway/Bucket, Gateway/Limiter: src/ai_gateway/rate_limiter.py, `TokenBucket` and `RateLimiter`.
--   Gateway/Balancer, Gateway/Latency: src/ai_gateway/load_balancer.py, `WeightedRoundRobin` with the
--     weight map, and `LeastLatency`.
--   Harness/Transaction, Harness/Checkpoint, Harness/Guard: src/harness/transaction.py, checkpoint.py
--     and guard.py; the guard calls Agents/Safety.
--   Resilience/RetryBudget, Reclaimer, Recovery, Timeout: the files of src/resilience. What happens
--     while `reclaim_expired` awaits a cleanup is a list of turns between two of its pops.
--   Conversation/Fsm: src/domain/conversation/fsm.py, `DialogFSM`.
--   Conversation/Slots: src/domain/conversation/slot_filling.py, `SlotFiller`.
--   Context/SlidingWindow, Context/Windows: src/domain/context_management, sliding_window.py and
--     window_manager.py.
--   Streaming/Backpressure: src/streaming/backpressure.py, `BackpressureController`.
--   Agents/Safety: src/agents/safety.py, `SafetyGuard`.
--   Agents/Heartbeat, Agents/Deadlock: src/agents/communication, heartbeat.py and deadlock.py.
--   Memory/ShortTerm: src/memory/short_term.py, `ShortTermMemory`.
--   Rag/ExactCache: src/rag/caching/exact_cache.py, `ExactCache`.
--   Rag/Chunker: src/rag/chunking/fixed_size.py, with what it uses of base.py; Rag/Merging:
--     merge_small_chunks of base.py.
--   Tokens/Budget: src/domain/token_management/budget.py, `TokenBudget`.
--   Security/Rbac: src/security/rbac_manager.py, `RBACManager`.
--   Herms/Grayscale, Herms/TrafficTagger: src/herms, grayscale.py and traffic_tagger.py.
--   Mcp/Approval: src/mcp/approval.py, `ApprovalGate`.
-- Under each component, the child modules hold the proofs, named for what they prove, and Tests holds
-- runs at concrete inputs.
--
-- Conventions. A method is a function from the object and its arguments to the new object and the
-- result. The clock is an argument: a time is a natural number of the unit that the file names, and
-- hypotheses that times do not fall are written out. Fractions of floats are compared by multiplying
-- out, and a token bucket counts in units of 1/86400000 token, so that a refill for one millisecond
-- is exact. An exception is a value of the result type. Code outside the repository's own logic (the
-- call of a provider, a callback, an undo, a cleanup) is a parameter that steps a world. Loops are
-- recursion on the list or the range that the code walks over, and need no fuel: the retry loop on
-- the rounds left of `range(max_retries + 1)`, the wait for an approval on the rounds until its
-- deadline. Two run on fuel: the depth of the search for cycles, for which one more than the agents
-- that wait is enough, since a call deeper has visited one more of them; and the rounds of the loop
-- that splits a text into chunks, for which the length of the text is enough when chunks do not
-- overlap, since each has a character, and no number when they do.
--
-- Not modelled: logging, metrics and status dictionaries; the Redis path of the rate limiter and
-- the waiting loop over it; floating-point rounding; the HTTP API, provider adapters, the
-- other parts of agents, memory and retrieval, prompts and evaluation, which are other components.

pub mod Agents
pub mod Common
pub mod Context
pub mod Conversation
pub mod Gateway
pub mod Harness
pub mod Herms
pub mod Mcp
pub mod Memory
pub mod Rag
pub mod Resilience
pub mod Security
pub mod Streaming
pub mod Tokens
