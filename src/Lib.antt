-- ===== src/Lib.antt =====
-- ASAD: a verification library of the interpretation assistant.
--
-- The program listens to a Korean sermon and shows English chunks to an interpreter. Its parts, and
-- the files that model them:
--
-- Engine/Chunks: the store of English chunks of src/interpreter/engine/chunks.ts. `Engine/Chunks`
--   has the data and the operations of one lane, `Chunks/Turns` those of logical turns (provisional
--   chunks, refinement, late turns). `Chunks/Order`, `Ids`, `Draws` and `Locking` prove what one operation
--   keeps, and `Histories` runs any sequence of them. The counter of the ids is passed along, texts
--   are lists of UTF-16 units, and `toLowerCase` is an argument.
--
-- Engine/Turns: logical turns and the bounded unit that waits behind a slow contextual lane,
--   src/interpreter/engine/turns.ts.
--
-- Counter: two people at a desk, src/counter/types.ts and store.ts. `Types` has the data and the views,
--   `Store` the memory store; `Store/Cursor` is about polling, `Store/Sessions` about codes and
--   lifetimes. The codes that are drawn are an argument.
--
-- Llm/Breaker: the circuit breaker of a language-model provider, src/providers/llm/circuit-breaker.ts.
--   Every method takes the time. `Breaker/History` is about any sequence of calls, `Breaker/Opening`
--   about when it opens and for how long.
--
-- Llm/Providers, Errors, Quota: the table of providers with their data-use posture
--   (src/providers/llm/capabilities.ts and types.ts), the kinds of failure (errors.ts), and the
--   tracker of a provider's quota (rate-limit.ts), whose levels of pressure are exact fractions.
--   `Quota/Worst` is about the pressure, `Quota/Memory` about how long a 429 is remembered.
--
-- Llm/Router: the choice among providers of src/providers/llm/router.ts. `Router` has the candidates of
--   each mode, eligibility, the chain and stickiness, over one breaker and one tracker for each
--   provider; `Router/Turns` the data of a turn and `Router/Complete` one turn through the chain, the
--   recovery route and the local interpreter. What a provider answers, how long it takes and whether the
--   caller has aborted by then is an argument, and every call goes into a list with its budget, so
--   that theorems speak of what was sent. `Keeps` lifts what each step keeps to a whole turn, and the
--   modules beside it use it: `Candidates` and `Policy` (money and privacy), `Sticky` and `Affinity`,
--   `Sent` (budgets), `Limited`, `Spared` and `Learned` (429s), `Once`, `Answers`. Every call settles here:
--   the timer by which a deadline cuts one off is not modelled. Turns follow one another: what
--   two turns do to each other while both wait is not modelled. `Report` has what diagnostics read.
--
-- Qr: the encoder of join URLs of src/lib/qr.ts up to the codewords. `Encode` has the versions and the
--   bit buffer, `Field` the Reed-Solomon code, `Blocks` the interleaving; `Bits`, `RoundTrip`, `Deal`
--   and `Codewords` prove that a reader finds the text again, and `Fits` which version is picked.
--
-- Limits/Requests: the fixed-window limiter of src/lib/rate-limit.ts that the routes call. A map is
--   an association list in insertion order, as the eviction needs it.
--
-- Live/Transport: the supervisor of the recogniser's transport, src/features/live/
--   transport-supervisor.ts. Its asynchronous methods are cut where they wait: `Transport` has the
--   synchronous parts and what is pending, `Transport/Final` the events in any order, `Transport/Stale`
--   the calls that a fault overtakes.
--
-- Live/Lane: one turn of the contextual lane in the browser, src/features/live/cloud-lane.ts and
--   cloud-degradation.ts: retries, deadlines, the bypass after a 429, and the fallbacks. Replies what
--   aborts, and how late the timer of a sleep fires are an argument. `Llm/Deadlines` is src/providers/llm/deadlines.ts.
--
-- RemoteMic: a phone as the microphone of another computer, src/remote-mic and src/app/api/remote-mic.
--   `Protocol` has the limits and data of protocol.ts; `Session` and `Session/Signal` the pairing
--   state machine of session.ts, one function for each action; `Session/View` what a role sees;
--   `Routes` the mutations that the claim, signal and session routes hand to the store, which applies
--   each one atomically; `Routes/Histories` any sequence of requests; `Store` the memory store of
--   store.ts, with its relay of audio (`Store/Polling` sets the writes and reads of a live relay against
--   a bounded queue, `Store/Vanishing` is about its end); `Redis` the compare-and-set loop of the shared store beside
--   other writers, as explicit steps on one key that does not come back once it is gone (its id is
--   random), and the gate of its scripts; `Codec` and `Frames` the
--   µ-law codec and the frame accumulator of relay-codec.ts. A function that mutates its record
--   returns the record. The SHA-256 digest, the random tokens and the codes are arguments, and no
--   property needs more of the digest than that it is a function, but the equality of the two relay
--   gates, whose hashes are not empty and differ.
--
-- Base: names of the libraries, Boolean tests on native numbers, association lists, integers, texts.
--
-- Times are natural numbers of milliseconds, and a subtraction is written as the sum on the other
-- side of the comparison, so that it cannot stop at 0 where the source goes below it. One loop takes
-- fuel, `FrameAccumulator.push`: the number of samples is enough, since each round takes one at
-- least, and the theorem about it says that it returns. All other loops are structural recursion.
--
-- Not modelled: the user interface, the clients of language models, recognisers and Redis, prompts,
-- glossaries and the detection of scripture, which are texts, tables and regular expressions; the
-- adapters that send a request and the parsing of `Retry-After`; the matrix of a QR code; WebRTC
-- and Web Audio; the HTTP layer of the routes; floating point.
mod Base
pub mod Llm
pub mod Limits
pub mod Live
pub mod Counter
pub mod Engine
pub mod Qr
pub mod RemoteMic
