-- ===== src/RemoteMic/Store/Lifetime.antt =====
-- src/remote-mic/store.ts: the memory store over any sequence of calls.
use asad.Base.{ℕ, String, inl, inr, Option, List, [], ◌∷◌, arith, All, Option-cases}
use asad.Base.Dict.{get, delete, Distinct, delete-Distinct, All-delete}
use asad.RemoteMic.Session.{Pairing}
use asad.RemoteMic.Routes.{Mutated}
use asad.RemoteMic.Store.{
  RelayId, PostedFrame, MemoryStore, sweep, create, find, update, remove, relay_append, relay_read,
  relay_clear,
}
use asad.RemoteMic.Store.Frames.{IsOrdered}
use asad.RemoteMic.Store.Access.{IsTidy, sweep-IsTidy, with_record-IsTidy, relay_append-IsTidy}

pub data Call : Type 0 where
  created : Pairing → ℕ → Call
  looked_up : String → ℕ → Call
  updated : String → (Pairing → Mutated (Unit {0})) → ℕ → Call
  removed cleared : String → Call
  wrote : String → String → List PostedFrame → ℕ → Call
  fetched : String → String → Option RelayId → ℕ → ℕ → Call

module _ (digest : String → String) where
  unfoldable pub after_call : MemoryStore → Call → MemoryStore
  after_call s (created r now) = (create s r now).1
  after_call s (looked_up id now) = (find s id now).1
  after_call s (updated id mutate now) = (update s id mutate now).1
  after_call s (removed id) = remove s id
  after_call s (cleared id) = relay_clear s id
  after_call s (wrote id token fs now) = (relay_append digest s id token fs now).1
  after_call s (fetched id token after count now) = (relay_read digest s id token after count now).2

  unfoldable pub after_calls : MemoryStore → List Call → MemoryStore
  after_calls s [] = s
  after_calls s (c ∷ cs) = after_calls (after_call s c) cs

  delete_relay-IsTidy :
      (s : MemoryStore) (id : String)
      → IsTidy s
      → All (λ e. IsOrdered e.1) (delete s.relays id) × Distinct (delete s.relays id)
  delete_relay-IsTidy s id t =
      (All-delete IsOrdered s.relays id t.ordered, delete-Distinct s.relays id t.each_relay)

  update-IsTidy :
      (s : MemoryStore) (id : String) (mutate : Pairing → Mutated (Unit {0})) (now : ℕ)
      → IsTidy s
      → IsTidy (update s id mutate now).1
  unfolding update
  update-IsTidy s id mutate now t =
      let swept = sweep-IsTidy now s t in
      elim (Option-cases (get (sweep s now).records id)) [
        | inl e ↦ rw (e, update) swept
        | inr (r, e) ↦
            rw (e, update)
              (ground (arith, swept, with_record-IsTidy (sweep s now) id (mutate r).draft swept))
      ]

  pub after_call-IsTidy : (s : MemoryStore) (c : Call) → IsTidy s → IsTidy (after_call s c)
  unfolding after_call
  after_call-IsTidy s (created r now) t =
      unfold create in
      let swept = sweep-IsTidy now s t in
      ground (arith, swept, with_record-IsTidy (sweep s now) r.id r swept)
  after_call-IsTidy s (looked_up id now) t = unfold find in sweep-IsTidy now s t
  after_call-IsTidy s (updated id mutate now) t = update-IsTidy s id mutate now t
  after_call-IsTidy s (removed id) t =
      unfold remove in
      let (a, d) = delete_relay-IsTidy s id t in
      record {
        ordered = a;
        each_record = delete-Distinct s.records id t.each_record;
        each_relay = d;
      }
  after_call-IsTidy s (cleared id) t =
      unfold relay_clear in
      let (a, d) = delete_relay-IsTidy s id t in
      record { ordered = a; each_record = t.each_record; each_relay = d }
  after_call-IsTidy s (wrote id token fs now) t = relay_append-IsTidy digest s id token fs now t
  after_call-IsTidy s (fetched id token after count now) t =
      unfold relay_read in ground (arith, sweep-IsTidy now s t)

  run-IsTidy : (s : MemoryStore) (cs : List Call) → IsTidy s → IsTidy (after_calls s cs)
  unfolding after_calls
  run-IsTidy s [] t = t
  run-IsTidy s (c ∷ cs) t = run-IsTidy (after_call s c) cs (after_call-IsTidy s c t)

  -- After any calls on an empty store, in any order and at any times, each relay holds at most
  -- forty frames with strictly rising ids, and no id stands twice among the pairings or the
  -- relays.
  pub after_calls-IsTidy :
      (cs : List Call) → IsTidy (after_calls (record { records = []; relays = [] }) cs)
  after_calls-IsTidy cs =
      run-IsTidy _ cs (record { ordered = tt; each_record = tt; each_relay = tt })
