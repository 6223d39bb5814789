-- ===== src/Llm/Router/Spared.antt =====
-- src/providers/llm/router.ts: turns after a provider has answered with a 429.
use asad.Base.{
  ℕ, ◌+◌, ◌≤◌, String, ◌≡◌, refl, subst, Bool, true, false, none, List, [], ◌∷◌, inl, inr, ◌⊎◌,
  Bool-cases, arith, All, All-append, is_some, ltb,
}
use asad.Llm.Providers.{ProviderId, same, same-to-equal}
use asad.Llm.Quota.{memory_of_429_ms}
use asad.Llm.Router.{LlmEnv, Router, eligibility, build_chain, sticky_of, key_of}
use asad.Llm.Router.Turns.{Turn, Walk, Sent, Label, provider, route}
use asad.Llm.Router.Complete.{Settled, called, called_recovery, finish, fail_over, complete, start}
use asad.Llm.Router.Keeps.{Keeps, asked, complete-keeps}
use asad.Llm.Router.Policy.{sent_by}
use asad.Llm.Router.Limited.{
  RemembersOf, eligibility-RemembersOf, eligibility-refuses, stick-limits, unstick-limits,
  front-RemembersOf,
}

-- Whether a request goes to the provider.
abbrev pub is_to : ProviderId → Label → Bool
is_to id (provider j) = same j id
is_to id (route name) = false

-- A request that goes elsewhere, or not before five minutes after the time.
abbrev pub Spared : ℕ → ProviderId → Sent → Type 0
Spared t id s = (is_to id s.to ≡ false) ⊎ (t + memory_of_429_ms ≤ s.at)

pub record IsSpared (t : ℕ) (id : ProviderId) (w : Walk) : Type 0 where
  pub sent : All (Spared t id) w.sent
  pub state : RemembersOf t id w.router ⊎ (t + memory_of_429_ms ≤ w.now)

pub units : (ids : List ProviderId) → All (λ other. Unit {0}) ids
units [] = tt
units (x ∷ ids) = (tt, units ids)

module _ (looks_like_network : String → Bool) (env : LlmEnv) (turn : Turn) (t : ℕ)
    (id : ProviderId) where
  asks-IsSpared :
      (w : Walk) (other : ProviderId)
      → IsSpared t id w
      → IsSpared t id (asked looks_like_network env turn w other)
  asks-IsSpared w other i = record {
    sent = i.sent;
    state = elim i.state [
      | inr l ↦ inr l
      | inl h ↦ elim (Bool-cases (ltb w.now (t + memory_of_429_ms))) [
        | inl e ↦ inl (eligibility-RemembersOf env t id w.router other w.now (ground arith) h)
        | inr e ↦ inr (ground arith)
      ]
    ];
  }

  -- An eligible provider is another one, or the five minutes are over.
  pub eligible-Spared :
      (w : Walk) (other : ProviderId) (budget : ℕ)
      → (eligibility env w.router other w.now).0 ≡ none
      → RemembersOf t id w.router ⊎ (t + memory_of_429_ms ≤ w.now)
      → Spared t id (record { to = provider other; at = w.now; budget = budget })
  eligible-Spared w other budget e i = elim i [
    | inr l ↦ inr l
    | inl h ↦ elim (Bool-cases (same other id)) [
      | inr n ↦ inl n
      | inl q ↦ elim (Bool-cases (ltb w.now (t + memory_of_429_ms))) [
        | inr l ↦ inr (ground arith)
        | inl l ↦
            let refused = eligibility-refuses env t id w.router w.now (ground arith) h in
            let none_left : (eligibility env w.router id w.now).0 ≡ none =
              subst (λ x. (eligibility env w.router x w.now).0 ≡ none) (same-to-equal other id q)
                e in
            let absurd : false ≡ true = subst (λ o. is_some o ≡ true) none_left refused in cc
      ]
    ]
  ]

  calls-IsSpared :
      (w : Walk) (other : ProviderId) (budget : ℕ) (s : Settled)
      → (eligibility env w.router other w.now).0 ≡ none
      → IsSpared t id w
      → IsSpared t id (
          called looks_like_network env turn
            (asked looks_like_network env turn w other)
            other
            budget
            s)
  unfolding called
  calls-IsSpared w other budget s e i =
      let spared = eligible-Spared w other budget e i.state in
      let h = asks-IsSpared w other i in
      record {
        sent = All-append (Spared t id) w.sent _ h.sent (spared, tt);
        state = elim spared [
          | inr l ↦ inr (omega arith)
          | inl n ↦ elim h.state [ inr l ↦ inr (omega arith) | inl k ↦ inl (rw (n) k) ]
        ];
      }

  IsSpared-Keeps : Keeps looks_like_network env turn (λ other. Unit) (IsSpared t id)
  unfolding finish fail_over called_recovery
  IsSpared-Keeps = record {
    notes = λ w a i. record { sent = i.sent; state = i.state };
    asks = λ w other p i. asks-IsSpared w other i;
    calls = λ w other budget s p e b x i. calls-IsSpared w other budget s e i;
    finishes = λ w other response p i. record {
      sent = i.sent;
      state = elim i.state [ inl h ↦ inl (rw (stick-limits) h) | inr l ↦ inr l ];
    };
    fails = λ w other e started i. record {
      sent = i.sent;
      state = elim i.state [ inl h ↦ inl (rw (unstick-limits) h) | inr l ↦ inr l ];
    };
    recovers = λ w r budget b i. record {
      sent = All-append (Spared t id) w.sent _ i.sent (inl refl, tt);
      state = elim i.state [ inl h ↦ inl h | inr l ↦ inr (omega arith) ];
    };
    waits = λ w took i. record {
      sent = i.sent;
      state = elim i.state [ inl h ↦ inl h | inr l ↦ inr (omega arith) ];
    };
  }

  front-IsSpared :
      (r : Router)
      → RemembersOf t id r
      → IsSpared t id (
          start looks_like_network env turn
            (build_chain env r turn.options.prefer turn.options.routing_key turn.started_at).1)
  unfolding start build_chain
  front-IsSpared r h = record {
    sent = tt;
    state =
        front-RemembersOf env t id r turn.options.prefer
          (sticky_of r (key_of turn.options.routing_key)) turn.started_at h;
  }

  start-IsSpared :
      (r : Router)
      → RemembersOf t id r ⊎ (t + memory_of_429_ms ≤ turn.started_at)
      → IsSpared t id (
          start looks_like_network env turn
            (build_chain env r turn.options.prefer turn.options.routing_key turn.started_at).1)
  unfolding start
  start-IsSpared r (inl h) = front-IsSpared r h
  start-IsSpared r (inr l) = record { sent = tt; state = inr l }

  complete-IsSpared :
      (r : Router)
      → RemembersOf t id r ⊎ (t + memory_of_429_ms ≤ turn.started_at)
      → IsSpared t id (complete looks_like_network env turn r).0
  complete-IsSpared r h =
      complete-keeps looks_like_network env turn IsSpared-Keeps r (units _) (start-IsSpared r h)

module _ (looks_like_network : String → Bool) (env : LlmEnv) where
  -- Every turn starts when the one before has ended.
  abbrev pub Follows : Router → ℕ → List Turn → Type 0
  Follows r now [] = Unit
  Follows r now (turn ∷ turns) =
      let w = (complete looks_like_network env turn r).0 in
      (now ≤ turn.started_at) × Follows w.router w.now turns

module _ (looks_like_network : String → Bool) (env : LlmEnv) (t : ℕ) (id : ProviderId) where
  pub Follows-Spared :
      (r : Router) (now : ℕ) (turns : List Turn)
      → RemembersOf t id r ⊎ (t + memory_of_429_ms ≤ now)
      → Follows looks_like_network env r now turns
      → All (Spared t id) (sent_by looks_like_network env r turns)
  unfolding sent_by
  Follows-Spared r now [] h f = tt
  Follows-Spared r now (turn ∷ turns) h f =
      let w = (complete looks_like_network env turn r).0 in
      let started : RemembersOf t id r ⊎ (t + memory_of_429_ms ≤ turn.started_at) = elim h [
        | inl k ↦ inl k
        | inr l ↦ inr (omega (arith, f.0))
      ] in
      let i = complete-IsSpared looks_like_network env turn t id r started in
      All-append (Spared t id) w.sent (sent_by looks_like_network env w.router turns) i.sent
        (Follows-Spared w.router w.now turns i.state f.1)

  -- While a router remembers that a provider answered with a 429 at some time, no sequence of turns
  -- sends that provider anything before five minutes after that time.
  pub remembered-Spared :
      (r : Router) (now : ℕ) (turns : List Turn)
      → RemembersOf t id r
      → Follows looks_like_network env r now turns
      → All (Spared t id) (sent_by looks_like_network env r turns)
  remembered-Spared r now turns h f = Follows-Spared r now turns (inl h) f
