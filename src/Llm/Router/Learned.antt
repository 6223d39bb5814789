-- ===== src/Llm/Router/Learned.antt =====
-- src/providers/llm/router.ts: what a turn in which a provider answers with a 429 leaves to the turns
-- after it.
use asad.Base.{
  ℕ, ◌+◌, ◌≤◌, String, ◌≡◌, refl, subst, sym, ◌∙◌, Bool, true, false, none, List, [], ◌∷◌, ◌++◌,
  inl, inr, ◌⊎◌, Bool-cases, arith, All, All-append, ltb,
}
use asad.Llm.Errors.{LlmError}
use asad.Llm.Providers.{ProviderId, same, same-to-equal, same_refl}
use asad.Llm.Quota.{memory_of_429_ms}
use asad.Llm.Quota.Memory.{record_rate_limited-Remembers}
use asad.Llm.Router.{LlmEnv, Router, eligibility}
use asad.Llm.Router.Turns.{LlmResponse, Turn, Walk, Sent, provider, route}
use asad.Llm.Router.Complete.{
  Settled, refused, settle, name_of, is_limit_kind, learn, called, called_recovery, finish,
  fail_over, complete, start,
}
use asad.Llm.Router.Keeps.{Keeps, asked, complete-keeps}
use asad.Llm.Router.Policy.{sent_by}
use asad.Llm.Router.Limited.{RemembersOf, eligibility-RemembersOf, stick-limits, unstick-limits}
use asad.Llm.Router.Spared.{Spared, is_to, units, eligible-Spared, Follows, Follows-Spared}

module _ (looks_like_network : String → Bool) (env : LlmEnv) (turn : Turn) (id : ProviderId) where
  -- The provider's answer in the turn is a 429, or that its quota is exhausted.
  pub record IsRefusal : Type 0 where
    pub error : LlmError
    pub settles :
        settle looks_like_network turn.options (name_of id) (turn.answers id).outcome
        ≡ refused error
    pub limits : is_limit_kind error.kind ≡ true

  -- A 429 of the time is remembered, or its five minutes are over.
  Holds : Router → ℕ → ℕ → Type 0
  Holds r now t = RemembersOf t id r ⊎ (t + memory_of_429_ms ≤ now)

  -- The answer to a request of the provider is remembered for the time at which it came.
  IsLearned : Router → ℕ → Sent → Type 0
  IsLearned r now s = (is_to id s.to ≡ false) ⊎ Holds r now (s.at + (turn.answers id).took)

  All-IsLearned :
      (r q : Router) (now later : ℕ) (xs : List Sent)
      → ((t : ℕ) → Holds r now t → Holds q later t)
      → All (IsLearned r now) xs
      → All (IsLearned q later) xs
  unfolding IsLearned
  All-IsLearned r q now later [] step a = tt
  All-IsLearned r q now later (s ∷ xs) step a = (
    elim a.0 [ inl n ↦ inl n | inr h ↦ inr (step (s.at + (turn.answers id).took) h) ],
    All-IsLearned r q now later xs step a.1,
  )

  abbrev HasLearned : Walk → Type 0
  HasLearned w = All (IsLearned w.router w.now) w.sent

  abbrev sent_to : Walk → ProviderId → ℕ → Settled → Walk
  sent_to w other budget s =
      called looks_like_network env turn (asked looks_like_network env turn w other) other budget s

  asked-Holds :
      (w : Walk) (other : ProviderId) (t : ℕ)
      → Holds w.router w.now t
      → Holds (asked looks_like_network env turn w other).router w.now t
  unfolding Holds
  asked-Holds w other t (inr l) = inr l
  asked-Holds w other t (inl h) = elim (Bool-cases (ltb w.now (t + memory_of_429_ms))) [
    | inl e ↦ inl (eligibility-RemembersOf env t id w.router other w.now (ground arith) h)
    | inr e ↦ inr (ground arith)
  ]

  -- A request that may be sent goes to another provider, or after the five minutes of a 429.
  called-Holds :
      (w : Walk) (other : ProviderId) (budget : ℕ) (s : Settled) (t : ℕ)
      → (eligibility env w.router other w.now).0 ≡ none
      → Holds w.router w.now t
      → Holds (sent_to w other budget s).router (w.now + (turn.answers other).took) t
  unfolding Holds called
  called-Holds w other budget s t e h =
      elim (eligible-Spared looks_like_network env turn t id w other budget e h) [
        | inr l ↦ inr (omega arith)
        | inl n ↦ elim (asked-Holds w other t h) [
          | inr l ↦ inr (omega arith)
          | inl k ↦ inl (rw (n) k)
        ]
      ]

  wait-Holds : (w : Walk) (took t : ℕ) → Holds w.router w.now t → Holds w.router (w.now + took) t
  unfolding Holds
  wait-Holds w took t (inl h) = inl h
  wait-Holds w took t (inr l) = inr (omega arith)

  finish-Holds :
      (w : Walk) (other : ProviderId) (response : LlmResponse) (t : ℕ)
      → Holds w.router w.now t
      → Holds (finish looks_like_network env turn w other response).0.router w.now t
  unfolding Holds finish
  finish-Holds w other response t (inl h) = inl (rw (stick-limits) h)
  finish-Holds w other response t (inr l) = inr l

  fail_over-Holds :
      (w : Walk) (other : ProviderId) (e : LlmError) (started t : ℕ)
      → Holds w.router w.now t
      → Holds (fail_over looks_like_network env turn w other e started).router w.now t
  unfolding Holds fail_over
  fail_over-Holds w other e started t (inl h) = inl (rw (unstick-limits) h)
  fail_over-Holds w other e started t (inr l) = inr l

  route-IsLearned :
      (w : Walk) (name : String) (budget now : ℕ)
      → IsLearned w.router now (record { to = route name; at = w.now; budget = budget })
  unfolding IsLearned
  route-IsLearned w name budget now = inl refl

  own-Holds :
      (w : Walk) (budget : ℕ) (error : LlmError)
      → is_limit_kind error.kind ≡ true
      → Holds
          (called looks_like_network env turn w id budget (refused error)).router
          (w.now + (turn.answers id).took)
          (w.now + (turn.answers id).took)
  unfolding Holds called learn
  own-Holds w budget error l = inl (rw (same_refl id, l) (record_rate_limited-Remembers _ _))

  -- The answer of the provider itself is remembered.
  called-IsLearned :
      (w : Walk) (other : ProviderId) (budget : ℕ) (s : Settled)
      → IsRefusal
      → s ≡ settle looks_like_network turn.options (name_of other) (turn.answers other).outcome
      → IsLearned
          (called looks_like_network env turn w other budget s).router
          (w.now + (turn.answers other).took)
          (record { to = provider other; at = w.now; budget = budget })
  unfolding IsLearned
  called-IsLearned w other budget s refusal x = elim (Bool-cases (same other id)) [
    | inr n ↦ inl n
    | inl q ↦
        let here = same-to-equal other id q in
        let own : s ≡ refused refusal.error =
          subst
            (λ j. s ≡ settle looks_like_network turn.options (name_of j) (turn.answers j).outcome)
            here x
          ∙ refusal.settles in
        let held =
          subst
            (λ z.
              Holds (called looks_like_network env turn w id budget z).router
                (w.now + (turn.answers id).took) (w.now + (turn.answers id).took))
            (sym own) (own-Holds w budget refusal.error refusal.limits) in
        inr (
          subst
            (λ j.
              Holds (called looks_like_network env turn w j budget s).router
                (w.now + (turn.answers j).took) (w.now + (turn.answers id).took))
            (sym here) held)
  ]

  HasLearned-Keeps : IsRefusal → Keeps looks_like_network env turn (λ other. Unit) HasLearned
  unfolding finish fail_over called_recovery called
  HasLearned-Keeps refusal = record {
    notes = λ w a i. i;
    asks = λ w other p i. All-IsLearned _ _ w.now w.now w.sent (asked-Holds w other) i;
    calls = λ w other budget s p e b x i.
        let here = asked looks_like_network env turn w other in
        All-append (IsLearned (sent_to w other budget s).router (w.now + (turn.answers other).took))
          w.sent _
          (All-IsLearned _ _ w.now (w.now + (turn.answers other).took) w.sent
            (λ t h. called-Holds w other budget s t e h) i)
          (called-IsLearned here other budget s refusal x, tt);
    finishes = λ w other response p i.
        All-IsLearned _ _ w.now w.now w.sent (finish-Holds w other response) i;
    fails = λ w other e started i.
        All-IsLearned _ _ w.now w.now w.sent (fail_over-Holds w other e started) i;
    recovers = λ w r budget b i.
        All-append (IsLearned w.router (w.now + r.answer.took)) w.sent _
          (All-IsLearned _ _ w.now (w.now + r.answer.took) w.sent (wait-Holds w r.answer.took) i)
          (route-IsLearned w r.id budget (w.now + r.answer.took), tt);
    waits = λ w took i. All-IsLearned _ _ w.now (w.now + took) w.sent (wait-Holds w took) i;
  }

  complete-HasLearned :
      (r : Router) → IsRefusal → HasLearned (complete looks_like_network env turn r).0
  unfolding start
  complete-HasLearned r refusal =
      complete-keeps looks_like_network env turn (HasLearned-Keeps refusal) r (units _) tt

All-middle {ℓ κ} :
    {A : Type ℓ} (P : A → Type κ) (xs ys : List A) (y : A) → All P (xs ++ (y ∷ ys)) → P y
All-middle P [] ys y a = a.0
All-middle P (x ∷ xs) ys y a = All-middle P xs ys y a.1

-- Where a turn sends a request to a provider that answers it with a 429, or that its quota is
-- exhausted, no sequence of turns after it sends that provider anything before five minutes after
-- the answer.
pub limited-Spared :
    (looks_like_network : String → Bool) (env : LlmEnv) (turn : Turn) (id : ProviderId) (r : Router)
    (turns : List Turn) (earlier later : List Sent) (at budget : ℕ)
    → IsRefusal looks_like_network env turn id
    → (complete looks_like_network env turn r).0.sent
      ≡ earlier ++ (record { to = provider id; at = at; budget = budget } ∷ later)
    → Follows looks_like_network env
        (complete looks_like_network env turn r).0.router
        (complete looks_like_network env turn r).0.now
        turns
    → All
        (Spared (at + (turn.answers id).took) id)
        (sent_by looks_like_network env (complete looks_like_network env turn r).0.router turns)
unfolding IsLearned Holds
limited-Spared looks_like_network env turn id r turns earlier later at budget refusal e f =
    let w = (complete looks_like_network env turn r).0 in
    let s : Sent = record { to = provider id; at = at; budget = budget } in
    let t = at + (turn.answers id).took in
    let learned = complete-HasLearned looks_like_network env turn id r refusal in
    let own =
      All-middle (IsLearned looks_like_network env turn id w.router w.now) earlier later s
        (subst (All (IsLearned looks_like_network env turn id w.router w.now)) e learned) in
    elim own [
      | inr h ↦ Follows-Spared looks_like_network env t id w.router w.now turns h f
      | inl n ↦ absurd (ground (arith, same_refl id))
    ]
