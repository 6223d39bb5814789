-- ===== src/Llm/Router/Once.antt =====
-- src/providers/llm/router.ts: a turn asks each provider once at most, in the order of its chain.
use asad.Base.{
  ℕ, ◌-◌, String, ◌≡◌, refl, ap, subst, sym, ◌∙◌, Bool, true, false, not, Option, none, some, List,
  [], ◌∷◌, ◌++◌, inl, inr, Bool-cases, Option-cases, arith, is_some, keep, keep-append, All-keep,
  append-nil, append_assoc, All,
}
use asad.Llm.Providers.{ProviderId, local, same, same-to-equal}
use asad.Llm.Router.{
  LlmEnv, Router, eligibility, build_chain, is_cloud, holds, front, candidates, is_outside,
  sticky_of, key_of, ProviderFilter, matching, matches,
}
use asad.Llm.Router.Turns.{Turn, Walk, Sent, Label, provider, route, budget_for}
use asad.Llm.Router.Complete.{
  settle, visit, walk, ask, recover, call_recovery, called_recovery, floor, start, complete,
  name_of, finish, called, fail_over,
}
use asad.Llm.Router.Keeps.{asked, Settled-cases, Outcome-cases}
use asad.Llm.Router.Chain.{holds-All}
use asad.Llm.Router.Parts.{IsPart, done, took, IsPart-Once, nothing-IsPart, IsPart-append}
use asad.Llm.Router.Candidates.{Once, keep-Once, append-Once, holds-keep, candidates-Once}

-- The providers that requests went to, in order.
abbrev pub before : Label → List ProviderId → List ProviderId
before (provider id) rest = id ∷ rest
before (route name) rest = rest

abbrev pub providers_of : List Sent → List ProviderId
providers_of [] = []
providers_of (s ∷ sent) = before s.to (providers_of sent)

before-append : (l : Label) (xs ys : List ProviderId) → before l (xs ++ ys) ≡ before l xs ++ ys
before-append (provider id) xs ys = refl
before-append (route name) xs ys = refl

providers_of-append :
    (xs ys : List Sent) → providers_of (xs ++ ys) ≡ providers_of xs ++ providers_of ys
providers_of-append [] ys = refl
providers_of-append (s ∷ xs) ys =
    ap (before s.to) (providers_of-append xs ys)
    ∙ before-append s.to (providers_of xs) (providers_of ys)

-- What a walk has sent more than another went to a part of the list, in its order.
pub record Adds (w after : Walk) (ids : List ProviderId) : Type 0 where
  pub more : List ProviderId
  pub part : IsPart more ids
  pub sent : providers_of after.sent ≡ providers_of w.sent ++ more

nothing-Adds : (w after : Walk) (ids : List ProviderId) → after.sent ≡ w.sent → Adds w after ids
nothing-Adds w after ids e = record {
  more = [];
  part = nothing-IsPart ids;
  sent = ap providers_of e ∙ sym (append-nil (providers_of w.sent));
}

then-Adds :
    (w next after : Walk) (ids more_ids : List ProviderId)
    → Adds w next ids
    → Adds next after more_ids
    → Adds w after (ids ++ more_ids)
then-Adds w next after ids more_ids a b = record {
  more = a.more ++ b.more;
  part = IsPart-append a.part b.part;
  sent =
      b.sent ∙ (ap (λ xs. xs ++ b.more) a.sent ∙ append_assoc (providers_of w.sent) a.more b.more);
}

outside-holds :
    (id : ProviderId) (ahead ids : List ProviderId)
    → holds id ahead ≡ true
    → holds id (keep (is_outside ahead) ids) ≡ false
outside-holds id ahead [] h = refl
outside-holds id ahead (x ∷ xs) h = elim (Bool-cases (holds x ahead)) [
  | inl e ↦ rw (e) (outside-holds id ahead xs h)
  | inr e ↦ elim (Bool-cases (same id x)) [
    | inl q ↦ let p = subst (λ y. holds y ahead ≡ true) (same-to-equal id x q) h in cc
    | inr q ↦ rw (e, q) (outside-holds id ahead xs h)
  ]
]

-- What stands at the front does not stand in the rest.
rest-All :
    (ahead ids some_ahead : List ProviderId)
    → All (λ x. holds x ahead ≡ true) some_ahead
    → All (λ x. holds x (keep is_cloud (keep (is_outside ahead) ids)) ≡ false) some_ahead
rest-All ahead ids [] h = tt
rest-All ahead ids (x ∷ xs) h = (
  holds-keep is_cloud x (keep (is_outside ahead) ids) (outside-holds x ahead ids h.0),
  rest-All ahead ids xs h.1,
)

module _ (looks_like_network : String → Bool) (env : LlmEnv) (turn : Turn) where
  ask-sent :
      (w : Walk) (id : ProviderId) (budget : ℕ)
      → (ask looks_like_network env turn w id budget).0.sent
        ≡ w.sent ++ (record { to = provider id; at = w.now; budget = budget } ∷ [])
  unfolding ask finish fail_over called
  ask-sent w id budget =
      elim (Settled-cases
        (settle looks_like_network turn.options (name_of id) (turn.answers id).outcome)) [
          | inl (response, x) ↦ rw (x, ask) refl
          | inr (error, x) ↦ rw (x, ask) refl
        ]

  visit-Adds :
      (w : Walk) (id : ProviderId) → Adds w (visit looks_like_network env turn w id).0 (id ∷ [])
  unfolding visit
  visit-Adds w id = elim (Option-cases (eligibility env w.router id w.now).0) [
    | inr (why, e) ↦ rw (e, visit) (nothing-Adds w _ (id ∷ []) refl)
    | inl e ↦ elim (Bool-cases (not (is_some (env.providers id).api_key))) [
      | inl k ↦ rw (e, visit, k) (nothing-Adds w _ (id ∷ []) refl)
      | inr k ↦ elim (Option-cases (budget_for turn.options (w.now - turn.started_at))) [
        | inl b ↦ rw (e, visit, k, b) (nothing-Adds w _ (id ∷ []) refl)
        | inr (budget, b) ↦
            rw (e, visit, k, b)
              (record {
                more = id ∷ [];
                part = took id done;
                sent =
                    ap providers_of (ask-sent (asked looks_like_network env turn w id) id budget)
                    ∙ providers_of-append w.sent _;
              })
      ]
    ]
  ]

  walk-Adds :
      (w : Walk) (ids : List ProviderId) → Adds w (walk looks_like_network env turn w ids).0 ids
  unfolding walk
  walk-Adds w [] = nothing-Adds w w [] refl
  walk-Adds w (id ∷ ids) =
      let next = visit-Adds w id in
      let after = (visit looks_like_network env turn w id).0 in
      elim (Bool-cases (is_some (visit looks_like_network env turn w id).1)) [
        | inl e ↦
            rw (e, walk)
              (then-Adds w after after (id ∷ []) ids next (nothing-Adds after after ids refl))
        | inr e ↦
            rw (e, walk)
              (then-Adds w after (walk looks_like_network env turn after ids).0 (id ∷ []) ids next
                (walk-Adds after ids))
      ]

  recover-providers :
      (w : Walk) → providers_of (recover looks_like_network env turn w).0.sent ≡ providers_of w.sent
  unfolding recover call_recovery called_recovery
  recover-providers w = elim (Option-cases turn.options.recovery) [
    | inl e ↦ rw (e, recover) refl
    | inr (r, e) ↦ elim (Bool-cases (not r.available)) [
      | inl a ↦ rw (e, recover, a) refl
      | inr a ↦ elim (Option-cases (budget_for turn.options (w.now - turn.started_at))) [
        | inl b ↦ rw (e, recover, a, b) refl
        | inr (budget, b) ↦
            let routed =
              providers_of-append w.sent
                (record { to = route r.id; at = w.now; budget = budget } ∷ [])
              ∙ append-nil (providers_of w.sent) in
            elim (Settled-cases (settle looks_like_network turn.options r.id r.answer.outcome)) [
              | inl (response, x) ↦ rw (e, recover, a, b, x, call_recovery) routed
              | inr (error, x) ↦ rw (e, recover, a, b, x, call_recovery) routed
            ]
      ]
    ]
  ]

  floor-sent : (w : Walk) → (floor looks_like_network env turn w).0.sent ≡ w.sent
  unfolding floor
  floor-sent w = elim (Outcome-cases (turn.answers local).outcome) [
    | inl (response, x) ↦ rw (x, floor) refl
    | inr (error, x) ↦ rw (x, floor) refl
  ]

  abbrev chain_of : Router → List ProviderId
  chain_of r =
      keep is_cloud
        (build_chain env r turn.options.prefer turn.options.routing_key turn.started_at).0

  -- The providers that a turn sends requests to are a part of its chain, in its order.
  complete-IsPart :
      (r : Router)
      → IsPart (providers_of (complete looks_like_network env turn r).0.sent) (chain_of r)
  unfolding complete start
  complete-IsPart r =
      let (chain, first) =
        build_chain env r turn.options.prefer turn.options.routing_key turn.started_at in
      let w = start looks_like_network env turn first in
      let walked = walk looks_like_network env turn w (keep is_cloud chain) in
      let a = walk-Adds w (keep is_cloud chain) in
      let p : IsPart (providers_of walked.0.sent) (keep is_cloud chain) =
        subst (λ xs. IsPart xs (keep is_cloud chain)) (sym a.sent) a.part in
      let recovered = recover looks_like_network env turn walked.0 in
      let q : IsPart (providers_of recovered.0.sent) (keep is_cloud chain) =
        subst (λ xs. IsPart xs (keep is_cloud chain)) (sym (recover-providers walked.0)) p in
      elim (Option-cases walked.1) [
        | inr (c, e) ↦ rw (e, complete) p
        | inl e ↦ elim (Option-cases recovered.1) [
          | inr (c, d) ↦ rw (e, complete, d) q
          | inl d ↦ rw (e, complete, d, floor-sent recovered.0) q
        ]
      ]

  front-Once :
      (r : Router) (prefer : Option ProviderFilter) (s : Option ProviderId) (now : ℕ)
      → Once (front env r prefer s now).0
  unfolding front matching
  front-Once r (some prefer) s now =
      keep-Once (matches env prefer) (candidates env) (candidates-Once env).0
  front-Once r none none now = tt
  front-Once r none (some id) now = ground arith

  chain_of-Once : (r : Router) → Once (chain_of r)
  unfolding build_chain
  chain_of-Once r =
      let key = sticky_of r (key_of turn.options.routing_key) in
      let ahead = (front env r turn.options.prefer key turn.started_at).0 in
      let rest = keep (is_outside ahead) (candidates env) in
      let h = front-Once r turn.options.prefer key turn.started_at in
      rw (keep-append is_cloud ahead, keep-append is_cloud rest, append-nil)
        (append-Once env (keep is_cloud ahead) (keep is_cloud rest) (keep-Once is_cloud ahead h)
          (keep-Once is_cloud rest
            (keep-Once (is_outside ahead) (candidates env) (candidates-Once env).0))
          (All-keep (λ x. holds x (keep is_cloud rest) ≡ false) is_cloud ahead
            (rest-All ahead (candidates env) ahead (holds-All ahead))))

  -- A turn sends no provider more than one request.
  pub complete-Once :
      (r : Router) → Once (providers_of (complete looks_like_network env turn r).0.sent)
  complete-Once r = IsPart-Once (complete-IsPart r) (chain_of-Once r)
