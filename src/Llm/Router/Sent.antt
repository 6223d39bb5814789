-- ===== src/Llm/Router/Sent.antt =====
-- src/providers/llm/router.ts: what a turn sends, to whom and with how much time.
use asad.Base.{
  ℕ, ◌+◌, ◌-◌, ◌≤◌, min, String, ◌≡◌, Bool, Option, none, some, List, [], ◌∷◌, ◌++◌, arith, All,
  All-append,
}
use asad.Llm.Router.{LlmEnv, Router}
use asad.Llm.Router.Turns.{
  Label, provider, route, Options, Turn, Walk, Sent, budget_for, min_attempt, budget_in,
}
use asad.Llm.Router.Complete.{finish, fail_over, called, called_recovery, start, complete}
use asad.Llm.Router.Keeps.{Keeps, complete-keeps}
use asad.Llm.Router.Sticky.{IsSticky, stick-IsSticky, unstick-IsSticky, eligibility-sticky}
use asad.Llm.Router.Chain.{IsCandidate, build_chain-IsCandidate, build_chain-sticky}

-- The budget of a request that is sent so long after the start of the turn.
abbrev Within : Options → Option ℕ → ℕ → ℕ → Type 0
Within o none elapsed budget = Unit {0}
Within o (some d) elapsed budget =
    (elapsed + budget ≤ d) × (min o.deadline_ms (min_attempt o) ≤ budget)

abbrev pub InBudget : Options → ℕ → ℕ → Type 0
InBudget o elapsed budget = (budget ≤ o.deadline_ms) × Within o o.turn_deadline_ms elapsed budget

budget_in-InBudget :
    (o : Options) (t : Option ℕ) (elapsed budget : ℕ)
    → budget_in o t elapsed ≡ some budget
    → (budget ≤ o.deadline_ms) × Within o t elapsed budget
budget_in-InBudget o none elapsed budget e = ground arith
budget_in-InBudget o (some d) elapsed budget e = ground arith

-- A request of a turn goes to a candidate or to the recovery route, while the turn lasts.
abbrev pub ReachesCandidate : LlmEnv → Label → Type 0
ReachesCandidate env (provider id) = IsCandidate env id
ReachesCandidate env (route name) = Unit

pub record IsProper (env : LlmEnv) (turn : Turn) (s : Sent) : Type 0 where
  pub destination : ReachesCandidate env s.to
  pub in_time : InBudget turn.options (s.at - turn.started_at) s.budget

-- Where a turn may stand.
pub record IsTurn (env : LlmEnv) (turn : Turn) (w : Walk) : Type 0 where
  pub sent : All (IsProper env turn) w.sent
  pub sticky : IsSticky (IsCandidate env) w.router.sticky

module _ (looks_like_network : String → Bool) (env : LlmEnv) (turn : Turn) where
  sent-IsProper :
      (sent : List Sent) (who : Label) (now budget : ℕ)
      → ReachesCandidate env who
      → budget_for turn.options (now - turn.started_at) ≡ some budget
      → All (IsProper env turn) sent
      → All (IsProper env turn) (sent ++ (record { to = who; at = now; budget = budget } ∷ []))
  unfolding budget_for
  sent-IsProper sent who now budget c b h = All-append (IsProper env turn) sent _ h (
    record {
      destination = c;
      in_time =
          budget_in-InBudget turn.options turn.options.turn_deadline_ms (now - turn.started_at)
            budget b;
    },
    tt,
  )

  IsTurn-Keeps : Keeps looks_like_network env turn (IsCandidate env) (IsTurn env turn)
  unfolding called finish fail_over called_recovery
  IsTurn-Keeps = record {
    notes = λ w a i. record { sent = i.sent; sticky = i.sticky };
    asks = λ w id p i. record {
      sent = i.sent;
      sticky = rw (eligibility-sticky env w.router id w.now) i.sticky;
    };
    calls = λ w id budget s p e b x i. record {
      sent = sent-IsProper w.sent (provider id) w.now budget p b i.sent;
      sticky = rw (eligibility-sticky env w.router id w.now) i.sticky;
    };
    finishes = λ w id response p i. record {
      sent = i.sent;
      sticky = stick-IsSticky (IsCandidate env) _ id _ p i.sticky;
    };
    fails = λ w id e started i. record {
      sent = i.sent;
      sticky = unstick-IsSticky (IsCandidate env) _ id _ i.sticky;
    };
    recovers = λ w r budget b i. record {
      sent = sent-IsProper w.sent (route r.id) w.now budget tt b i.sent;
      sticky = i.sticky;
    };
    waits = λ w took i. record { sent = i.sent; sticky = i.sticky };
  }

  -- A turn sends only to candidates and to its recovery route, each request in time.
  pub complete-IsTurn :
      (r : Router)
      → IsSticky (IsCandidate env) r.sticky
      → IsTurn env turn (complete looks_like_network env turn r).0
  unfolding start
  complete-IsTurn r s =
      complete-keeps looks_like_network env turn IsTurn-Keeps r
        (build_chain-IsCandidate env r turn.options.prefer turn.options.routing_key turn.started_at
          s)
        (record {
          sent = tt;
          sticky =
              rw
                (build_chain-sticky env r turn.options.prefer turn.options.routing_key
                  turn.started_at)
                s;
        })

  in_time-All :
      (sent : List Sent)
      → All (IsProper env turn) sent
      → All (λ s. InBudget turn.options (s.at - turn.started_at) s.budget) sent
  in_time-All [] a = tt
  in_time-All (s ∷ sent) a = (a.0.in_time, in_time-All sent a.1)

  -- No request of a turn is given more than the deadline of a provider, nor longer than the deadline
  -- of the turn lasts, nor less than the smallest attempt that is worth starting.
  pub complete-in_time :
      (r : Router)
      → IsSticky (IsCandidate env) r.sticky
      → All
          (λ s. InBudget turn.options (s.at - turn.started_at) s.budget)
          (complete looks_like_network env turn r).0.sent
  complete-in_time r s =
      in_time-All (complete looks_like_network env turn r).0.sent (complete-IsTurn r s).sent
