-- ===== src/RemoteMic/Session/Validity.antt =====
-- src/remote-mic/session.ts: what every pairing record satisfies.
use asad.Base.{
  ℕ, ◌+◌, ◌≤◌, ◌≡◌, refl, true, false, Option, none, some, List, [], ◌∷◌, ◌++◌, arith, length,
  length-append, is_some,
}
use asad.RemoteMic.Protocol.{
  is_waiting, is_approved, is_ended, SignalDescription, CandidateItem, SignalCandidate,
  max_session_ms, max_candidates_per_role,
}
use asad.RemoteMic.Session.{Pairing}
use asad.RemoteMic.Session.Signal.{number_items}

-- Candidates of one generation whose sequence numbers rise from `lo` and stay below `hi`.
abbrev pub Numbered : ℕ → ℕ → ℕ → List SignalCandidate → Type 0
Numbered gen lo hi [] = lo ≤ hi
Numbered gen lo hi (c ∷ cs) = (lo ≤ c.seq) × (c.generation ≡ gen) × Numbered gen (c.seq + 1) hi cs

pub Numbered-mono :
    (gen lo hi more : ℕ) (cs : List SignalCandidate)
    → hi ≤ more
    → Numbered gen lo hi cs
    → Numbered gen lo more cs
Numbered-mono gen lo hi more [] h n = omega arith
Numbered-mono gen lo hi more (c ∷ cs) h n =
    (n.0, n.1, Numbered-mono gen (c.seq + 1) hi more cs h n.2)

pub Numbered-append :
    (gen lo mid hi : ℕ) (cs ds : List SignalCandidate)
    → Numbered gen lo mid cs
    → Numbered gen mid hi ds
    → Numbered gen lo hi (cs ++ ds)
Numbered-append gen lo mid hi [] [] n m = omega arith
Numbered-append gen lo mid hi [] (d ∷ ds) n m = (omega arith, m.1, m.2)
Numbered-append gen lo mid hi (c ∷ cs) ds n m =
    (n.0, n.1, Numbered-append gen (c.seq + 1) mid hi cs ds n.2 m)

pub number_items-Numbered :
    (gen seq hi : ℕ) (items : List CandidateItem)
    → seq + length items ≡ hi
    → Numbered gen seq hi (number_items gen seq items)
unfolding number_items
number_items-Numbered gen seq hi [] e = omega arith
number_items-Numbered gen seq hi (i ∷ items) e =
    (omega arith, refl, number_items-Numbered gen (seq + 1) hi items (omega arith))

pub length-number_items :
    (gen seq : ℕ) (items : List CandidateItem) → length (number_items gen seq items) ≡ length items
unfolding number_items
length-number_items gen seq [] = refl
length-number_items gen seq (i ∷ items) = omega (arith, length-number_items gen (seq + 1) items)

-- A description that is there belongs to the generation.
abbrev pub OfGeneration : ℕ → Option SignalDescription → Type 0
OfGeneration gen none = Unit
OfGeneration gen (some d) = d.generation ≡ gen

-- The candidates of one role: bounded, of the current generation, in the order of their numbers.
pub record IsListed (gen hi : ℕ) (cs : List SignalCandidate) : Type 0 where
  pub bounded : length cs ≤ max_candidates_per_role
  pub numbered : Numbered gen 1 hi cs

-- The parts of a record that hold a negotiation, none of them in use.
pub record IsQuiet (r : Pairing) : Type 0 where
  pub no_offer : r.offer ≡ none
  pub no_answer : r.answer ≡ none
  pub no_sent : r.candidates.of_sender ≡ []
  pub no_received : r.candidates.of_receiver ≡ []
  pub not_relayed : r.relay ≡ false

pub record IsValid (r : Pairing) : Type 0 where
  -- negotiation data and the relay belong to an approved pairing only
  pub quiet : is_approved r.state ≡ false → IsQuiet r
  -- the secret of the link is gone once it is used or the pairing is over
  pub single_use : is_waiting r.state ≡ false → r.pairing_secret_hash ≡ none
  -- until a phone has claimed there is neither a sender nor a code
  pub unclaimed : is_waiting r.state ≡ true → (r.sender_token_hash ≡ none) × (r.confirm_code ≡ none)
  -- a claimed or approved pairing has both
  pub has_sender :
      is_waiting r.state ≡ false
      → is_ended r.state ≡ false
      → (is_some r.sender_token_hash ≡ true) × (is_some r.confirm_code ≡ true)
  pub current_offer : OfGeneration r.generation r.offer
  pub current_answer : OfGeneration r.generation r.answer
  -- an answer has an offer
  pub answers : r.offer ≡ none → r.answer ≡ none
  pub from_sender : IsListed r.generation r.next_seq r.candidates.of_sender
  pub from_receiver : IsListed r.generation r.next_seq r.candidates.of_receiver
  pub numbered_from : 1 ≤ r.next_seq
  -- an approved pairing never outlives the ceiling
  pub within : is_approved r.state ≡ true → r.expires_at ≤ r.created_at + max_session_ms
  pub reasoned : is_some r.ended_reason ≡ is_ended r.state

pub nil-IsListed : (gen hi : ℕ) → 1 ≤ hi → IsListed gen hi []
nil-IsListed gen hi h = record { bounded = omega arith; numbered = h }

pub append-IsListed :
    (gen hi : ℕ) (cs : List SignalCandidate) (items : List CandidateItem)
    → IsListed gen hi cs
    → length cs + length items ≤ max_candidates_per_role
    → IsListed gen (hi + length items) (cs ++ number_items gen hi items)
append-IsListed gen hi cs items l h = record {
  bounded =
      omega (arith, length-append cs (number_items gen hi items), length-number_items gen hi items);
  numbered =
      Numbered-append gen 1 hi (hi + length items) cs (number_items gen hi items) l.numbered
        (number_items-Numbered gen hi (hi + length items) items refl);
}

pub mono-IsListed :
    (gen hi more : ℕ) (cs : List SignalCandidate)
    → hi ≤ more
    → IsListed gen hi cs
    → IsListed gen more cs
mono-IsListed gen hi more cs h l = record {
  bounded = l.bounded;
  numbered = Numbered-mono gen 1 hi more cs h l.numbered;
}
