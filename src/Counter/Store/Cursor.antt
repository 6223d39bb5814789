-- ===== src/Counter/Store/Cursor.antt =====
-- src/counter/store.ts and src/counter/types.ts: what polling with the cursor of the last view
-- delivers, and what a visitor never gets.
use asad.Base.{
  ℕ, zero, suc, ◌+◌, ◌-◌, ◌≤◌, ◌<◌, ◌≡◌, refl, sym, ap, ◌∙◌, inl, inr, none, List, [], ◌∷◌, ◌++◌,
  map, append-nil, append_assoc, arith, All, length, length-append, length-drop, keep, keep-append,
  drop, ltb, Bool-cases,
}
use asad.Counter.Types.{
  Participant, guest, Draft, CounterMessage, CounterSession, to_participant_message, to_view,
}
use asad.Counter.Store.{append_message, bound_messages, max_messages}

-- Messages with rising numbers from `lo` on, below `hi`.
abbrev pub Rising : ℕ → ℕ → List CounterMessage → Type 0
Rising lo hi [] = lo ≤ hi
Rising lo hi (m ∷ ms) = (lo ≤ m.seq) × Rising (m.seq + 1) hi ms

pub record IsSound (s : CounterSession) : Type 0 where
  pub rising : Rising 1 s.next_seq s.messages
  pub bounded : length s.messages ≤ max_messages

pub append_all : CounterSession → List Draft → CounterSession
append_all s [] = s
append_all s (d ∷ ds) = append_all (append_message s d) ds

-- The messages that a list of drafts becomes.
unfoldable pub numbered : ℕ → List Draft → List CounterMessage
numbered seq [] = []
numbered seq (d ∷ ds) = record { draft = d; seq = seq } ∷ numbered (seq + 1) ds

append_all-messages :
    (s : CounterSession) (ds : List Draft)
    → ((append_all s ds).messages ≡ s.messages ++ numbered s.next_seq ds)
      × ((append_all s ds).next_seq ≡ s.next_seq + length ds)
unfolding append_all append_message numbered
append_all-messages s [] = (sym (append-nil s.messages), omega arith)
append_all-messages s (d ∷ ds) =
    let (ms, n) = append_all-messages (append_message s d) ds in
    (
      ms
          ∙ append_assoc s.messages (record { draft = d; seq = s.next_seq } ∷ [])
              (numbered (s.next_seq + 1) ds),
      omega arith,
    )

Rising-weaken :
    (lower lo hi : ℕ) (ms : List CounterMessage) → lower ≤ lo → Rising lo hi ms → Rising lower hi ms
Rising-weaken lower lo hi [] h r = omega arith
Rising-weaken lower lo hi (m ∷ ms) h r = (omega arith, r.1)

Rising-append :
    (lo mid hi : ℕ) (ms ns : List CounterMessage)
    → Rising lo mid ms
    → Rising mid hi ns
    → Rising lo hi (ms ++ ns)
Rising-append lo mid hi [] ns r q = Rising-weaken lo mid hi ns r q
Rising-append lo mid hi (m ∷ ms) ns r q = (r.0, Rising-append (m.seq + 1) mid hi ms ns r.1 q)

Rising-drop : (n lo hi : ℕ) (ms : List CounterMessage) → Rising lo hi ms → Rising lo hi (drop n ms)
Rising-drop zero lo hi ms r = r
Rising-drop (suc n) lo hi [] r = r
Rising-drop (suc n) lo hi (m ∷ ms) r =
    Rising-weaken lo (m.seq + 1) hi (drop n ms) (omega arith) (Rising-drop n (m.seq + 1) hi ms r.1)

numbered-Rising : (seq : ℕ) (ds : List Draft) → Rising seq (seq + length ds) (numbered seq ds)
unfolding numbered
numbered-Rising seq [] = omega arith
numbered-Rising seq (d ∷ ds) =
    let e : seq + 1 + length ds ≡ seq + suc (length ds) = omega arith in
    (omega arith, rw (← e) (numbered-Rising (seq + 1) ds))

-- Appending messages and bounding the session keeps the numbers rising and the session small.
pub bound_messages-IsSound :
    (s : CounterSession) (ds : List Draft) → IsSound s → IsSound (bound_messages (append_all s ds))
unfolding bound_messages
bound_messages-IsSound s ds v =
    let (ms, n) = append_all-messages s ds in
    let t = append_all s ds in
    let whole : Rising 1 t.next_seq t.messages =
      rw (ms, n)
        (Rising-append 1 s.next_seq (s.next_seq + length ds) s.messages (numbered s.next_seq ds)
          v.rising (numbered-Rising s.next_seq ds)) in
    record {
      rising = ground (
        arith,
        whole,
        Rising-drop (length t.messages - max_messages) 1 t.next_seq t.messages whole,
      );
      bounded = ground (arith, length-drop (length t.messages - max_messages) t.messages);
    }

Rising-le : (lo hi : ℕ) (ms : List CounterMessage) → Rising lo hi ms → lo ≤ hi
Rising-le lo hi [] r = r
Rising-le lo hi (m ∷ ms) r = omega (arith, Rising-le (m.seq + 1) hi ms r.1)

keep-old :
    (since lo hi : ℕ) (ms : List CounterMessage)
    → hi ≤ since + 1
    → Rising lo hi ms
    → keep (λ m. ltb since m.seq) ms ≡ []
keep-old since lo hi [] h r = refl
keep-old since lo hi (m ∷ ms) h r =
    ground (arith, keep-old since (m.seq + 1) hi ms h r.1, Rising-le (m.seq + 1) hi ms r.1)

keep-new :
    (since lo hi : ℕ) (ms : List CounterMessage)
    → since < lo
    → Rising lo hi ms
    → keep (λ m. ltb since m.seq) ms ≡ ms
keep-new since lo hi [] h r = refl
keep-new since lo hi (m ∷ ms) h r =
    ground (arith, keep-new since (m.seq + 1) hi ms (omega arith) r.1)

drop-append :
    (n : ℕ) (ms ns : List CounterMessage) → drop n (ms ++ ns) ≡ drop n ms ++ drop (n - length ms) ns
drop-append zero ms ns = let e : 0 - length ms ≡ 0 = omega arith in rw e refl
drop-append (suc n) [] ns = let e : suc n - 0 ≡ suc n = omega arith in rw e refl
drop-append (suc n) (m ∷ ms) ns =
    let e : suc n - suc (length ms) ≡ n - length ms = omega arith in rw e (drop-append n ms ns)

length-numbered : (seq : ℕ) (ds : List Draft) → length (numbered seq ds) ≡ length ds
unfolding numbered
length-numbered seq [] = refl
length-numbered seq (d ∷ ds) = omega (arith, length-numbered (seq + 1) ds)

bound_messages-drop :
    (s : CounterSession)
    → (bound_messages s).messages ≡ drop (length s.messages - max_messages) s.messages
unfolding bound_messages
bound_messages-drop s = elim (Bool-cases (ltb max_messages (length s.messages))) [
  | inl e ↦ rw e refl
  | inr e ↦ let z : length s.messages - max_messages ≡ 0 = ground arith in rw (e, z) refl
]

-- A participant that polls with the cursor of the view before gets exactly the messages appended
-- since, in order and numbered on, as that participant may see them: all of them, or the last five
-- hundred if there are more.
pub poll_whole :
    (s : CounterSession) (ds : List Draft) (since : ℕ) (viewer : Participant)
    → IsSound s
    → (to_view (bound_messages (append_all s ds)) (to_view s since viewer).seq viewer).messages
      ≡ map
          (to_participant_message viewer)
          (drop (length ds - max_messages) (numbered s.next_seq ds))
unfolding to_view
poll_whole s ds since viewer v =
    let f = λ (m : CounterMessage). ltb (s.next_seq - 1) m.seq in
    let (ms, n) = append_all-messages s ds in
    let t = append_all s ds in
    let new = numbered s.next_seq ds in
    let k : ℕ = length t.messages - max_messages in
    let size : length t.messages ≡ length s.messages + length ds =
      rw ms (omega (arith, length-append s.messages new, length-numbered s.next_seq ds)) in
    let j : k - length s.messages ≡ length ds - max_messages = omega (arith, v.bounded) in
    let split : drop k t.messages ≡ drop k s.messages ++ drop (length ds - max_messages) new =
      ap (drop k) ms ∙ drop-append k s.messages new ∙ ap (λ x. drop k s.messages ++ drop x new) j in
    let positive = Rising-le 1 s.next_seq s.messages v.rising in
    let old =
      keep-old (s.next_seq - 1) 1 s.next_seq (drop k s.messages) (omega arith)
        (Rising-drop k 1 s.next_seq s.messages v.rising) in
    let young =
      keep-new (s.next_seq - 1) s.next_seq (s.next_seq + length ds)
        (drop (length ds - max_messages) new) (omega arith)
        (Rising-drop (length ds - max_messages) s.next_seq (s.next_seq + length ds) new
          (numbered-Rising s.next_seq ds)) in
    let kept : keep f (bound_messages t).messages ≡ drop (length ds - max_messages) new =
      ap (keep f) (bound_messages-drop t ∙ split)
      ∙ keep-append f (drop k s.messages) (drop (length ds - max_messages) new)
      ∙ rw (old, young) refl in
    ap (map (to_participant_message viewer)) kept

private-All :
    (ms : List CounterMessage)
    → All (λ m. m.review_flags ≡ none) (map (to_participant_message guest) ms)
unfolding to_participant_message
private-All [] = tt
private-All (m ∷ ms) = (refl, private-All ms)

-- What a visitor sees carries no flag for human review, from whatever cursor.
pub to_view-private :
    (s : CounterSession) (since : ℕ)
    → All (λ m. m.review_flags ≡ none) (to_view s since guest).messages
unfolding to_view
to_view-private s since = private-All (keep (λ m. ltb since m.seq) s.messages)
