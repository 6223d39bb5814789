-- ===== src/RemoteMic/Session/View.antt =====
-- src/remote-mic/session.ts: `viewFor`, what one role sees of a pairing, and what polling with its
-- cursor delivers.
use asad.Base.{
  ℕ, ◌+◌, ◌≤◌, ◌<◌, max, String, ◌≡◌, refl, Bool, ◌&&◌, ◌||◌, Option, none, List, [], ◌∷◌, ◌++◌,
  arith, ltb, ◌==◌, if◌then◌else◌, keep, keep-append, length, ◌∙◌,
}
use asad.RemoteMic.Protocol.{
  Role, receiver, sender, PairingState, is_claimed, is_approved, EndReason, SignalDescription,
  CandidateItem, SignalCandidate, PeerStatus, Transport, direct, relayed,
}
use asad.RemoteMic.Session.{Pairing, for_role, ok}
use asad.RemoteMic.Session.Signal.{number_items, on_candidates}
use asad.RemoteMic.Session.Validity.{Numbered, number_items-Numbered, IsValid}

pub record View : Type 0 where
  pub id : String
  pub role : Role
  pub state : PairingState
  pub expires_at : ℕ
  pub confirm_code : Option String
  pub generation : ℕ
  pub description : Option SignalDescription
  pub candidates : List SignalCandidate
  pub cursor : ℕ
  pub peer : Option PeerStatus
  pub ended_reason : Option EndReason
  pub transport : Transport

abbrev pub other : Role → Role
other receiver = sender
other sender = receiver

abbrev pub is_new : ℕ → ℕ → SignalCandidate → Bool
is_new gen since c = ltb since c.seq && (c.generation == gen)

-- the `reduce` for the cursor
abbrev pub cursor_from : ℕ → List SignalCandidate → ℕ
cursor_from since [] = since
cursor_from since (c ∷ cs) = cursor_from (max since c.seq) cs

unfoldable pub view_for : Pairing → Role → ℕ → View
view_for r role since =
    let found = keep (is_new r.generation since) (for_role r.candidates (other role)) in
    record {
      id = r.id;
      role = role;
      state = r.state;
      expires_at = r.expires_at;
      confirm_code = if is_claimed r.state || is_approved r.state then r.confirm_code else none;
      generation = r.generation;
      description = elim role [ receiver ↦ r.offer | sender ↦ r.answer ];
      candidates = found;
      cursor = cursor_from since found;
      peer = for_role r.status (other role);
      ended_reason = r.ended_reason;
      transport = if r.relay then relayed else direct;
    }

since-le-cursor : (since : ℕ) (cs : List SignalCandidate) → since ≤ cursor_from since cs
since-le-cursor since [] = omega arith
since-le-cursor since (c ∷ cs) = omega (arith, since-le-cursor (max since c.seq) cs)

-- Once a poll has its cursor, nothing that was there is new.
keep-none :
    (gen since start lo hi : ℕ) (cs : List SignalCandidate)
    → since ≤ start
    → Numbered gen lo hi cs
    → keep (is_new gen (cursor_from start (keep (is_new gen since) cs))) cs ≡ []
keep-none gen since start lo hi [] h n = refl
keep-none gen since start lo hi (c ∷ cs) h n = ground (
  arith,
  keep-none gen since (max start c.seq) (c.seq + 1) hi cs (omega arith) n.2,
  keep-none gen since start (c.seq + 1) hi cs h n.2,
  since-le-cursor (max start c.seq) (keep (is_new gen since) cs),
  since-le-cursor start (keep (is_new gen since) cs),
)

cursor-lt :
    (gen since start lo hi : ℕ) (cs : List SignalCandidate)
    → start < hi
    → Numbered gen lo hi cs
    → cursor_from start (keep (is_new gen since) cs) < hi
cursor-lt gen since start lo hi [] h n = h
cursor-lt gen since start lo hi (c ∷ cs) h n = ground (
  arith,
  Numbered-lt gen (c.seq + 1) hi cs n.2,
  cursor-lt gen since (max start c.seq) (c.seq + 1) hi cs,
  cursor-lt gen since start (c.seq + 1) hi cs h n.2,
)
  where
    Numbered-lt : (gen lo hi : ℕ) (cs : List SignalCandidate) → Numbered gen lo hi cs → lo ≤ hi
    Numbered-lt gen lo hi [] n = n
    Numbered-lt gen lo hi (c ∷ cs) n = omega (arith, Numbered-lt gen (c.seq + 1) hi cs n.2)

keep-all :
    (gen since lo hi : ℕ) (cs : List SignalCandidate)
    → since < lo
    → Numbered gen lo hi cs
    → keep (is_new gen since) cs ≡ cs
keep-all gen since lo hi [] h n = refl
keep-all gen since lo hi (c ∷ cs) h n =
    ground (arith, keep-all gen since (c.seq + 1) hi cs (omega arith) n.2)

abbrev listed :
    (r : Pairing)
    → IsValid r
    → (role : Role) → Numbered r.generation 1 r.next_seq (for_role r.candidates role)
listed r v receiver = v.from_receiver.numbered
listed r v sender = v.from_sender.numbered

-- The list of a role after `on_candidates` has accepted its items.
posted :
    (r : Pairing) (role : Role) (gen : ℕ) (items : List CandidateItem) (now : ℕ)
    → (on_candidates r role gen items now).0 ≡ ok tt
    → let q = (on_candidates r role gen items now).1 in
      (for_role q.candidates role
        ≡ for_role r.candidates role ++ number_items r.generation r.next_seq items)
      × (q.generation ≡ r.generation)
unfolding on_candidates
posted r receiver gen items now e = ground arith
posted r sender gen items now e = ground arith

-- Polling loses and repeats nothing. From a valid record, whatever cursor below the next sequence
-- number a role polls with, the cursor that it gets is below that number too and a second poll
-- with it finds no candidate; after the other role has posted more of the same generation, the
-- second poll finds exactly those, numbered in the order of the post.
pub poll_exact :
    (r : Pairing) (role : Role) (since gen : ℕ) (items : List CandidateItem) (now : ℕ)
    → IsValid r
    → since < r.next_seq
    → (on_candidates r (other role) gen items now).0 ≡ ok tt
    → let cursor = (view_for r role since).cursor in
      (cursor < r.next_seq)
      × ((view_for r role cursor).candidates ≡ [])
      × ((view_for (on_candidates r (other role) gen items now).1 role cursor).candidates
          ≡ number_items r.generation r.next_seq items)
unfolding view_for
poll_exact r role since gen items now v h e =
    let cs = for_role r.candidates (other role) in
    let found = keep (is_new r.generation since) cs in
    let n = listed r v (other role) in
    let below = cursor-lt r.generation since since 1 r.next_seq cs h n in
    let old = keep-none r.generation since since 1 r.next_seq cs (omega arith) n in
    let after = posted r (other role) gen items now e in
    let fresh =
      keep-all r.generation (cursor_from since found) r.next_seq (r.next_seq + length items)
        (number_items r.generation r.next_seq items) below
        (number_items-Numbered r.generation r.next_seq _ items refl) in
    (below, old, rw (after.0, after.1) (keep-append _ cs _ ∙ rw (old, fresh) refl))
