-- ===== src/RemoteMic/Store/Polling.antt =====
-- src/remote-mic/store.ts and src/app/api/remote-mic/relay/route.ts: the writes and the reads of one
-- live relay, against a bounded queue.
use asad.Base.{
  ℕ, suc, ◌-◌, ◌≤◌, ◌≡◌, refl, sym, ap, ap₂, ◌∙◌, Option, none, some, inl, inr, Bool-cases, List,
  [], ◌∷◌, ◌++◌, map, arith, All-keep, length, take, drop, leb, keep-append, length-keep-le,
  map-take, map-drop, map-append, length-map,
}
use asad.RemoteMic.Store.{
  RelayId, RelayFrame, PostedFrame, Relay, is_after, is_newer, newer, next_cursor, push_frames,
  appended, new_relay,
}
use asad.RemoteMic.Store.Frames.{
  Ordered, Ordered-drop, IsOrdered, appended-IsOrdered, new_relay-IsOrdered, first_id, last_id,
  newer-all, newer-none, take-All, read_on, push_frames-Ordered,
}
use asad.RemoteMic.Store.Arrivals.{
  payload, arrived, arrived-payload, push_frames-arrived, arrived-Ordered, IsBehind,
  not-after_trans, Ordered-below, next_cursor-IsBehind, newer-behind,
}

-- What a relay goes through: a write at some time, and a read of so many frames by its one reader, who
-- goes on with the cursor of the last read.
pub data Event : Type 0 where
  written : ℕ → List PostedFrame → Event
  polled : ℕ → Event

-- The frames that the reader is given, one read after the other.
unfoldable pub heard : Relay → Option RelayId → List Event → List PostedFrame
heard relay cursor [] = []
heard relay cursor (written now fs ∷ events) = heard (appended relay now fs) cursor events
heard relay cursor (polled n ∷ events) =
    let got = take n (newer cursor relay.frames) in
    map payload got ++ heard relay (next_cursor cursor got) events

abbrev last_forty {ℓ} : {A : Type ℓ} → List A → List A
last_forty xs = drop (length xs - 40) xs

-- A queue that holds forty frames and loses the oldest.
unfoldable pub queued : List PostedFrame → List Event → List PostedFrame
queued queue [] = []
queued queue (written now fs ∷ events) = queued (last_forty (queue ++ fs)) events
queued queue (polled n ∷ events) = take n queue ++ queued (drop n queue) events

last_forty-short {ℓ} : {A : Type ℓ} → (xs : List A) → length xs ≤ 40 → last_forty xs ≡ xs
last_forty-short xs h = let none_old : length xs - 40 ≡ 0 = omega arith in rw none_old refl

last_forty-long {ℓ} :
    {A : Type ℓ} → (x : A) (xs : List A) → 40 ≤ length xs → last_forty (x ∷ xs) ≡ last_forty xs
last_forty-long x xs h =
    let one_more : length (x ∷ xs) - 40 ≡ suc (length xs - 40) = omega arith in rw one_more refl

map-last_forty : (fs : List RelayFrame) → map payload (last_forty fs) ≡ last_forty (map payload fs)
map-last_forty fs =
    map-drop payload (length fs - 40) fs
    ∙ ap (λ k. drop (k - 40) (map payload fs)) (sym (length-map payload fs))

-- Dropping the oldest frames first or last comes to the same.
newer-last_forty :
    (cursor : Option RelayId) (lo hi : RelayId) (fs : List RelayFrame)
    → Ordered lo fs hi
    → newer cursor (last_forty fs) ≡ last_forty (newer cursor fs)
newer-last_forty none lo hi fs o = newer-none (last_forty fs) ∙ ap last_forty (sym (newer-none fs))
newer-last_forty (some c) lo hi [] o = refl
newer-last_forty (some c) lo hi (f ∷ fs) o = elim (Bool-cases (leb (length fs) 39)) [
  | inl e ↦
      let short : length (f ∷ fs) ≤ 40 = ground arith in
      ap (newer (some c)) (last_forty-short (f ∷ fs) short)
      ∙ sym (
          last_forty-short (newer (some c) (f ∷ fs))
            (omega (arith, length-keep-le (is_newer (some c)) (f ∷ fs))))
  | inr e ↦
      let long : 40 ≤ length fs = ground arith in
      ap (newer (some c)) (last_forty-long f fs long) ∙ elim (Bool-cases (is_after f.id c)) [
        | inr old ↦ rw old (newer-last_forty (some c) f.id hi fs o.1)
        | inl new ↦
            let all = newer-all c f.id hi fs new o.1 in
            newer-all c f.id hi (last_forty fs) new (Ordered-drop (length fs - 40) f.id hi fs o.1)
            ∙ rw (new, all) (sym (last_forty-long f fs long))
      ]
]

-- What the relay, the cursor and the queue have in common.
record IsQueue (relay : Relay) (cursor : Option RelayId) (queue : List PostedFrame) : Type 0 where
  ordered : IsOrdered relay
  behind : IsBehind (last_id relay) cursor
  unread : map payload (newer cursor relay.frames) ≡ queue

pushed-IsBehind :
    (relay : Relay) (cursor : Option RelayId) (now : ℕ) (fs : List PostedFrame)
    → IsBehind (last_id relay) cursor
    → IsBehind (last_id (push_frames now relay fs)) cursor
pushed-IsBehind relay none now fs b = tt
pushed-IsBehind relay (some c) now fs b =
    not-after_trans c (last_id relay) (last_id (push_frames now relay fs)) b
      (Ordered-below (last_id relay) _ (arrived now relay fs) (arrived-Ordered now relay fs)).0

-- What a write adds to what the reader has not read.
appended-unread :
    (relay : Relay) (cursor : Option RelayId) (now : ℕ) (fs : List PostedFrame)
    → IsOrdered relay
    → IsBehind (last_id relay) cursor
    → map payload (newer cursor (appended relay now fs).frames)
      ≡ last_forty (map payload (newer cursor relay.frames) ++ fs)
unfolding appended
appended-unread relay cursor now fs o b =
    let pushed = push_frames now relay fs in
    let new = arrived now relay fs in
    let whole : newer cursor pushed.frames ≡ newer cursor relay.frames ++ new =
      ap (newer cursor) (push_frames-arrived now relay fs)
      ∙ keep-append (is_newer cursor) relay.frames new
      ∙ ap (◌++◌ (newer cursor relay.frames))
          (newer-behind cursor (last_id relay) _ new b (arrived-Ordered now relay fs)) in
    let posted : map payload (newer cursor pushed.frames)
        ≡ map payload (newer cursor relay.frames) ++ fs =
      ap (map payload) whole
      ∙ map-append payload (newer cursor relay.frames) new
      ∙ ap (◌++◌ (map payload (newer cursor relay.frames))) (arrived-payload now relay fs) in
    ap (map payload)
      (newer-last_forty cursor first_id _ pushed.frames (push_frames-Ordered now relay fs o.rising))
    ∙ map-last_forty (newer cursor pushed.frames)
    ∙ ap last_forty posted

appended-IsQueue :
    (relay : Relay) (cursor : Option RelayId) (queue : List PostedFrame) (now : ℕ)
    (fs : List PostedFrame)
    → IsQueue relay cursor queue
    → IsQueue (appended relay now fs) cursor (last_forty (queue ++ fs))
appended-IsQueue relay cursor queue now fs i = record {
  ordered = appended-IsOrdered relay now fs i.ordered;
  behind = unfold appended in pushed-IsBehind relay cursor now fs i.behind;
  unread =
      appended-unread relay cursor now fs i.ordered i.behind
      ∙ ap (λ q. last_forty (q ++ fs)) i.unread;
}

polled-IsQueue :
    (relay : Relay) (cursor : Option RelayId) (queue : List PostedFrame) (n : ℕ)
    → IsQueue relay cursor queue
    → IsQueue relay (next_cursor cursor (take n (newer cursor relay.frames))) (drop n queue)
polled-IsQueue relay cursor queue n i =
    let fs = relay.frames in
    let below = (Ordered-below first_id (last_id relay) fs i.ordered.rising).1 in
    record {
      ordered = i.ordered;
      behind =
          next_cursor-IsBehind (last_id relay) cursor _ i.behind
            (take-All _ n (newer cursor fs) (All-keep _ (is_newer cursor) fs below));
      unread =
          ap (map payload) (read_on cursor n first_id (last_id relay) fs i.ordered.rising)
          ∙ map-drop payload n (newer cursor fs)
          ∙ ap (drop n) i.unread;
    }

heard-queued :
    (relay : Relay) (cursor : Option RelayId) (queue : List PostedFrame) (events : List Event)
    → IsQueue relay cursor queue
    → heard relay cursor events ≡ queued queue events
unfolding heard queued
heard-queued relay cursor queue [] i = refl
heard-queued relay cursor queue (written now fs ∷ events) i =
    heard-queued (appended relay now fs) cursor (last_forty (queue ++ fs)) events
      (appended-IsQueue relay cursor queue now fs i)
heard-queued relay cursor queue (polled n ∷ events) i =
    ap₂ ◌++◌ (map-take payload n (newer cursor relay.frames) ∙ ap (take n) i.unread)
      (heard-queued relay _ (drop n queue) events (polled-IsQueue relay cursor queue n i))

-- From a new relay on, over any writes and reads of any sizes at any times, while the relay lives, the
-- reader that goes on with the cursor of its last read is given exactly what a queue of forty frames
-- would give it: every frame in order and once, but for the oldest unread ones beyond forty.
pub heard-IsQueue : (events : List Event) → heard new_relay none events ≡ queued [] events
heard-IsQueue events =
    heard-queued new_relay none [] events
      (record { ordered = new_relay-IsOrdered; behind = tt; unread = refl })
