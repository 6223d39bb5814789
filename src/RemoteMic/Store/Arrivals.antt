-- ===== src/RemoteMic/Store/Arrivals.antt =====
-- src/remote-mic/store.ts: the frames that a write adds to a relay, and cursors that are behind them.
use asad.Base.{
  ℕ, ◌≡◌, refl, sym, ap, ◌∙◌, true, false, Option, none, some, List, [], ◌∷◌, ◌++◌, map, arith, All,
  append-nil, append_assoc,
}
use asad.RemoteMic.Store.{
  RelayId, RelayFrame, PostedFrame, Relay, is_after, newer, next_cursor, push_frame, push_frames,
}
use asad.RemoteMic.Store.Frames.{Ordered, last_id, newer-all, newer-none, self-not-after}

abbrev pub payload : RelayFrame → PostedFrame
payload f = record { n = f.n; a = f.a }

-- The frames that a write adds.
unfoldable pub arrived : ℕ → Relay → List PostedFrame → List RelayFrame
arrived now relay [] = []
arrived now relay (f ∷ fs) =
    let pushed = push_frame now relay f in
    record { id = last_id pushed; n = f.n; a = f.a } ∷ arrived now pushed fs

pub arrived-payload :
    (now : ℕ) (relay : Relay) (fs : List PostedFrame) → map payload (arrived now relay fs) ≡ fs
unfolding arrived
arrived-payload now relay [] = refl
arrived-payload now relay (f ∷ fs) = ap (◌∷◌ f) (arrived-payload now (push_frame now relay f) fs)

pub push_frames-arrived :
    (now : ℕ) (relay : Relay) (fs : List PostedFrame)
    → (push_frames now relay fs).frames ≡ relay.frames ++ arrived now relay fs
unfolding push_frames arrived push_frame
push_frames-arrived now relay [] = sym (append-nil relay.frames)
push_frames-arrived now relay (f ∷ fs) =
    push_frames-arrived now (push_frame now relay f) fs
    ∙ append_assoc relay.frames _ (arrived now (push_frame now relay f) fs)

pub arrived-Ordered :
    (now : ℕ) (relay : Relay) (fs : List PostedFrame)
    → Ordered (last_id relay) (arrived now relay fs) (last_id (push_frames now relay fs))
unfolding push_frames arrived push_frame
arrived-Ordered now relay [] = self-not-after (last_id relay)
arrived-Ordered now relay (f ∷ fs) = (ground arith, arrived-Ordered now (push_frame now relay f) fs)

-- A cursor that is not ahead of an id.
abbrev pub IsBehind : RelayId → Option RelayId → Type 0
IsBehind hi none = Unit
IsBehind hi (some c) = is_after c hi ≡ false

pub not-after_trans :
    (a b c : RelayId) → is_after a b ≡ false → is_after b c ≡ false → is_after a c ≡ false
not-after_trans a b c p q = ground arith

pub Ordered-below :
    (lo hi : RelayId) (fs : List RelayFrame)
    → Ordered lo fs hi
    → (is_after lo hi ≡ false) × All (λ g. is_after g.id hi ≡ false) fs
Ordered-below lo hi [] o = (o, tt)
Ordered-below lo hi (f ∷ fs) o =
    let (low, rest) = Ordered-below f.id hi fs o.1 in (ground arith, (low, rest))

pub next_cursor-IsBehind :
    (hi : RelayId) (cursor : Option RelayId) (fs : List RelayFrame)
    → IsBehind hi cursor
    → All (λ g. is_after g.id hi ≡ false) fs
    → IsBehind hi (next_cursor cursor fs)
unfolding next_cursor
next_cursor-IsBehind hi cursor [] b a = b
next_cursor-IsBehind hi cursor (f ∷ fs) b a = next_cursor-IsBehind hi (some f.id) fs a.0 a.1

pub newer-behind :
    (cursor : Option RelayId) (lo hi : RelayId) (fs : List RelayFrame)
    → IsBehind lo cursor
    → Ordered lo fs hi
    → newer cursor fs ≡ fs
newer-behind none lo hi fs b o = newer-none fs
newer-behind (some c) lo hi [] b o = refl
newer-behind (some c) lo hi (f ∷ fs) b o =
    let first = o.0 in
    let later : is_after f.id c ≡ true = ground arith in
    rw later (ap (◌∷◌ f) (newer-all c f.id hi fs later o.1))
