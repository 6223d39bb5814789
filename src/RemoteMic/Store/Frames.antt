-- ===== src/RemoteMic/Store/Frames.antt =====
-- src/remote-mic/store.ts: the order of relayed frames, and what reading with a cursor delivers.
use asad.Base.{
  ℕ, zero, suc, ◌-◌, ◌≤◌, ◌≡◌, refl, sym, ap, subst, true, false, Option, none, some, inl, inr,
  Bool-cases, List, [], ◌∷◌, ◌++◌, arith, All, length, take, drop, length-drop, drop-nil,
}
use asad.RemoteMic.Protocol.{relay_max_stored_frames}
use asad.RemoteMic.Store.{
  RelayId, RelayFrame, PostedFrame, Relay, is_after, is_newer, newer, next_cursor, push_frame,
  push_frames, appended, new_relay,
}

pub is_after_trans :
    (a b c : RelayId) → is_after a b ≡ true → is_after b c ≡ true → is_after a c ≡ true
is_after_trans a b c p q = ground arith

not-after : (x b g : RelayId) → is_after x b ≡ false → is_after g b ≡ true → is_after x g ≡ false
not-after x b g p q = ground arith

pub self-not-after : (x : RelayId) → is_after x x ≡ false
self-not-after x = ground arith

-- Frames whose ids rise strictly from `lo`, the last one not above `hi`.
abbrev pub Ordered : RelayId → List RelayFrame → RelayId → Type 0
Ordered lo [] hi = is_after lo hi ≡ false
Ordered lo (f ∷ fs) hi = (is_after f.id lo ≡ true) × Ordered f.id fs hi

Ordered-append :
    (lo hi : RelayId) (fs : List RelayFrame) (f : RelayFrame)
    → Ordered lo fs hi
    → is_after f.id hi ≡ true
    → Ordered lo (fs ++ f ∷ []) f.id
Ordered-append lo hi [] f o h = (ground arith, self-not-after f.id)
Ordered-append lo hi (g ∷ gs) f o h = (o.0, Ordered-append g.id hi gs f o.1 h)

Ordered-weaken :
    (lower lo hi : RelayId) (fs : List RelayFrame)
    → is_after lo lower ≡ true
    → Ordered lo fs hi
    → Ordered lower fs hi
Ordered-weaken lower lo hi [] h o = ground arith
Ordered-weaken lower lo hi (f ∷ fs) h o = (is_after_trans f.id lo lower o.0 h, o.1)

pub Ordered-drop :
    (n : ℕ) (lo hi : RelayId) (fs : List RelayFrame) → Ordered lo fs hi → Ordered lo (drop n fs) hi
Ordered-drop zero lo hi fs o = o
Ordered-drop (suc n) lo hi [] o = o
Ordered-drop (suc n) lo hi (f ∷ fs) o =
    Ordered-weaken lo f.id hi (drop n fs) o.0 (Ordered-drop n f.id hi fs o.1)

abbrev pub first_id : RelayId
first_id = record { ms = 0; seq = 0 }

abbrev pub last_id : Relay → RelayId
last_id relay = record { ms = relay.last; seq = relay.seq }

pub record IsOrdered (relay : Relay) : Type 0 where
  pub rising : Ordered first_id relay.frames (last_id relay)
  pub bounded : length relay.frames ≤ relay_max_stored_frames

pub push_frames-Ordered :
    (now : ℕ) (relay : Relay) (fs : List PostedFrame)
    → Ordered first_id relay.frames (last_id relay)
    → Ordered first_id (push_frames now relay fs).frames (last_id (push_frames now relay fs))
unfolding push_frames
push_frames-Ordered now relay [] o = o
push_frames-Ordered now relay (f ∷ fs) o =
    push_frames-Ordered now (push_frame now relay f) fs
      (Ordered-append first_id (last_id relay) relay.frames _ o (ground arith))

pub new_relay-IsOrdered : IsOrdered new_relay
new_relay-IsOrdered = record { rising = refl; bounded = omega arith }

-- Appending to a relay whose frames rise leaves one whose frames rise, with at most forty of them,
-- whatever the clock does between two calls.
pub appended-IsOrdered :
    (relay : Relay) (now : ℕ) (fs : List PostedFrame)
    → IsOrdered relay
    → IsOrdered (appended relay now fs)
unfolding appended
appended-IsOrdered relay now fs o =
    let pushed = push_frames now relay fs in
    record {
      rising =
          Ordered-drop (length pushed.frames - relay_max_stored_frames) first_id (last_id pushed)
            pushed.frames (push_frames-Ordered now relay fs o.rising);
      bounded =
          omega (arith, length-drop (length pushed.frames - relay_max_stored_frames) pushed.frames);
    }

pub newer-all :
    (a lo hi : RelayId) (fs : List RelayFrame)
    → is_after lo a ≡ true
    → Ordered lo fs hi
    → newer (some a) fs ≡ fs
newer-all a lo hi [] h o = refl
newer-all a lo hi (f ∷ fs) h o =
    let later = is_after_trans f.id lo a o.0 h in
    rw later (ap (◌∷◌ f) (newer-all a f.id hi fs later o.1))

newer-from : (lo hi : RelayId) (fs : List RelayFrame) → Ordered lo fs hi → newer (some lo) fs ≡ fs
newer-from lo hi [] o = refl
newer-from lo hi (f ∷ fs) o = rw o.0 (ap (◌∷◌ f) (newer-all lo f.id hi fs o.0 o.1))

-- A frame that is not after the old cursor, nor after any frame read, is not after the new one.
cursor-old :
    (f : RelayFrame) (b : RelayId) (fs : List RelayFrame)
    → is_after f.id b ≡ false
    → All (λ g. is_after f.id g.id ≡ false) fs
    → is_newer (next_cursor (some b) fs) f ≡ false
unfolding next_cursor
cursor-old f b [] h a = h
cursor-old f b (g ∷ gs) h a = cursor-old f g.id gs a.0 a.1

pub take-All {ℓ κ} :
    {A : Type ℓ} (P : A → Type κ) (n : ℕ) (xs : List A) → All P xs → All P (take n xs)
take-All P zero xs a = tt
take-All P (suc n) [] a = tt
take-All P (suc n) (x ∷ xs) a = (a.0, take-All P n xs a.1)

newer-old :
    (f : RelayFrame) (a : RelayId) (fs : List RelayFrame)
    → is_after f.id a ≡ false
    → All (λ g. is_after f.id g.id ≡ false) (newer (some a) fs)
newer-old f a [] h = tt
newer-old f a (g ∷ gs) h = ground (arith, newer-old f a gs h, not-after f.id a g.id h)

Ordered-old :
    (f : RelayFrame) (lo hi : RelayId) (fs : List RelayFrame)
    → is_after f.id lo ≡ false
    → Ordered lo fs hi
    → All (λ g. is_after f.id g.id ≡ false) fs
Ordered-old f lo hi [] h o = tt
Ordered-old f lo hi (g ∷ gs) h o =
    let below = not-after f.id lo g.id h o.0 in (below, Ordered-old f g.id hi gs below o.1)

-- After the first `n` frames, the frames newer than the cursor are the others.
read-suffix :
    (n : ℕ) (lo hi : RelayId) (fs : List RelayFrame)
    → Ordered lo fs hi
    → newer (next_cursor (some lo) (take n fs)) fs ≡ drop n fs
unfolding next_cursor
read-suffix zero lo hi fs o = newer-from lo hi fs o
read-suffix (suc n) lo hi [] o = refl
read-suffix (suc n) lo hi (f ∷ fs) o =
    let old =
      cursor-old f f.id (take n fs) (self-not-after f.id)
        (take-All _ n fs (Ordered-old f f.id hi fs (self-not-after f.id) o.1)) in
    rw old (read-suffix n f.id hi fs o.1)

pub newer-none : (fs : List RelayFrame) → newer none fs ≡ fs
newer-none [] = refl
newer-none (f ∷ fs) = ap (◌∷◌ f) (newer-none fs)

-- A read that begins with the first frame.
read-whole :
    (after : Option RelayId) (n : ℕ) (lo hi : RelayId) (f : RelayFrame) (fs : List RelayFrame)
    → Ordered lo (f ∷ fs) hi
    → newer after (f ∷ fs) ≡ f ∷ fs
    → newer (next_cursor after (take n (newer after (f ∷ fs)))) (f ∷ fs)
      ≡ drop n (newer after (f ∷ fs))
unfolding next_cursor
read-whole after zero lo hi f fs o e = refl
read-whole after (suc n) lo hi f fs o e =
    subst (λ x. newer (next_cursor after (take (suc n) x)) (f ∷ fs) ≡ drop (suc n) x) (sym e)
      (read-suffix (suc n) lo hi (f ∷ fs) o)

-- Reading on with the cursor of the last read delivers exactly the frames that the last read left
-- out, in order: none twice, and none lost, whatever the size of the read.
pub read_on :
    (after : Option RelayId) (n : ℕ) (lo hi : RelayId) (fs : List RelayFrame)
    → Ordered lo fs hi
    → newer (next_cursor after (take n (newer after fs))) fs ≡ drop n (newer after fs)
unfolding next_cursor
read_on after n lo hi [] o = rw (drop-nil n)
read_on none n lo hi (f ∷ fs) o = read-whole none n lo hi f fs o (newer-none (f ∷ fs))
read_on (some a) n lo hi (f ∷ fs) o = elim (Bool-cases (is_after f.id a)) [
  | inl e ↦ read-whole (some a) n lo hi f fs o (rw e (ap (◌∷◌ f) (newer-all a f.id hi fs e o.1)))
  | inr e ↦
      let old =
        cursor-old f a (take n (newer (some a) fs)) e
          (take-All _ n (newer (some a) fs) (newer-old f a fs e)) in
      let skip : newer (some a) (f ∷ fs) ≡ newer (some a) fs = rw e in
      subst (λ x. newer (next_cursor (some a) (take n x)) (f ∷ fs) ≡ drop n x) (sym skip)
        (rw old (read_on (some a) n f.id hi fs o.1))
]
