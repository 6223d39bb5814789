-- ===== src/Live/Lane/Bypass.antt =====
-- src/features/live/cloud-lane.ts: after a 429 the lane rests while the browser can translate.
use asad.Base.{
  ℕ, ◌+◌, ◌≤◌, ◌<◌, ◌≡◌, refl, ap, ◌∙◌, Bool, true, false, ◌&&◌, Option, some, List, [], ◌∷◌, ◌++◌,
  All, arith, ltb,
}
use asad.Live.Lane.{
  World, Lane, Request, refused, local_fallback, on_reply, fetched, try_once, interpret,
  cloud_bypass_ms, bypassed, temporary_rate_limit_bypass_ms,
}
use asad.Live.Lane.Budget.{local_fallback-sent}

-- When the first reply of a turn comes.
abbrev pub first_reply_at : World → ℕ
first_reply_at w = w.started_at + (w.exchange 0).took

-- The first reply is a 429, and the translator is ready and puts something out.
pub record IsLimited (w : World) : Type 0 where
  pub after : Option ℕ
  pub reply : (w.exchange 0).reply ≡ refused 429 after
  pub ready : w.ready (first_reply_at w) ≡ true
  pub translates : w.translates ≡ true

fallback-keeps :
    (w : World) (l : Lane)
    → w.ready l.now && w.translates ≡ true
    → (local_fallback w l).0.bypass_until ≡ l.bypass_until
unfolding local_fallback
fallback-keeps w l h = ground arith

-- The lane once a 429 has set its bypass.
abbrev after_429 : World → Lane → Lane
after_429 w l = bypassed w l (cloud_bypass_ms (some 429) false false)

on_reply-limited :
    (w : World) (l : Lane) (after : Option ℕ) (aborts : Bool) (late : ℕ)
    → w.ready l.now ≡ true
    → on_reply w l (refused 429 after) false aborts late
      ≡ ((local_fallback w (after_429 w l)).0, some (local_fallback w (after_429 w l)).1)
unfolding on_reply
on_reply-limited w l after aborts late r = rw (r) refl

try_once-limited :
    (w : World) (l : Lane) (i : IsLimited w)
    → l.now ≡ w.started_at
    → (try_once w l 0 false) ≡ (
      (local_fallback w (after_429 w (fetched w l 0))).0,
      some (local_fallback w (after_429 w (fetched w l 0))).1,
    )
unfolding try_once fetched
try_once-limited w l i e =
    ap (λ r. on_reply w (fetched w l 0) r false (w.exchange 0).aborts_wait (w.exchange 0).late_wait)
      i.reply
    ∙ on_reply-limited w (fetched w l 0) i.after (w.exchange 0).aborts_wait (w.exchange 0).late_wait
        (rw (e) i.ready)

limited-bypass :
    (w : World) (bypass_until : ℕ)
    → bypass_until ≤ w.started_at
    → IsLimited w
    → (interpret w bypass_until).0.bypass_until ≡ first_reply_at w + temporary_rate_limit_bypass_ms
unfolding interpret fetched
limited-bypass w bypass_until h i =
    let l : Lane = record { bypass_until = bypass_until; now = w.started_at; sent = [] } in
    let open_lane : w.ready w.started_at && ltb w.started_at bypass_until ≡ false = ground arith in
    let t = try_once-limited w l i refl in
    rw (interpret, open_lane, t)
      (ap (λ x. x.0.bypass_until) t
        ∙ fallback-keeps w (after_429 w (fetched w l 0)) (rw (i.ready, i.translates) refl))

-- Turns one after the other, each with the bypass that the last one left.
unfoldable pub sent_over : ℕ → List World → List Request
sent_over bypass_until [] = []
sent_over bypass_until (w ∷ ws) =
    (interpret w bypass_until).0.sent ++ sent_over (interpret w bypass_until).0.bypass_until ws

-- Such a turn starts before the time, with a translator ready that puts something out.
pub record IsResting (until : ℕ) (w : World) : Type 0 where
  pub early : w.started_at < until
  pub ready : w.ready w.started_at ≡ true
  pub translates : w.translates ≡ true

resting-skips :
    (w : World) (b : ℕ)
    → IsResting b w
    → ((interpret w b).0.sent ≡ []) × ((interpret w b).0.bypass_until ≡ b)
unfolding interpret
resting-skips w b i =
    let l : Lane = record { bypass_until = b; now = w.started_at; sent = [] } in
    let early = i.early in
    let skips : w.ready w.started_at && ltb w.started_at b ≡ true = ground (arith, i.ready) in
    (
      rw (interpret, skips) (local_fallback-sent w l),
      rw (interpret, skips) (fallback-keeps w l (rw (i.ready, i.translates) refl)),
    )

resting-silent : (b : ℕ) (ws : List World) → All (IsResting b) ws → sent_over b ws ≡ []
unfolding sent_over
resting-silent b [] a = refl
resting-silent b (w ∷ ws) a =
    let (silent, kept) = resting-skips w b a.0 in rw (silent, kept) (resting-silent b ws a.1)

-- After a turn whose first reply is a 429, while the browser can translate, no sequence of turns that
-- start within a minute of that reply, each with a translator ready that puts something out, sends
-- any request.
pub limited-rests :
    (w : World) (bypass_until : ℕ) (ws : List World)
    → bypass_until ≤ w.started_at
    → IsLimited w
    → All (IsResting (first_reply_at w + temporary_rate_limit_bypass_ms)) ws
    → sent_over (interpret w bypass_until).0.bypass_until ws ≡ []
limited-rests w bypass_until ws h i a =
    rw (limited-bypass w bypass_until h i)
      (resting-silent (first_reply_at w + temporary_rate_limit_bypass_ms) ws a)
