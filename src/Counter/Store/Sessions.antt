-- ===== src/Counter/Store/Sessions.antt =====
-- src/counter/store.ts: whose session a call touches, and when a session is gone.
use asad.Base.{
  ℕ, zero, suc, ◌+◌, ◌≤◌, String, ◌≡◌, refl, false, not, Option, none, some, List, [], ◌∷◌, is_some,
  every, arith, ltb, if◌then◌else◌, str_eq, eq_iff,
}
use asad.Base.Dict.{get, put, get-put, get-keep, kept, Distinct, put-Distinct, keep-Distinct}
use asad.Counter.Types.{CounterSession}
use asad.Counter.Store.{
  Sessions, session_ttl_ms, is_idle, sweep, pick_code, CreateInput, new_session, create, find,
  bound_messages, update, update_retries,
}

pick_code-free :
    (m : Sessions) (draws : ℕ → String) (tries i n : ℕ)
    → n ≤ tries
    → get m (draws (i + n)) ≡ none
    → get m (pick_code m draws tries i) ≡ none
unfolding pick_code
pick_code-free m draws zero i n h e = let here : i + n ≡ i = omega arith in rw here at e
pick_code-free m draws (suc tries) i zero h e =
    let here : i + 0 ≡ i = omega arith in ground (arith, rw here at e)
pick_code-free m draws (suc tries) i (suc n) h e =
    let next : i + suc n ≡ suc i + n = omega arith in
    ground (arith, pick_code-free m draws tries (suc i) n (omega arith) (rw next at e))

-- If one of the first nine codes drawn is free, a new session takes a free code, and all other
-- sessions stay as the sweep leaves them.
pub create-fresh :
    (m : Sessions) (input : CreateInput) (draws : ℕ → String) (now n : ℕ) (other : String)
    → n ≤ update_retries
    → get (sweep m now) (draws n) ≡ none
    → let (s, next) = create m input draws now in
      (get (sweep m now) s.code ≡ none)
      × (get next other ≡ (if str_eq s.code other then some s else get (sweep m now) other))
unfolding create
create-fresh m input draws now n other h e =
    let swept = sweep m now in
    let code = pick_code swept draws update_retries 0 in
    let here : 0 + n ≡ n = omega arith in
    (
      pick_code-free swept draws update_retries 0 n h (rw here e),
      get-put swept code other (new_session input code now),
    )

-- The codes that are drawn, from one of them on.
abbrev pub drawn : (ℕ → String) → ℕ → ℕ → List String
drawn draws zero i = []
drawn draws (suc n) i = draws i ∷ drawn draws n (suc i)

pick_code-every :
    (m : Sessions) (draws : ℕ → String) (tries i : ℕ)
    → is_some (get m (pick_code m draws tries i))
      ≡ every (λ code. is_some (get m code)) (drawn draws (suc tries) i)
unfolding pick_code
pick_code-every m draws zero i = ground arith
pick_code-every m draws (suc tries) i = ground (arith, pick_code-every m draws tries (suc i))

-- A new session takes a code in use exactly where all of the nine codes drawn are in use, and then it
-- takes the place of the session there; every other session stays as the sweep leaves it.
pub create-every :
    (m : Sessions) (input : CreateInput) (draws : ℕ → String) (now : ℕ) (other : String)
    → let (s, next) = create m input draws now in
      (is_some (get (sweep m now) s.code)
        ≡ every (λ code. is_some (get (sweep m now) code)) (drawn draws 9 0))
      × (get next other ≡ (if str_eq s.code other then some s else get (sweep m now) other))
unfolding create
create-every m input draws now other =
    let swept = sweep m now in
    let code = pick_code swept draws update_retries 0 in
    (
      pick_code-every swept draws update_retries 0,
      get-put swept code other (new_session input code now),
    )

sweep-get :
    (m : Sessions) (now : ℕ) (code : String)
    → Distinct m
    → get (sweep m now) code ≡ kept (λ e. not (is_idle now e.1)) code (get m code)
unfolding sweep
sweep-get m now code d = get-keep (λ e. not (is_idle now e.1)) m code d

sweep-Distinct : (m : Sessions) (now : ℕ) → Distinct m → Distinct (sweep m now)
unfolding sweep
sweep-Distinct m now d = keep-Distinct _ m d

find-alive :
    (m : Sessions) (code : String) (now : ℕ) (s : CounterSession)
    → Distinct m
    → get m code ≡ some s
    → (find m code now).0 ≡ (if is_idle now s then none else some s)
unfolding find
find-alive m code now s d e = ground (arith, sweep-get m now code d, e)

bound_messages-activity :
    (s : CounterSession) → (bound_messages s).last_activity_at ≡ s.last_activity_at
unfolding bound_messages
bound_messages-activity s = ground arith

update-accepted :
    (m : Sessions) (code : String) (mutate : CounterSession → Option CounterSession) (now : ℕ)
    (s t : CounterSession)
    → get (sweep m now) code ≡ some s
    → mutate s ≡ some t
    → update m code mutate now ≡ (
      some (bound_messages (record t { last_activity_at = now })),
      put (sweep m now) code (bound_messages (record t { last_activity_at = now })),
    )
unfolding update
update-accepted m code mutate now s t e f = rw (e, update, f) refl

-- A mutation that is accepted, of a session that was active within four hours, is answered with the
-- bounded result; that result is what every look at the code finds during the next four hours, and
-- nothing is found after them.
pub update-lives :
    (m : Sessions) (code : String) (mutate : CounterSession → Option CounterSession) (now later : ℕ)
    (s t : CounterSession)
    → Distinct m
    → get m code ≡ some s
    → is_idle now s ≡ false
    → mutate s ≡ some t
    → let (answer, next) = update m code mutate now in
      let kept_session = bound_messages (record t { last_activity_at = now }) in
      (answer ≡ some kept_session)
      × ((find next code later).0
          ≡ (if ltb (now + session_ttl_ms) later then none else some kept_session))
update-lives m code mutate now later s t d e alive f =
    let fresh = bound_messages (record t { last_activity_at = now }) in
    let there : get (sweep m now) code ≡ some s = ground (arith, sweep-get m now code d, e) in
    let swept : Distinct (sweep m now) = sweep-Distinct m now d in
    let stored : get (put (sweep m now) code fresh) code ≡ some fresh =
      ground (arith, get-put (sweep m now) code code fresh, (eq_iff code code).1 refl) in
    let seen =
      find-alive (put (sweep m now) code fresh) code later fresh
        (put-Distinct (sweep m now) code fresh swept) stored in
    rw (update-accepted m code mutate now s t there f)
      (refl, ground (arith, seen, bound_messages-activity (record t { last_activity_at = now })))
