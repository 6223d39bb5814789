-- ===== src/Llm/Router/Affinity.antt =====
-- src/providers/llm/router.ts: a session stays with the provider that answered it.
use asad.Base.{
  ℕ, zero, suc, ◌≤◌, String, ◌≡◌, refl, Bool, Option, none, some, List, [], ◌∷◌, ◌++◌, arith,
  length, drop, eq_iff, keep, length-append,
}
use asad.Base.Dict.{get, put, delete, get-delete}
use asad.Llm.Breaker.{record_success}
use asad.Llm.Providers.{ProviderId, local}
use asad.Llm.Router.{
  LlmEnv, Router, eligibility, build_chain, front, with_breaker, set_sticky, sticky_of, key_of,
  is_outside, candidates,
}
use asad.Llm.Router.Turns.{Turn, Walk, LlmResponse}
use asad.Llm.Router.Complete.{finish, stick}

module _ {ℓ} {V : Type ℓ} where
  put-append :
      (m : List (String × V)) (k : String) (v : V) → get m k ≡ none → put m k v ≡ m ++ ((k, v) ∷ [])
  unfolding put get
  put-append [] k v e = refl
  put-append ((j, w) ∷ m) k v e = ground (arith, put-append m k v)

  -- The entry at the end is found after the oldest are dropped.
  get-drop-append :
      (n : ℕ) (m : List (String × V)) (k : String) (v : V)
      → get m k ≡ none
      → n ≤ length m
      → get (drop n (m ++ ((k, v) ∷ []))) k ≡ some v
  unfolding get
  get-drop-append zero [] k v e h = ground (arith, eq_iff k k)
  get-drop-append zero ((j, w) ∷ m) k v e h = ground (arith, get-drop-append zero m k v)
  get-drop-append (suc n) [] k v e h = ground (arith, h)
  get-drop-append (suc n) ((j, w) ∷ m) k v e h = ground (arith, get-drop-append n m k v)

get-set_sticky :
    (r : Router) (key : String) (id : ProviderId) → get (set_sticky r key id).sticky key ≡ some id
unfolding set_sticky
get-set_sticky r key id =
    let m = delete r.sticky key in
    let gone : get m key ≡ none = ground (arith, get-delete r.sticky key key, eq_iff key key) in
    rw (put-append m key id gone, length-append) (get-drop-append _ m key id gone (omega arith))

module _ (env : LlmEnv) where
  front-eligible :
      (r : Router) (id : ProviderId) (now : ℕ)
      → (eligibility env r id now).0 ≡ none
      → (front env r none (some id) now).0 ≡ id ∷ []
  unfolding front
  front-eligible r id now e = rw (e) refl

  chain-front :
      (r : Router) (id : ProviderId) (key : Option String) (now : ℕ)
      → sticky_of r (key_of key) ≡ some id
      → (eligibility env r id now).0 ≡ none
      → (build_chain env r none key now).0
        ≡ id ∷ (keep (is_outside (id ∷ [])) (candidates env) ++ (local ∷ []))
  unfolding build_chain
  chain-front r id key now s e = rw (s, front-eligible r id now e) refl

module _ (looks_like_network : String → Bool) (env : LlmEnv) (turn : Turn) where
  finish-sticky :
      (w : Walk) (id : ProviderId) (response : LlmResponse) (key : String)
      → key_of turn.options.routing_key ≡ some key
      → sticky_of (finish looks_like_network env turn w id response).0.router (some key) ≡ some id
  unfolding finish stick sticky_of
  finish-sticky w id response key k =
      rw (k, stick)
        (get-set_sticky (with_breaker w.router id (record_success (w.router.breakers id))) key id)

  -- Once a provider has answered a turn of a session, the next turn of that session that prefers no
  -- provider tries it first, if it is eligible then.
  pub finish-front :
      (w : Walk) (id : ProviderId) (response : LlmResponse) (key : String) (now : ℕ)
      → key_of turn.options.routing_key ≡ some key
      → (eligibility env (finish looks_like_network env turn w id response).0.router id now).0
        ≡ none
      → (build_chain env
          (finish looks_like_network env turn w id response).0.router
          none
          turn.options.routing_key
          now).0
        ≡ id ∷ (keep (is_outside (id ∷ [])) (candidates env) ++ (local ∷ []))
  finish-front w id response key now k e =
      let r = (finish looks_like_network env turn w id response).0.router in
      chain-front env r id turn.options.routing_key now (rw (k) (finish-sticky w id response key k))
        e
