-- ===== src/RemoteMic/Redis/Gates.antt =====
-- src/remote-mic/store.ts: the gate of the Redis scripts is the gate of the memory store.
use asad.Base.{
  String, ◌≡◌, refl, sym, inl, inr, true, false, some, arith, ltb, str_eq, utf16_length, Bool-cases,
  Option-cases, eq_iff,
}
use asad.Base.Dict.{get}
use asad.RemoteMic.Protocol.{Role, receiver, sender}
use asad.RemoteMic.Session.{
  Pairing, hash_secret, hashes_match, receiver_secret, sender_secret, role_for_token,
}
use asad.RemoteMic.Store.{MemoryStore, is_role, relay_gate}
use asad.RemoteMic.Redis.{Envelope, script_gate, same_hash, role_hash, presented}

-- The hashes of a pairing, of which none is empty and the computer's is not the phone's, and a token
-- that the routes can present.
pub record IsProper (digest : String → String) (r : Pairing) (token : String) : Type 0 where
  pub receiver_hash : str_eq r.receiver_token_hash "" ≡ false
  pub sender_hash : (h : String) → r.sender_token_hash ≡ some h → str_eq h "" ≡ false
  pub apart :
      hashes_match (hash_secret digest receiver_secret token) (some r.receiver_token_hash) ≡ true
      → hashes_match (hash_secret digest sender_secret token) r.sender_token_hash ≡ false
  pub given : str_eq token "" ≡ false
  pub short : ltb 128 (utf16_length token) ≡ false

str_eq_sym : (a b : String) → str_eq a b ≡ str_eq b a
str_eq_sym a b = elim (Bool-cases (str_eq a b)) [
  | inl e ↦ rw (e, (eq_iff b a).1 (sym ((eq_iff a b).0 e))) refl
  | inr e ↦ elim (Bool-cases (str_eq b a)) [
    | inl f ↦ absurd (let g = (eq_iff a b).1 (sym ((eq_iff b a).0 f)) in cc)
    | inr f ↦ rw (e, f) refl
  ]
]

receiver_agrees :
    (digest : String → String) (r : Pairing) (token : String)
    → IsProper digest r token
    → same_hash (role_hash r receiver) (presented digest receiver token)
      ≡ is_role receiver (role_for_token digest r (some token))
unfolding role_for_token hashes_match
receiver_agrees digest r token p = ground (
  arith,
  p.receiver_hash,
  p.given,
  p.short,
  str_eq_sym r.receiver_token_hash (hash_secret digest receiver_secret token),
)

sender_agrees :
    (digest : String → String) (r : Pairing) (token : String)
    → IsProper digest r token
    → same_hash (role_hash r sender) (presented digest sender token)
      ≡ is_role sender (role_for_token digest r (some token))
unfolding role_for_token hashes_match
sender_agrees digest r token p = elim (Option-cases r.sender_token_hash) [
  | inl e ↦ ground (arith, e, p.given, p.short)
  | inr (h, e) ↦ ground (
    arith,
    e,
    p.given,
    p.short,
    p.apart,
    p.sender_hash h e,
    str_eq_sym h (hash_secret digest sender_secret token),
  )
]

-- The relay scripts admit and refuse exactly as the memory store does, with the same answer, for a
-- pairing with hashes and a token that no two roles share.
pub script_gate-relay_gate :
    (digest : String → String) (s : MemoryStore) (id : String) (e : Envelope) (role : Role)
    (token : String)
    → get s.records id ≡ some e.pairing
    → IsProper digest e.pairing token
    → script_gate digest (some e) role token ≡ relay_gate digest s id role token
unfolding script_gate relay_gate
script_gate-relay_gate digest s id e receiver token stored p =
    rw (stored, relay_gate, receiver_agrees digest e.pairing token p) refl
script_gate-relay_gate digest s id e sender token stored p =
    rw (stored, relay_gate, sender_agrees digest e.pairing token p) refl
