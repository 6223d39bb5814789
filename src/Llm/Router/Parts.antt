-- ===== src/Llm/Router/Parts.antt =====
-- Lists of providers with some left out, for src/providers/llm/router.ts.
use asad.Base.{◌≡◌, refl, false, List, [], ◌∷◌, ◌++◌, arith}
use asad.Llm.Providers.{ProviderId}
use asad.Llm.Router.{holds}
use asad.Llm.Router.Candidates.{Once}

-- The first list is the second with some providers left out.
pub data IsPart : List ProviderId → List ProviderId → Type 0 where
  done : IsPart [] []
  took : (x : ProviderId) {xs ys : List ProviderId} → IsPart xs ys → IsPart (x ∷ xs) (x ∷ ys)
  left : (x : ProviderId) {xs ys : List ProviderId} → IsPart xs ys → IsPart xs (x ∷ ys)

pub IsPart-holds :
    (id : ProviderId) {xs ys : List ProviderId}
    → IsPart xs ys
    → holds id ys ≡ false
    → holds id xs ≡ false
IsPart-holds id done h = refl
IsPart-holds id (took x p) h = ground (arith, IsPart-holds id p)
IsPart-holds id (left x p) h = IsPart-holds id p (ground arith)

pub IsPart-Once : {xs ys : List ProviderId} → IsPart xs ys → Once ys → Once xs
IsPart-Once done h = tt
IsPart-Once (took x p) h = (IsPart-holds x p h.0, IsPart-Once p h.1)
IsPart-Once (left x p) h = IsPart-Once p h.1

pub nothing-IsPart : (ys : List ProviderId) → IsPart [] ys
nothing-IsPart [] = done
nothing-IsPart (y ∷ ys) = left y (nothing-IsPart ys)

pub IsPart-append :
    {xs ys us vs : List ProviderId} → IsPart xs ys → IsPart us vs → IsPart (xs ++ us) (ys ++ vs)
IsPart-append done q = q
IsPart-append (took x p) q = took x (IsPart-append p q)
IsPart-append (left x p) q = left x (IsPart-append p q)
