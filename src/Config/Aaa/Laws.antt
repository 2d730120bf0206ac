-- ===== src/Config/Aaa/Laws.antt =====
-- What `NewAAA` makes: the handlers that it is given, and for the others ones that deny.
use tacquito.Base.{◌≡◌, ◌⊎◌, inl, inr, refl, arith}
use tacquito.Base.{List, [], ◌∷◌, ◌++◌, Option, none, some}
use tacquito.Server.Response.{Request}
use tacquito.Server.Serve.{Script}
use tacquito.Handlers.{Handler, Aaa}
use tacquito.Handlers.Denials.{DenyOnly}
use tacquito.Config.Aaa.{new_aaa, set_aaa_authenticator, set_aaa_authorizer, set_aaa_accounter}
use tacquito.Config.Aaa.{default_authenticator, default_authorizer, default_accounter}

-- Whatever the request, no reply passes.
abbrev pub Closed : (Request → Script Handler) → Type 0
Closed handler = (req : Request) → DenyOnly (handler req)

pub default_authenticator-Closed : Closed default_authenticator
unfolding default_authenticator
default_authenticator-Closed req = (omega arith, λ r. tt)

pub default_authorizer-Closed : Closed default_authorizer
unfolding default_authorizer
default_authorizer-Closed req = (omega arith, λ r. tt)

pub default_accounter-Closed : Closed default_accounter
unfolding default_accounter
default_accounter-Closed req = (omega arith, λ r. tt)

abbrev pub Handle : Type 0
Handle = Request → Script Handler

abbrev pub given : (Handle → Aaa → Aaa) → Option Handle → List (Aaa → Aaa)
given set none = []
given set (some h) = set h ∷ []

abbrev pub or_default : Handle → Option Handle → Handle
or_default d none = d
or_default d (some h) = h

pub new_aaa-given :
    (o p q : Option Handle)
    → new_aaa
        (given set_aaa_authorizer o ++ (given set_aaa_authenticator p ++ given set_aaa_accounter q))
      ≡ record {
        authenticator = or_default default_authenticator p;
        authorizer = or_default default_authorizer o;
        accounter = or_default default_accounter q;
      }
unfolding new_aaa
new_aaa-given none none none = refl
new_aaa-given none none (some h) = refl
new_aaa-given none (some h) none = refl
new_aaa-given none (some h) (some k) = refl
new_aaa-given (some g) none none = refl
new_aaa-given (some g) none (some h) = refl
new_aaa-given (some g) (some h) none = refl
new_aaa-given (some g) (some h) (some k) = refl

pub or_default-Closed :
    {P : Handle → Type 0} (d : Handle) (o : Option Handle)
    → ((h : Handle) → o ≡ some h → P h)
    → Closed d
    → P (or_default d o) ⊎ Closed (or_default d o)
or_default-Closed d none made closed = inr closed
or_default-Closed d (some h) made closed = inl (made h refl)
