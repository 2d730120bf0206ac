-- ===== src/Stringy/Session/Laws.antt =====
-- What a session is granted: the values of the services that the request names and that match.
use tacquito.Base.{ℕ, ◌≡◌, ◌↔◌, ◌⊎◌, inl, inr, refl, sym, ap, subst, ◌∙◌, Bool-cases}
use tacquito.Base.{if◌then◌else◌, List, [], ◌∷◌, ◌++◌, Bytes}
use mathlib.Core.List.{Memᴰ}
use mathlib.Core.List.Memᴰ
use tacquito.Text.{trim_space}
use tacquito.Fields.Author.{author_status_pass_add, author_status_pass_repl}
use tacquito.Author.Args.{strings, append_args}
use tacquito.Author.Args.Laws.{args_of-Distinct, Distinct}
use tacquito.Config.{Service, User, trim_service}
use tacquito.Stringy.Session.{service_matcher_modifier, evaluate_services, request_args, evaluate}
use tacquito.Stringy.Session.Granted.{Granted, mem-service_matcher_modifier}

-- The user has the service, and the text is granted for it.
abbrev pub GrantedBy : List Bytes → List Service → Bytes → Type 0
GrantedBy args services x = (s : Service) × Memᴰ s services × Granted args (trim_service s) x

mem-evaluate_services :
    (args : List Bytes) (services : List Service) (response : List Bytes) (status : ℕ) (x : Bytes)
    → Memᴰ x (evaluate_services args services response status).0
      ↔ (Memᴰ x response ⊎ GrantedBy args services x)
unfolding evaluate_services append_args
mem-evaluate_services args [] response status x =
    (λ m. inl m, λ h. elim h [ inl m ↦ m | inr g ↦ absurd (Memᴰ.not-nil g.1) ])
mem-evaluate_services args (s ∷ services) response status x =
    let (matched, optional) = service_matcher_modifier args (trim_service s) in
    let raised = if optional then author_status_pass_repl else status in
    let others = mem-evaluate_services args services (response ++ matched) raised x in
    let this = mem-service_matcher_modifier args (trim_service s) x in
    (
      λ m. elim (others.0 m) [
        | inl early ↦ elim (Memᴰ.append_cases response early) [
          | inl before ↦ inl before
          | inr now ↦ inr (s, Memᴰ.head refl, this.0 now)
        ]
        | inr (t, found, g) ↦ inr (t, Memᴰ.tail found, g)
      ],
      λ h. elim h [
        | inl before ↦ others.1 (inl (Memᴰ.append_left matched before))
        | inr (t, found, g) ↦ elim (Memᴰ.cases_cons found) [
          | inl same ↦ others.1 (
              inl (
                Memᴰ.append_right response
                  (this.1 (subst (λ r. Granted args (trim_service r) x) same g))))
          | inr later ↦ others.1 (inr (t, later, g))
        ]
      ],
    )

mem-strings :
    (l : List Bytes) (x : Bytes)
    → Memᴰ x (strings l) ↔ ((y : Bytes) × Memᴰ y l × (trim_space y ≡ x))
unfolding strings
mem-strings [] x = (λ m. absurd (Memᴰ.not-nil m), λ h. absurd (Memᴰ.not-nil h.1))
mem-strings (y ∷ l) x = (
  λ m. elim (Memᴰ.cases_cons m) [
    | inl e ↦ (y, Memᴰ.head refl, sym e)
    | inr later ↦ let (z, found, e) = (mem-strings l x).0 later in (z, Memᴰ.tail found, e)
  ],
  λ (z, found, e). elim (Memᴰ.cases_cons found) [
    | inl same ↦ Memᴰ.head (sym e ∙ ap trim_space same)
    | inr later ↦ Memᴰ.tail ((mem-strings l x).1 (z, later, e))
  ],
)

-- The session authorizer gives no argument twice, and gives exactly the texts, without white space
-- around them, of the values of those of the user's services that are granted: an argument of the
-- request, or the scope that is added to it, names the service by its attribute or its value, and
-- each of the service's conditions has its attribute among them, with the last value that they
-- give it equal to each of the condition's.
pub evaluate-GrantedBy :
    (u : User) (args : List Bytes) (x : Bytes)
    → Distinct (evaluate u args).0
      × (Memᴰ x (evaluate u args).0
          ↔ ((y : Bytes) × GrantedBy (request_args u args) u.services y × (trim_space y ≡ x)))
unfolding evaluate
evaluate-GrantedBy u args x =
    let asked = request_args u args in
    let response = (evaluate_services asked u.services [] author_status_pass_add).0 in
    let (distinct, same) = args_of-Distinct response x in
    let texts = mem-strings response x in
    (
      distinct,
      (
        λ m.
            let (y, found, e) = texts.0 (same.0 m) in
            let from =
              (mem-evaluate_services asked u.services [] author_status_pass_add y).0 found in
            elim from [ inl none_before ↦ absurd (Memᴰ.not-nil none_before) | inr g ↦ (y, g, e) ],
        λ (y, g, e). same.1 (
            texts.1 (
              y,
              (mem-evaluate_services asked u.services [] author_status_pass_add y).1 (inr g),
              e,
            )),
      ),
    )

evaluate_services-status :
    (args : List Bytes) (services : List Service) (response : List Bytes) (status : ℕ)
    → (status ≡ author_status_pass_add) ⊎ (status ≡ author_status_pass_repl)
    → ((evaluate_services args services response status).1 ≡ author_status_pass_add)
      ⊎ ((evaluate_services args services response status).1 ≡ author_status_pass_repl)
unfolding evaluate_services
evaluate_services-status args [] response status h = h
evaluate_services-status args (s ∷ services) response status h =
    let (matched, optional) = service_matcher_modifier args (trim_service s) in
    evaluate_services-status args services (append_args response matched)
      (if optional then author_status_pass_repl else status)
      (elim (Bool-cases optional) [
        | inl yes_it_is ↦ inr (rw yes_it_is refl)
        | inr is_not ↦ rw is_not h
      ])

-- The status is one of the two that pass.
pub evaluate-status :
    (u : User) (args : List Bytes)
    → ((evaluate u args).1 ≡ author_status_pass_add)
      ⊎ ((evaluate u args).1 ≡ author_status_pass_repl)
unfolding evaluate
evaluate-status u args =
    evaluate_services-status (request_args u args) u.services [] author_status_pass_add (inl refl)
