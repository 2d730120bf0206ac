-- ===== src/Report/Names/Kinds.antt =====
-- The nine kinds of uint8 that print a name.
use tacquito.Base.{ℕ, ◌<◌, ◌≡◌, refl, ◌↔◌, err, codes}
use tacquito.Fields.Header.{validate_header_type}
use tacquito.Fields.Authen.{
  validate_authen_action, validate_authen_type, validate_authen_service, validate_authen_status,
}
use tacquito.Fields.Author.{validate_authen_method, validate_author_status}
use tacquito.Fields.Acct.{validate_acct_reply_status}
use tacquito.Base.{unknown_header_type, unknown_authen_action}
use tacquito.Base.{unknown_authen_type, unknown_authen_service}
use tacquito.Base.{unknown_authen_status, unknown_authen_method}
use tacquito.Base.{unknown_author_status, unknown_acct_status}
use tacquito.Report.Names.{named, unknown}
use tacquito.Report.Names.Laws.{named-distinct, checked_name, distinct, fresh}
use tacquito.Report.Names.{header_type_names, header_type_string}
use tacquito.Report.Names.{authen_action_names, authen_action_string}
use tacquito.Report.Names.{priv_lvl_names, priv_lvl_string}
use tacquito.Report.Names.{authen_type_names, authen_type_string}
use tacquito.Report.Names.{authen_service_names, authen_service_string}
use tacquito.Report.Names.{authen_status_names, authen_status_string}
use tacquito.Report.Names.{authen_method_names, authen_method_string}
use tacquito.Report.Names.{author_status_names, author_status_string}
use tacquito.Report.Names.{acct_reply_status_names, acct_reply_status_string}

header_type_string_inj :
    (t u : ℕ) → t < 256 → u < 256 → header_type_string t ≡ header_type_string u → t ≡ u
unfolding header_type_string named
header_type_string_inj t u h k e =
    named-distinct header_type_names (codes "HeaderType") t u (unfold distinct fresh in refl) h k e

authen_action_string_inj :
    (t u : ℕ) → t < 256 → u < 256 → authen_action_string t ≡ authen_action_string u → t ≡ u
unfolding authen_action_string named
authen_action_string_inj t u h k e =
    named-distinct authen_action_names (codes "AuthenAction") t u (unfold distinct fresh in refl) h
      k e

priv_lvl_string_inj : (t u : ℕ) → t < 256 → u < 256 → priv_lvl_string t ≡ priv_lvl_string u → t ≡ u
unfolding priv_lvl_string named
priv_lvl_string_inj t u h k e =
    named-distinct priv_lvl_names (codes "PrivLvl") t u (unfold distinct fresh in refl) h k e

authen_type_string_inj :
    (t u : ℕ) → t < 256 → u < 256 → authen_type_string t ≡ authen_type_string u → t ≡ u
unfolding authen_type_string named
authen_type_string_inj t u h k e =
    named-distinct authen_type_names (codes "AuthenType") t u (unfold distinct fresh in refl) h k e

authen_service_string_inj :
    (t u : ℕ) → t < 256 → u < 256 → authen_service_string t ≡ authen_service_string u → t ≡ u
unfolding authen_service_string named
authen_service_string_inj t u h k e =
    named-distinct authen_service_names (codes "AuthenService") t u (unfold distinct fresh in refl)
      h k e

authen_status_string_inj :
    (t u : ℕ) → t < 256 → u < 256 → authen_status_string t ≡ authen_status_string u → t ≡ u
unfolding authen_status_string named
authen_status_string_inj t u h k e =
    named-distinct authen_status_names (codes "AuthenStatus") t u (unfold distinct fresh in refl) h
      k e

authen_method_string_inj :
    (t u : ℕ) → t < 256 → u < 256 → authen_method_string t ≡ authen_method_string u → t ≡ u
unfolding authen_method_string named
authen_method_string_inj t u h k e =
    named-distinct authen_method_names (codes "AuthenMethod") t u (unfold distinct fresh in refl) h
      k e

author_status_string_inj :
    (t u : ℕ) → t < 256 → u < 256 → author_status_string t ≡ author_status_string u → t ≡ u
unfolding author_status_string named
author_status_string_inj t u h k e =
    named-distinct author_status_names (codes "AuthorStatus") t u (unfold distinct fresh in refl) h
      k e

acct_reply_status_string_inj :
    (t u : ℕ) → t < 256 → u < 256 → acct_reply_status_string t ≡ acct_reply_status_string u → t ≡ u
unfolding acct_reply_status_string named
acct_reply_status_string_inj t u h k e =
    named-distinct acct_reply_status_names (codes "AcctReplyStatus") t u
      (unfold distinct fresh in refl) h k e

-- Two values of a byte that `String` prints alike are equal, for each of the nine kinds.
pub strings_inj :
    (t u : ℕ)
    → t < 256
    → u < 256
    → (header_type_string t ≡ header_type_string u → t ≡ u)
      × (authen_action_string t ≡ authen_action_string u → t ≡ u)
      × (priv_lvl_string t ≡ priv_lvl_string u → t ≡ u)
      × (authen_type_string t ≡ authen_type_string u → t ≡ u)
      × (authen_service_string t ≡ authen_service_string u → t ≡ u)
      × (authen_status_string t ≡ authen_status_string u → t ≡ u)
      × (authen_method_string t ≡ authen_method_string u → t ≡ u)
      × (author_status_string t ≡ author_status_string u → t ≡ u)
      × (acct_reply_status_string t ≡ acct_reply_status_string u → t ≡ u)
strings_inj t u h k = (
  header_type_string_inj t u h k,
  authen_action_string_inj t u h k,
  priv_lvl_string_inj t u h k,
  authen_type_string_inj t u h k,
  authen_service_string_inj t u h k,
  authen_status_string_inj t u h k,
  authen_method_string_inj t u h k,
  author_status_string_inj t u h k,
  acct_reply_status_string_inj t u h k,
)

-- For each kind but `PrivLvl`, `Validate` refuses exactly the values that `String` prints as a number.
pub validate-strings :
    (t : ℕ)
    → ((validate_header_type t ≡ err unknown_header_type)
        ↔ (header_type_string t ≡ unknown (codes "HeaderType") t))
      × ((validate_authen_action t ≡ err unknown_authen_action)
          ↔ (authen_action_string t ≡ unknown (codes "AuthenAction") t))
      × ((validate_authen_type t ≡ err unknown_authen_type)
          ↔ (authen_type_string t ≡ unknown (codes "AuthenType") t))
      × ((validate_authen_service t ≡ err unknown_authen_service)
          ↔ (authen_service_string t ≡ unknown (codes "AuthenService") t))
      × ((validate_authen_status t ≡ err unknown_authen_status)
          ↔ (authen_status_string t ≡ unknown (codes "AuthenStatus") t))
      × ((validate_authen_method t ≡ err unknown_authen_method)
          ↔ (authen_method_string t ≡ unknown (codes "AuthenMethod") t))
      × ((validate_author_status t ≡ err unknown_author_status)
          ↔ (author_status_string t ≡ unknown (codes "AuthorStatus") t))
      × ((validate_acct_reply_status t ≡ err unknown_acct_status)
          ↔ (acct_reply_status_string t ≡ unknown (codes "AcctReplyStatus") t))
unfolding validate_header_type header_type_string validate_authen_action authen_action_string
    validate_authen_type authen_type_string validate_authen_service authen_service_string
    validate_authen_status authen_status_string validate_authen_method authen_method_string
    validate_author_status author_status_string validate_acct_reply_status acct_reply_status_string
validate-strings t =
    unfold distinct fresh in
    (
      checked_name header_type_names (codes "HeaderType") t unknown_header_type refl,
      checked_name authen_action_names (codes "AuthenAction") t unknown_authen_action refl,
      checked_name authen_type_names (codes "AuthenType") t unknown_authen_type refl,
      checked_name authen_service_names (codes "AuthenService") t unknown_authen_service refl,
      checked_name authen_status_names (codes "AuthenStatus") t unknown_authen_status refl,
      checked_name authen_method_names (codes "AuthenMethod") t unknown_authen_method refl,
      checked_name author_status_names (codes "AuthorStatus") t unknown_author_status refl,
      checked_name acct_reply_status_names (codes "AcctReplyStatus") t unknown_acct_status refl,
    )
