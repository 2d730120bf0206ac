-- ===== src/Fields/Author.antt =====
-- authorize_fields.go: the fields of authorization packets.
use tacquito.Base.{ℕ, ◌||◌, List, [], ◌∷◌, ltb, if◌then◌else◌, Bytes, length}
use tacquito.Base.{Result, ok, err, unknown_authen_method, unknown_author_status, not_ascii}
use tacquito.Base.{invalid_arg_length, ◌>>◌}
use tacquito.Fields.{among, require}
use tacquito.Wire.{is_all_ascii}

abbrev pub authen_method_not_set : ℕ
authen_method_not_set = 0x0

abbrev pub authen_method_none : ℕ
authen_method_none = 0x01

abbrev pub authen_method_krb5 : ℕ
authen_method_krb5 = 0x02

abbrev pub authen_method_line : ℕ
authen_method_line = 0x03

abbrev pub authen_method_enable : ℕ
authen_method_enable = 0x04

abbrev pub authen_method_local : ℕ
authen_method_local = 0x05

abbrev pub authen_method_tacacs_plus : ℕ
authen_method_tacacs_plus = 0x06

abbrev pub authen_method_guest : ℕ
authen_method_guest = 0x08

abbrev pub authen_method_radius : ℕ
authen_method_radius = 0x10

abbrev authen_methods : List ℕ
authen_methods =
    authen_method_not_set ∷ authen_method_none ∷ authen_method_krb5 ∷ authen_method_line
    ∷ authen_method_enable ∷ authen_method_local ∷ authen_method_tacacs_plus ∷ authen_method_guest
    ∷ authen_method_radius ∷ []

unfoldable pub validate_authen_method : ℕ → Result (Unit {0})
validate_authen_method t = require (among t authen_methods) unknown_authen_method

unfoldable pub validate_arg : Bytes → Result (Unit {0})
validate_arg t =
    if is_all_ascii t
    then if ltb (length t) 2 || ltb 255 (length t) then err invalid_arg_length else ok tt
    else err not_ascii

abbrev pub author_status_pass_add : ℕ
author_status_pass_add = 0x01

abbrev pub author_status_pass_repl : ℕ
author_status_pass_repl = 0x02

abbrev pub author_status_fail : ℕ
author_status_fail = 0x10

abbrev pub author_status_error : ℕ
author_status_error = 0x11

abbrev author_statuses : List ℕ
author_statuses =
    author_status_pass_add ∷ author_status_pass_repl ∷ author_status_fail ∷ author_status_error ∷ []

unfoldable pub validate_author_status : ℕ → Result (Unit {0})
validate_author_status t = require (among t author_statuses) unknown_author_status

unfoldable pub validate_author_server_msg : Bytes → Result (Unit {0})
validate_author_server_msg s = require (is_all_ascii s) not_ascii

unfoldable pub validate_author_data : Bytes → Result (Unit {0})
validate_author_data s = require (is_all_ascii s) not_ascii

-- `for _, t := range a.Args { if err := t.Validate(nil); err != nil { return err } }`.
unfoldable pub validate_args : List Bytes → Result (Unit {0})
validate_args [] = ok tt
validate_args (t ∷ ts) = validate_arg t >> validate_args ts
