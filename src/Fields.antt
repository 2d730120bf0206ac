-- ===== src/Fields.antt =====
-- The typed fields of header_fields.go, authenticate_fields.go, authorize_fields.go and
-- accounting_fields.go. A uint8 kind is a number; its named constants and its `Validate` are here.
pub mod Header
pub mod Authen
pub mod Author
pub mod Acct
pub mod Checks
use tacquito.Base.{ℕ, Bool, true, false, ◌||◌, List, [], ◌∷◌, ◌==◌, if◌then◌else◌}
use tacquito.Base.{Result, ok, err, Error, ◌>>=◌, ◌>>◌}

-- `switch t { case a, b, …: return nil }`.
abbrev pub among : ℕ → List ℕ → Bool
among t [] = false
among t (c ∷ cs) = t == c || among t cs

abbrev pub require : Bool → Error → Result (Unit {0})
require true e = ok tt
require false e = err e

-- `for _, t := range []Field{…} { if err := t.Validate(…); err != nil { return err } }`.
unfoldable pub validate_all : List (Result (Unit {0})) → Result (Unit {0})
validate_all [] = ok tt
validate_all (r ∷ rs) = r >> validate_all rs
