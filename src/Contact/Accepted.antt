-- ===== src/Contact/Accepted.antt =====
-- crates/types/src/contact.rs: which requests are accepted.
use kit.Prelude.{ℕ, ◌≤◌, true, false, not, Option, none, some, List, ◌∷◌, ◌++◌, ◌≡◌, any, length}
use kit.Prelude.Strings.{is_whitespace}
use kit.Prelude.Text.Split.{has, is_nil}
use kit.Contact.{
  ContactRequest, subject_max, message_max, email_max, name_max, from_url_max, begins_with,
  ends_with, https,
}

-- A text with a character that is no white space, within a length.
pub IsText : List ℕ → ℕ → Type 0
IsText text max = (any (λ c. not (is_whitespace c)) text ≡ true) × (length text ≤ max)

-- A part, the last `@`, and a domain with a dot that neither begins nor ends with one.
pub record IsAddress (email local domain : List ℕ) : Type 0 where
  pub short : length email ≤ email_max
  pub unspaced : any is_whitespace email ≡ false
  pub cut : email ≡ local ++ b'@' ∷ domain
  pub last : has b'@' domain ≡ false
  pub named : is_nil local ≡ false
  pub no_first_dot : begins_with b'.' domain ≡ false
  pub no_last_dot : ends_with b'.' domain ≡ false
  pub dotted : has b'.' domain ≡ true

pub IsHttps : List ℕ → Type 0
IsHttps url =
    (length url ≤ from_url_max)
    × ((rest : List ℕ) × (url ≡ https ++ rest)
        × (is_nil rest ≡ false)
        × (any is_whitespace rest ≡ false))

pub IfSome : (List ℕ → Type 0) → Option (List ℕ) → Type 0
IfSome P none = Unit
IfSome P (some text) = P text

-- A request whose parts are all as they should be.
pub record IsContact (r : ContactRequest) : Type 0 where
  pub subject : IsText r.subject subject_max
  pub message : IsText r.message message_max
  pub email : (local : List ℕ) × (domain : List ℕ) × IsAddress r.email local domain
  pub name : IfSome (λ text. length text ≤ name_max) r.name
  pub from_url : IfSome IsHttps r.from_url
