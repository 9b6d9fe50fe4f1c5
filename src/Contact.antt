-- ===== src/Contact.antt =====
-- crates/types/src/contact.rs: the checks on a contact request. Texts are their characters.
pub mod Accepted
mod Examples
use kit.Prelude.{
  ℕ, Bool, true, false, not, ◌&&◌, Option, none, some, String, List, [], ◌∷◌, any, ltb, leb, ◌==◌,
  length, if◌then◌else◌, Result, ok, err,
}
use kit.Prelude.Strings.{is_whitespace}
use kit.Prelude.Text.Split.{has, is_nil, trim_by, rsplit_once, strip_prefix}

abbrev pub subject_max : ℕ
subject_max = 200

abbrev pub message_max : ℕ
message_max = 10000

abbrev pub email_max : ℕ
email_max = 254

abbrev pub name_max : ℕ
name_max = 100

abbrev pub from_url_max : ℕ
from_url_max = 2048

pub data ContactProduct : Type 0 where
  ferrlabs ferrflow ferrvault ferrtrack ferrgrowth ferrfleet ferrlens ferrgames
        awesome_alternatives :
      ContactProduct

pub data RequestKind : Type 0 where
  question bug billing security privacy other : RequestKind

unfoldable pub product_label : ContactProduct → String
product_label ferrlabs = "ferrlabs"
product_label ferrflow = "ferrflow"
product_label ferrvault = "ferrvault"
product_label ferrtrack = "ferrtrack"
product_label ferrgrowth = "ferrgrowth"
product_label ferrfleet = "ferrfleet"
product_label ferrlens = "ferrlens"
product_label ferrgames = "ferrgames"
product_label awesome_alternatives = "awesome-alternatives"

unfoldable pub display_name : ContactProduct → String
display_name ferrlabs = "FerrLabs"
display_name ferrflow = "FerrFlow"
display_name ferrvault = "FerrVault"
display_name ferrtrack = "FerrTrack"
display_name ferrgrowth = "FerrGrowth"
display_name ferrfleet = "FerrFleet"
display_name ferrlens = "FerrLens"
display_name ferrgames = "FerrGames"
display_name awesome_alternatives = "awesome-alternatives"

unfoldable pub kind_label : RequestKind → String
kind_label question = "question"
kind_label bug = "bug"
kind_label billing = "billing"
kind_label security = "security"
kind_label privacy = "privacy"
kind_label other = "other"

pub record ContactRequest : Type 0 where
  pub request_id : ℕ
  pub product : ContactProduct
  pub kind : RequestKind
  pub subject : List ℕ
  pub message : List ℕ
  pub email : List ℕ
  pub name : Option (List ℕ)
  pub org_id : Option ℕ
  pub from_url : Option (List ℕ)

pub data InvalidContact : Type 0 where
  subject message email name from_url : InvalidContact

unfoldable pub filled_within : List ℕ → ℕ → Bool
filled_within text max = not (is_nil (trim_by is_whitespace text)) && leb (length text) max

-- `starts_with(c)` and `ends_with(c)`.
abbrev pub begins_with : ℕ → List ℕ → Bool
begins_with c [] = false
begins_with c (d ∷ ds) = d == c

unfoldable pub ends_with : ℕ → List ℕ → Bool
ends_with c [] = false
ends_with c (d ∷ []) = d == c
ends_with c (d ∷ e ∷ ds) = ends_with c (e ∷ ds)

unfoldable pub plausible_parts : Option (List ℕ × List ℕ) → Bool
plausible_parts none = false
plausible_parts (some (local, domain)) =
    not (is_nil local)
    && (not (begins_with b'.' domain) && (not (ends_with b'.' domain) && has b'.' domain))

unfoldable pub plausible_email : List ℕ → Bool
plausible_email address =
    if ltb email_max (length address)
    then false
    else if any is_whitespace address
    then false
    else plausible_parts (rsplit_once b'@' address)

abbrev pub https : List ℕ
https = b'h' ∷ b't' ∷ b't' ∷ b'p' ∷ b's' ∷ b':' ∷ b'/' ∷ b'/' ∷ []

unfoldable pub https_rest : Option (List ℕ) → Bool
https_rest none = false
https_rest (some rest) = not (is_nil rest) && not (any is_whitespace rest)

unfoldable pub https_url : List ℕ → Bool
https_url url = leb (length url) from_url_max && https_rest (strip_prefix https url)

-- `is_some_and`.
abbrev pub is_some_and : (List ℕ → Bool) → Option (List ℕ) → Bool
is_some_and p none = false
is_some_and p (some text) = p text

unfoldable pub check : ContactRequest → Result InvalidContact Unit
check r =
    if not (filled_within r.subject subject_max)
    then err subject
    else if not (filled_within r.message message_max)
    then err message
    else if not (plausible_email r.email)
    then err email
    else if is_some_and (λ text. ltb name_max (length text)) r.name
    then err name
    else if is_some_and (λ url. not (https_url url)) r.from_url
    then err from_url
    else ok tt

unfoldable pub labels : ContactRequest → List String
labels r = "contact" ∷ product_label r.product ∷ kind_label r.kind ∷ []
