-- ===== src/Contact/Examples.antt =====
-- crates/types/src/contact.rs: tests, and the theorems at a concrete request.
use kit.Prelude.{◌≡◌, none, [], ◌∷◌, refl, ok, any}
use kit.Prelude.Text.Split.{trim_by, rsplit_once}
use kit.Prelude.Strings.{is_whitespace}
use kit.Contact.{
  ContactRequest, ferrflow, bug, check, filled_within, plausible_email, plausible_parts, ends_with,
}

abbrev request : ContactRequest
request = record {
  request_id = 1;
  product = ferrflow;
  kind = bug;
  subject = b'h' ∷ b'i' ∷ [];
  message = b'n' ∷ b'o' ∷ [];
  email = b'a' ∷ b'@' ∷ b'b' ∷ b'.' ∷ b'c' ∷ [];
  name = none;
  org_id = none;
  from_url = none;
}

accepted_test : check request ≡ ok tt
unfolding check filled_within plausible_email plausible_parts ends_with trim_by is_whitespace
    rsplit_once any
accepted_test = refl
