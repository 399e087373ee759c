-- ===== src/Tenancy/Names.antt =====
-- The ids that integrations/tenancy.py admits: what the pattern says of their characters.
use unlearning.Prelude.{◌≡◌, refl, true, false, some, Option, [], ◌∷◌, ◌++◌, all, arith, Str, ok}
use unlearning.Prelude.Eq.{nat_eq, elem}
use unlearning.Prelude.Text.{strip, strip_idem, starts_with}
use unlearning.Tenancy.{is_name_char, tenant_re, or_empty, validate_tenant_id}

-- No character of an id separates the parts of a path.
name_chars-no_slash : (s : Str) → all is_name_char s ≡ true → elem b'/' s ≡ false
name_chars-no_slash [] h = refl
name_chars-no_slash (c ∷ s) h = ground (arith, name_chars-no_slash s)

pub tenant_re-no_slash : (tid : Str) → tenant_re tid ≡ true → elem b'/' tid ≡ false
unfolding tenant_re
tenant_re-no_slash [] h = absurd (cc)
tenant_re-no_slash (c ∷ s) h = ground (arith, name_chars-no_slash s)

-- An id that was validated is its own stripped text, and fits the pattern.
pub validated_name :
    (tenant_id : Option Str) {tid : Str}
    → validate_tenant_id tenant_id ≡ ok tid
    → (tid ≡ strip (or_empty tenant_id)) × (tenant_re tid ≡ true)
unfolding validate_tenant_id
validated_name tenant_id h = ground arith

pub validate_again :
    (tenant_id : Option Str) {tid : Str}
    → validate_tenant_id tenant_id ≡ ok tid
    → validate_tenant_id (some tid) ≡ ok tid
unfolding validate_tenant_id
validate_again tenant_id h = ground (arith, strip_idem (or_empty tenant_id))

-- A text with no slash does not begin with another and a slash.
pub starts-no_slash : (s p : Str) → elem b'/' s ≡ false → starts_with s (p ++ b'/' ∷ []) ≡ false
starts-no_slash [] [] h = refl
starts-no_slash [] (c ∷ p) h = refl
starts-no_slash (d ∷ s) [] h = ground arith
starts-no_slash (d ∷ s) (c ∷ p) h = ground (arith, starts-no_slash s p)

pub starts-prefix : (r s p : Str) → starts_with (r ++ s) (r ++ p) ≡ starts_with s p
starts-prefix [] s p = refl
starts-prefix (c ∷ r) s p = ground (arith, starts-prefix r s p)
