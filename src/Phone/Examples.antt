-- ===== src/Phone/Examples.antt =====
-- Telephone numbers written in the ways that the code expects.
use kub.Base.{ok, err, empty_phone, invalid_phone_length, ◌≡◌, refl, trim_space, has_prefix}
use kub.Phone.{digits_of, size, sanitize_e164_digits}
use kub.Phone.Canonical.{Canonical, sanitize-Canonical}

trunk_prefix : sanitize_e164_digits "8 (701) 123-45-67" ≡ ok "77011234567"
unfolding sanitize_e164_digits digits_of trim_space size has_prefix
trunk_prefix = refl

too_short : sanitize_e164_digits "+7 701 123" ≡ err invalid_phone_length
unfolding sanitize_e164_digits digits_of trim_space size has_prefix
too_short = refl

no_digits : sanitize_e164_digits " - " ≡ err empty_phone
unfolding sanitize_e164_digits digits_of trim_space size has_prefix
no_digits = refl

sanitize-Canonical_example : Canonical "77011234567"
sanitize-Canonical_example = sanitize-Canonical "8 (701) 123-45-67" "77011234567" trunk_prefix
