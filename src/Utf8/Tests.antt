-- ===== src/Utf8/Tests.antt =====
-- Runs of the validation of lib/fizzy/utf8.cpp, and the theorem at a concrete text.
use fizzy.Common.{ℕ, ◌≡◌, refl, ◌↔◌, List, [], ◌∷◌, true, false, All}
use fizzy.Utf8.{utf8_validate}
use fizzy.Utf8.Spec.{IsScalar, encode_all}
use fizzy.Utf8.Sound.{utf8_validate_iff}

-- "a€"
abbrev euro : List ℕ
euro = 0x61 ∷ 0xE2 ∷ 0x82 ∷ 0xAC ∷ []

accepts_euro : utf8_validate euro ≡ true
unfolding utf8_validate
accepts_euro = refl

rejects_surrogate : utf8_validate (0xED ∷ 0xA0 ∷ 0x80 ∷ []) ≡ false
unfolding utf8_validate
rejects_surrogate = refl

rejects_overlong : utf8_validate (0xC0 ∷ 0x80 ∷ []) ≡ false
unfolding utf8_validate
rejects_overlong = refl

rejects_cut : utf8_validate (0xF0 ∷ 0x9F ∷ 0x98 ∷ []) ≡ false
unfolding utf8_validate
rejects_cut = refl

utf8_validate_iff_example :
    (utf8_validate euro ≡ true) ↔ ((cs : List ℕ) × All IsScalar cs × (euro ≡ encode_all cs))
utf8_validate_iff_example = utf8_validate_iff euro
