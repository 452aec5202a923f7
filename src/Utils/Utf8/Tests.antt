-- ===== src/Utils/Utf8/Tests.antt =====
-- Some code points.
use co_uring_web.Prelude.{◌∷◌, [], some, ◌≡◌, refl}
use co_uring_web.Utils.Utf8.{from_unicode}

euro_sign : from_unicode 0x20ac ≡ some (0xe2 ∷ 0x82 ∷ 0xac ∷ [])
unfolding from_unicode
euro_sign = refl
