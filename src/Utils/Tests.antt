-- ===== src/Utils/Tests.antt =====
-- Runs of src/utils at concrete values.
use alsa_gobject.Base.{some, [], ◌∷◌, ◌≡◌, refl}
use alsa_gobject.Samples.{platform}
use alsa_gobject.Platform.{answer, errno}
use alsa_gobject.Utils.Strings.{check_number, long_from_string, read_digits, read_sign, skip_spaces}
use alsa_gobject.Utils.Sysfs.{compare_u32}

-- " 42" with a new line, and a text with a letter.
parses : long_from_string platform (32 ∷ (52 ∷ (50 ∷ (10 ∷ [])))) ≡ some (answer 42)
unfolding long_from_string check_number read_digits read_sign skip_spaces
parses = refl

refuses : long_from_string platform (52 ∷ (97 ∷ (0 ∷ []))) ≡ some (errno 22)
unfolding long_from_string check_number read_digits read_sign skip_spaces
refuses = refl

-- The comparison never says that the first number is the smaller one.
unordered : compare_u32 1 2 ≡ compare_u32 2 2
unfolding compare_u32
unordered = refl
