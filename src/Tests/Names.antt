-- ===== src/Tests/Names.antt =====
-- The theorems on names (src/traits.rs) at concrete texts.
use zeronsd.Base.{◌≡◌, refl, false, some, [], ◌∷◌, Text, ok, is_empty, All}
use zeronsd.Hostname.{translate, to_hostname, trim, trim_start, ends_with_dot}
use zeronsd.Hostname.Translate.{IsClean, to_hostname_sound, to_hostname-translate}
use zeronsd.Tests.Toy.{toy, toy-IsRegexLawful}

-- ` a  !b`
abbrev spaced : Text
spaced = 32 ∷ b'a' ∷ 32 ∷ 32 ∷ b'!' ∷ b'b' ∷ []

-- `a-b`
abbrev dashed : Text
dashed = b'a' ∷ b'-' ∷ b'b' ∷ []

to_hostname_sound_example :
    (t : Text) × (toy.text_into_name t ≡ some dashed)
    × (t ≡ translate toy spaced)
    × (is_empty t ≡ false)
    × (ends_with_dot t ≡ false)
    × All (IsClean toy toy-IsRegexLawful) t
unfolding to_hostname translate trim trim_start
to_hostname_sound_example = to_hostname_sound toy toy-IsRegexLawful spaced dashed refl

to_hostname-translate_example : to_hostname toy (translate toy spaced) ≡ ok dashed
unfolding to_hostname translate trim trim_start
to_hostname-translate_example = to_hostname-translate toy toy-IsRegexLawful spaced
