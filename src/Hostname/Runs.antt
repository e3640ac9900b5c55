-- ===== src/Hostname/Runs.antt =====
-- What the regular expressions of src/traits.rs and src/hosts.rs match: runs of characters of one
-- class. `replace_all` and `split` of such an expression, and a test for its first character.
use zeronsd.Base.{ℕ, ◌≡◌, Bool, false, ◌||◌, not, List, [], ◌∷◌, ◌++◌, Text, if◌then◌else◌, ◌==◌}
use zeronsd.Crates.{Crates}
use zeronsd.Hostname.{whitespace_pattern, catch_all_pattern}

-- Each maximal run of characters of the class gives one replacement. The flag says whether the
-- character before belongs to a run.
abbrev pub replace_from : (ℕ → Bool) → Text → Bool → Text → Text
replace_from p r in_run [] = []
replace_from p r in_run (c ∷ s) =
    let rest = replace_from p r (p c) s in
    if p c then (if in_run then rest else r ++ rest) else c ∷ rest

abbrev pub replace_runs : (ℕ → Bool) → Text → Text → Text
replace_runs p r s = replace_from p r false s

abbrev pub push_front : ℕ → List Text → List Text
push_front c [] = (c ∷ []) ∷ []
push_front c (field ∷ fields) = (c ∷ field) ∷ fields

-- The fields between maximal runs: a run at either end leaves an empty field there.
abbrev pub split_from : (ℕ → Bool) → Bool → Text → List Text
split_from p in_run [] = [] ∷ []
split_from p in_run (c ∷ s) =
    let rest = split_from p (p c) s in
    if p c then (if in_run then rest else [] ∷ rest) else push_front c rest

abbrev pub split_runs : (ℕ → Bool) → Text → List Text
split_runs p s = split_from p false s

-- `^\s*#`: a mark after characters of the class
abbrev pub starts_after : (ℕ → Bool) → ℕ → Text → Bool
starts_after p mark [] = false
starts_after p mark (c ∷ s) = c == mark || (if p c then starts_after p mark s else false)

module _ (C : Crates) where
  -- The characters that `[^.\s\w\d-]` does not match.
  abbrev pub is_kept : ℕ → Bool
  is_kept c = c == b'.' || C.is_space c || C.is_word c || C.is_digit c || c == b'-'

  abbrev pub is_dropped : ℕ → Bool
  is_dropped c = not (is_kept c)

-- `$` starts the name of a group in a replacement text.
abbrev pub has_dollar : Text → Bool
has_dollar [] = false
has_dollar (c ∷ s) = c == b'$' || has_dollar s

-- The documented meaning of the four patterns of the program, for replacement texts without `$`. `-` is no white space, and neither
-- is `#`.
pub record IsRegexLawful (C : Crates) : Type 0 where
  pub replace_all_whitespace :
      (s r : Text)
      → has_dollar r ≡ false
      → C.replace_all whitespace_pattern s r ≡ replace_runs C.is_space r s
  pub replace_all_catch_all :
      (s r : Text)
      → has_dollar r ≡ false
      → C.replace_all catch_all_pattern s r ≡ replace_runs (is_dropped C) r s
  pub split_whitespace : (s : Text) → C.split whitespace_pattern s ≡ split_runs C.is_space s
  pub is_match_comment : (s : Text) → C.is_match "^\\s*#" s ≡ starts_after C.is_space b'#' s
  pub dash_not_space : C.is_space b'-' ≡ false
