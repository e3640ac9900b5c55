-- ===== src/Log.antt =====
-- src/log.rs: log levels, their names, and the levels of tracing, which are a parameter.
use zeronsd.Base.{
  ◌≡◌, refl, ◌∙◌, ap, Bool-cases, inl, inr, Option, some, none, Text, codes, text_same,
  text_same_iff, if◌then◌else◌, Outcome, ok, err, ◌↔◌,
}

pub data LevelFilter : Type 0 where
  off error warn info trace debug : LevelFilter

-- `tracing::Level`
pub record Tracing : Type 1 where
  pub Level : Type 0
  pub error_level : Level
  pub warn_level : Level
  pub info_level : Level
  pub trace_level : Level
  pub debug_level : Level

module _ (L : Tracing) where
  -- `to_log`
  unfoldable pub to_log : LevelFilter → Option L.Level
  to_log off = none
  to_log error = some L.error_level
  to_log warn = some L.warn_level
  to_log info = some L.info_level
  to_log trace = some L.trace_level
  to_log debug = some L.debug_level

-- `to_string`
unfoldable pub to_string : LevelFilter → Text
to_string off = codes "off"
to_string error = codes "error"
to_string warn = codes "warn"
to_string info = codes "info"
to_string trace = codes "trace"
to_string debug = codes "debug"

-- `from_str`
unfoldable pub from_str : Text → Outcome LevelFilter
from_str s =
    if text_same s (codes "off")
    then ok off
    else if text_same s (codes "error")
    then ok error
    else if text_same s (codes "warn")
    then ok warn
    else if text_same s (codes "info")
    then ok info
    else if text_same s (codes "trace")
    then ok trace
    else if text_same s (codes "debug")
    then ok debug
    else err

from_str-to_string : (l : LevelFilter) → from_str (to_string l) ≡ ok l
unfolding from_str to_string
from_str-to_string off = refl
from_str-to_string error = refl
from_str-to_string warn = refl
from_str-to_string info = refl
from_str-to_string trace = refl
from_str-to_string debug = refl

-- The branch for a name.
test_lem :
    (s name : Text) (m l : LevelFilter) (rest : Outcome LevelFilter)
    → name ≡ to_string m
    → (rest ≡ ok l → s ≡ to_string l)
    → (if text_same s name then ok m else rest) ≡ ok l
    → s ≡ to_string l
test_lem s name m l rest e later h = elim (Bool-cases (text_same s name)) [
  | inl same ↦
      let found : ok m ≡ ok l = rw same at h in
      (text_same_iff s name).0 same ∙ e ∙ ap to_string (cc found)
  | inr differ ↦ later (rw differ at h)
]

parsed : (s : Text) (l : LevelFilter) → from_str s ≡ ok l → s ≡ to_string l
unfolding from_str to_string
parsed s l = test_lem s _ off l _ refl (
    test_lem s _ error l _ refl (
      test_lem s _ warn l _ refl (
        test_lem s _ info l _ refl
          (test_lem s _ trace l _ refl (test_lem s _ debug l _ refl (λ (e : err ≡ ok l). cc e))))))

-- A text is parsed to a level if and only if it is the text that the level is printed as.
pub from_str_iff : (s : Text) (l : LevelFilter) → (from_str s ≡ ok l) ↔ (s ≡ to_string l)
unfolding from_str to_string
from_str_iff s l = (λ e. parsed s l e, λ e. ap from_str e ∙ from_str-to_string l)
