-- ===== src/Hostname/Translate.antt =====
-- The text that `to_hostname` of src/traits.rs hands to the DNS library.
use mathlib.Core.List.{reverse-reverse, reverse-cons}
use zeronsd.Base.{
  ℕ, ◌≡◌, ◌⊎◌, refl, ◌∙◌, ap, sym, Bool, true, false, [], ◌∷◌, ◌++◌, Text, All, arith, reverse, ok,
  err, some, or_err, Bool-cases, inl, inr, is_empty, or_err-eq-ok, text_same, text_same_iff,
}
use zeronsd.Crates.{Crates}
use zeronsd.Hostname.{trim_start, trim, ends_with_dot, translate, to_hostname, dot, dash}
use zeronsd.Hostname.Runs.{replace_runs, replace_from, is_dropped, IsRegexLawful}

module _ (p : ℕ → Bool) where
  -- No character of the class.
  abbrev pub Lacks : Text → Type 0
  Lacks s = All (λ c. p c ≡ false) s

  trim_start_of_Lacks : (s : Text) → Lacks s → trim_start p s ≡ s
  unfolding trim_start
  trim_start_of_Lacks [] h = refl
  trim_start_of_Lacks (c ∷ s) (h, hs) = rw h

module _ (P : ℕ → Type 0) where
  All-everywhere : (s : Text) → ((c : ℕ) → P c) → All P s
  All-everywhere [] h = tt
  All-everywhere (c ∷ s) h = (h c, All-everywhere s h)

  All-append : (s t : Text) → All P s → All P t → All P (s ++ t)
  All-append [] t h k = k
  All-append (c ∷ s) t (h, hs) k = (h, All-append s t hs k)

  All-reverse : (s : Text) → All P s → All P (reverse s)
  All-reverse [] h = tt
  All-reverse (c ∷ s) (h, hs) =
      rw reverse-cons (All-append (reverse s) (c ∷ []) (All-reverse s hs) (h, tt))

  All-trim_start : (p : ℕ → Bool) (s : Text) → All P s → All P (trim_start p s)
  unfolding trim_start
  All-trim_start p [] h = tt
  All-trim_start p (c ∷ s) (h, hs) = elim (Bool-cases (p c)) [
    | inl e ↦ rw e (All-trim_start p s hs)
    | inr e ↦ rw e (h, hs)
  ]

  All-trim : (p : ℕ → Bool) (s : Text) → All P s → All P (trim p s)
  unfolding trim
  All-trim p s h = All-reverse _ (All-trim_start p _ (All-reverse _ (All-trim_start p s h)))

  -- A property of the replacement, and of every character outside the class.
  All-replace_from :
      (p : ℕ → Bool) (r : Text) (b : Bool) (s : Text)
      → All P r
      → All (λ c. p c ≡ false → P c) s
      → All P (replace_from p r b s)
  All-replace_from p r b [] hr h = tt
  All-replace_from p r true (c ∷ s) hr (h, hs) = elim (Bool-cases (p c)) [
    | inl e ↦ rw e (All-replace_from p r true s hr hs)
    | inr e ↦ rw e (h e, All-replace_from p r false s hr hs)
  ]
  All-replace_from p r false (c ∷ s) hr (h, hs) = elim (Bool-cases (p c)) [
    | inl e ↦ rw e (All-append r _ hr (All-replace_from p r true s hr hs))
    | inr e ↦ rw e (h e, All-replace_from p r false s hr hs)
  ]

trim_of_Lacks : (p : ℕ → Bool) (s : Text) → Lacks p s → trim p s ≡ s
unfolding trim
trim_of_Lacks p s h =
    ap reverse (
      ap (trim_start p) (ap reverse (trim_start_of_Lacks p s h))
      ∙ trim_start_of_Lacks p (reverse s) (All-reverse _ s h))
    ∙ reverse-reverse s

replace_from_of_Lacks :
    (p : ℕ → Bool) (r s : Text) (b : Bool) → Lacks p s → replace_from p r b s ≡ s
replace_from_of_Lacks p r [] b h = refl
replace_from_of_Lacks p r (c ∷ s) b (h, hs) = rw (h, replace_from_of_Lacks p r s false hs)

module _ (C : Crates) (R : IsRegexLawful C) where
  -- A character that is neither white space nor dropped.
  abbrev pub IsClean : ℕ → Type 0
  IsClean c = (C.is_space c ≡ false) × (is_dropped C c ≡ false)

  -- A translated text has letters, digits, `.`, `-` and other word characters only.
  pub translate-IsClean : (s : Text) → All IsClean (translate C s)
  unfolding translate
  translate-IsClean s =
      rw
        (
          R.replace_all_whitespace (trim C.is_space s) (dash ∷ []) refl,
          R.replace_all_catch_all (replace_runs C.is_space (dash ∷ []) (trim C.is_space s)) [] refl,
        )
        (All-trim IsClean C.is_space _ (
          All-replace_from IsClean (is_dropped C) [] false _ tt (
            All-replace_from (λ c. is_dropped C c ≡ false → IsClean c) C.is_space (dash ∷ []) false
              _ ((λ e. (R.dash_not_space, e)), tt)
              (All-everywhere _ (trim C.is_space s) (λ c e e'. (e, e'))))))

  Lacks-space : (s : Text) → All IsClean s → Lacks C.is_space s
  Lacks-space [] h = tt
  Lacks-space (c ∷ s) ((h, k), hs) = (h, Lacks-space s hs)

  Lacks-dropped : (s : Text) → All IsClean s → Lacks (is_dropped C) s
  Lacks-dropped [] h = tt
  Lacks-dropped (c ∷ s) ((h, k), hs) = (k, Lacks-dropped s hs)

  -- A clean text is left as it is.
  pub translate_of_IsClean : (s : Text) → All IsClean s → translate C s ≡ s
  unfolding translate
  translate_of_IsClean s h =
      let no_space = Lacks-space s h in
      rw
        (
          R.replace_all_whitespace (trim C.is_space s) (dash ∷ []) refl,
          R.replace_all_catch_all (replace_runs C.is_space (dash ∷ []) (trim C.is_space s)) [] refl,
          trim_of_Lacks C.is_space s no_space,
          replace_from_of_Lacks C.is_space (dash ∷ []) s false no_space,
          replace_from_of_Lacks (is_dropped C) [] s false (Lacks-dropped s h),
        )
        (trim_of_Lacks C.is_space s no_space)

  -- `to_hostname` gives the same for a text and for its translation.
  pub to_hostname-translate : (s : Text) → to_hostname C (translate C s) ≡ to_hostname C s
  unfolding to_hostname
  to_hostname-translate s = rw (translate_of_IsClean (translate C s) (translate-IsClean s))

  -- If `to_hostname` gives a name, it is the DNS library's reading of the translated text, and
  -- that is not empty, does not end in a dot, and has only characters that are not white space and
  -- are letters, digits, other word characters, dots or dashes.
  pub to_hostname_sound :
      (s : Text) (name : C.Name)
      → to_hostname C s ≡ ok name
      → (t : Text) × (C.text_into_name t ≡ some name)
        × (t ≡ translate C s)
        × (is_empty t ≡ false)
        × (ends_with_dot t ≡ false)
        × All IsClean t
  unfolding to_hostname
  to_hostname_sound s name h =
      let same = trim_of_Lacks C.is_space _ (Lacks-space _ (translate-IsClean s)) in
      let found : or_err (C.text_into_name (trim C.is_space (translate C s))) ≡ ok name =
        ground arith in
      (
        translate C s,
        rw same at (or_err-eq-ok _ found),
        refl,
        ground arith,
        ground arith,
        translate-IsClean s,
      )

  -- A text without white space and dropped characters that is not empty and does not end in a dot
  -- is handed to the DNS library unchanged.
  pub to_hostname_of_IsClean :
      (s : Text)
      → All IsClean s
      → is_empty s ≡ false
      → ends_with_dot s ≡ false
      → to_hostname C s ≡ or_err (C.text_into_name s)
  unfolding to_hostname
  to_hostname_of_IsClean s h some_char no_dot =
      rw (translate_of_IsClean s h, trim_of_Lacks C.is_space s (Lacks-space s h))
        (elim (Bool-cases (text_same s (dot ∷ []))) [
          | inl same ↦ cc (sym no_dot ∙ ap ends_with_dot ((text_same_iff s (dot ∷ [])).0 same))
          | inr other ↦ rw (other, no_dot, some_char)
        ])

  -- Names that are empty after translation, or end in a dot, are refused.
  pub to_hostname_refuses :
      (s : Text)
      → (is_empty (translate C s) ≡ true) ⊎ (ends_with_dot (translate C s) ≡ true)
      → to_hostname C s ≡ err
  unfolding to_hostname
  to_hostname_refuses s (inl h) = ground arith
  to_hostname_refuses s (inr h) = ground arith
