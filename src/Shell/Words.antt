-- ===== src/Shell/Words.antt =====
-- What `parse_line` makes of a line of plain words.
use learning_os_project.Common.{
  ℕ, zero, suc, ◌≡◌, ◌≢◌, refl, sym, ap, ◌∙◌, false, List, [], ◌∷◌, ◌++◌, append-nil, take, arith,
  ne→==,
}
use learning_os_project.Shell.Parse.{
  is_blank, ltrim, is_trailing, keep_front, rtrim, until_blank, parse_args, parse_line,
}

abbrev pub AllPlain : List ℕ → Type 0
AllPlain [] = Unit {0}
AllPlain (c ∷ w) = (is_trailing c ≡ false) × AllPlain w

-- A word: not empty, without spaces, tabs and ends of lines, and no quote in front.
abbrev pub IsWord : List ℕ → Type 0
IsWord [] = ⊥
IsWord (c ∷ w) = (c ≢ 34) × AllPlain (c ∷ w)

abbrev pub AreWords : List (List ℕ) → Type 0
AreWords [] = Unit {0}
AreWords (w ∷ ws) = IsWord w × AreWords ws

-- The words with one space between two of them.
abbrev pub joined : List (List ℕ) → List ℕ
joined [] = []
joined (w ∷ []) = w
joined (w ∷ v ∷ ws) = w ++ (32 ∷ joined (v ∷ ws))

no_blank : (c : ℕ) → is_trailing c ≡ false → is_blank c ≡ false
no_blank c e = ground arith

keep_plain : (c : ℕ) (s : List ℕ) → is_trailing c ≡ false → keep_front c s ≡ c ∷ s
keep_plain c [] e = rw e refl
keep_plain c (d ∷ s) e = refl

rtrim-append : (w s : List ℕ) → AllPlain w → rtrim s ≡ s → rtrim (w ++ s) ≡ w ++ s
unfolding rtrim
rtrim-append [] s v e = e
rtrim-append (c ∷ w) s v e = rw (rtrim-append w s v.1 e) (keep_plain c (w ++ s) v.0)

plain : (w : List ℕ) → IsWord w → AllPlain w
plain [] v = absurd v
plain (c ∷ w) v = v.1

rtrim-joined : (ws : List (List ℕ)) → AreWords ws → rtrim (joined ws) ≡ joined ws
unfolding rtrim
rtrim-joined [] v = refl
rtrim-joined (w ∷ []) v =
    let whole = append-nil w in sym (ap rtrim whole) ∙ rtrim-append w [] (plain w v.0) refl ∙ whole
rtrim-joined (w ∷ v ∷ ws) words =
    rtrim-append w (32 ∷ joined (v ∷ ws)) (plain w words.0)
      (ap (keep_front 32) (rtrim-joined (v ∷ ws) words.1) ∙ keep_space v ws words.1)
  where
    keep_space :
        (v : List ℕ) (ws : List (List ℕ))
        → AreWords (v ∷ ws)
        → keep_front 32 (joined (v ∷ ws)) ≡ 32 ∷ joined (v ∷ ws)
    keep_space [] ws words = absurd words.0
    keep_space (c ∷ v) [] words = refl
    keep_space (c ∷ v) (w ∷ ws) words = refl

ltrim-joined : (ws : List (List ℕ)) → AreWords ws → ltrim (joined ws) ≡ joined ws
unfolding ltrim
ltrim-joined [] v = refl
ltrim-joined ([] ∷ ws) v = absurd v.0
ltrim-joined ((c ∷ w) ∷ []) v = rw (no_blank c v.0.1.0) refl
ltrim-joined ((c ∷ w) ∷ u ∷ ws) v = rw (no_blank c v.0.1.0) refl

until_blank-word : (w : List ℕ) → AllPlain w → until_blank w ≡ (w, [])
unfolding until_blank
until_blank-word [] v = refl
until_blank-word (c ∷ w) v = rw (no_blank c v.0, until_blank-word w v.1) refl

until_blank-append : (w s : List ℕ) → AllPlain w → until_blank (w ++ (32 ∷ s)) ≡ (w, 32 ∷ s)
unfolding until_blank
until_blank-append [] s v = refl
until_blank-append (c ∷ w) s v = rw (no_blank c v.0, until_blank-append w s v.1) refl

parse_args-joined :
    (n : ℕ) (ws : List (List ℕ)) → AreWords ws → parse_args n (joined ws) ≡ take n ws
unfolding parse_args ltrim
parse_args-joined zero ws v = refl
parse_args-joined (suc n) [] v = refl
parse_args-joined (suc n) ([] ∷ ws) v = absurd v.0
parse_args-joined (suc n) ((c ∷ w) ∷ []) v =
    let rest = parse_args-joined n [] v.1 in
    let word = until_blank-word (c ∷ w) v.0.1 in rw (ne→== c 34 v.0.0, word, rest, parse_args) refl
parse_args-joined (suc n) ((c ∷ w) ∷ u ∷ ws) v =
    let rest = parse_args-joined n (u ∷ ws) v.1 in
    let word = until_blank-append (c ∷ w) (joined (u ∷ ws)) v.0.1 in
    let trimmed = ltrim-joined (u ∷ ws) v.1 in
    rw (ne→== c 34 v.0.0, word, trimmed, rest, parse_args) refl

-- A line of words that are not empty, have no space, tab or end of line and no quote in front, one
-- space between two of them, is taken apart into these words, of which those that there is room for
-- are given.
pub parse_line-joined :
    (ws : List (List ℕ)) (max_args : ℕ)
    → AreWords ws
    → parse_line (joined ws) max_args ≡ take max_args ws
unfolding parse_line
parse_line-joined ws max_args v =
    ap (λ (s : List ℕ). parse_args max_args (rtrim s)) (ltrim-joined ws v)
    ∙ ap (parse_args max_args) (rtrim-joined ws v)
    ∙ parse_args-joined max_args ws v
