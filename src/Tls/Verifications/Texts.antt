-- ===== src/Tls/Verifications/Texts.antt =====
-- pkg/tls/verifications.go: reading back what names the methods.
use mproxy.Prelude.{
  ℕ, true, false, List, [], ◌∷◌, ◌++◌, map, ◌≡◌, refl, ap, ◌∙◌, if◌then◌else◌, ◌==◌, All,
  Bool-cases, inl, inr, arith, ◌<◌, subst,
}
use mproxy.Errors.Results.{ok}
use mproxy.Handler.{eq_bytes}
use mproxy.Tls.Verifications.{
  Text, Verification, by_ocsp, by_crl, is_space, upper, to_upper, trim_left, cons_right, trim_right,
  trim_space, with_first, split, name_of, parse_name, parse_validation, parse_all,
  env_parse_slice_validate,
}

space-comma : (c : ℕ) → is_space c ≡ true → (c == 44) ≡ false
unfolding is_space
space-comma c h = ground arith

-- A name's text with spaces around it, the letters small or capital.
pub record Entry : Type 0 where
  pub before : Text
  pub word : Text
  pub after : Text
  pub means : Verification

abbrev IsSpaces : Text → Type 0
IsSpaces text = All (λ c. is_space c ≡ true) text

abbrev pub IsEntry : Entry → Type 0
IsEntry e = IsSpaces e.before × (to_upper e.word ≡ name_of e.means) × IsSpaces e.after

abbrev pub text_of : Entry → Text
text_of e = e.before ++ e.word ++ e.after

-- The entries' texts with commas between them.
abbrev pub written : Entry → List Entry → Text
written e [] = text_of e
written e (next ∷ more) = text_of e ++ 44 ∷ written next more

with_first-right :
    (c : ℕ) (ps qs : List Text)
    → map trim_right ps ≡ map trim_right qs
    → map trim_right (with_first c ps) ≡ map trim_right (with_first c qs)
unfolding trim_right
with_first-right c [] [] h = refl
with_first-right c [] (q ∷ qs) h = cc
with_first-right c (p ∷ ps) [] h = cc
with_first-right c (p ∷ ps) (q ∷ qs) h = cc

split-cons_right :
    (c : ℕ) (rest : Text)
    → map trim_right (split (cons_right c rest)) ≡ map trim_right (split (c ∷ rest))
unfolding split trim_right
split-cons_right c [] = elim (Bool-cases (is_space c)) [
  | inl space ↦ rw (space-comma c space, space) refl
  | inr other ↦ rw other refl
]
split-cons_right c (d ∷ ds) = refl

split-trim_right : (v : Text) → map trim_right (split (trim_right v)) ≡ map trim_right (split v)
unfolding split trim_right
split-trim_right [] = refl
split-trim_right (c ∷ cs) = split-cons_right c (trim_right cs) ∙ (elim (Bool-cases (c == 44)) [
  | inl comma ↦ rw comma (ap (λ ts. [] ∷ ts) (split-trim_right cs))
  | inr other ↦
      rw other (with_first-right c (split (trim_right cs)) (split cs) (split-trim_right cs))
])

trim_left-cons_right :
    (c : ℕ) (rest : Text)
    → trim_left (cons_right c rest) ≡ (if is_space c then trim_left rest else cons_right c rest)
unfolding trim_left
trim_left-cons_right c [] = elim (Bool-cases (is_space c)) [
  | inl space ↦ rw space refl
  | inr other ↦ rw other (rw other refl)
]
trim_left-cons_right c (d ∷ ds) = refl

trim_swap : (v : Text) → trim_right (trim_left v) ≡ trim_left (trim_right v)
unfolding trim_left trim_right
trim_swap [] = refl
trim_swap (c ∷ cs) = elim (Bool-cases (is_space c)) [
  | inl space ↦ rw (trim_left-cons_right c (trim_right cs), space) (trim_swap cs)
  | inr other ↦ rw (trim_left-cons_right c (trim_right cs), other) refl
]

split-first : (v : Text) → (p : Text) × (ps : List Text) × (split v ≡ p ∷ ps)
unfolding split
split-first [] = ([], [], refl)
split-first (c ∷ cs) =
    let (p, ps, first) = split-first cs in
    elim (Bool-cases (c == 44)) [
      | inl comma ↦ ([], split cs, rw comma refl)
      | inr other ↦ (c ∷ p, ps, rw (other, first) refl)
    ]

with_first_space :
    (c : ℕ) (v : Text)
    → is_space c ≡ true
    → map trim_space (split v) ≡ map trim_space (with_first c (split v))
unfolding trim_left
with_first_space c v space = let (p, ps, first) = split-first v in rw first (rw space refl)

split-trim_left : (v : Text) → map trim_space (split (trim_left v)) ≡ map trim_space (split v)
unfolding split trim_left
split-trim_left [] = refl
split-trim_left (c ∷ cs) = elim (Bool-cases (is_space c)) [
  | inl space ↦ rw (space-comma c space, space) (split-trim_left cs ∙ with_first_space c cs space)
  | inr other ↦ rw other refl
]

parse_all-trim :
    (ps qs : List Text) → map trim_space ps ≡ map trim_space qs → parse_all ps ≡ parse_all qs
unfolding parse_all parse_validation
parse_all-trim [] [] h = refl
parse_all-trim [] (q ∷ qs) h = cc
parse_all-trim (p ∷ ps) [] h = cc
parse_all-trim (p ∷ ps) (q ∷ qs) h =
    let same : map trim_space ps ≡ map trim_space qs = cc in
    let first : trim_space p ≡ trim_space q = cc in rw (first, parse_all-trim ps qs same) refl

map_left_right :
    (ps qs : List Text)
    → map trim_right ps ≡ map trim_right qs
    → map trim_space ps ≡ map trim_space qs
map_left_right [] [] h = refl
map_left_right [] (q ∷ qs) h = cc
map_left_right (p ∷ ps) [] h = cc
map_left_right (p ∷ ps) (q ∷ qs) h =
    let same : map trim_right ps ≡ map trim_right qs = cc in
    let first : trim_right p ≡ trim_right q = cc in
    rw (trim_swap p, trim_swap q, first, map_left_right ps qs same) refl

-- Trimming the whole text changes nothing, as each piece is trimmed.
env_parse-split : (v : Text) → env_parse_slice_validate v ≡ parse_all (split v)
unfolding env_parse_slice_validate
env_parse-split v = parse_all-trim (split (trim_space v)) (split v) (
    map_left_right (split (trim_space v)) (split (trim_left v)) (split-trim_right (trim_left v))
    ∙ split-trim_left v)

-- A text that is spaces, then letters, then spaces.
trim_right-spaces : (text : Text) → IsSpaces text → trim_right text ≡ []
unfolding trim_right
trim_right-spaces [] h = refl
trim_right-spaces (c ∷ cs) h = rw (trim_right-spaces cs h.1, h.0) refl

abbrev IsWord : Text → Type 0
IsWord text = All (λ c. is_space c ≡ false) text

trim_right-word :
    (word after : Text) → IsWord word → IsSpaces after → trim_right (word ++ after) ≡ word
unfolding trim_right
trim_right-word [] after letters spaces = trim_right-spaces after spaces
trim_right-word (c ∷ []) after letters spaces = rw (trim_right-spaces after spaces, letters.0) refl
trim_right-word (c ∷ d ∷ ds) after letters spaces =
    rw (trim_right-word (d ∷ ds) after letters.1 spaces) refl

trim_space-entry :
    (before : Text) (w : ℕ) (word after : Text)
    → IsSpaces before
    → IsWord (w ∷ word)
    → IsSpaces after
    → trim_space (before ++ (w ∷ word) ++ after) ≡ w ∷ word
unfolding trim_left
trim_space-entry [] w word after spaces letters more =
    rw (letters.0) (trim_right-word (w ∷ word) after letters more)
trim_space-entry (c ∷ cs) w word after spaces letters more =
    rw (spaces.0) (trim_space-entry cs w word after spaces.1 letters more)

-- No piece has a comma.
abbrev HasNoComma : Text → Type 0
HasNoComma text = All (λ c. (c == 44) ≡ false) text

split-text : (text : Text) → HasNoComma text → split text ≡ text ∷ []
unfolding split
split-text [] h = refl
split-text (c ∷ cs) h = rw (h.0, split-text cs h.1) refl

split-comma : (text more : Text) → HasNoComma text → split (text ++ 44 ∷ more) ≡ text ∷ split more
unfolding split
split-comma [] more h = refl
split-comma (c ∷ cs) more h = rw (h.0, split-comma cs more h.1) refl

abbrev IsCapital : ℕ → Type 0
IsCapital c = (64 < c) × (c < 91)

upper-letter : (c : ℕ) → IsCapital (upper c) → (is_space c ≡ false) × ((c == 44) ≡ false)
unfolding is_space
upper-letter c h = let (above, below) = h in (ground arith, ground arith)

to_upper-IsWord :
    (word name : Text) → All IsCapital name → to_upper word ≡ name → IsWord word × HasNoComma word
unfolding to_upper
to_upper-IsWord [] name capitals h = (tt, tt)
to_upper-IsWord (c ∷ cs) [] capitals h = cc
to_upper-IsWord (c ∷ cs) (n ∷ ns) capitals h =
    let first : n ≡ upper c = cc in
    let later : to_upper cs ≡ ns = cc in
    let (letter, other) = upper-letter c (subst IsCapital first capitals.0) in
    let (letters, others) = to_upper-IsWord cs ns capitals.1 later in
    ((letter, letters), (other, others))

name_of-capitals : (m : Verification) → All IsCapital (name_of m)
name_of-capitals by_ocsp = ground arith
name_of-capitals by_crl = ground arith

parse_name-name_of : (m : Verification) → parse_name (name_of m) ≡ ok m
unfolding parse_name eq_bytes
parse_name-name_of by_ocsp = refl
parse_name-name_of by_crl = refl

All-append {ℓ κ} :
    {A : Type ℓ} (P : A → Type κ) (xs ys : List A) → All P xs → All P ys → All P (xs ++ ys)
All-append P [] ys h k = k
All-append P (x ∷ xs) ys h k = (h.0, All-append P xs ys h.1 k)

space-plain : (text : Text) → IsSpaces text → HasNoComma text
space-plain [] h = tt
space-plain (c ∷ cs) h = (space-comma c h.0, space-plain cs h.1)

entry_parses :
    (before word after : Text) (m : Verification)
    → IsSpaces before
    → to_upper word ≡ name_of m
    → IsSpaces after
    → (parse_validation (before ++ word ++ after) ≡ ok m) × HasNoComma (before ++ word ++ after)
unfolding parse_validation to_upper
entry_parses before [] after by_ocsp spaces named more = cc
entry_parses before [] after by_crl spaces named more = cc
entry_parses before (c ∷ cs) after m spaces named more =
    let (letters, plain) = to_upper-IsWord (c ∷ cs) (name_of m) (name_of-capitals m) named in
    (
      ap (λ t. parse_name (to_upper t)) (trim_space-entry before c cs after spaces letters more)
          ∙ ap parse_name named
          ∙ parse_name-name_of m,
      let no_comma : ℕ → Type 0 = λ x. (x == 44) ≡ false in
          All-append no_comma (before ++ c ∷ cs) after
            (All-append no_comma before (c ∷ cs) (space-plain before spaces) plain)
            (space-plain after more),
    )

text_of-parses :
    (e : Entry) → IsEntry e → (parse_validation (text_of e) ≡ ok e.means) × HasNoComma (text_of e)
unfolding parse_validation
text_of-parses e h = entry_parses e.before e.word e.after e.means h.0 h.1 h.2

parse_all-written :
    (e : Entry) (es : List Entry)
    → All IsEntry (e ∷ es)
    → parse_all (split (written e es)) ≡ ok (map (λ x. x.means) (e ∷ es))
unfolding parse_all
parse_all-written e [] h =
    let (reads, plain) = text_of-parses e h.0 in rw (split-text (text_of e) plain, reads) refl
parse_all-written e (next ∷ more) h =
    let (reads, plain) = text_of-parses e h.0 in
    rw (split-comma (text_of e) (written next more) plain, reads, parse_all-written next more h.1)
      refl

-- Names of methods with commas between them are read back as those methods, in their order, whatever
-- spaces stand around each and whether its letters are small or capital.
pub env_parse-written :
    (e : Entry) (es : List Entry)
    → All IsEntry (e ∷ es)
    → env_parse_slice_validate (written e es) ≡ ok (map (λ x. x.means) (e ∷ es))
env_parse-written e es h = env_parse-split (written e es) ∙ parse_all-written e es h
