-- ===== src/Cli/Words.antt =====
-- The words of a line: Split and IsPrefix of src/tools/sdb.cpp.
use mathlib.Core.List.{append_assoc, append-nil}
use building_a_debugger.Common.{
  ℕ, ◌≡◌, ◌≢◌, ◌↔◌, refl, sym, ap, ap₂, ◌∙◌, true, List, [], ◌∷◌, ◌++◌, ==_ne, ==_refl, All, arith,
}
use building_a_debugger.Cli.{is_prefix, split, split_from, last_item}

prefix_rest :
    (word name : List ℕ) → is_prefix word name ≡ true → (rest : List ℕ) × (name ≡ word ++ rest)
unfolding is_prefix
prefix_rest [] name h = (name, refl)
prefix_rest (c ∷ cs) [] h = cc
prefix_rest (c ∷ cs) (d ∷ ds) h =
    let same : c ≡ d = ground arith in
    let (rest, e) = prefix_rest cs ds (ground arith) in (rest, ap₂ (λ x xs. x ∷ xs) (sym same) e)

prefix_append : (word rest : List ℕ) → is_prefix word (word ++ rest) ≡ true
unfolding is_prefix
prefix_append [] rest = refl
prefix_append (c ∷ cs) rest = rw (==_refl c) (prefix_append cs rest)

-- IsPrefix says whether the second text is the first with something behind it.
pub is_prefix_iff :
    (word name : List ℕ) → (is_prefix word name ≡ true) ↔ ((rest : List ℕ) × (name ≡ word ++ rest))
is_prefix_iff word name =
    (prefix_rest word name, λ h. ap (is_prefix word) h.1 ∙ prefix_append word h.0)

-- No character of a word is the delimiter.
abbrev pub Plain : ℕ → List ℕ → Type 0
Plain d w = All (λ c. c ≢ d) w

-- Words with the delimiter between them.
abbrev pub join : ℕ → List (List ℕ) → List ℕ
join d [] = []
join d (w ∷ []) = w
join d (w ∷ v ∷ ws) = w ++ (d ∷ join d (v ∷ ws))

-- The last word is not empty.
abbrev pub EndsInWord : List (List ℕ) → Type 0
EndsInWord [] = Unit {0}
EndsInWord (w ∷ []) = w ≢ []
EndsInWord (w ∷ v ∷ ws) = EndsInWord (v ∷ ws)

split_from-word :
    (d : ℕ) (item w rest : List ℕ)
    → Plain d w
    → split_from d item (w ++ rest) ≡ split_from d (item ++ w) rest
unfolding split_from
split_from-word d item [] rest h = ap (λ t. split_from d t rest) (sym (append-nil item))
split_from-word d item (c ∷ w) rest h = rw (==_ne c d h.0) (
    split_from-word d (item ++ c ∷ []) w rest h.1
    ∙ ap (λ t. split_from d t rest) (append_assoc item (c ∷ []) w))

split_from-delimiter :
    (d : ℕ) (item rest : List ℕ) → split_from d item (d ∷ rest) ≡ item ∷ split_from d [] rest
unfolding split_from
split_from-delimiter d item rest = rw (==_refl d) refl

last_item-word : (w : List ℕ) → w ≢ [] → last_item w ≡ w ∷ []
last_item-word [] h = absurd (h refl)
last_item-word (c ∷ w) h = refl

-- Words without the delimiter, the last of which is not empty, are what Split makes of the text that
-- joins them by single delimiters.
pub split-join :
    (d : ℕ) (words : List (List ℕ))
    → All (Plain d) words
    → EndsInWord words
    → split (join d words) d ≡ words
unfolding split
split-join d [] h e = unfold split_from in refl
split-join d (w ∷ []) h e =
    ap (λ t. split_from d [] t) (sym (append-nil w))
    ∙ split_from-word d [] w [] h.0
    ∙ unfold split_from in last_item-word w e
split-join d (w ∷ v ∷ ws) h e =
    split_from-word d [] w (d ∷ join d (v ∷ ws)) h.0
    ∙ split_from-delimiter d w (join d (v ∷ ws))
    ∙ ap (λ t. w ∷ t) (split-join d (v ∷ ws) h.1 e)
