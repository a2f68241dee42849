-- ===== src/Smart/Guard/Trim.antt =====
-- `trimCopy` of smart/src/smart_client.cpp, and the text of a redirect.
use hurricache_cpp_client.Prelude.{
  ◌≡◌, refl, sym, ap, subst, ◌∙◌, reverse-cons, reverse-append, reverse-reverse, All-append, true,
  false, arith, [], ◌∷◌, ◌++◌, reverse, ◌==◌, All,
}
use hurricache_cpp_client.Prelude.Dict.{Text}
use hurricache_cpp_client.Smart.Guard.{
  is_blank, trim_front, trim_copy, before_comma, after_comma, route_targets,
}

abbrev pub AllBlank : Text → Type 0
AllBlank = All (λ c. is_blank c ≡ true)

abbrev pub HasNoComma : Text → Type 0
HasNoComma = All (λ c. (c == 44) ≡ false)

-- A text that starts with no blank.
abbrev pub IsSharp : Text → Type 0
IsSharp [] = Unit
IsSharp (c ∷ s) = is_blank c ≡ false

-- A text with no blank at its two ends.
pub record IsTrimmed (s : Text) : Type 0 where
  pub front : IsSharp s
  pub back : IsSharp (reverse s)

trim_front-append : (pre s : Text) → AllBlank pre → trim_front (pre ++ s) ≡ trim_front s
unfolding trim_front
trim_front-append [] s h = refl
trim_front-append (c ∷ pre) s h = rw h.0 (trim_front-append pre s h.1)

trim_front-blank : (s : Text) → AllBlank s → trim_front s ≡ []
unfolding trim_front
trim_front-blank [] h = refl
trim_front-blank (c ∷ s) h = rw h.0 (trim_front-blank s h.1)

trim_front-sharp : (s : Text) → IsSharp s → trim_front s ≡ s
unfolding trim_front
trim_front-sharp [] h = refl
trim_front-sharp (c ∷ s) h = rw h

All-reverse : (s : Text) → AllBlank s → AllBlank (reverse s)
All-reverse [] h = tt
All-reverse (c ∷ s) h =
    subst AllBlank (sym (reverse-cons c s))
      (All-append _ (reverse s) (c ∷ []) (All-reverse s h.1) (h.0, tt))

-- The blanks at the two ends are cut, and nothing else.
pub trim_copy-cut :
    (pre s post : Text)
    → AllBlank pre
    → AllBlank post
    → IsTrimmed s
    → trim_copy (pre ++ (s ++ post)) ≡ s
unfolding trim_copy trim_front
trim_copy-cut pre [] post hp hq v =
    ap (λ t. reverse (trim_front (reverse t)))
      (trim_front-append pre post hp ∙ trim_front-blank post hq)
trim_copy-cut pre (c ∷ s) post hp hq v =
    ap (λ t. reverse (trim_front (reverse t)))
      (trim_front-append pre (c ∷ s ++ post) hp ∙ trim_front-sharp (c ∷ s ++ post) v.front)
    ∙ ap (λ t. reverse (trim_front t)) (reverse-append (c ∷ s) post)
    ∙ ap reverse (
        trim_front-append (reverse post) (reverse (c ∷ s)) (All-reverse post hq)
        ∙ trim_front-sharp (reverse (c ∷ s)) v.back)
    ∙ reverse-reverse (c ∷ s)

before_comma-append : (s r : Text) → HasNoComma s → before_comma (s ++ 44 ∷ r) ≡ s
unfolding before_comma
before_comma-append [] r h = refl
before_comma-append (c ∷ s) r h = rw h.0 (ap (λ t. c ∷ t) (before_comma-append s r h.1))

after_comma-append : (s r : Text) → HasNoComma s → after_comma (s ++ 44 ∷ r) ≡ r
unfolding after_comma
after_comma-append [] r h = refl
after_comma-append (c ∷ s) r h = rw h.0 (after_comma-append s r h.1)

blank-HasNoComma : (s : Text) → AllBlank s → HasNoComma s
blank-HasNoComma [] h = tt
blank-HasNoComma (c ∷ s) h = (ground arith, blank-HasNoComma s h.1)

-- A redirect that names two targets with a comma between them is read as these two, whatever blanks
-- stand around them, if no target has a comma or a blank at an end.
pub route_targets-pair :
    (b1 b2 b3 b4 master backup : Text)
    → AllBlank b1
    → AllBlank b2
    → AllBlank b3
    → AllBlank b4
    → IsTrimmed master
    → HasNoComma master
    → IsTrimmed backup
    → route_targets ((b1 ++ (master ++ b2)) ++ 44 ∷ (b3 ++ (backup ++ b4))) ≡ (master, backup)
unfolding route_targets
route_targets-pair b1 b2 b3 b4 master backup h1 h2 h3 h4 m plain b =
    let named = b1 ++ (master ++ b2) in
    let no_comma : HasNoComma named =
      All-append _ b1 (master ++ b2) (blank-HasNoComma b1 h1)
        (All-append _ master b2 plain (blank-HasNoComma b2 h2)) in
    cc (
      ap trim_copy (before_comma-append named (b3 ++ (backup ++ b4)) no_comma)
          ∙ trim_copy-cut b1 master b2 h1 h2 m,
      ap trim_copy (after_comma-append named (b3 ++ (backup ++ b4)) no_comma)
          ∙ trim_copy-cut b3 backup b4 h3 h4 b,
    )
