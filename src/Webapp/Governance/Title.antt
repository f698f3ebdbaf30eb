-- ===== src/Webapp/Governance/Title.antt =====
-- The title that is found in the description that the form makes.
use theword_monorepo.Prelude.{ℕ, ◌≡◌, refl, ap, false, Option, some, [], ◌∷◌, ◌++◌, ◌==◌, All}
use theword_monorepo.Sdk.Hex.{Text}
use theword_monorepo.Webapp.Governance.{
  ProposalCallResult, ProposalState, FormattedLog, build_proposal,
}
use theword_monorepo.Webapp.Markdown.{
  is_space, spaces, hashes, line, extract_hash_title, extract_title, remove_pairs, unescape_lines,
  title_of,
}
use theword_monorepo.Webapp.Governance.Form.{description_of}

-- A character that has no meaning to the form or to the extraction of a title: no end of a line, no
-- backslash, no asterisk and no underscore.
abbrev pub IsOrdinary : ℕ → Type 0
IsOrdinary c =
    ((c == 10) ≡ false) × ((c == 92) ≡ false) × ((c == b'*') ≡ false) × ((c == b'_') ≡ false)

unescape_lines-append :
    (title rest : Text)
    → All IsOrdinary title
    → unescape_lines (title ++ (10 ∷ rest)) ≡ title ++ unescape_lines (10 ∷ rest)
unfolding unescape_lines
unescape_lines-append [] rest h = refl
unescape_lines-append (c ∷ []) rest (h, _) = rw (h.1) refl
unescape_lines-append (c ∷ d ∷ title) rest (h, more) =
    rw (h.1) (ap (λ (t : Text). c ∷ t) (unescape_lines-append (d ∷ title) rest more))

line-append : (title rest : Text) → All IsOrdinary title → line (title ++ (10 ∷ rest)) ≡ title
line-append [] rest h = refl
line-append (c ∷ title) rest (h, more) = rw (h.0, line-append title rest more) refl

remove_pairs-none : (c : ℕ) (t : Text) → All (λ x. (x == c) ≡ false) t → remove_pairs c t ≡ t
unfolding remove_pairs
remove_pairs-none c [] h = refl
remove_pairs-none c (x ∷ []) h = refl
remove_pairs-none c (x ∷ y ∷ t) (h, more) =
    rw h (ap (λ (r : Text). x ∷ r) (remove_pairs-none c (y ∷ t) more))

All-part : {P Q : ℕ → Type 0} (f : (c : ℕ) → P c → Q c) (t : Text) → All P t → All Q t
All-part f [] h = tt
All-part f (c ∷ t) (h, more) = (f c h, All-part f t more)

unescape_lines-head : (rest : Text) → (t : Text) × (unescape_lines (10 ∷ rest) ≡ 10 ∷ t)
unfolding unescape_lines
unescape_lines-head [] = ([], refl)
unescape_lines-head (c ∷ rest) = (unescape_lines (c ∷ rest), refl)

extract_hash_title-made :
    (c : ℕ) (title rest : Text)
    → is_space c ≡ false
    → All IsOrdinary (c ∷ title)
    → extract_hash_title (b'#' ∷ b' ' ∷ (c ∷ title) ++ (10 ∷ rest)) ≡ some (c ∷ title)
unfolding extract_hash_title spaces hashes is_space
extract_hash_title-made c title rest s (h, more) = rw (s, h.0, line-append title rest more) refl

title_of-made :
    (c : ℕ) (title rest : Text)
    → is_space c ≡ false
    → All IsOrdinary (c ∷ title)
    → title_of (some (b'#' ∷ b' ' ∷ (c ∷ title) ++ (10 ∷ rest))) ≡ c ∷ title
unfolding title_of extract_title
title_of-made c title rest s h =
    let plain = remove_pairs-none b'_' (c ∷ title) (All-part (λ x o. o.3) (c ∷ title) h) in
    let plainer = remove_pairs-none b'*' (c ∷ title) (All-part (λ x o. o.2) (c ∷ title) h) in
    rw (extract_hash_title-made c title rest s h, plain, plainer) refl

unescape_lines-made :
    (title rest : Text)
    → All IsOrdinary title
    → unescape_lines (b'#' ∷ b' ' ∷ title ++ (10 ∷ rest))
      ≡ b'#' ∷ b' ' ∷ title ++ unescape_lines (10 ∷ rest)
unfolding unescape_lines
unescape_lines-made [] rest h = refl
unescape_lines-made (c ∷ title) rest h =
    ap (λ (t : Text). b'#' ∷ b' ' ∷ t) (unescape_lines-append (c ∷ title) rest h)

-- A proposal whose log has the description that the form makes of a title and a body is listed under
-- that title, whatever the body is, if the title begins with no white space and has neither ends of
-- lines nor backslashes, asterisks and underscores.
pub build_proposal-title :
    (voting_delay c : ℕ) (title body : Text) (proposal : Option ProposalCallResult)
    (state : Option ProposalState) (log : FormattedLog)
    → is_space c ≡ false
    → All IsOrdinary (c ∷ title)
    → log.description ≡ description_of (c ∷ title) body
    → (build_proposal voting_delay proposal state (some log)).title ≡ c ∷ title
unfolding build_proposal description_of
build_proposal-title voting_delay c title body proposal state log s h d =
    let (t, e) = unescape_lines-head (10 ∷ body) in
    rw (d, unescape_lines-made (c ∷ title) (10 ∷ body) h, e) (title_of-made c title t s h)
