-- ===== src/Retriever/Lexical/Terms.antt =====
-- The query that src/spillover/retriever/lexical.py sends to the text index.
use Prim.Native.Char.{Char, code}
use Prim.Native.String.{[] as nothing, ◌∷◌ as prepend, ◌++◌ as append, count}
use text.Mathlib.TextLemmas.{append_assoc, cons-append, nil-append}
use spillover.Prelude.{
  ◌≤◌, String, ◌≡◌, refl, sym, ap, ◌∙◌, Bool, true, false, not, ◌&&◌, List, ◌∷◌, inl, inr, arith,
  All, All-map, All-imp, All-if, All-keep, All-keep_strong, map, leb, leb→le, ◌==◌, str_eq,
  if◌then◌else◌, Bool-cases,
}
use spillover.Text.{join}
use spillover.Retriever.Lexical.{
  is_mark, is_token_char, split_run, runs_from, find_tokens, lstrip_marks, rstrip_marks, cleaned,
  quoted, query_to_fts,
}

-- Whether all characters of a text pass a test.
abbrev pub all_chars : (Char → Bool) → String → Bool
all_chars p nothing = true
all_chars p (prepend a t) = p a && all_chars p t

-- A stretch of a text.
abbrev pub IsWithin : String → String → Type 0
IsWithin q t = (before : String) × (after : String) × (append before (append t after) ≡ q)

-- A stretch of the query of two or more characters, none of them a quotation mark, a blank or another
-- character with a meaning in the query language, and without marks at its ends.
pub record IsTerm (q t : String) : Type 0 where
  pub within : IsWithin q t
  pub plain : all_chars is_token_char t ≡ true
  pub long : 2 ≤ count t
  pub clean : (lstrip_marks t ≡ t) × (rstrip_marks t ≡ t)

split_run-append : (t : String) → append (split_run t).0 (split_run t).1 ≡ t
unfolding split_run
split_run-append nothing = refl
split_run-append (prepend a t) = elim (Bool-cases (is_token_char a)) [
  | inl word ↦ rw (word, split_run) (cons-append a _ _ ∙ ap (prepend a) (split_run-append t))
  | inr other ↦ rw (other, split_run) (nil-append _)
]

split_run-plain : (t : String) → all_chars is_token_char (split_run t).0 ≡ true
unfolding split_run
split_run-plain nothing = refl
split_run-plain (prepend a t) = elim (Bool-cases (is_token_char a)) [
  | inl word ↦ rw (word, split_run) (rw word (split_run-plain t))
  | inr other ↦ rw (other, split_run) refl
]

-- What a match is.
abbrev IsRun : String → String → Type 0
IsRun q t = IsWithin q t × (all_chars is_token_char t ≡ true)

IsRun-prepend : (a : Char) (q t : String) → IsRun q t → IsRun (prepend a q) t
IsRun-prepend a q t ((before, after, e), h) =
    ((prepend a before, after, cons-append a _ _ ∙ ap (prepend a) e), h)

runs_from-IsRun : (inside : Bool) (q : String) → All (IsRun q) (runs_from inside q)
unfolding runs_from
runs_from-IsRun inside nothing = tt
runs_from-IsRun inside (prepend a t) =
    let rest =
      All-imp (IsRun t) (IsRun (prepend a t)) (runs_from (is_token_char a) t) (IsRun-prepend a t)
        (runs_from-IsRun (is_token_char a) t) in
    let run = split_run (prepend a t) in
    let more = runs_from (is_token_char a) t in
    All-if (IsRun (prepend a t)) inside more (if is_token_char a then run.0 ∷ more else more) rest (
      All-if (IsRun (prepend a t)) (is_token_char a) (run.0 ∷ more) more
        (
          (
            (nothing, run.1, nil-append _ ∙ split_run-append (prepend a t)),
            split_run-plain (prepend a t),
          ),
          rest,
        )
        rest)

-- What the stripping of marks leaves.
module _ (a : Char) (t : String) where
  lstrip_marks_mark : is_mark a ≡ true → lstrip_marks (prepend a t) ≡ lstrip_marks t
  unfolding lstrip_marks
  lstrip_marks_mark h = rw (h, lstrip_marks) refl

  lstrip_marks_other : is_mark a ≡ false → lstrip_marks (prepend a t) ≡ prepend a t
  unfolding lstrip_marks
  lstrip_marks_other h = rw (h, lstrip_marks) refl

  rstrip_marks_gone :
      (is_mark a && str_eq (rstrip_marks t) "") ≡ true → rstrip_marks (prepend a t) ≡ nothing
  unfolding rstrip_marks
  rstrip_marks_gone h = rw (h, rstrip_marks) refl

  rstrip_marks_kept :
      (is_mark a && str_eq (rstrip_marks t) "") ≡ false
      → rstrip_marks (prepend a t) ≡ prepend a (rstrip_marks t)
  unfolding rstrip_marks
  rstrip_marks_kept h = rw (h, rstrip_marks) refl

lstrip_marks-IsRun : (q t : String) → IsRun q t → IsRun q (lstrip_marks t)
unfolding lstrip_marks
lstrip_marks-IsRun q nothing h = h
lstrip_marks-IsRun q (prepend a t) ((before, after, e), h) = elim (Bool-cases (is_mark a)) [
  | inl mark ↦ rw (lstrip_marks_mark a t mark) (
      lstrip_marks-IsRun q t (
        (
          append before (prepend a nothing),
          after,
          append_assoc before (prepend a nothing) (append t after)
              ∙ ap (append before) (
                  cons-append a nothing _
                  ∙ ap (prepend a) (nil-append _)
                  ∙ sym (cons-append a t after))
              ∙ e,
        ),
        ground arith,
      ))
  | inr other ↦ rw (lstrip_marks_other a t other) ((before, after, e), h)
]

rstrip_marks-append : (t : String) → (r : String) × (append (rstrip_marks t) r ≡ t)
unfolding rstrip_marks
rstrip_marks-append nothing = (nothing, refl)
rstrip_marks-append (prepend a t) =
    let (r, e) = rstrip_marks-append t in
    elim (Bool-cases (is_mark a && str_eq (rstrip_marks t) "")) [
      | inl gone ↦ (prepend a t, rw (rstrip_marks_gone a t gone) (nil-append _))
      | inr kept ↦ (r, rw (rstrip_marks_kept a t kept) (cons-append a _ _ ∙ ap (prepend a) e))
    ]

rstrip_marks-plain :
    (p : Char → Bool) (t : String) → all_chars p t ≡ true → all_chars p (rstrip_marks t) ≡ true
unfolding rstrip_marks
rstrip_marks-plain p nothing h = refl
rstrip_marks-plain p (prepend a t) h = elim (Bool-cases (is_mark a && str_eq (rstrip_marks t) "")) [
  | inl gone ↦ rw (rstrip_marks_gone a t gone) refl
  | inr kept ↦ rw (rstrip_marks_kept a t kept) (ground (arith, rstrip_marks-plain p t))
]

rstrip_marks-IsRun : (q t : String) → IsRun q t → IsRun q (rstrip_marks t)
rstrip_marks-IsRun q t ((before, after, e), h) =
    let (r, parts) = rstrip_marks-append t in
    (
      (
        before,
        append r after,
        ap (append before)
              (sym (append_assoc (rstrip_marks t) r after) ∙ ap (λ s. append s after) parts)
            ∙ e,
      ),
      rstrip_marks-plain is_token_char t h,
    )

rstrip_marks_twice : (t : String) → rstrip_marks (rstrip_marks t) ≡ rstrip_marks t
unfolding rstrip_marks
rstrip_marks_twice nothing = refl
rstrip_marks_twice (prepend a t) = elim (Bool-cases (is_mark a && str_eq (rstrip_marks t) "")) [
  | inl gone ↦ rw (rstrip_marks_gone a t gone) refl
  | inr kept ↦
      let again : (is_mark a && str_eq (rstrip_marks (rstrip_marks t)) "") ≡ false =
        ap (λ s. is_mark a && str_eq s "") (rstrip_marks_twice t) ∙ kept in
      rw (rstrip_marks_kept a t kept)
        (rstrip_marks_kept a (rstrip_marks t) again ∙ ap (prepend a) (rstrip_marks_twice t))
]

lstrip_marks-rstrip_marks :
    (t : String) → lstrip_marks (rstrip_marks (lstrip_marks t)) ≡ rstrip_marks (lstrip_marks t)
unfolding lstrip_marks rstrip_marks
lstrip_marks-rstrip_marks nothing = refl
lstrip_marks-rstrip_marks (prepend a t) = elim (Bool-cases (is_mark a)) [
  | inl mark ↦ rw (lstrip_marks_mark a t mark) (lstrip_marks-rstrip_marks t)
  | inr other ↦
      let kept : (is_mark a && str_eq (rstrip_marks t) "") ≡ false = ground arith in
      rw (lstrip_marks_other a t other)
        (rw (rstrip_marks_kept a t kept) (lstrip_marks_other a (rstrip_marks t) other))
]

-- The stripping of a match.
stripped : String → String
stripped t = rstrip_marks (lstrip_marks t)

cleaned-AreTerms : (q : String) → All (IsTerm q) (cleaned q)
unfolding cleaned find_tokens stripped
cleaned-AreTerms q =
    All-keep_strong (λ t. IsRun q t × (lstrip_marks t ≡ t) × (rstrip_marks t ≡ t)) (IsTerm q)
      (λ t. leb 2 (count t)) _
      (λ t long (run, left, right). record {
        within = run.0;
        plain = run.1;
        long = leb→le 2 (count t) long;
        clean = (left, right);
      })
      (All-map (IsRun q) _ (λ t. rstrip_marks (lstrip_marks t)) _
        (λ t run. (
          rstrip_marks-IsRun q (lstrip_marks t) (lstrip_marks-IsRun q t run),
          lstrip_marks-rstrip_marks t,
          rstrip_marks_twice (lstrip_marks t),
        ))
        (All-keep (IsRun q) (λ t. leb 2 (count t)) (runs_from false q) (runs_from-IsRun false q)))

-- The query for the text index is a disjunction of quoted terms, each a stretch of the question of
-- two or more characters from the pattern's class, without marks at its ends: nothing in a question
-- reaches the index outside quotation marks, and no term holds one.
pub query_to_fts-IsQuoted :
    (q : String)
    → (ts : List String) × (query_to_fts q ≡ join " OR " (map quoted ts))
      × All (λ t. IsTerm q t × (all_chars (λ a. not (code a == b'"')) t ≡ true)) ts
unfolding query_to_fts
query_to_fts-IsQuoted q = (
  cleaned q,
  refl,
  All-imp _ _ (cleaned q) (λ t term. (term, unquoted t (term.plain))) (cleaned-AreTerms q),
)
  where
    token_is_no_quote : (a : Char) → is_token_char a ≡ true → not (code a == b'"') ≡ true
    token_is_no_quote a h = unfold is_token_char in ground arith

    unquoted :
        (t : String)
        → all_chars is_token_char t ≡ true
        → all_chars (λ a. not (code a == b'"')) t ≡ true
    unquoted nothing h = refl
    unquoted (prepend a t) h = ground (arith, token_is_no_quote a, unquoted t)
