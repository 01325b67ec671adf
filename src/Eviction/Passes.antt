-- ===== src/Eviction/Passes.antt =====
-- The candidates of the two passes of eviction/selector.py, as lists of the turns that may move.
use spillover.Prelude.{
  ℕ, zero, suc, ◌+◌, ◌-◌, ◌≤◌, ◌<◌, ◌≡◌, refl, ◌∙◌, ap, Bool, false, not, some, List, [], ◌∷◌, ◌++◌,
  arith, tests, ltb, Bool-cases, inl, inr, length, get_elem?, take, keep, All, All-append,
  sum_by-append, take-nil, All-keep,
}
use spillover.Eviction.{
  ActiveTurn, is_priority, is_movable, is_plain, before_cutoff, evictable_pass1, evictable_pass2,
  ordered_candidates,
}
use spillover.Eviction.Drain.{tokens_of}
use spillover.Eviction.Order.{All-ordered_candidates, tokens_of-ordered_candidates}

-- Neither a system turn nor pinned, and followed by at least `recent_buffer` turns.
abbrev pub CanMove : List ActiveTurn → ℕ → ActiveTurn → Type 0
CanMove turns recent_buffer t =
    (p : ℕ) × (get_elem? turns p ≡ some t)
    × (p + recent_buffer < length turns)
    × (t.is_system ≡ false)
    × (t.pinned ≡ false)

-- All the turns that the policy may ever move, in the order of the conversation.
abbrev pub movable : List ActiveTurn → ℕ → List ActiveTurn
movable turns recent_buffer = keep is_movable (take (length turns - recent_buffer) turns)

-- Those of them that are not priority memories.
abbrev pub plain : List ActiveTurn → ℕ → List ActiveTurn
plain turns recent_buffer = keep is_plain (take (length turns - recent_buffer) turns)

pub before_cutoff-eq-keep :
    (p : ActiveTurn → Bool) (i cutoff : ℕ) (ts : List ActiveTurn)
    → before_cutoff p i cutoff ts ≡ keep p (take (cutoff - i) ts)
unfolding before_cutoff
before_cutoff-eq-keep p i cutoff [] = rw take-nil
before_cutoff-eq-keep p i cutoff (t ∷ ts) = elim (Bool-cases (ltb i cutoff)) [
  | inl inside ↦
      let e : cutoff - i ≡ suc (cutoff - suc i) = omega tests in
      rw (inside, e) (ground (arith, before_cutoff-eq-keep p (suc i) cutoff ts))
  | inr outside ↦
      let e : cutoff - i ≡ 0 = ground arith in
      let e' : cutoff - suc i ≡ 0 = ground arith in
      let rest : before_cutoff p (suc i) cutoff ts ≡ [] =
        before_cutoff-eq-keep p (suc i) cutoff ts ∙ rw e' refl in
      rw (outside, e, rest) (ground arith)
]

pub tokens_of-keep_split :
    (p : ActiveTurn → Bool) (ts : List ActiveTurn)
    → tokens_of (keep (λ u. not (p u)) ts) + tokens_of (keep p ts) ≡ tokens_of ts
tokens_of-keep_split p [] = refl
tokens_of-keep_split p (t ∷ ts) = ground (arith, tokens_of-keep_split p ts)

before_cutoff_whole :
    (p : ActiveTurn → Bool) (cutoff : ℕ) (ts : List ActiveTurn)
    → before_cutoff p 0 cutoff ts ≡ keep p (take cutoff ts)
before_cutoff_whole p cutoff ts =
    before_cutoff-eq-keep p 0 cutoff ts ∙ ap (λ n. keep p (take n ts)) (omega arith)

-- What each pass goes through, as lists of the turns that may move.
pub pass1-eq-plain :
    (turns : List ActiveTurn) (rb : ℕ)
    → evictable_pass1 turns rb ≡ ordered_candidates (plain turns rb)
unfolding evictable_pass1
pass1-eq-plain [] rb = unfold ordered_candidates in rw take-nil refl
pass1-eq-plain (t ∷ ts) rb =
    ap ordered_candidates (before_cutoff_whole is_plain (length (t ∷ ts) - rb) (t ∷ ts))

-- First the turns that are no priority memories, then those that are.
abbrev pub by_priority : List ActiveTurn → List ActiveTurn
by_priority ts =
    ordered_candidates (keep (λ u. not (is_priority u)) ts)
    ++ ordered_candidates (keep is_priority ts)

pub pass2-eq-by_priority :
    (turns : List ActiveTurn) (rb : ℕ) → evictable_pass2 turns rb ≡ by_priority (movable turns rb)
unfolding evictable_pass2
pass2-eq-by_priority [] rb = unfold ordered_candidates in rw take-nil refl
pass2-eq-by_priority (t ∷ ts) rb =
    ap by_priority (before_cutoff_whole is_movable (length (t ∷ ts) - rb) (t ∷ ts))

pub tokens_of-by_priority : (ts : List ActiveTurn) → tokens_of (by_priority ts) ≡ tokens_of ts
tokens_of-by_priority ts =
    let low = keep (λ u. not (is_priority u)) ts in
    let high = keep is_priority ts in
    sum_by-append (λ t. t.token_count) (ordered_candidates low) (ordered_candidates high)
    ∙ omega (
      arith,
      tokens_of-ordered_candidates low,
      tokens_of-ordered_candidates high,
      tokens_of-keep_split is_priority ts,
    )

All-keep-take :
    (whole ts : List ActiveTurn) (rb i n : ℕ)
    → ((q : ℕ) → get_elem? whole (i + q) ≡ get_elem? ts q)
    → i + n ≤ length whole - rb
    → All (CanMove whole rb) (keep is_movable (take n ts))
All-keep-take whole ts rb i zero h k = tt
All-keep-take whole [] rb i (suc n) h k = tt
All-keep-take whole (t ∷ ts) rb i (suc n) h k =
    let rest =
      All-keep-take whole ts rb (suc i) n (λ q. ap (get_elem? whole) (omega arith) ∙ h (suc q))
        (omega arith) in
    elim (Bool-cases (is_movable t)) [
      | inl free ↦ rw free (
        (i, ap (get_elem? whole) (omega arith) ∙ h 0, omega arith, ground arith, ground arith),
        rest,
      )
      | inr held ↦ rw held rest
    ]

pub All-movable : (turns : List ActiveTurn) (rb : ℕ) → All (CanMove turns rb) (movable turns rb)
All-movable turns rb =
    All-keep-take turns turns rb 0 (length turns - rb) (λ q. ap (get_elem? turns) (omega arith))
      (omega arith)

pub keep-plain :
    (ts : List ActiveTurn) → keep is_plain ts ≡ keep (λ u. not (is_priority u)) (keep is_movable ts)
keep-plain [] = refl
keep-plain (t ∷ ts) = ground (arith, keep-plain ts)

pub tokens_of-pass1 :
    (turns : List ActiveTurn) (rb : ℕ)
    → tokens_of (evictable_pass1 turns rb) ≡ tokens_of (plain turns rb)
tokens_of-pass1 turns rb = rw pass1-eq-plain (tokens_of-ordered_candidates (plain turns rb))

pub tokens_of-pass2 :
    (turns : List ActiveTurn) (rb : ℕ)
    → tokens_of (evictable_pass2 turns rb) ≡ tokens_of (movable turns rb)
tokens_of-pass2 turns rb = rw pass2-eq-by_priority (tokens_of-by_priority (movable turns rb))

-- A turn of the first pass may move in the second.
pub tokens_of-plain-le :
    (turns : List ActiveTurn) (rb : ℕ) → tokens_of (plain turns rb) ≤ tokens_of (movable turns rb)
tokens_of-plain-le turns rb =
    rw keep-plain (omega (arith, tokens_of-keep_split is_priority (movable turns rb)))

pub All-by_priority :
    (P : ActiveTurn → Type 0) (ts : List ActiveTurn) → All P ts → All P (by_priority ts)
All-by_priority P ts h =
    let low = keep (λ u. not (is_priority u)) ts in
    let high = keep is_priority ts in
    All-append P (ordered_candidates low) (ordered_candidates high)
      (All-ordered_candidates P low (All-keep P (λ u. not (is_priority u)) ts h))
      (All-ordered_candidates P high (All-keep P is_priority ts h))

-- What a turn that may move satisfies, a turn of the first pass satisfies, and is no priority.
pub All-plain :
    (turns : List ActiveTurn) (rb : ℕ)
    → All (λ t. CanMove turns rb t × (is_priority t ≡ false)) (plain turns rb)
All-plain turns rb = rw keep-plain (All-keep_plain (movable turns rb) (All-movable turns rb))
  where
    All-keep_plain :
        (ts : List ActiveTurn)
        → All (CanMove turns rb) ts
        → All
            (λ t. CanMove turns rb t × (is_priority t ≡ false))
            (keep (λ u. not (is_priority u)) ts)
    All-keep_plain [] h = tt
    All-keep_plain (t ∷ ts) h = elim (Bool-cases (is_priority t)) [
      | inl high ↦ rw high (All-keep_plain ts h.1)
      | inr low ↦ rw low ((h.0, low), All-keep_plain ts h.1)
    ]
