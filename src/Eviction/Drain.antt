-- ===== src/Eviction/Drain.antt =====
-- The loop of a pass of eviction/selector.py against the prefix of candidates that it takes.
use spillover.Prelude.{
  ℕ, ◌+◌, ◌≤◌, ◌<◌, zero, suc, ◌≡◌, refl, ◌∙◌, ap, inl, inr, tests, Bool-cases, length, take, List,
  [], ◌∷◌, ◌++◌, map, arith, leb, if◌then◌else◌, sum_by, All,
}
use native.Mathlib.Nat.{zero-add}
use mathlib.Core.List.{append-nil, append_assoc}
use spillover.Eviction.{ActiveTurn, drain}

-- The shortest prefix that brings `freed` up to the target, or all of the candidates.
abbrev pub taken : ℕ → ℕ → List ActiveTurn → List ActiveTurn
taken target freed [] = []
taken target freed (t ∷ ts) =
    let rest = taken target (freed + t.token_count) ts in
    t ∷ (if leb target (freed + t.token_count) then [] else rest)

abbrev pub tokens_of : List ActiveTurn → ℕ
tokens_of = sum_by (λ t. t.token_count)

abbrev pub indexes_of : List ActiveTurn → List ℕ
indexes_of = map (λ t. t.index)

pub evicted-drain :
    (target : ℕ) (ev : List ℕ) (freed : ℕ) (ts : List ActiveTurn)
    → (drain target ev freed ts).evicted ≡ ev ++ indexes_of (taken target freed ts)
unfolding drain
evicted-drain target ev freed [] = simp append-nil
evicted-drain target ev freed (t ∷ ts) = elim (Bool-cases (leb target (freed + t.token_count))) [
  | inl stop ↦ rw stop
  | inr go ↦ rw go (
      evicted-drain target (ev ++ t.index ∷ []) (freed + t.token_count) ts
      ∙ append_assoc ev (t.index ∷ []) (indexes_of (taken target (freed + t.token_count) ts)))
]

pub freed-drain :
    (target : ℕ) (ev : List ℕ) (freed : ℕ) (ts : List ActiveTurn)
    → (drain target ev freed ts).freed ≡ freed + tokens_of (taken target freed ts)
unfolding drain
freed-drain target ev freed [] = omega arith
freed-drain target ev freed (t ∷ ts) =
    ground (arith, freed-drain target (ev ++ t.index ∷ []) (freed + t.token_count) ts)

-- A pass succeeds exactly when its candidates hold enough tokens.
pub enough-drain :
    (target : ℕ) (ev : List ℕ) (freed : ℕ) (ts : List ActiveTurn)
    → freed < target
    → (drain target ev freed ts).enough ≡ leb target (freed + tokens_of ts)
unfolding drain
enough-drain target ev freed [] h = ground arith
enough-drain target ev freed (t ∷ ts) h =
    ground (arith, enough-drain target (ev ++ t.index ∷ []) (freed + t.token_count) ts)

-- What is taken frees the target if all of the candidates do, and is all of them if they do not.
pub taken-enough :
    (target freed : ℕ) (ts : List ActiveTurn)
    → target ≤ freed + tokens_of ts
    → freed < target
    → target ≤ freed + tokens_of (taken target freed ts)
taken-enough target freed [] h k = h
taken-enough target freed (t ∷ ts) h k =
    ground (arith, taken-enough target (freed + t.token_count) ts)

pub taken-short :
    (target freed : ℕ) (ts : List ActiveTurn)
    → freed + tokens_of ts < target
    → taken target freed ts ≡ ts
taken-short target freed [] h = refl
taken-short target freed (t ∷ ts) h = ground (arith, taken-short target (freed + t.token_count) ts)

-- Fewer turns than are taken fall short of the target.
pub taken-minimal :
    (target freed : ℕ) (ts : List ActiveTurn) (n : ℕ)
    → freed < target
    → n < length (taken target freed ts)
    → freed + tokens_of (take n (taken target freed ts)) < target
taken-minimal target freed [] n h k = absurd (omega arith)
taken-minimal target freed (t ∷ ts) zero h k = omega arith
taken-minimal target freed (t ∷ ts) (suc n) h k =
    elim (Bool-cases (leb target (freed + t.token_count))) [
      | inl stop ↦ let k' : suc (suc n) ≤ 1 = rw stop at k in absurd (omega arith)
      | inr go ↦
          let freed' = freed + t.token_count in
          let k' : suc n < suc (length (taken target freed' ts)) = rw go at k in
          let m : freed' + tokens_of (take n (taken target freed' ts)) < target =
            taken-minimal target freed' ts n (omega tests) (omega arith) in
          rw go (omega arith)
    ]

pub All-taken :
    (P : ActiveTurn → Type 0) (target freed : ℕ) (ts : List ActiveTurn)
    → All P ts
    → All P (taken target freed ts)
All-taken P target freed [] h = tt
All-taken P target freed (t ∷ ts) h =
    ground (arith, All-taken P target (freed + t.token_count) ts h.1)

-- A pass from its start, in one equation.
pub drain-eq-taken :
    (target : ℕ) (ts : List ActiveTurn)
    → 0 < target
    → drain target [] 0 ts ≡ record {
      evicted = indexes_of (taken target 0 ts);
      freed = tokens_of (taken target 0 ts);
      enough = leb target (tokens_of ts);
    }
drain-eq-taken target ts h = λ i. record {
  evicted = evicted-drain target [] 0 ts i;
  freed = (freed-drain target [] 0 ts ∙ zero-add (tokens_of (taken target 0 ts))) i;
  enough = (enough-drain target [] 0 ts h ∙ ap (leb target) (zero-add (tokens_of ts))) i;
}

-- What is taken is a prefix of the candidates.
pub taken-prefix :
    (target freed : ℕ) (ts : List ActiveTurn) → (n : ℕ) × (taken target freed ts ≡ take n ts)
taken-prefix target freed [] = (0, refl)
taken-prefix target freed (t ∷ ts) = elim (Bool-cases (leb target (freed + t.token_count))) [
  | inl stop ↦ (1, rw stop refl)
  | inr go ↦
      let (n, e) = taken-prefix target (freed + t.token_count) ts in (suc n, rw go (ap (◌∷◌ t) e))
]
