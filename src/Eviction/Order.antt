-- ===== src/Eviction/Order.antt =====
-- The sort of eviction/selector.py: the order that it establishes, and that it keeps the turns.
use mathlib.Core.List.{Perm}
use mathlib.Core.List.Perm
use spillover.Prelude.{
  ◌+◌, ◌≡◌, refl, true, false, List, [], ◌∷◌, arith, any, ltb, Bool-cases, inl, inr, All,
}
use spillover.Eviction.{ActiveTurn, key_lt, insert_sorted, sort_by_key, ordered_candidates}
use spillover.Eviction.Drain.{tokens_of}

-- No turn of the list has a smaller key than the one before it.
abbrev pub IsSorted : List ActiveTurn → Type 0
IsSorted [] = Unit
IsSorted (t ∷ []) = Unit
IsSorted (t ∷ u ∷ us) = (key_lt u t ≡ false) × IsSorted (u ∷ us)

heavier_irrefl : (t u : ActiveTurn) → key_lt t u ≡ true → key_lt u t ≡ false
unfolding key_lt
heavier_irrefl t u h = ground arith

IsSorted-insert_sorted :
    (t : ActiveTurn) (us : List ActiveTurn) → IsSorted us → IsSorted (insert_sorted t us)
unfolding insert_sorted
IsSorted-insert_sorted t [] h = tt
IsSorted-insert_sorted t (u ∷ []) h = ground (arith, heavier_irrefl u t)
IsSorted-insert_sorted t (u ∷ v ∷ us) h =
    ground (arith, heavier_irrefl u t, heavier_irrefl v t, IsSorted-insert_sorted t (v ∷ us) h.1)

pub IsSorted-sort_by_key : (ts : List ActiveTurn) → IsSorted (sort_by_key ts)
unfolding sort_by_key
IsSorted-sort_by_key [] = tt
IsSorted-sort_by_key (t ∷ ts) = IsSorted-insert_sorted t (sort_by_key ts) (IsSorted-sort_by_key ts)

insert_sorted-perm : (t : ActiveTurn) (us : List ActiveTurn) → Perm (insert_sorted t us) (t ∷ us)
unfolding insert_sorted
insert_sorted-perm t [] = Perm.refl (t ∷ [])
insert_sorted-perm t (u ∷ us) = elim (Bool-cases (key_lt u t)) [
  | inl later ↦ rw later (Perm.trans (Perm.cons u (insert_sorted-perm t us)) (Perm.swap t u us))
  | inr first ↦ rw first (Perm.refl (t ∷ u ∷ us))
]

pub sort_by_key-perm : (ts : List ActiveTurn) → Perm (sort_by_key ts) ts
unfolding sort_by_key
sort_by_key-perm [] = Perm.refl []
sort_by_key-perm (t ∷ ts) =
    Perm.trans (insert_sorted-perm t (sort_by_key ts)) (Perm.cons t (sort_by_key-perm ts))

pub ordered_candidates-perm : (ts : List ActiveTurn) → Perm (ordered_candidates ts) ts
unfolding ordered_candidates
ordered_candidates-perm ts = elim (Bool-cases (any (λ t. ltb 0 t.density) ts)) [
  | inl dense ↦ rw dense (sort_by_key-perm ts)
  | inr flat ↦ rw flat (Perm.refl ts)
]

tokens_of-insert_sorted :
    (t : ActiveTurn) (us : List ActiveTurn)
    → tokens_of (insert_sorted t us) ≡ t.token_count + tokens_of us
unfolding insert_sorted
tokens_of-insert_sorted t [] = refl
tokens_of-insert_sorted t (u ∷ us) = ground (arith, tokens_of-insert_sorted t us)

tokens_of-sort_by_key : (ts : List ActiveTurn) → tokens_of (sort_by_key ts) ≡ tokens_of ts
unfolding sort_by_key
tokens_of-sort_by_key [] = refl
tokens_of-sort_by_key (t ∷ ts) =
    omega (arith, tokens_of-insert_sorted t (sort_by_key ts), tokens_of-sort_by_key ts)

-- Ordering the candidates changes neither what they hold together nor what holds of each.
pub tokens_of-ordered_candidates :
    (ts : List ActiveTurn) → tokens_of (ordered_candidates ts) ≡ tokens_of ts
unfolding ordered_candidates
tokens_of-ordered_candidates ts = ground (arith, tokens_of-sort_by_key ts)

module _ (P : ActiveTurn → Type 0) where
  All-insert_sorted :
      (t : ActiveTurn) (us : List ActiveTurn) → P t → All P us → All P (insert_sorted t us)
  unfolding insert_sorted
  All-insert_sorted t [] h k = (h, tt)
  All-insert_sorted t (u ∷ us) h k = ground (arith, All-insert_sorted t us h k.1)

  All-sort_by_key : (ts : List ActiveTurn) → All P ts → All P (sort_by_key ts)
  unfolding sort_by_key
  All-sort_by_key [] h = tt
  All-sort_by_key (t ∷ ts) h = All-insert_sorted t (sort_by_key ts) h.0 (All-sort_by_key ts h.1)

  pub All-ordered_candidates : (ts : List ActiveTurn) → All P ts → All P (ordered_candidates ts)
  unfolding ordered_candidates
  All-ordered_candidates ts h = ground (arith, All-sort_by_key ts h)
