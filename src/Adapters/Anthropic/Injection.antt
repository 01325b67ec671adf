-- ===== src/Adapters/Anthropic/Injection.antt =====
-- Where `inject_ltm` of src/spillover/adapters/anthropic.py puts the block.
use Prim.Native.String.{◌++◌ as append}
use spillover.Prelude.{
  ap, ◌∙◌, ℕ, suc, ◌+◌, ◌≤◌, String, ◌≡◌, sym, Bool, false, none, some, arith, Bool-cases,
  Option-cases, inl, inr, length, str_eq, or_else, if◌then◌else◌,
}
use spillover.Json.{Json, null, str, arr, obj, Items, nil, cons, items, Payload}
use spillover.Adapters.Anthropic.{
  text_of, is_anchor_text, anchor_end_from, insert_block, inject_system, inject_ltm,
}

-- A block whose text names the billing header or the client.
abbrev pub is_anchor_block : Json → Bool
is_anchor_block (obj b) = elim (text_of b) [ none ↦ false | some t ↦ is_anchor_text t ]
is_anchor_block _ = false

-- How many such blocks the system field begins with.
abbrev pub leading_anchors : Items → ℕ
leading_anchors nil = 0
leading_anchors (cons b bs) = if is_anchor_block b then suc (leading_anchors bs) else 0

-- The system field after the injection, by what it was before. In a list the block stands behind
-- all the anchor blocks that the list begins with.
abbrev pub IsInjected : String → Json → Json → Type 0
IsInjected ltm_text null v = v ≡ str ltm_text
IsInjected ltm_text (str t) v = v ≡ str (append ltm_text (append "\n\n" t))
IsInjected ltm_text (arr blocks) v =
    (n : ℕ) × (leading_anchors blocks ≤ n)
    × (n ≤ length (items blocks))
    × (v ≡ arr (insert_block ltm_text n blocks))
IsInjected ltm_text j v = v ≡ j

anchor_end_from-bounds :
    (i e : ℕ) (blocks : Items) (n : ℕ)
    → e ≤ i
    → anchor_end_from i e blocks ≡ some n
    → (e ≤ n) × (n ≤ i + length (items blocks))
unfolding anchor_end_from
anchor_end_from-bounds i e nil n h k = ground arith
anchor_end_from-bounds i e (cons (obj b) bs) n h k = elim (Option-cases (text_of b)) [
  | inl bad ↦ absurd (ground arith)
  | inr (t, good) ↦ elim (Bool-cases (is_anchor_text t)) [
    | inl anchor ↦
        let k' : anchor_end_from (suc i) (suc i) bs ≡ some n = ground arith in
        let ih = anchor_end_from-bounds (suc i) (suc i) bs n (omega arith) k' in
        (omega arith, omega arith)
    | inr other ↦ let k' : e ≡ n = ground arith in (omega arith, omega arith)
  ]
]
anchor_end_from-bounds i e (cons b bs) n h k =
    let ih = anchor_end_from-bounds (suc i) e bs n (omega arith) k in (omega arith, omega arith)

leading_anchors-le :
    (i : ℕ) (blocks : Items) (n : ℕ)
    → anchor_end_from i i blocks ≡ some n
    → i + leading_anchors blocks ≤ n
unfolding anchor_end_from
leading_anchors-le i nil n k = ground arith
leading_anchors-le i (cons (obj b) bs) n k = elim (Option-cases (text_of b)) [
  | inl bad ↦ absurd (ground arith)
  | inr (t, good) ↦ elim (Bool-cases (is_anchor_text t)) [
    | inl anchor ↦
        let k' : anchor_end_from (suc i) (suc i) bs ≡ some n = ground arith in
        let ih = leading_anchors-le (suc i) bs n k' in ground arith
    | inr other ↦ let k' : i ≡ n = ground arith in ground arith
  ]
]
leading_anchors-le i (cons b bs) n k =
    let ih = anchor_end_from-bounds i i (cons b bs) n (omega arith) k in omega arith

inject_system-IsInjected :
    (ltm_text : String) (j v : Json) → inject_system ltm_text j ≡ some v → IsInjected ltm_text j v
unfolding inject_system
inject_system-IsInjected ltm_text (arr blocks) v e =
    elim (Option-cases (anchor_end_from 0 0 blocks)) [
      | inl bad ↦ absurd (ground arith)
      | inr (n, good) ↦
          let le = leading_anchors-le 0 blocks n good in
          let bounds = anchor_end_from-bounds 0 0 blocks n (omega arith) good in
          let e' : arr (insert_block ltm_text n blocks) ≡ v = ground arith in
          (n, omega arith, omega arith, sym e')
    ]
inject_system-IsInjected ltm_text j v e = ground arith

-- Where the injection of a text succeeds, it changes only the system field: a missing one becomes
-- the text, a text gets it in front, and a list gets one block more and keeps its blocks in their
-- order, those at its head that anchor the billing at their places.
pub inject_ltm-IsInjected :
    (payload after : Payload) (ltm_text : String)
    → str_eq ltm_text "" ≡ false
    → inject_ltm payload ltm_text ≡ some after
    → (v : Json) × IsInjected ltm_text (or_else payload.system null) v
      × (after ≡ record payload { system = some v })
unfolding inject_ltm
inject_ltm-IsInjected payload after ltm_text some_text e =
    elim (Option-cases (inject_system ltm_text (or_else payload.system null))) [
      | inl bad ↦ absurd (ground arith)
      | inr (v, good) ↦
          let e' : record payload { system = some v } ≡ after = ground arith in
          (v, inject_system-IsInjected ltm_text (or_else payload.system null) v good, sym e')
    ]

-- Where the injection succeeds, only the system field may differ.
pub inject_ltm_keeps :
    (payload after : Payload) (ltm_text : String)
    → inject_ltm payload ltm_text ≡ some after
    → after ≡ record payload { system = after.system }
unfolding inject_ltm
inject_ltm_keeps payload after ltm_text e = elim (Bool-cases (str_eq ltm_text "")) [
  | inl empty ↦
      let k : payload ≡ after = ground arith in
      sym k ∙ ap {B = Payload} (λ v. record payload { system = v }) (ap (λ q. q.system) k)
  | inr full ↦
      let (v, good, same) = inject_ltm-IsInjected payload after ltm_text full e in
      same ∙ ap {B = Payload} (λ w. record payload { system = w }) (sym (ap (λ q. q.system) same))
]
