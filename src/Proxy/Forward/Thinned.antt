-- ===== src/Proxy/Forward/Thinned.antt =====
-- What a walk over the messages may leave: a sublist, with a condition on each message that is
-- dropped and one on each that stays.
use spillover.Prelude.{
  ℕ, zero, suc, ◌+◌, ◌-◌, ◌≤◌, ◌<◌, ◌≡◌, refl, ap, Bool, false, List, [], ◌∷◌, ◌++◌, arith, ltb,
  tests, drop-nil, keep, take, drop, Bool-cases, inl, inr,
}
use spillover.Json.{Message}

module _ (Gone Stays : ℕ → Message → Type 0) where
  pub data Thinned : ℕ → List Message → List Message → Type 0 where
    done : {i : ℕ} → Thinned i [] []
    stay :
        {i : ℕ} {m : Message} {ms ks : List Message}
        → Stays i m
        → Thinned (suc i) ms ks
        → Thinned i (m ∷ ms) (m ∷ ks)
    leave :
        {i : ℕ} {m : Message} {ms ks : List Message}
        → Gone i m
        → Thinned (suc i) ms ks
        → Thinned i (m ∷ ms) ks

-- The conditions may be weakened.
pub Thinned-imp :
    (G S G' S' : ℕ → Message → Type 0)
    → ((i : ℕ) (m : Message) → G i m → G' i m)
    → ((i : ℕ) (m : Message) → S i m → S' i m)
    → {i : ℕ} {ms ks : List Message} → Thinned G S i ms ks
    → Thinned G' S' i ms ks
Thinned-imp G S G' S' g s done = done
Thinned-imp G S G' S' g s (stay {i = i} {m = m} h t) = stay (s i m h) (Thinned-imp G S G' S' g s t)
Thinned-imp G S G' S' g s (leave {i = i} {m = m} h t) =
    leave (g i m h) (Thinned-imp G S G' S' g s t)

-- All of a list may stay.
pub Thinned-refl :
    (G S : ℕ → Message → Type 0) (i : ℕ) (ms : List Message)
    → ((j : ℕ) (m : Message) → S j m)
    → Thinned G S i ms ms
Thinned-refl G S i [] h = done
Thinned-refl G S i (m ∷ ms) h = stay (h i m) (Thinned-refl G S (suc i) ms h)

-- Messages on which the dropped ones fail a test are all there, in their order.
pub Thinned-keep :
    (G S : ℕ → Message → Type 0) (p : Message → Bool)
    → ((i : ℕ) (m : Message) → G i m → p m ≡ false)
    → {i : ℕ} {ms ks : List Message} → Thinned G S i ms ks
    → keep p ks ≡ keep p ms
Thinned-keep G S p g done = refl
Thinned-keep G S p g (stay {m = m} h t) = ground (arith, Thinned-keep G S p g t)
Thinned-keep G S p g (leave {i = i} {m = m} h t) = rw (g i m h) (Thinned-keep G S p g t)

-- What stands in front of the first index that may be dropped stays in front.
pub Thinned-take :
    (G S : ℕ → Message → Type 0) (lo : ℕ)
    → ((i : ℕ) (m : Message) → G i m → lo ≤ i)
    → {i : ℕ} {ms ks : List Message} (n : ℕ) → i + n ≤ lo
    → Thinned G S i ms ks
    → take n ks ≡ take n ms
Thinned-take G S lo g zero b t = refl
Thinned-take G S lo g (suc n) b done = refl
Thinned-take G S lo g (suc n) b (stay {m = m} h t) =
    ap (◌∷◌ m) (Thinned-take G S lo g n (omega arith) t)
Thinned-take G S lo g (suc n) b (leave {i = i} {m = m} h t) = absurd (omega (arith, g i m h))

-- Behind the last index that may be dropped nothing is.
Thinned-behind :
    (G S : ℕ → Message → Type 0) (hi : ℕ)
    → ((i : ℕ) (m : Message) → G i m → i < hi)
    → {i : ℕ} {ms ks : List Message} → hi ≤ i
    → Thinned G S i ms ks
    → ks ≡ ms
Thinned-behind G S hi g b done = refl
Thinned-behind G S hi g b (stay {m = m} h t) = ap (◌∷◌ m) (Thinned-behind G S hi g (omega arith) t)
Thinned-behind G S hi g b (leave {i = i} {m = m} h t) = absurd (omega (arith, g i m h))

-- So what stands there stays at the end.
pub Thinned-drop :
    (G S : ℕ → Message → Type 0) (hi : ℕ)
    → ((i : ℕ) (m : Message) → G i m → i < hi)
    → {i : ℕ} {ms ks : List Message} → Thinned G S i ms ks
    → (pre : List Message) × (ks ≡ pre ++ drop (hi - i) ms)
Thinned-drop G S hi g (done {i = i}) = ([], rw drop-nil)
Thinned-drop G S hi g (stay {i = i} {m = m} {ms = ms} h t) = elim (Bool-cases (ltb i hi)) [
  | inl before ↦
      let (pre, e) = Thinned-drop G S hi g t in
      let n : hi - i ≡ suc (hi - suc i) = omega tests in (m ∷ pre, rw n (ap (◌∷◌ m) e))
  | inr behind ↦
      let n : hi - i ≡ 0 = ground arith in
      ([], rw n (ap (◌∷◌ m) (Thinned-behind G S hi g (ground arith) t)))
]
Thinned-drop G S hi g (leave {i = i} {m = m} h t) =
    let (pre, e) = Thinned-drop G S hi g t in
    let n : hi - i ≡ suc (hi - suc i) = omega (arith, g i m h) in (pre, rw n e)
