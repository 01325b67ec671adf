-- ===== src/Storage/Graphs/Entries.antt =====
-- The entries of the cache of src/spillover/storage/kuzu.py: moved to the end, added and dropped.
use spillover.Prelude.{
  ℕ, zero, suc, ◌-◌, ◌≤◌, ◌<◌, String, ◌≡◌, refl, sym, ap, subst, ◌∙◌, false, not, none, some, List,
  [], ◌∷◌, ◌++◌, inl, inr, arith, length, length-append, drop, keep, All, All-append, ltb, str_eq,
  Bool-cases, eq_iff, ltb→lt, All-keep,
}
use spillover.Storage.Graphs.{max_cache, find_open, move_to_end, pop_oldest}

suc-sub : (n : ℕ) → max_cache < suc n → suc (n - max_cache) ≡ suc n - max_cache
suc-sub n h = omega arith

nothing_over : (n : ℕ) → ltb max_cache (suc n) ≡ false → zero ≡ suc n - max_cache
nothing_over n h = ground arith

pair_eq : {A B : Type 0} (e : A × B) {a : A} {b : B} → e.0 ≡ a → e.1 ≡ b → e ≡ (a, b)
pair_eq e h k = rw (sym h, sym k) refl

module _ {C : Type 0} where
  -- The entries of other keys.
  abbrev pub without : String → List (String × C) → List (String × C)
  without key = keep (λ e. not (str_eq e.0 key))

  abbrev pub Lacks : String → List (String × C) → Type 0
  Lacks key = All (λ e. str_eq e.0 key ≡ false)

  -- No key stands twice.
  abbrev pub IsDistinct : List (String × C) → Type 0
  IsDistinct [] = Unit
  IsDistinct (e ∷ es) = Lacks e.0 es × IsDistinct es

  -- At most `max_cache` entries, each of its own key.
  abbrev pub IsCache : List (String × C) → Type 0
  IsCache es = IsDistinct es × (length es ≤ max_cache)

  -- What an LRU cache of that size holds after `conn` was used under `key`.
  abbrev pub used : String → C → List (String × C) → List (String × C)
  used key conn es =
      let all = without key es ++ (key, conn) ∷ [] in drop (length all - max_cache) all

  without-Lacks : (key : String) (es : List (String × C)) → Lacks key es → without key es ≡ es
  without-Lacks key [] h = refl
  without-Lacks key (e ∷ es) h = rw (h.0) (ap (λ l. e ∷ l) (without-Lacks key es h.1))

  find_open-none : (key : String) (es : List (String × C)) → find_open key es ≡ none → Lacks key es
  unfolding find_open
  find_open-none key [] h = tt
  find_open-none key (e ∷ es) h = elim (Bool-cases (str_eq e.0 key)) [
    | inl same ↦ absurd (ground arith)
    | inr other ↦ (other, find_open-none key es (rw (other, find_open) at h))
  ]

  move_to_end-eq :
      (key : String) (conn : C) (es : List (String × C))
      → IsDistinct es
      → find_open key es ≡ some conn
      → move_to_end key es ≡ without key es ++ (key, conn) ∷ []
  unfolding find_open move_to_end
  move_to_end-eq key conn [] d h = absurd (ground arith)
  move_to_end-eq key conn (e ∷ es) d h = elim (Bool-cases (str_eq e.0 key)) [
    | inl same ↦
        let k = (eq_iff e.0 key).0 same in
        let c : e.1 ≡ conn = ground arith in
        let rest = without-Lacks key es (subst (λ i. Lacks i es) k d.0) in
        rw (same, move_to_end)
          (ap (λ l. l ++ e ∷ []) (sym rest) ∙ ap (λ x. without key es ++ x ∷ []) (pair_eq e k c))
    | inr other ↦
        rw (other, move_to_end)
          (ap (λ l. e ∷ l) (move_to_end-eq key conn es d.1 (rw (other, find_open) at h)))
  ]

  pop_oldest-eq : (es : List (String × C)) → pop_oldest es ≡ drop (length es - max_cache) es
  unfolding pop_oldest
  pop_oldest-eq [] = refl
  pop_oldest-eq (e ∷ es) = elim (Bool-cases (ltb max_cache (length (e ∷ es)))) [
    | inl over ↦
        rw (over, pop_oldest)
          (pop_oldest-eq es
            ∙ ap (λ n. drop n (e ∷ es))
                (suc-sub (length es) (ltb→lt max_cache (suc (length es)) over)))
    | inr fits ↦ rw (fits, pop_oldest) (ap (λ n. drop n (e ∷ es)) (nothing_over (length es) fits))
  ]

  move_to_end-length :
      (key : String) (es : List (String × C)) → length (move_to_end key es) ≡ length es
  unfolding move_to_end
  move_to_end-length key [] = refl
  move_to_end-length key (e ∷ es) = elim (Bool-cases (str_eq e.0 key)) [
    | inl same ↦ rw (same, move_to_end) (omega (arith, length-append es (e ∷ [])))
    | inr other ↦ rw (other, move_to_end) (omega (arith, move_to_end-length key es))
  ]

  -- Where the entry was there, nothing is dropped.
  pub used-found :
      (key : String) (conn : C) (es : List (String × C))
      → IsCache es
      → find_open key es ≡ some conn
      → move_to_end key es ≡ used key conn es
  used-found key conn es (d, small) found =
      let moved = move_to_end-eq key conn es d found in
      let l = move_to_end-length key es in
      let fits : length (move_to_end key es) - max_cache ≡ zero = omega arith in
      sym (ap (λ n. drop n (move_to_end key es)) fits)
      ∙ ap (λ l. drop (length l - max_cache) l) moved

  -- Where it was not, it comes behind all the others.
  pub used-added :
      (key : String) (conn : C) (es : List (String × C))
      → find_open key es ≡ none
      → pop_oldest (es ++ (key, conn) ∷ []) ≡ used key conn es
  used-added key conn es missing =
      pop_oldest-eq (es ++ (key, conn) ∷ [])
      ∙ ap (λ l. drop (length (l ++ (key, conn) ∷ []) - max_cache) (l ++ (key, conn) ∷ []))
          (sym (without-Lacks key es (find_open-none key es missing)))

  without-IsDistinct :
      (key : String) (es : List (String × C)) → IsDistinct es → IsDistinct (without key es)
  without-IsDistinct key [] d = tt
  without-IsDistinct key (e ∷ es) d = elim (Bool-cases (str_eq e.0 key)) [
    | inl same ↦ rw same (without-IsDistinct key es d.1)
    | inr other ↦
        rw other (All-keep (λ x. str_eq x.0 e.0 ≡ false) _ es d.0, without-IsDistinct key es d.1)
  ]

  without-Lacks_self : (key : String) (es : List (String × C)) → Lacks key (without key es)
  without-Lacks_self key [] = tt
  without-Lacks_self key (e ∷ es) = elim (Bool-cases (str_eq e.0 key)) [
    | inl same ↦ rw same (without-Lacks_self key es)
    | inr other ↦ rw other (other, without-Lacks_self key es)
  ]

  append-IsDistinct :
      (key : String) (conn : C) (es : List (String × C))
      → Lacks key es
      → IsDistinct es
      → IsDistinct (es ++ (key, conn) ∷ [])
  append-IsDistinct key conn [] l d = (tt, tt)
  append-IsDistinct key conn (e ∷ es) l d =
      let swapped : str_eq key e.0 ≡ false = elim (Bool-cases (str_eq key e.0)) [
        | inr other ↦ other
        | inl same ↦
            let k = (eq_iff e.0 key).1 (sym ((eq_iff key e.0).0 same)) in
            absurd (ground (arith, l.0))
      ] in
      (
        All-append (λ x. str_eq x.0 e.0 ≡ false) es ((key, conn) ∷ []) d.0 (swapped, tt),
        append-IsDistinct key conn es l.1 d.1,
      )

  drop-IsDistinct : (n : ℕ) (es : List (String × C)) → IsDistinct es → IsDistinct (drop n es)
  drop-IsDistinct zero es d = d
  drop-IsDistinct (suc n) [] d = tt
  drop-IsDistinct (suc n) (e ∷ es) d = drop-IsDistinct n es d.1

  length-drop : (n : ℕ) (es : List (String × C)) → length (drop n es) ≡ length es - n
  length-drop zero es = omega arith
  length-drop (suc n) [] = omega arith
  length-drop (suc n) (e ∷ es) = omega (arith, length-drop n es)

  pub used-IsCache :
      (key : String) (conn : C) (es : List (String × C))
      → IsDistinct es
      → IsCache (used key conn es)
  used-IsCache key conn es d =
      let all = without key es ++ (key, conn) ∷ [] in
      let distinct =
        append-IsDistinct key conn (without key es) (without-Lacks_self key es)
          (without-IsDistinct key es d) in
      let l = length-drop (length all - max_cache) all in
      (drop-IsDistinct (length all - max_cache) all distinct, omega arith)
