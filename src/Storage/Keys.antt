-- ===== src/Storage/Keys.antt =====
-- The keys of the tables: no two episodes share an id or a hash, and no statement breaks that.
use spillover.Prelude.{
  String, ◌≡◌, refl, Bool, true, false, none, some, List, [], ◌∷◌, ◌++◌, arith, str_eq, eq_iff, any,
  map, any-append, Bool-cases, inl, inr,
}
use spillover.Storage.{Episode, Db, id_of_hash, has_id, insert_episode, evict_row, mark_evicted}

abbrev pub has_hash : String → List Episode → Bool
has_hash h = any (λ r. str_eq r.hash h)

-- Each row's id and hash are in no later row.
abbrev pub IsKeyed : List Episode → Type 0
IsKeyed [] = Unit
IsKeyed (e ∷ es) = (has_id e.id es ≡ false) × (has_hash e.hash es ≡ false) × IsKeyed es

pub append-IsKeyed :
    (e : Episode) (es : List Episode)
    → IsKeyed es
    → has_id e.id es ≡ false
    → has_hash e.hash es ≡ false
    → IsKeyed (es ++ e ∷ [])
append-IsKeyed e [] h i k = (refl, refl, tt)
append-IsKeyed e (x ∷ es) h i k = ground (
  arith,
  any-append (λ r. str_eq r.id x.id) es (e ∷ []),
  any-append (λ r. str_eq r.hash x.hash) es (e ∷ []),
  eq_iff x.id e.id,
  eq_iff e.id x.id,
  eq_iff x.hash e.hash,
  eq_iff e.hash x.hash,
  append-IsKeyed e es h.2,
)

pub insert_episode-IsKeyed :
    (e : Episode) (db db' : Db)
    → IsKeyed db.episodes
    → insert_episode e db ≡ some db'
    → IsKeyed db'.episodes
unfolding insert_episode
insert_episode-IsKeyed e db db' h eq = ground (arith, append-IsKeyed e db.episodes h)

-- A lookup by hash fails exactly when no row has the hash.
pub id_of_hash-none :
    (h : String) (es : List Episode) → id_of_hash h es ≡ none → has_hash h es ≡ false
unfolding id_of_hash
id_of_hash-none h [] eq = refl
id_of_hash-none h (e ∷ es) eq = ground (arith, id_of_hash-none h es)

pub id_of_hash-some :
    (h : String) (es : List Episode)
    → has_hash h es ≡ true
    → (i : String) × (id_of_hash h es ≡ some i)
unfolding id_of_hash
id_of_hash-some h [] eq = absurd (cc)
id_of_hash-some h (e ∷ es) eq = elim (Bool-cases (str_eq e.hash h)) [
  | inl here ↦ (e.id, rw here)
  | inr later ↦ rw later (id_of_hash-some h es (rw later at eq))
]

-- An update that leaves ids and hashes alone leaves the keys alone.
module _ (f : Episode → Episode) (ids : (e : Episode) → (f e).id ≡ e.id)
    (hashes : (e : Episode) → (f e).hash ≡ e.hash) where
  has_id-map : (i : String) (es : List Episode) → has_id i (map f es) ≡ has_id i es
  has_id-map i [] = refl
  has_id-map i (e ∷ es) = ground (arith, ids e, has_id-map i es)

  has_hash-map : (h : String) (es : List Episode) → has_hash h (map f es) ≡ has_hash h es
  has_hash-map h [] = refl
  has_hash-map h (e ∷ es) = ground (arith, hashes e, has_hash-map h es)

  pub map-IsKeyed : (es : List Episode) → IsKeyed es → IsKeyed (map f es)
  map-IsKeyed [] h = tt
  map-IsKeyed (e ∷ es) h = (
    ground (arith, ids e, has_id-map e.id es, h.0),
    ground (arith, hashes e, has_hash-map e.hash es, h.1),
    map-IsKeyed es h.2,
  )

id-evict_row : (ids : List String) (r : Bool) (e : Episode) → (evict_row ids r e).id ≡ e.id
id-evict_row ids r e = ground arith

hash-evict_row : (ids : List String) (r : Bool) (e : Episode) → (evict_row ids r e).hash ≡ e.hash
hash-evict_row ids r e = ground arith

pub mark_evicted-IsKeyed :
    (ids : List String) (r : Bool) (db : Db)
    → IsKeyed db.episodes
    → IsKeyed (mark_evicted ids r db).episodes
unfolding mark_evicted
mark_evicted-IsKeyed ids r db h =
    map-IsKeyed (evict_row ids r) (id-evict_row ids r) (hash-evict_row ids r) db.episodes h
