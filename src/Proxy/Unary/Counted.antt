-- ===== src/Proxy/Unary/Counted.antt =====
-- What an answer of status 200 that reports its usage brings about (`_handle_request` of
-- src/spillover/proxy/app.py, with the eviction behind it).
use spillover.Prelude.{ℕ, ◌+◌, String, ◌≡◌, Bool, Option, some, List, ℤ}
use spillover.Runtime.{Codec, Floats}
use spillover.Adapters.{Adapter}
use spillover.Proxy.Fallback.{Answer}
use spillover.Proxy.Respond.Effect.{IsSettled}
use spillover.Proxy.Unary.Told.{IsTold}
use spillover.Proxy.Prepare.{Settings, World, Prepared}
use spillover.Proxy.Unary.{Served, Answered, serve_unary}

module _ (f : Floats) (c : Codec) (settings : Settings f.Float) (adapter : Adapter)
    (is_anthropic : Bool) (p : String) (ids : ℕ → ℕ → String) (clock : ℕ → ℕ) (q : Prepared)
    (w : World) where
  -- The world behind the eviction, by the body for the client and the ids of the archived turns: `n`
  -- tokens were archived, `freed` were freed before.
  abbrev pub Leaves : String → String → ℤ → ℤ → String → List String → World → Type 0
  Leaves body text i o body' eids after =
      (n : ℕ) × (freed : ℕ) × (q.freed ≡ some freed)
      × IsSettled c f settings.operational_ceiling settings.watermark adapter.parse q.payload
          (some text) i o w.db eids n after.db
      × (after ≡ record w { db = after.db })
      × IsTold f w.environ (n + freed) c body body'

  abbrev pub IsCounted : String → String → ℤ → ℤ → Answered → Type 0
  IsCounted body text i o out =
      (body' : String)
      → (eids : List String) → out.1 ≡ some (body', eids)
      → Leaves body text i o body' eids out.0

  module _ (post : ℕ → String → Option (Answer String)) where
    abbrev result : World × Option Served
    result = serve_unary f c settings adapter is_anthropic p ids clock post q w
