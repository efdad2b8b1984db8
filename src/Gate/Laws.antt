-- ===== src/Gate/Laws.antt =====
-- The counter of running requests and the drain of app/main.py, over any interleaving of requests.
use custorouter.Common.{
  ℕ, suc, ◌+◌, ◌≡◌, refl, Bool, true, false, Option, none, some, String, List, [], ◌∷◌,
  if◌then◌else◌,
}
use custorouter.Gate.{
  Gate, Request, forbidden, unavailable, admitted, is_inference_request, refused_origin, admit,
  enter, End, cancelled, unstarted, set_migration_drain, restored_drain, Server, arrive, finish,
  switch, Steps, start, also,
}

-- How many of the running requests are counted as inference.
abbrev pub tracked : List Bool → ℕ
tracked [] = 0
tracked (true ∷ rs) = suc (tracked rs)
tracked (false ∷ rs) = tracked rs

-- A counted run that ends by a cancellation, or before the body of its response has begun.
abbrev pub is_lost : End → Bool → Bool
is_lost cancelled tracking = tracking
is_lost unstarted tracking = tracking
is_lost _ tracking = false

-- How many of the counted runs that ended on the way were ended so.
pub lost : {s t : Server} → Steps s t → ℕ
lost start = 0
lost (also before (arrive r)) = lost before
lost (also before (finish end i tracking e)) =
    if is_lost end tracking then suc (lost before) else lost before
lost (also before (switch enabled)) = lost before

-- The counter is the number of the running inference requests and of those given.
abbrev pub IsCounted : ℕ → Server → Type 0
IsCounted n s = s.gate.active ≡ tracked s.running + n

admit_draining :
    (refusal : Option String) (inference : Bool) (g : Gate)
    → g.draining ≡ true
    → ((admit refusal inference g).1 ≡ g)
      × ((admit refusal inference g).0 ≡ (elim refusal [
        | some message ↦ forbidden message
        | none ↦ if inference then unavailable else admitted false
      ]))
admit_draining (some message) inference g h = (refl, refl)
admit_draining none false g h = (refl, refl)
admit_draining none true g h = rw h (refl, refl)

-- While the router drains, no arrival changes the gate, and an inference request that is not refused
-- for its origin is answered as unavailable.
pub enter_draining :
    (r : Request) (g : Gate)
    → g.draining ≡ true
    → ((enter r g).1 ≡ g)
      × ((enter r g).0 ≡ (elim (refused_origin r) [
        | some message ↦ forbidden message
        | none ↦ if is_inference_request r then unavailable else admitted false
      ]))
unfolding enter
enter_draining r g h = admit_draining (refused_origin r) (is_inference_request r) g h

-- A switch of the drain survives a restart: what the start reads back is what was set.
pub set_migration_drain-restored :
    (enabled : Bool) (g : Gate)
    → restored_drain (set_migration_drain enabled g).stored
      ≡ (set_migration_drain enabled g).draining
unfolding set_migration_drain
set_migration_drain-restored true g = refl
set_migration_drain-restored false g = refl
