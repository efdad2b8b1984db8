-- ===== src/Keys/Tests/Qwen.antt =====
-- Tests and examples of the Qwen Cloud keys of app/config.py.
use custorouter.Common.{ℕ, ◌≡◌, ◌⊎◌, some, String, true, false, [], ◌∷◌, get_elem?}
use custorouter.Keys.State.{State}
use custorouter.Keys.Qwen.{rotate_qc_key_for_model}
use custorouter.Keys.Qwen.Moved.{IsBarred, IsMoved, rotate_qc_key_for_model-IsMoved}
use custorouter.Keys.Tests.{busy}

-- The first key has used up the quota of the model.
abbrev spent : State
spent = record busy { qc_model_failures = ("qc-one", ("max", true) ∷ []) ∷ [] }

rotate_qc_key_for_model-IsMoved_example :
    ((rotate_qc_key_for_model "max" (some "qc-one") spent ≡ (false, spent))
      × ((j : ℕ) (k : String) → get_elem? spent.qc_pool.keys j ≡ some k → IsBarred spent "max" k))
    ⊎ (((rotate_qc_key_for_model "max" (some "qc-one") spent).0 ≡ true)
        × IsMoved "max"
            (some "qc-one")
            spent
            (rotate_qc_key_for_model "max" (some "qc-one") spent).1)
rotate_qc_key_for_model-IsMoved_example =
    rotate_qc_key_for_model-IsMoved "max" (some "qc-one") spent
