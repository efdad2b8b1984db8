-- ===== src/Playground/Stripper/Tests.antt =====
-- `_ThinkingStripper` at concrete inputs (app/routers/playground.py).
use custorouter.Common.{◌≡◌, refl, true, false, [], ◌∷◌}
use custorouter.Keys.Providers.{Unicode}
use custorouter.Keys.Add.{◌+text+◌}
use custorouter.Playground.Stripper.{new_stripper, feed, feed_all}
use custorouter.Playground.Stripper.Shown.{feed_all-plain}
use custorouter.Playground.Stripper.Settled.{IsStripped, feed-IsStripped}
use custorouter.Playground.Stripper.Thoughts.{feed-thought}

abbrev ascii : Unicode
ascii = record { lower_other = λ c. ""; is_other_digit = λ n. false }

feed-IsStripped_example :
    IsStripped (λ n. true) false ((feed (λ n. true) ascii false "a <think>b" new_stripper).1)
feed-IsStripped_example = feed-IsStripped (λ n. true) ascii false "a <think>b" new_stripper

feed_all-plain_example :
    feed_all (λ n. true) ascii ("Hello, " ∷ "world" ∷ []) new_stripper
    ≡ ("Hello, " ∷ "world" ∷ [], new_stripper)
feed_all-plain_example =
    feed_all-plain (λ n. true) ascii ("Hello, " ∷ "world" ∷ []) (λ c. refl) (refl, (refl, tt))

feed-thought_example :
    feed
      (λ n. true)
      ascii
      true
      ("a" +text+ ("<think>" +text+ ("b" +text+ ("</think>" +text+ "c"))))
      new_stripper
    ≡ ("a" +text+ "c", new_stripper)
feed-thought_example = feed-thought (λ n. true) ascii "a" "b" "c" refl refl refl
