-- ===== src/Playground/Stripper/Settled.antt =====
-- The loop of `_ThinkingStripper.feed` ends (app/routers/playground.py).
use custorouter.Common.{
  ℕ, zero, suc, ◌+◌, ◌-◌, ◌≤◌, ◌<◌, ◌≡◌, refl, Bool, true, false, Option, none, some, String, List,
  [], ◌∷◌, arith, inl, inr, Option-cases, Bool-cases, if◌then◌else◌, ◌==◌, nonempty, text_empty,
  text_length, take_text, drop_text, min, All,
}
use custorouter.Keys.Providers.{Unicode, lower}
use custorouter.Keys.Add.{◌+text+◌}
use custorouter.Translator.Tags.{find_open, find_close, search_tag}
use custorouter.Translator.Tags.Laws.{search_tag_cuts}
use custorouter.Translator.Stream.Text.Settled.{length-drop_text, search_tag-drop}
use custorouter.Playground.Stripper.{
  Stripper, longest_tail, partial_tag_tail_length, open_prefixes, close_prefixes, drop_thought,
  show_text, strip_rounds, feed,
}

longest_tail_bound : (low prefix : String) (n : ℕ) → longest_tail low prefix n ≤ n
unfolding longest_tail
longest_tail_bound low prefix zero = omega arith
longest_tail_bound low prefix (suc n) = ground (arith, longest_tail_bound low prefix n)

tail_bound :
    (u : Unicode) (value : String) (m : ℕ) (prefixes : List String)
    → All (λ (p : String). text_length p ≤ m) prefixes
    → partial_tag_tail_length u value prefixes ≤ m
unfolding partial_tag_tail_length
tail_bound u value m [] h = omega arith
tail_bound u value m (prefix ∷ prefixes) h = omega (
  arith,
  longest_tail_bound (lower u value) prefix (min (text_length prefix) (text_length value)),
  tail_bound u value m prefixes h.1,
  h.0,
)

-- The complete tag that is looked for next.
abbrev pub next_tag : (ℕ → Bool) → Stripper → Option (ℕ × ℕ)
next_tag wide s = search_tag wide (if s.inside then "</" else "<") s.buffer

-- At most 18 characters wait, and they hold no complete tag; behind the last chunk, none waits.
abbrev pub IsStripped : (ℕ → Bool) → Bool → Stripper → Type 0
IsStripped wide final s =
    (text_length s.buffer ≤ (if final then 0 else 18)) × (next_tag wide s ≡ none)

empty-search_tag : (wide : ℕ → Bool) (start : String) → search_tag wide start "" ≡ none
unfolding search_tag
empty-search_tag wide start = refl

short : (n tail : ℕ) → (n - tail == 0) ≡ true → tail ≤ 18 → n ≤ 18
short n tail h k = ground arith

kept_tail :
    (wide : ℕ → Bool) (start buffer : String) (tail : ℕ)
    → tail ≤ 18
    → search_tag wide start buffer ≡ none
    → (text_length (drop_text (text_length buffer - tail) buffer) ≤ 18)
      × (search_tag wide start (drop_text (text_length buffer - tail) buffer) ≡ none)
kept_tail wide start buffer tail small plain =
    let cut = text_length buffer - tail in
    (omega (arith, length-drop_text cut buffer), search_tag-drop wide start cut buffer plain)

module _ (wide : ℕ → Bool) (u : Unicode) (final : Bool) where
  drop_thought-IsStripped :
      (s : Stripper)
      → s.inside ≡ true
      → find_close wide s.buffer ≡ none
      → IsStripped wide final (drop_thought wide u final s)
  unfolding drop_thought find_close
  drop_thought-IsStripped s h plain =
      let tail = partial_tag_tail_length u s.buffer close_prefixes in
      let kept =
        kept_tail wide "</" s.buffer tail (tail_bound u s.buffer 18 close_prefixes (omega arith))
          plain in
      elim final as (λ b. IsStripped wide b (drop_thought wide u b s)) [
        | true ↦ (omega arith, empty-search_tag wide (if s.inside then "</" else "<"))
        | false ↦ elim (Bool-cases (tail == 0)) [
          | inl bare ↦ rw (h, bare) (omega arith, empty-search_tag wide "</")
          | inr some_tail ↦ rw (h, some_tail) kept
        ]
      ]

  show_text-IsStripped :
      (visible : String) (s : Stripper)
      → s.inside ≡ false
      → find_open wide s.buffer ≡ none
      → IsStripped wide final ((show_text wide u final visible s).1)
  unfolding show_text find_open
  show_text-IsStripped visible s h plain =
      let tail = partial_tag_tail_length u s.buffer open_prefixes in
      let small = tail_bound u s.buffer 18 open_prefixes (omega arith) in
      let cut = text_length s.buffer - tail in
      let kept = kept_tail wide "<" s.buffer tail small plain in
      elim final as (λ b. IsStripped wide b ((show_text wide u b visible s).1)) [
        | true ↦ (omega arith, empty-search_tag wide (if s.inside then "</" else "<"))
        | false ↦ elim (Bool-cases (cut == 0)) [
          | inl none_safe ↦
              rw (h, none_safe) (short (text_length s.buffer) tail none_safe small, plain)
          | inr safe ↦ rw (h, safe) kept
        ]
      ]

  -- What is left behind a tag needs less fuel.
  cut_below :
      (start : String) (s : Stripper) (i n fuel : ℕ)
      → 0 < text_length start
      → search_tag wide start s.buffer ≡ some (i, n)
      → text_length s.buffer < suc fuel
      → text_length (drop_text (i + n) s.buffer) < fuel
  cut_below start s i n fuel pos found h =
      omega (
        arith,
        length-drop_text (i + n) s.buffer,
        search_tag_cuts wide start s.buffer i n pos found,
      )

  empty-IsStripped : (s : Stripper) → nonempty s.buffer ≡ false → IsStripped wide final s
  empty-IsStripped s h =
      rw (text_empty s.buffer h)
        (omega arith, empty-search_tag wide (if s.inside then "</" else "<"))

  strip_rounds-IsStripped :
      (fuel : ℕ) (visible : String) (s : Stripper)
      → text_length s.buffer < fuel
      → IsStripped wide final ((strip_rounds wide u final fuel visible s).1)
  unfolding strip_rounds find_open find_close
  strip_rounds-IsStripped zero visible s h = elim h [ ]
  strip_rounds-IsStripped (suc fuel) visible s h = elim (Bool-cases (nonempty s.buffer)) [
    | inr bare ↦ rw (bare, strip_rounds) (empty-IsStripped s bare)
    | inl filled ↦ elim (Bool-cases s.inside) [
      | inl within ↦ elim (Option-cases (find_close wide s.buffer)) [
        | inl plain ↦
            rw (filled, within, strip_rounds, plain) (drop_thought-IsStripped s within plain)
        | inr ((i, n), found) ↦
            rw (filled, within, strip_rounds, found)
              (strip_rounds-IsStripped fuel visible
                (record { buffer = drop_text (i + n) s.buffer; inside = false })
                (cut_below "</" s i n fuel (omega arith) found h))
      ]
      | inr without ↦ elim (Option-cases (find_open wide s.buffer)) [
        | inl plain ↦
            rw (filled, without, strip_rounds, plain) (show_text-IsStripped visible s without plain)
        | inr ((i, n), found) ↦
            rw (filled, without, strip_rounds, found)
              (strip_rounds-IsStripped fuel (visible +text+ take_text i s.buffer)
                (record { buffer = drop_text (i + n) s.buffer; inside = true })
                (cut_below "<" s i n fuel (omega arith) found h))
      ]
    ]
  ]

  -- The loop on a chunk always comes to its end, whatever the buffer and the chunk hold: behind it at
  -- most 18 characters wait, or none if the chunk is the last one, and they hold no complete tag of
  -- the kind that is looked for next, a closing one within a thought and an opening one elsewhere.
  pub feed-IsStripped :
      (text : String) (s : Stripper) → IsStripped wide final ((feed wide u final text s).1)
  unfolding feed
  feed-IsStripped text s =
      let buffer = s.buffer +text+ text in
      strip_rounds-IsStripped (suc (text_length buffer)) "" (record s { buffer = buffer })
        (omega arith)
