-- ===== src/Playground/Stripper.antt =====
-- `_ThinkingStripper` and `_partial_tag_tail_length` (app/routers/playground.py).
--
-- Its regular expressions are those of app/translator.py, and stand in Translator/Tags.
pub mod Settled
pub mod Shown
pub mod Thoughts
mod Tests
use Prim.Native.String
use custorouter.Common.{
  ℕ, zero, suc, ◌+◌, ◌-◌, max, min, Bool, true, false, ◌&&◌, Option, none, some, String, List, [],
  ◌∷◌, leb, ◌==◌, if◌then◌else◌, nonempty, text_length, take_text, drop_text, str_eq,
}
use custorouter.Keys.Providers.{Unicode, lower}
use custorouter.Keys.Add.{◌+text+◌}
use custorouter.Translator.Tags.{find_open, find_close}

-- `_THINK_OPEN_PREFIXES` and `_THINK_CLOSE_PREFIXES`
abbrev pub open_prefixes : List String
open_prefixes = "<think" ∷ "<thinking" ∷ "<thought" ∷ "<thoughts" ∷ "<thinking_process" ∷ []

abbrev pub close_prefixes : List String
close_prefixes = "</think" ∷ "</thinking" ∷ "</thought" ∷ "</thoughts" ∷ "</thinking_process" ∷ []

-- `s.endswith(p)`
unfoldable pub has_suffix : String → String → Bool
has_suffix s p =
    leb (text_length p) (text_length s) && str_eq (drop_text (text_length s - text_length p) s) p

-- The longest beginning of one prefix, of at most `n` characters, at the end of the text.
unfoldable pub longest_tail : String → String → ℕ → ℕ
unfolding has_suffix
longest_tail low prefix zero = 0
longest_tail low prefix (suc n) =
    let shorter = longest_tail low prefix n in
    if has_suffix low (take_text (suc n) prefix) then suc n else shorter

unfoldable pub partial_tag_tail_length : Unicode → String → List String → ℕ
unfolding longest_tail
partial_tag_tail_length u value [] = 0
partial_tag_tail_length u value (prefix ∷ prefixes) =
    max (longest_tail (lower u value) prefix (min (text_length prefix) (text_length value)))
      (partial_tag_tail_length u value prefixes)

pub record Stripper : Type 0 where
  pub buffer : String
  pub inside : Bool

abbrev pub new_stripper : Stripper
new_stripper = record { buffer = ""; inside = false }

module _ (wide : ℕ → Bool) (u : Unicode) (final : Bool) where
  -- No closing tag: the thought is dropped, apart from what may be the beginning of the tag.
  unfoldable pub drop_thought : Stripper → Stripper
  unfolding partial_tag_tail_length
  drop_thought s =
      let tail = partial_tag_tail_length u s.buffer close_prefixes in
      if final then record s { buffer = "" } else record s {
        buffer = if tail == 0 then "" else drop_text (text_length s.buffer - tail) s.buffer;
      }

  -- No opening tag: the text is shown, apart from what may be the beginning of the tag.
  unfoldable pub show_text : String → Stripper → String × Stripper
  unfolding partial_tag_tail_length
  show_text visible s =
      let safe_length = text_length s.buffer - partial_tag_tail_length u s.buffer open_prefixes in
      if final
      then (visible +text+ s.buffer, record s { buffer = "" })
      else if safe_length == 0
      then (visible, s)
      else (
        visible +text+ take_text safe_length s.buffer,
        record s { buffer = drop_text safe_length s.buffer },
      )

  -- The `while` loop, on fuel; each round but the last one cuts a tag out of the buffer.
  unfoldable pub strip_rounds : ℕ → String → Stripper → String × Stripper
  unfolding drop_thought show_text
  strip_rounds zero visible s = (visible, s)
  strip_rounds (suc fuel) visible s = elim (nonempty s.buffer) [
    | false ↦ (visible, s)
    | true ↦ elim s.inside [
      | true ↦ elim (find_close wide s.buffer) [
        | some (i, n) ↦
            strip_rounds fuel visible
              (record { buffer = drop_text (i + n) s.buffer; inside = false })
        | none ↦ (visible, drop_thought s)
      ]
      | false ↦ elim (find_open wide s.buffer) [
        | some (i, n) ↦
            strip_rounds fuel (visible +text+ take_text i s.buffer)
              (record { buffer = drop_text (i + n) s.buffer; inside = true })
        | none ↦ show_text visible s
      ]
    ]
  ]

  unfoldable pub feed : String → Stripper → String × Stripper
  unfolding strip_rounds
  feed text s =
      let buffer = s.buffer +text+ text in
      strip_rounds (suc (text_length buffer)) "" (record s { buffer = buffer })

-- The chunks of a stream, one after the other: what is shown of each, and the state behind them.
unfoldable pub feed_all : (ℕ → Bool) → Unicode → List String → Stripper → List String × Stripper
unfolding feed
feed_all wide u [] s = ([], s)
feed_all wide u (text ∷ texts) s =
    let (shown, t) = feed wide u false text s in
    let (rest, r) = feed_all wide u texts t in (shown ∷ rest, r)
