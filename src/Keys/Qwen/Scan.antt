-- ===== src/Keys/Qwen/Scan.antt =====
-- The scan of the Qwen Cloud selections of app/config.py, slot by slot.
use native.Mathlib.Decide.{ℕ_discrete}
use native.Mathlib.Nat.{mod-lt, mod-add-mod, add_assoc}
use custorouter.Common.{
  ℕ, zero, suc, ◌+◌, ◌%◌, ◌≤◌, ◌<◌, ◌≡◌, refl, ap, ◌∙◌, sym, inl, inr, true, false, Option, none,
  some, String, arith, length, get_elem?, lt_of_get_elem?, distance, distance-lt, distance_reaches,
  Bool-cases, Option-cases,
}
use custorouter.Keys.State.{State}
use custorouter.Keys.Qwen.{is_eligible, scan}

-- No slot at the offsets from `lo` up to `hi` has an eligible key.
abbrev pub NoneEligible : State → String → ℕ → ℕ → ℕ → Type 0
NoneEligible s model start lo hi =
    (p : ℕ) (k : String)
    → lo ≤ p
    → p < hi
    → get_elem? s.qc_pool.keys ((start + p) % length s.qc_pool.keys) ≡ some k
    → is_eligible s model k ≡ false

-- The slot `i` with its key is the first eligible one behind `start`, from `lo` on.
pub record IsFirst (s : State) (model : String) (start lo hi i : ℕ) (key : String) : Type 0 where
  pub offset : ℕ
  pub from : lo ≤ offset
  pub below : offset < hi
  pub place : i ≡ (start + offset) % length s.qc_pool.keys
  pub listed : get_elem? s.qc_pool.keys i ≡ some key
  pub eligible : is_eligible s model key ≡ true
  pub earlier : NoneEligible s model start lo offset

-- What a scan returns.
abbrev pub Found : State → String → ℕ → ℕ → ℕ → Option (ℕ × String) → Type 0
Found s model start lo hi none = NoneEligible s model start lo hi
Found s model start lo hi (some (i, key)) = IsFirst s model start lo hi i key

module _ (s : State) (model : String) (start : ℕ) where
  NoneEligible-step :
      (lo hi : ℕ)
      → ((k : String)
          → get_elem? s.qc_pool.keys ((start + lo) % length s.qc_pool.keys) ≡ some k
          → is_eligible s model k ≡ false)
      → NoneEligible s model start (lo + 1) hi
      → NoneEligible s model start lo hi
  NoneEligible-step lo hi here later p k ge lt at = elim (ℕ_discrete p lo) [
    | yes e ↦ here k (rw (← e) at)
    | no ne ↦ later p k (omega arith) lt at
  ]

  Found-step :
      (lo hi : ℕ) (r : Option (ℕ × String))
      → ((k : String)
          → get_elem? s.qc_pool.keys ((start + lo) % length s.qc_pool.keys) ≡ some k
          → is_eligible s model k ≡ false)
      → Found s model start (lo + 1) hi r
      → Found s model start lo hi r
  Found-step lo hi none here f = NoneEligible-step lo hi here f
  Found-step lo hi (some (i, key)) here f = record {
    offset = f.offset;
    from = omega arith;
    below = f.below;
    place = f.place;
    listed = f.listed;
    eligible = f.eligible;
    earlier = NoneEligible-step lo f.offset here f.earlier;
  }

  -- One round of the scan.
  abbrev slot : ℕ → Option String
  slot lo = get_elem? s.qc_pool.keys ((start + lo) % length s.qc_pool.keys)

  scan_missing :
      (lo count : ℕ)
      → slot lo ≡ none
      → scan s model start lo (suc count) ≡ scan s model start (lo + 1) count
  unfolding scan
  scan_missing lo count e = ground arith

  scan_good :
      (lo count : ℕ) {key : String}
      → slot lo ≡ some key
      → is_eligible s model key ≡ true
      → scan s model start lo (suc count) ≡ some ((start + lo) % length s.qc_pool.keys, key)
  unfolding scan
  scan_good lo count e good = ground arith

  scan_bad :
      (lo count : ℕ) {key : String}
      → slot lo ≡ some key
      → is_eligible s model key ≡ false
      → scan s model start lo (suc count) ≡ scan s model start (lo + 1) count
  unfolding scan
  scan_bad lo count e bad = ground arith

  pub scan-Found :
      (lo count : ℕ) → Found s model start lo (lo + count) (scan s model start lo count)
  unfolding scan
  scan-Found lo zero = λ p k ge lt at. absurd (omega arith)
  scan-Found lo (suc count) =
      let next : (lo + 1) + count ≡ lo + suc count = omega arith in
      let later : Found s model start (lo + 1) (lo + suc count)
          (scan s model start (lo + 1) count) =
        rw (← next) (scan-Found (lo + 1) count) in
      elim (Option-cases (slot lo)) [
        | inl missing ↦ rw (scan_missing lo count missing) (Found-step lo _ _ (λ k at. cc) later)
        | inr (key, at) ↦ elim (Bool-cases (is_eligible s model key)) [
          | inl good ↦ rw (scan_good lo count at good) (record {
            offset = lo;
            from = omega arith;
            below = omega arith;
            place = refl;
            listed = at;
            eligible = good;
            earlier = λ p k ge lt e. absurd (omega arith);
          })
          | inr bad ↦ rw (scan_bad lo count at bad) (Found-step lo _ _ (λ k e. cc) later)
        ]
      ]

  -- A full round from any offset visits every key of the pool.
  pub NoneEligible-all :
      (lo j : ℕ) (k : String)
      → NoneEligible s model start lo (lo + length s.qc_pool.keys)
      → get_elem? s.qc_pool.keys j ≡ some k
      → is_eligible s model k ≡ false
  NoneEligible-all lo j k empty at =
      let n = length s.qc_pool.keys in
      let hj : j < n = lt_of_get_elem? s.qc_pool.keys j at in
      let base : ℕ = (start + lo) % n in
      let base-lt : base < n = mod-lt (start + lo) (omega arith) in
      let d : ℕ = distance n base j in
      let shift : (start + (lo + d)) % n ≡ j =
        ap (λ (t : ℕ). t % n) (sym (add_assoc start lo d))
        ∙ sym (mod-add-mod (start + lo) n d)
        ∙ distance_reaches n base j base-lt hj in
      empty (lo + d) k (omega arith) (omega (arith, distance-lt n base j base-lt hj)) (rw shift at)
