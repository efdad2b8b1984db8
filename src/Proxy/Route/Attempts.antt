-- ===== src/Proxy/Route/Attempts.antt =====
-- The attempts of a model route, one after the other (app/routers/proxy.py `_run_model_route`).
use custorouter.Common.{
  ap, sym, subst, ℕ, zero, suc, ◌+◌, ◌≡◌, refl, ◌⊎◌, inl, inr, Bool, true, false, ◌&&◌, Option,
  none, some, String, List, [], ◌∷◌, arith, leb, if◌then◌else◌, ◌∙◌, length, get_elem?, Bool-cases,
  Option-cases,
}
use custorouter.Proxy.Route.{
  Redis, Response, Routed, answered, raised, record_model_route_result, attempt_one, attempt_all,
}

module _ {ℓ} {W : Type ℓ} (redis : Redis W) (breaker_key : String → String) (longest : ℕ)
    (endpoint : String → W → Option ℕ × W) (route : String) where
  -- The world behind an attempt: an answer is recorded in the breaker, an exception is not.
  abbrev behind : String → Option ℕ → W → W
  behind c none v = v
  behind c (some status) v = record_model_route_result redis breaker_key longest c status v

  abbrev next : String → W → W
  next c w = behind c (endpoint c w).0 (endpoint c w).1

  -- The outcome of the attempt at a position, if every attempt is made up to it.
  abbrev outcome_at : ℕ → List String → W → Option (Option ℕ)
  outcome_at k [] w = none
  outcome_at zero (c ∷ cs) w = some (endpoint c w).0
  outcome_at (suc k) (c ∷ cs) w = outcome_at k cs (next c w)

  abbrev is_failure : Option ℕ → Bool
  is_failure none = false
  is_failure (some status) = leb 400 status

  -- Every attempt in front of a position is answered with a failure.
  abbrev all_failed : ℕ → List String → W → Bool
  all_failed zero cs w = true
  all_failed (suc k) [] w = true
  all_failed (suc k) (c ∷ cs) w = is_failure (endpoint c w).0 && all_failed k cs (next c w)

  -- The response comes from the attempt at the position `k` of `cs`: those in front of it failed,
  -- and it did not, or it is the last one.
  pub record IsServed (cs : List String) (n : ℕ) (w : W) (r : Response) : Type 0 where
    pub place : ℕ
    pub chosen : get_elem? cs place ≡ some r.selected
    pub numbered : r.attempt ≡ n + place
    pub answer : outcome_at place cs w ≡ some (some r.status_code)
    pub earlier : all_failed place cs w ≡ true
    pub final : (leb 400 r.status_code ≡ false) ⊎ (suc place ≡ length cs)
    pub named : r.route ≡ route

  -- The attempt at a position raises an exception, and those in front of it failed.
  pub record IsRaised (cs : List String) (w : W) : Type 0 where
    pub place : ℕ
    pub broken : outcome_at place cs w ≡ some none
    pub earlier : all_failed place cs w ≡ true

  abbrev pub IsDone : List String → ℕ → W → Routed → Type 0
  IsDone cs n w outcome =
      ((r : Response) × (outcome ≡ answered r) × IsServed cs n w r)
      ⊎ ((outcome ≡ raised) × IsRaised cs w)

  abbrev first : String → ℕ → ℕ → Response
  first c n status = record { status_code = status; route = route; selected = c; attempt = n }

  first-IsServed :
      (c : String) (cs : List String) (n status : ℕ) (w : W)
      → (endpoint c w).0 ≡ some status
      → (leb 400 status ≡ false) ⊎ (1 ≡ length (c ∷ cs))
      → IsServed (c ∷ cs) n w (first c n status)
  first-IsServed c cs n status w e h = record {
    place = 0;
    chosen = refl;
    numbered = omega arith;
    answer = ap some e;
    earlier = refl;
    final = h;
    named = refl;
  }

  -- A failed attempt in front of the others.
  later-IsDone :
      (c : String) (cs : List String) (n : ℕ) (w : W) (outcome : Routed)
      → is_failure (endpoint c w).0 ≡ true
      → IsDone cs (suc n) (next c w) outcome
      → IsDone (c ∷ cs) n w outcome
  later-IsDone c cs n w outcome failed (inl (r, same, served)) = inl (
    r,
    same,
    record {
      place = suc served.place;
      chosen = served.chosen;
      numbered = omega (arith, served.numbered);
      answer = served.answer;
      earlier = rw failed served.earlier;
      final = elim served.final [ inl good ↦ inl good | inr end ↦ inr (ap suc end) ];
      named = served.named;
    },
  )
  later-IsDone c cs n w outcome failed (inr (same, broken)) = inr (
    same,
    record { place = suc broken.place; broken = broken.broken; earlier = rw failed broken.earlier },
  )

  attempt_one_eq :
      (c : String) (w : W)
      → attempt_one redis breaker_key longest endpoint c w ≡ ((endpoint c w).0, next c w)
  unfolding attempt_one
  attempt_one_eq c w = elim (Option-cases (endpoint c w).0) [
    | inl e ↦ rw (attempt_one, e) refl
    | inr (status, e) ↦ rw (attempt_one, e) refl
  ]

  attempt_all-none :
      (c : String) (cs : List String) (n : ℕ) (last : Routed) (w : W)
      → (endpoint c w).0 ≡ none
      → (attempt_all redis breaker_key longest endpoint route (c ∷ cs) n last w).0 ≡ raised
  unfolding attempt_all
  attempt_all-none c cs n last w e = rw (attempt_all, attempt_one_eq c w, e) refl

  attempt_all-step :
      (c : String) (cs : List String) (n : ℕ) (last : Routed) (w : W) {status : ℕ}
      → (attempt_one redis breaker_key longest endpoint c w).0 ≡ some status
      → (attempt_all redis breaker_key longest endpoint route (c ∷ cs) n last w).0 ≡ (
          if leb 400 status
          then (attempt_all redis breaker_key longest endpoint route cs
              (suc n)
              (answered (first c n status))
              (attempt_one redis breaker_key longest endpoint c w).1).0
          else answered (first c n status))
  unfolding attempt_all
  attempt_all-step c cs n last w {status} e = elim (Bool-cases (leb 400 status)) [
    | inl failed ↦ rw (attempt_all, e, failed) refl
    | inr good ↦ rw (attempt_all, e, good) refl
  ]

  attempt_all-some :
      (c : String) (cs : List String) (n : ℕ) (last : Routed) (w : W) {status : ℕ}
      → (endpoint c w).0 ≡ some status
      → (attempt_all redis breaker_key longest endpoint route (c ∷ cs) n last w).0 ≡ (
          if leb 400 status
          then (attempt_all redis breaker_key longest endpoint route cs
              (suc n)
              (answered (first c n status))
              (next c w)).0
          else answered (first c n status))
  attempt_all-some c cs n last w {status} e =
      subst
        (λ v. (attempt_all redis breaker_key longest endpoint route (c ∷ cs) n last w).0 ≡ (
          if leb 400 status
          then (attempt_all redis breaker_key longest endpoint route cs (suc n)
              (answered (first c n status)) v).0
          else answered (first c n status)))
        (ap (λ p. p.1) (attempt_one_eq c w))
        (attempt_all-step c cs n last w (ap (λ p. p.0) (attempt_one_eq c w) ∙ e))

  attempt_all-nil :
      (n : ℕ) (last : Routed) (w : W)
      → (attempt_all redis breaker_key longest endpoint route [] n last w).0 ≡ last
  unfolding attempt_all
  attempt_all-nil n last w = refl

  -- One attempt in front of the rest, and what becomes of the rest if it fails.
  attempt_all-cons :
      (c : String) (cs : List String) (n : ℕ) (last : Routed) (w : W)
      → ((status : ℕ)
          → (endpoint c w).0 ≡ some status
          → leb 400 status ≡ true
          → (1 ≡ length (c ∷ cs))
            ⊎ IsDone cs
                (suc n)
                (next c w)
                (attempt_all redis breaker_key longest endpoint route cs
                  (suc n)
                  (answered (first c n status))
                  (next c w)).0)
      → ((status : ℕ)
          → 1 ≡ length (c ∷ cs)
          → (attempt_all redis breaker_key longest endpoint route cs
              (suc n)
              (answered (first c n status))
              (next c w)).0
            ≡ answered (first c n status))
      → IsDone
          (c ∷ cs)
          n
          w
          (attempt_all redis breaker_key longest endpoint route (c ∷ cs) n last w).0
  attempt_all-cons c cs n last w rest end = elim (Option-cases (endpoint c w).0) [
    | inl e ↦
        inr (
          attempt_all-none c cs n last w e,
          record { place = 0; broken = ap some e; earlier = refl },
        )
    | inr (status, e) ↦ elim (Bool-cases (leb 400 status)) [
      | inr good ↦ inl (
        first c n status,
        attempt_all-some c cs n last w e ∙ rw good refl,
        first-IsServed c cs n status w e (inl good),
      )
      | inl failed ↦
          let same = attempt_all-some c cs n last w e ∙ rw failed refl in
          elim (rest status e failed) [
            | inl only ↦ inl (
              first c n status,
              same ∙ end status only,
              first-IsServed c cs n status w e (inr only),
            )
            | inr done ↦
                later-IsDone c cs n w _ (rw e failed)
                  (subst (λ o. IsDone cs (suc n) (next c w) o) (sym same) done)
          ]
    ]
  ]

  pub attempt_all-IsDone :
      (c : String) (cs : List String) (n : ℕ) (last : Routed) (w : W)
      → IsDone
          (c ∷ cs)
          n
          w
          (attempt_all redis breaker_key longest endpoint route (c ∷ cs) n last w).0
  attempt_all-IsDone c [] n last w =
      attempt_all-cons c [] n last w (λ status e failed. inl refl)
        (λ status only. attempt_all-nil (suc n) (answered (first c n status)) (next c w))
  attempt_all-IsDone c (d ∷ ds) n last w =
      attempt_all-cons c (d ∷ ds) n last w
        (λ status e failed.
          inr (attempt_all-IsDone d ds (suc n) (answered (first c n status)) (next c w)))
        (λ status only. absurd (omega (arith, only)))
