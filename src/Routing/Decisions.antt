-- ===== src/Routing/Decisions.antt =====
-- internal/routing/engine.go: what a decision of `Route` promises.
use zia.Base.{
  ℕ, suc, String, Bool, true, false, ◌≡◌, refl, ◌⊎◌, inl, inr, none, some, List, [], ◌∷◌, arith,
  str_eq_iff, All, Bool-cases, Option-cases, subst, ap, sym, ◌∙◌, find,
}
use zia.Base.Dict.{lookup, lookup-insert}
use zia.Effects.Failure.{ok}
use zia.Routing.Breaker.{CircuitBreaker, is_available, closed}
use zia.Routing.Engine.{
  RouteRequest, RouteDecision, fell_back, rule_matched, Rule, RoutingEngine, is_excluded,
  first_fallback, available_fallbacks, decide, applies, no_rule, route_rules, route,
}

-- A question about one PSP adds no answer but its own: what is available after it was available
-- before, or is the PSP that was found available by it.
question_adds :
    (now t : ℕ) (p q : String) (cb : CircuitBreaker)
    → (is_available t q (is_available now p cb).1).0 ≡ true
    → ((is_available t q cb).0 ≡ true) ⊎ ((is_available now q cb).0 ≡ true)
unfolding is_available
question_adds now t p q cb h = elim (Option-cases (lookup p cb.states)) [
  | inl e ↦ ground arith
  | inr (s, e) ↦ ground (arith, str_eq_iff p q, lookup-insert p q (closed s) cb.states)
]

module _ (e : RoutingEngine) (clock : ℕ → ℕ) (start : CircuitBreaker) where
  -- The PSP is not excluded, and the breaker as it was when `Route` began let it pass at one of the
  -- times at which `Route` asked.
  abbrev pub Usable : String → Type 0
  Usable psp = (is_excluded e psp ≡ false) × (n : ℕ) × ((is_available (clock n) psp start).0 ≡ true)

  -- The breaker differs from that at the start by closed breakers of usable PSPs only.
  abbrev pub Follows : CircuitBreaker → Type 0
  Follows cb =
      (n : ℕ) (q : String)
      → (is_available (clock n) q cb).0 ≡ true
      → (m : ℕ) × ((is_available (clock m) q start).0 ≡ true)

  question-Follows :
      (n : ℕ) (p : String) (cb : CircuitBreaker)
      → Follows cb
      → Follows (is_available (clock n) p cb).1
  question-Follows n p cb f k q h = elim (question_adds (clock n) (clock k) p q cb h) [
    | inl before ↦ f k q before
    | inr asked ↦ f n q asked
  ]

  first_fallback-Usable :
      (n : ℕ) (fbs : List String) (cb : CircuitBreaker) {fb : String}
      → Follows cb
      → (first_fallback e clock n fbs cb).0 ≡ some fb
      → Usable fb
  unfolding first_fallback
  first_fallback-Usable n [] cb f h = cc
  first_fallback-Usable n (x ∷ xs) cb {fb} f h = elim (Bool-cases (is_excluded e x)) [
    | inl out ↦ first_fallback-Usable n xs cb f (rw out at h)
    | inr free ↦ elim (Bool-cases (is_available (clock n) x cb).0) [
      | inl up ↦
          let same : x ≡ fb = ground arith in
          let asked = f n x up in subst Usable same (free, asked.0, asked.1)
      | inr down ↦
          first_fallback-Usable (suc n) xs (is_available (clock n) x cb).1
            (question-Follows n x cb f) (rw (free, down) at h)
    ]
  ]

  available_fallbacks-Usable :
      (n : ℕ) (fbs : List String) (cb : CircuitBreaker)
      → Follows cb
      → All Usable (available_fallbacks e clock n fbs cb).0
  unfolding available_fallbacks
  available_fallbacks-Usable n [] cb f = tt
  available_fallbacks-Usable n (x ∷ xs) cb f = elim (Bool-cases (is_excluded e x)) [
    | inl out ↦ rw out (available_fallbacks-Usable n xs cb f)
    | inr free ↦
        let rest =
          available_fallbacks-Usable (suc n) xs (is_available (clock n) x cb).1
            (question-Follows n x cb f) in
        rw free (elim (Bool-cases (is_available (clock n) x cb).0) [
          | inl up ↦ let asked = f n x up in rw up ((free, asked.0, asked.1), rest)
          | inr down ↦ rw down rest
        ])
  ]

-- The loop takes the first rule that applies.
route-find :
    (e : RoutingEngine) (clock : ℕ → ℕ) (req : RouteRequest) (rules : List Rule)
    (cb : CircuitBreaker)
    → route_rules e clock req rules cb ≡ elim (find (applies e req) rules) [
      | none ↦ (no_rule req, cb)
      | some rule ↦ decide e clock req rule cb
    ]
unfolding route_rules
route-find e clock req [] cb = refl
route-find e clock req (r ∷ rs) cb = ground (arith, route-find e clock req rs cb)

applies-not_excluded :
    (e : RoutingEngine) (req : RouteRequest) (rule : Rule)
    → applies e req rule ≡ true
    → is_excluded e rule.primary_psp ≡ false
unfolding applies
applies-not_excluded e req rule h = ground arith

find-passes {ℓ} :
    {A : Type ℓ} (p : A → Bool) (xs : List A) {x : A} → find p xs ≡ some x → p x ≡ true
find-passes p [] h = cc
find-passes p (y ∷ ys) {x} h = elim (Bool-cases (p y)) [
  | inl hit ↦ let same : y ≡ x = ground arith in subst (λ z. p z ≡ true) same hit
  | inr miss ↦ find-passes p ys (rw miss at h)
]

module _ (e : RoutingEngine) (clock : ℕ → ℕ) (cb : CircuitBreaker) (rule : Rule) where
  -- What a decision by one rule promises.
  abbrev Promise : RouteDecision → Type 0
  Promise d =
      Usable e clock cb d.primary
      × All (Usable e clock cb) d.fallbacks
      × ((d.primary ≡ rule.primary_psp) ⊎ ((is_available (clock 0) rule.primary_psp cb).0 ≡ false))

  start-Follows : Follows e clock cb cb
  start-Follows n q h = (n, h)

  decide-Promise :
      (req : RouteRequest) {d : RouteDecision}
      → is_excluded e rule.primary_psp ≡ false
      → (decide e clock req rule cb).0 ≡ ok d
      → Promise d
  unfolding decide
  decide-Promise req {d} free h =
      let cb' = (is_available (clock 0) rule.primary_psp cb).1 in
      let follows = question-Follows e clock cb 0 rule.primary_psp cb start-Follows in
      elim (Bool-cases (is_available (clock 0) rule.primary_psp cb).0) [
        | inl up ↦
            let fbs = (available_fallbacks e clock 1 rule.fallbacks cb').0 in
            let made : RouteDecision = record {
              primary = rule.primary_psp;
              fallbacks = fbs;
              reason = rule_matched rule.priority;
            } in
            let same : made ≡ d = ground arith in
            subst Promise same (
              (free, 0, up),
              available_fallbacks-Usable e clock cb 1 rule.fallbacks cb' follows,
              inl refl,
            )
        | inr down ↦ elim (Option-cases (first_fallback e clock 1 rule.fallbacks cb').0) [
          | inl missing ↦ ground arith
          | inr (fb, found) ↦
              let made : RouteDecision = record {
                primary = fb;
                fallbacks = [];
                reason = fell_back rule.primary_psp fb;
              } in
              let same : made ≡ d = ground arith in
              subst Promise same
                (first_fallback-Usable e clock cb 1 rule.fallbacks cb' follows found, tt, inr down)
        ]
      ]

-- A decision names a usable primary and usable fallbacks: none is excluded, and the breaker let each
-- pass at a time at which it was asked. It comes from the first rule that applies, and its primary
-- is that rule's unless the breaker did not let that one pass.
pub route-Usable :
    (e : RoutingEngine) (clock : ℕ → ℕ) (req : RouteRequest) (cb : CircuitBreaker)
    {d : RouteDecision}
    → (route e clock req cb).0 ≡ ok d
    → Usable e clock cb d.primary
      × All (Usable e clock cb) d.fallbacks
      × (rule : Rule) × (find (applies e req) e.rules ≡ some rule)
      × ((d.primary ≡ rule.primary_psp) ⊎ ((is_available (clock 0) rule.primary_psp cb).0 ≡ false))
unfolding route
route-Usable e clock req cb h = elim (Option-cases (find (applies e req) e.rules)) [
  | inl missing ↦ ground (arith, route-find e clock req e.rules cb)
  | inr (rule, found) ↦
      let free = applies-not_excluded e req rule (find-passes (applies e req) e.rules found) in
      let same = ap (λ r. r.0) (rw found at (route-find e clock req e.rules cb)) in
      let p = decide-Promise e clock cb rule req free (sym same ∙ h) in (p.0, p.1, rule, found, p.2)
]
