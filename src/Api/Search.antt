-- ===== src/Api/Search.antt =====
-- `search` of api/main.py, over the retry on lock contention: the number of retries that it reports.
-- Metrics are left out.
use unlearning.Prelude.{
  ℕ, zero, suc, ◌+◌, ◌-◌, ◌<◌, ◌≡◌, sym, ap, ◌∙◌, subst, Bool, not, ◌++◌, arith, if◌then◌else◌,
  Bool-cases, Result-cases, inl, inr, Str, Exn, value_error, key_error, runtime_error, struct_error,
  os_error, other, id_mapping_error, Result, ok, raise,
}
use unlearning.Prelude.Text.{codes}
use unlearning.Api.{Reply, answer, refuse, with_lock_retry, at_least_one}
use unlearning.Api.Retry.{Contended, with_lock_retry-calls}

-- The native index: `search_knn` with the query, `k` and the entry node of the request.
pub record Searcher : Type 1 where
  pub Query : Type 0
  pub Hits : Type 0
  pub W : Type 0
  pub is_loaded : W → Bool
  pub search_knn : Query → W → Result Hits × W
  pub is_contention : Exn → Bool
  pub exn_text : Exn → Str

pub record SearchResponse (Hits : Type 0) : Type 0 where
  pub hits : Hits
  pub retries : ℕ

module _ (site : Searcher) where
  -- `_search`: the call, counted.
  abbrev pub tracked : site.Query → site.W × ℕ → Result site.Hits × (site.W × ℕ)
  tracked query (w, attempts_used) =
      let (out, w') = site.search_knn query w in (out, (w', suc attempts_used))

  abbrev pub other_error : Exn → Reply (SearchResponse site.Hits)
  other_error (value_error text) = refuse 400 text
  other_error x = refuse 500 (codes "native search failed: " ++ site.exn_text x)

  abbrev pub search_error : Exn → Reply (SearchResponse site.Hits)
  search_error x =
      if site.is_contention x
      then refuse 503 (codes "lock contention after retries: " ++ site.exn_text x)
      else other_error x

  unfoldable pub search : ℕ → ℕ → site.Query → site.W → Reply (SearchResponse site.Hits) × site.W
  search max_attempts base_delay query w =
      let (out, s) =
        with_lock_retry site.is_contention (tracked query) base_delay max_attempts (w, 0) in
      if not (site.is_loaded w) then (refuse 409 (codes "no index loaded"), w) else elim out [
        | ok hits ↦ (answer (record { hits = hits; retries = s.world.1 - 1 }), s.world.0)
        | raise x ↦ (search_error x, s.world.0)
      ]

  counted_calls :
      (query : site.Query) (base_delay k : ℕ) (w w' : site.W × ℕ)
      → Contended site.is_contention (tracked query) base_delay k w w'
      → (w'.1 ≡ w.1 + k)
        × Contended site.is_contention (site.search_knn query) base_delay k w.0 w'.0
  counted_calls query base_delay zero w w' h =
      (sym (ap (λ (p : site.W × ℕ). p.1) h) ∙ omega arith, ap (λ (p : site.W × ℕ). p.0) h)
  counted_calls query base_delay (suc k) w w' (t, h) =
      let (n, calls) = counted_calls query base_delay k _ w' h in (omega (arith, n), (t, calls))

  other_error-answer : (x : Exn) {a : SearchResponse site.Hits} → ¬ (other_error x ≡ answer a)
  other_error-answer (value_error text) h = cc h
  other_error-answer (id_mapping_error p) h = cc h
  other_error-answer (os_error text) h = cc h
  other_error-answer (key_error text) h = cc h
  other_error-answer (runtime_error text) h = cc h
  other_error-answer (struct_error text) h = cc h
  other_error-answer (other text) h = cc h

  search_error-answer : (x : Exn) {a : SearchResponse site.Hits} → ¬ (search_error x ≡ answer a)
  search_error-answer x h = elim (Bool-cases (site.is_contention x)) [
    | inl t ↦ cc (rw t at h)
    | inr f ↦ other_error-answer x (rw f at h)
  ]

  -- A search that answers reports as retries how many calls of the index ended in lock contention, all
  -- in a row and fewer than the attempts that are allowed (at least one is); its hits are those of the
  -- call behind them.
  pub search-retries :
      (max_attempts base_delay : ℕ) (query : site.Query) (w : site.W) {a : SearchResponse site.Hits}
      {w' : site.W}
      → search max_attempts base_delay query w ≡ (answer a, w')
      → (v : site.W) × (a.retries < at_least_one max_attempts)
        × Contended site.is_contention (site.search_knn query) base_delay a.retries w v
        × (site.search_knn query v ≡ (ok a.hits, w'))
  unfolding search
  search-retries max_attempts base_delay query w {a} {w'} h =
      let run = with_lock_retry site.is_contention (tracked query) base_delay max_attempts (w, 0) in
      let (k, v, few, before, result, world, slept, contentions, last) =
        with_lock_retry-calls site.is_contention (tracked query) base_delay max_attempts (w, 0) in
      let (n, calls) = counted_calls query base_delay k (w, 0) v before in
      elim (Bool-cases (site.is_loaded w)) [
        | inr f ↦ absurd (cc (rw (f, search) at h))
        | inl l ↦ elim (Result-cases run.0) [
          | inr (x, q) ↦
              let ended : (search_error x, run.1.world.0) ≡ (answer a, w') =
                rw (l, q, search) at h in
              absurd (
                search_error-answer x
                  (ap (λ (p : Reply (SearchResponse site.Hits) × site.W). p.0) ended))
          | inl (hits, q) ↦
              let told : Reply (SearchResponse site.Hits) =
                answer (record { hits = hits; retries = run.1.world.1 - 1 }) in
              let ended : (told, run.1.world.0) ≡ (answer a, w') = rw (l, q, search) at h in
              let same : hits ≡ a.hits = cc ended in
              let left : run.1.world.0 ≡ w' = cc ended in
              let number : run.1.world.1 - 1 ≡ a.retries = cc ended in
              let k_retries : k ≡ a.retries =
                omega (arith, number, n, ap (λ (p : site.W × ℕ). p.1) world) in
              let found : (site.search_knn query v.0).0 ≡ ok a.hits = sym result ∙ q ∙ ap ok same in
              let moved : (site.search_knn query v.0).1 ≡ w' =
                sym (ap (λ (p : site.W × ℕ). p.0) world) ∙ left in
              (
                v.0,
                omega (arith, few, k_retries),
                subst (λ i. Contended site.is_contention (site.search_knn query) base_delay i w v.0)
                    k_retries calls,
                ap (λ (o : Result site.Hits). (o, (site.search_knn query v.0).1)) found
                    ∙ ap (λ (u : site.W). (ok a.hits, u)) moved,
              )
        ]
      ]
