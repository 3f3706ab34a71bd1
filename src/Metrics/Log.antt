-- ===== src/Metrics/Log.antt =====
-- What the collector keeps of all that was stored, and what a history returns of it.
use stake_basket.Prelude.{
  ◌-◌, ℕ, zero, suc, ◌≤◌, ◌≡◌, refl, sym, String, List, [], ◌∷◌, ◌++◌, take_last,
  push_capped-take_last, filter, length, sort_by, sort_by_ascending, IsAscending,
  filter-IsAscending, drop-IsAscending, All, arith, map, append_assoc, append-nil, ap, ◌∙◌,
}
use stake_basket.AlertRules.{Sample}
use stake_basket.Metrics.{
  HistoricalMetric, metric_of, store, timeframe_age, newest, is_recent, get_history, summary_of,
  get_summary,
}

-- Stores in a row, each a type, its data and the time.
unfoldable pub store_all :
    List ((String × Sample) × ℕ) → List HistoricalMetric → List HistoricalMetric
store_all [] metrics = metrics
store_all (((kind, payload), now) ∷ entries) metrics =
    store_all entries (store kind payload now metrics)

abbrev pub logged : (String × Sample) × ℕ → HistoricalMetric
logged ((kind, payload), now) = metric_of kind payload now

store_all-take_last :
    (entries : List ((String × Sample) × ℕ)) (log : List HistoricalMetric)
    → store_all entries (take_last 1000 log) ≡ take_last 1000 (log ++ map logged entries)
unfolding store_all store
store_all-take_last [] log = ap (take_last 1000) (sym (append-nil log))
store_all-take_last (e ∷ entries) log = rw (push_capped-take_last 1000 log (logged e)) (
    store_all-take_last entries (log ++ logged e ∷ [])
    ∙ ap (take_last 1000) (append_assoc log (logged e ∷ []) (map logged entries)))

-- After any stores into an empty collector it holds exactly the last thousand of what was stored.
pub store_all-log :
    (entries : List ((String × Sample) × ℕ))
    → store_all entries [] ≡ take_last 1000 (map logged entries)
store_all-log entries = store_all-take_last entries []

newest-IsAscending :
    (limit : ℕ) (xs : List HistoricalMetric)
    → IsAscending (λ m. m.timestamp) xs
    → IsAscending (λ m. m.timestamp) (newest limit xs)
newest-IsAscending zero xs h = h
newest-IsAscending (suc n) xs h = drop-IsAscending (λ m. m.timestamp) (length xs - suc n) xs h

-- If the stored times never decrease, a history is exactly the newest metrics of the type within the
-- timeframe, as many as the limit says and oldest first; a limit of 0 gives all of them.
get_history-newest :
    (kind : String) (limit : ℕ) (timeframe : String) (now : ℕ) (metrics : List HistoricalMetric)
    → IsAscending (λ m. m.timestamp) metrics
    → get_history kind limit timeframe now metrics
      ≡ newest limit (filter (is_recent kind timeframe now) metrics)
unfolding get_history
get_history-newest kind limit timeframe now metrics h =
    sort_by_ascending (λ m. m.timestamp) _
      (newest-IsAscending limit _ (filter-IsAscending (λ m. m.timestamp) _ metrics h))

filter-recent-nil :
    (kind timeframe : String) (now : ℕ) (metrics : List HistoricalMetric)
    → timeframe_age timeframe ≡ 0
    → All (λ m. m.timestamp ≤ now) metrics
    → filter (is_recent kind timeframe now) metrics ≡ []
unfolding is_recent
filter-recent-nil kind timeframe now [] unknown past = refl
filter-recent-nil kind timeframe now (m ∷ ms) unknown (p, past) =
    ground (arith, filter-recent-nil kind timeframe now ms unknown past)

newest-nil : (limit : ℕ) → newest {A = HistoricalMetric} limit [] ≡ []
newest-nil zero = refl
newest-nil (suc n) = let e : 0 - suc n ≡ 0 = omega arith in rw e refl

-- A text that is no timeframe makes the cutoff the present, so that a history of metrics stored up to
-- now is empty, and the summary says nothing of them: no transaction, and an uptime of 100.
unknown_timeframe_is_empty :
    (kind timeframe : String) (limit now : ℕ) (metrics : List HistoricalMetric)
    → timeframe_age timeframe ≡ 0
    → All (λ m. m.timestamp ≤ now) metrics
    → (get_history kind limit timeframe now metrics ≡ [])
      × (get_summary timeframe now metrics ≡ summary_of timeframe [])
unfolding get_history get_summary sort_by
unknown_timeframe_is_empty kind timeframe limit now metrics unknown past =
    let none_recent = λ (k : String). filter-recent-nil k timeframe now metrics unknown past in
    (rw (none_recent kind) (ap (sort_by _) (newest-nil limit)), rw (none_recent "contract") refl)
