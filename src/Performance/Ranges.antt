-- ===== src/Performance/Ranges.antt =====
-- Which queries are let through (`normalize` of internal/service/performance.go), with the bounds as
-- numbers of nanoseconds.
use touchgrass.Base.{
  ℕ, zero, suc, ◌-◌, ◌≡◌, refl, sym, ◌∙◌, Bool, true, false, not, ◌&&◌, ◌||◌, ◌==◌, ltb, leb,
  if◌then◌else◌, Text, bytes, text_eq, is_empty, arith,
}
use touchgrass.Base.Ints.{ℤ, pos, negsuc}
use touchgrass.Base.Results.{invalid_input, Result, ok, err}
use touchgrass.Performance.Query.{
  Resolution, unset, auto, by_minute, by_hour, unknown, SortField, unsorted, p95_ms, request_count,
  error_rate, route_family, unknown_field, PerformanceQuery, is_among, is_route_family,
  resolve_resolution, range_allowed, sort_or_default, sort_allowed, limit_or_default, limit_allowed,
  with_defaults, check_query, normalize,
}

-- Seven days at minute resolution; thirty days at hour resolution and where the code chooses.
abbrev pub fits : ℕ → Resolution → Bool
fits duration by_minute = leb duration 604800000000000
fits duration by_hour = leb duration 2592000000000000
fits duration unset = leb duration 2592000000000000
fits duration auto = leb duration 2592000000000000
fits duration (unknown t) = false

abbrev pub is_named : SortField → Bool
is_named unsorted = true
is_named p95_ms = true
is_named request_count = true
is_named error_rate = true
is_named route_family = true
is_named (unknown_field t) = false

abbrev pub is_listed : Text → Bool
is_listed t =
    is_empty t
    || (text_eq (bytes "health") t
        || (text_eq (bytes "auth") t
            || (text_eq (bytes "public_events") t
                || (text_eq (bytes "account_orders") t
                    || (text_eq (bytes "checkout") t
                        || (text_eq (bytes "callbacks") t
                            || (text_eq (bytes "admin") t
                                || (text_eq (bytes "organization") t
                                    || (text_eq (bytes "static") t
                                        || text_eq (bytes "other") t)))))))))

-- A limit from 0, which asks for the default, to 100.
abbrev pub is_limit : ℤ → Bool
is_limit (pos n) = leb n 100
is_limit (negsuc n) = false

abbrev pub succeeds {ℓ} : {A : Type ℓ} → Result A → Bool
succeeds (ok a) = true
succeeds (err e) = false

-- The window ends now and lasts one hour where its ends are not given.
abbrev pub is_admissible : ℕ → (Text → Result (Unit {0})) → PerformanceQuery → Bool
is_admissible now get q =
    let end = if q.end == 0 then now else q.end in
    let start = if q.start == 0 then end - 3600000000000 else q.start in
    ltb start end
    && (fits (end - start) q.resolution
        && (is_named q.sort
            && (is_listed q.route_family
                && (is_limit q.limit && (is_empty q.service_id || succeeds (get q.service_id))))))

-- Minute or hour resolution, and at most as much of it.
abbrev pub is_resolved : ℕ → Resolution → Bool
is_resolved duration by_minute = leb duration 604800000000000
is_resolved duration by_hour = leb duration 2592000000000000
is_resolved duration unset = false
is_resolved duration auto = false
is_resolved duration (unknown t) = false

abbrev pub is_sorted : SortField → Bool
is_sorted unsorted = false
is_sorted p95_ms = true
is_sorted request_count = true
is_sorted error_rate = true
is_sorted route_family = true
is_sorted (unknown_field t) = false

abbrev pub is_row_count : ℤ → Bool
is_row_count (pos n) = ltb 0 n && leb n 100
is_row_count (negsuc n) = false

-- An error, or a query with a window that its resolution allows, a sort field and 1 to 100 rows.
abbrev pub is_sound : Result PerformanceQuery → Bool
is_sound (ok v) =
    ltb v.start v.end
    && (is_resolved (v.end - v.start) v.resolution && (is_sorted v.sort && is_row_count v.limit))
is_sound (err e) = true

fits-resolve : (d : ℕ) (r : Resolution) → range_allowed d (resolve_resolution d r) ≡ fits d r
fits-resolve d unset = ground arith
fits-resolve d auto = ground arith
fits-resolve d by_minute = refl
fits-resolve d by_hour = refl
fits-resolve d (unknown t) = refl

named_sort : (s : SortField) → sort_allowed (sort_or_default s) ≡ is_named s
named_sort unsorted = refl
named_sort p95_ms = refl
named_sort request_count = refl
named_sort error_rate = refl
named_sort route_family = refl
named_sort (unknown_field t) = refl

limit_in_range : (l : ℤ) → limit_allowed (limit_or_default l) ≡ is_limit l
limit_in_range (pos zero) = refl
limit_in_range (pos (suc n)) = ground arith
limit_in_range (negsuc n) = refl

or_false : (b : Bool) → (b || false) ≡ b
or_false true = refl
or_false false = refl

listed_family : (t : Text) → (is_empty t || is_route_family t) ≡ is_listed t
unfolding is_route_family is_among
listed_family t = λ i.
    is_empty t
    || (text_eq (bytes "health") t
        || (text_eq (bytes "auth") t
            || (text_eq (bytes "public_events") t
                || (text_eq (bytes "account_orders") t
                    || (text_eq (bytes "checkout") t
                        || (text_eq (bytes "callbacks") t
                            || (text_eq (bytes "admin") t
                                || (text_eq (bytes "organization") t
                                    || (text_eq (bytes "static") t
                                        || or_false (text_eq (bytes "other") t) i)))))))))

resolved_range : (d : ℕ) (r : Resolution) → range_allowed d r ≡ is_resolved d r
resolved_range d unset = refl
resolved_range d auto = refl
resolved_range d by_minute = refl
resolved_range d by_hour = refl
resolved_range d (unknown t) = refl

sorted_field : (s : SortField) → sort_allowed s ≡ is_sorted s
sorted_field unsorted = refl
sorted_field p95_ms = refl
sorted_field request_count = refl
sorted_field error_rate = refl
sorted_field route_family = refl
sorted_field (unknown_field t) = refl

row_count : (l : ℤ) → limit_allowed l ≡ is_row_count l
row_count (pos n) = ground arith
row_count (negsuc n) = refl

-- The chain of early returns of `check_query`, over its tests.
abbrev early_returns :
    Bool
    → Bool
    → Bool
    → Bool
    → Bool
    → Bool
    → Result (Unit {0})
    → PerformanceQuery
    → Result PerformanceQuery
early_returns a b c d e f r q =
    if a
    then err invalid_input
    else if b
    then err invalid_input
    else if c
    then err invalid_input
    else if d
    then err invalid_input
    else if e
    then err invalid_input
    else if f
    then ok q
    else elim r [ ok u ↦ ok q | err x ↦ err x ]

early_returns-succeeds :
    (a b c d e f : Bool) (r : Result (Unit {0})) (q : PerformanceQuery)
    → succeeds (early_returns a b c d e f r q)
      ≡ (not a && (not b && (not c && (not d && (not e && (f || succeeds r))))))
early_returns-succeeds true b c d e f r q = refl
early_returns-succeeds false true c d e f r q = refl
early_returns-succeeds false false true d e f r q = refl
early_returns-succeeds false false false true e f r q = refl
early_returns-succeeds false false false false true f r q = refl
early_returns-succeeds false false false false false true r q = refl
early_returns-succeeds false false false false false false (ok u) q = refl
early_returns-succeeds false false false false false false (err x) q = refl

early_returns_sound :
    (a b c d e f : Bool) (r : Result (Unit {0})) (q : PerformanceQuery)
    → ((not a && (not b && (not c && not e))) ≡ true → is_sound (ok q) ≡ true)
    → is_sound (early_returns a b c d e f r q) ≡ true
early_returns_sound true b c d e f r q h = refl
early_returns_sound false true c d e f r q h = refl
early_returns_sound false false true d e f r q h = refl
early_returns_sound false false false true e f r q h = refl
early_returns_sound false false false false true f r q h = refl
early_returns_sound false false false false false true r q h = h refl
early_returns_sound false false false false false false (ok u) q h = h refl
early_returns_sound false false false false false false (err x) q h = refl

not-leb : (m n : ℕ) → not (leb m n) ≡ ltb n m
not-leb m n = ground arith

not-not : (b : Bool) → not (not b) ≡ b
not-not true = refl
not-not false = refl

not_both : (a b : Bool) → not (not a && not b) ≡ (a || b)
not_both true b = refl
not_both false b = not-not b

module _ (get : Text → Result (Unit {0})) where
  check_query-succeeds :
      (w : PerformanceQuery)
      → succeeds (check_query get w) ≡ (
          ltb w.start w.end
          && (range_allowed (w.end - w.start) w.resolution
              && (sort_allowed w.sort
                  && ((is_empty w.route_family || is_route_family w.route_family)
                      && (limit_allowed w.limit
                          && (is_empty w.service_id || succeeds (get w.service_id)))))))
  unfolding check_query
  check_query-succeeds w =
      early_returns-succeeds (leb w.end w.start)
        (not (range_allowed (w.end - w.start) w.resolution)) (not (sort_allowed w.sort))
        (not (is_empty w.route_family) && not (is_route_family w.route_family))
        (not (limit_allowed w.limit)) (is_empty w.service_id) (get w.service_id) w
      ∙ (λ i.
          not-leb w.end w.start i
          && (not-not (range_allowed (w.end - w.start) w.resolution) i
              && (not-not (sort_allowed w.sort) i
                  && (not_both (is_empty w.route_family) (is_route_family w.route_family) i
                      && (not-not (limit_allowed w.limit) i
                          && (is_empty w.service_id || succeeds (get w.service_id)))))))

  check_query_sound : (w : PerformanceQuery) → is_sound (check_query get w) ≡ true
  unfolding check_query
  check_query_sound w =
      early_returns_sound (leb w.end w.start) (not (range_allowed (w.end - w.start) w.resolution))
        (not (sort_allowed w.sort))
        (not (is_empty w.route_family) && not (is_route_family w.route_family))
        (not (limit_allowed w.limit)) (is_empty w.service_id) (get w.service_id) w
        (λ h.
          sym (λ i.
            not-leb w.end w.start i
            && ((not-not (range_allowed (w.end - w.start) w.resolution)
                    ∙ resolved_range (w.end - w.start) w.resolution)
                  i
                && ((not-not (sort_allowed w.sort) ∙ sorted_field w.sort) i
                    && (not-not (limit_allowed w.limit) ∙ row_count w.limit) i)))
          ∙ h)

  -- A query is let through exactly when its window, which ends now and lasts an hour where an end
  -- is not given, is not empty and lasts at most seven days at minute resolution and thirty days
  -- at hour or automatic resolution, its sort field is known or left out, its route family is one
  -- of the ten or left out, its limit is from 0 to 100, and its service, if any, is found. What is
  -- let through has a window that is not empty, minute or hour resolution with at most seven or
  -- thirty days, a sort field, and a limit from 1 to 100.
  pub normalize_iff :
      (now : ℕ) (q : PerformanceQuery)
      → (succeeds (normalize now get q) ≡ is_admissible now get q)
        × (is_sound (normalize now get q) ≡ true)
  unfolding normalize with_defaults
  normalize_iff now q =
      let end = if q.end == 0 then now else q.end in
      let start = if q.start == 0 then end - 3600000000000 else q.start in
      let w = with_defaults now q in
      (
        check_query-succeeds w ∙ (λ i.
            ltb start end
            && (fits-resolve (end - start) q.resolution i
                && (named_sort q.sort i
                    && (listed_family q.route_family i
                        && (limit_in_range q.limit i
                            && (is_empty q.service_id || succeeds (get q.service_id))))))),
        check_query_sound w,
      )
