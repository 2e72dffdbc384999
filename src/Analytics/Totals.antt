-- ===== src/Analytics/Totals.antt =====
-- What a batch holds after any calls of the methods in data.go.
use botkube.Base.{
  ℕ, ◌+◌, String, ◌≡◌, refl, ap, ◌∙◌, true, false, List, [], ◌∷◌, ◌==◌, arith, Dict, lookup, insert,
  get_or_zero, leb, length, length-append, if◌then◌else◌, Bool-cases, inl, inr,
}
use botkube.Analytics.{
  max_event_details_count, SourceEvent, SourceProperties, Data, zero_properties, new_data,
  increment_time_window_in_hours, reset, add_to_source, add_source_event, Call, add, next_hour,
  sent, perform_all,
}

-- The sum of a figure over the sources.
abbrev pub total : (SourceProperties → ℕ) → Dict SourceProperties → ℕ
total f [] = 0
total f ((k, s) ∷ sources) = f s + total f sources

abbrev pub count_of : SourceProperties → ℕ
count_of s = s.events_count

abbrev pub details_of : SourceProperties → ℕ
details_of s = length s.events

-- The details that are kept of so many events: all, up to the maximum.
abbrev pub capped : ℕ → ℕ
capped n = if leb n max_event_details_count then n else max_event_details_count

-- The events that were added since the last reset.
abbrev pub added_after : ℕ → List Call → ℕ
added_after n [] = n
added_after n (add e ∷ calls) = added_after (n + 1) calls
added_after n (next_hour ∷ calls) = added_after n calls
added_after n (sent ∷ calls) = added_after 0 calls

infixl 3 ◌+≡+◌
◌+≡+◌ : {a b c d : ℕ} → a ≡ b → c ≡ d → a + c ≡ b + d
p +≡+ q = cc

insert-hit :
    (k j : String) (v w : SourceProperties) (m : Dict SourceProperties)
    → (j == k) ≡ true
    → (insert k v ((j, w) ∷ m) ≡ (k, v) ∷ m) × (get_or_zero zero_properties k ((j, w) ∷ m) ≡ w)
unfolding insert lookup
insert-hit k j v w m t = (ground arith, ground arith)

insert-miss :
    (k j : String) (v w : SourceProperties) (m : Dict SourceProperties)
    → (j == k) ≡ false
    → (insert k v ((j, w) ∷ m) ≡ (j, w) ∷ insert k v m)
      × (get_or_zero zero_properties k ((j, w) ∷ m) ≡ get_or_zero zero_properties k m)
unfolding insert lookup
insert-miss k j v w m n = (ground arith, ground arith)

total-insert :
    (f : SourceProperties → ℕ) (k : String) (v : SourceProperties) (m : Dict SourceProperties)
    → f zero_properties ≡ 0
    → total f (insert k v m) + f (get_or_zero zero_properties k m) ≡ total f m + f v
total-insert f k v [] z = unfold insert lookup in omega (arith, z)
total-insert f k v ((j, w) ∷ m) z = elim (Bool-cases (j == k)) [
  | inl t ↦ let (a, b) = insert-hit k j v w m t in (ap (λ x. total f x) a +≡+ ap f b) ∙ omega arith
  | inr n ↦
      let (a, b) = insert-miss k j v w m n in
      (ap (λ x. total f x) a +≡+ ap f b) ∙ omega (arith, total-insert f k v m z)
]

-- The totals over the sources, for `n` events.
pub record Totals (n : ℕ) (d : Data) : Type 0 where
  pub counted : d.heartbeat_properties.events_count ≡ n
  pub counts : total count_of d.heartbeat_properties.sources ≡ n
  pub details : total details_of d.heartbeat_properties.sources ≡ capped n

add_to_source-count :
    (n : ℕ) (e : SourceEvent) (s : SourceProperties)
    → count_of (add_to_source n e s) ≡ count_of s + 1
unfolding add_to_source
add_to_source-count n e s = refl

details-added :
    (n : ℕ) (e : SourceEvent) (s : SourceProperties)
    → details_of (add_to_source (n + 1) e s) + capped n ≡ details_of s + capped (n + 1)
unfolding add_to_source
details-added n e s = ground (arith, length-append s.events (e ∷ []))

add-Totals :
    (n : ℕ) (e : SourceEvent) (d : Data) → Totals n d → Totals (n + 1) (add_source_event e d)
unfolding add_source_event
add-Totals n e d t =
    let sources = d.heartbeat_properties.sources in
    let old = get_or_zero zero_properties e.plugin_name sources in
    let count = d.heartbeat_properties.events_count + 1 in
    record {
      counted = omega (arith, t.counted);
      counts = omega (
        arith,
        t.counts,
        total-insert count_of e.plugin_name (add_to_source count e old) sources refl,
        add_to_source-count count e old,
      );
      details = omega (
        arith,
        t.details,
        total-insert details_of e.plugin_name (add_to_source count e old) sources refl,
        details-added d.heartbeat_properties.events_count e old,
        ap capped t.counted,
        ap (λ k. capped (k + 1)) t.counted,
      );
    }

perform-Totals :
    (n : ℕ) (calls : List Call) (d : Data)
    → Totals n d
    → Totals (added_after n calls) (perform_all calls d)
unfolding perform_all
perform-Totals n [] d t = t
perform-Totals n (add e ∷ calls) d t =
    perform-Totals (n + 1) calls (add_source_event e d) (add-Totals n e d t)
perform-Totals n (next_hour ∷ calls) d t =
    perform-Totals n calls (increment_time_window_in_hours d) (
      unfold increment_time_window_in_hours in
      record { counted = t.counted; counts = t.counts; details = t.details })
perform-Totals n (sent ∷ calls) d t =
    perform-Totals 0 calls (reset d)
      (unfold reset in record { counted = refl; counts = refl; details = refl })

-- After any calls of the methods on new data, the number of events, and the sum of the sources'
-- numbers of events, are the number of events added since the last reset, and the sources hold the
-- details of that many events, but of no more than 75.
pub totals-perform_all :
    (hours : ℕ) (calls : List Call)
    → let h = (perform_all calls (new_data hours)).heartbeat_properties in
      (h.events_count ≡ added_after 0 calls)
      × (total count_of h.sources ≡ added_after 0 calls)
      × (total details_of h.sources ≡ capped (added_after 0 calls))
unfolding new_data
totals-perform_all hours calls =
    let t =
      perform-Totals 0 calls (new_data hours)
        (record { counted = refl; counts = refl; details = refl }) in
    (t.counted, t.counts, t.details)
