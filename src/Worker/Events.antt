-- ===== src/Worker/Events.antt =====
-- Which events the worker counts.
use go_clean_arch_template.Prelude.{String, Option, List, [], ◌∷◌, ◌≡◌, refl, sym, ap, ◌∙◌, subst}
use go_clean_arch_template.Apperr.{Error}
use go_clean_arch_template.Effect.{Result, ok, err}
use go_clean_arch_template.Consumer.{
  Message, Reader, Consumer, after_commit, after_decode, after_fetch, turn, Run, returns, loops,
}
use go_clean_arch_template.Worker.{AccountEvent, handle_event, event_consumer}

-- the increment for a text, if it decodes
abbrev pub labelled : Result AccountEvent → List (String × String) → List (String × String)
labelled (ok evt) rest = ("event", evt.kind) ∷ rest
labelled (err e) rest = rest

-- the increments for the texts, in their order
pub kinds : (String → Result AccountEvent) → List String → List (String × String)
kinds unmarshal [] = []
kinds unmarshal (v ∷ rest) = labelled (unmarshal v) (kinds unmarshal rest)

-- What the loop relies on: `fetched` are the texts of the messages that have been delivered, `counted`
-- the increments of the counter, both with the latest first.
pub record IsCounting {S : Type 0} (inc : (worker result : String) → S → S) (reader : Reader S)
    (fetched : S → List String) (counted : S → List (String × String)) : Type 0 where
  pub fetch_ok :
      (s : S) (m : Message)
      → (reader.fetch_message s).0 ≡ ok m
      → fetched (reader.fetch_message s).1 ≡ m.value ∷ fetched s
  pub fetch_err :
      (s : S) (e : Error)
      → (reader.fetch_message s).0 ≡ err e
      → fetched (reader.fetch_message s).1 ≡ fetched s
  pub fetch_counted : (s : S) → counted (reader.fetch_message s).1 ≡ counted s
  pub commit_fetched : (m : Message) (s : S) → fetched (reader.commit_messages m s).1 ≡ fetched s
  pub commit_counted : (m : Message) (s : S) → counted (reader.commit_messages m s).1 ≡ counted s
  pub inc_fetched : (worker result : String) (s : S) → fetched (inc worker result s) ≡ fetched s
  pub inc_counted :
      (worker result : String) (s : S)
      → counted (inc worker result s) ≡ (worker, result) ∷ counted s

module _ {S : Type 0} (inc : (worker result : String) → S → S) (reader : Reader S)
    (unmarshal : String → Result AccountEvent) (fetched : S → List String)
    (counted : S → List (String × String)) (laws : IsCounting inc reader fetched counted) where
  IsCounted : S → Type 0
  IsCounted s = counted s ≡ kinds unmarshal (fetched s)

  abbrev consumer : Consumer S AccountEvent
  consumer = event_consumer inc reader unmarshal

  commit-IsCounted :
      (r : Result (Unit {0})) (s : S) → IsCounted s → IsCounted (after_commit consumer (r, s)).1
  commit-IsCounted (ok u) s h = h
  commit-IsCounted (err e) s h = h

  decode-IsCounted :
      (m : Message) (r : Result AccountEvent) (s : S) (before : List String)
      → unmarshal m.value ≡ r
      → fetched s ≡ m.value ∷ before
      → counted s ≡ kinds unmarshal before
      → IsCounted (after_decode consumer m r s).1
  unfolding IsCounted kinds handle_event
  decode-IsCounted m (err e) s before bad at h =
      h ∙ sym (ap (λ r. labelled r (kinds unmarshal before)) bad) ∙ sym (ap (kinds unmarshal) at)
  decode-IsCounted m (ok evt) s before good at h =
      let t = inc "event" evt.kind s in
      let u = reader.commit_messages m t in
      commit-IsCounted u.0 u.1 (
        laws.commit_counted m t
        ∙ laws.inc_counted "event" evt.kind s
        ∙ ap (λ l. ("event", evt.kind) ∷ l) h
        ∙ sym (ap (λ r. labelled r (kinds unmarshal before)) good)
        ∙ sym (
            ap (kinds unmarshal)
              (laws.commit_fetched m t ∙ laws.inc_fetched "event" evt.kind s ∙ at)))

  fetch-IsCounted :
      (r : Result Message) (s t : S)
      → (reader.fetch_message s).0 ≡ r
      → t ≡ (reader.fetch_message s).1
      → IsCounted s
      → IsCounted (after_fetch consumer (r, t)).1
  unfolding IsCounted
  fetch-IsCounted (err e) s t failed at h =
      ap counted at
      ∙ laws.fetch_counted s
      ∙ h
      ∙ sym (ap (kinds unmarshal) (ap fetched at ∙ laws.fetch_err s e failed))
  fetch-IsCounted (ok m) s t got at h =
      decode-IsCounted m (unmarshal m.value) t (fetched s) refl
        (ap fetched at ∙ laws.fetch_ok s m got) (ap counted at ∙ laws.fetch_counted s ∙ h)

  turn-IsCounted : (s : S) → IsCounted s → IsCounted (turn consumer s).1
  unfolding turn
  turn-IsCounted s h =
      fetch-IsCounted (reader.fetch_message s).0 s (reader.fetch_message s).1 refl refl h

  Run-IsCounted :
      (s : S) (end : Option Error × S) → Run consumer s end → IsCounted s → IsCounted end.1
  Run-IsCounted s end (returns _ s' r e) h = subst IsCounted (ap (λ x. x.1) e) (turn-IsCounted s h)
  Run-IsCounted s end (loops _ s' _ e rest) h =
      Run-IsCounted s' end rest (subst IsCounted (ap (λ x. x.1) e) (turn-IsCounted s h))

  -- If nothing was fetched or counted before: when Run returns, the worker has counted every event
  -- that it fetched and could decode, each once and in the order of the messages, under the label of
  -- its type, and nothing else, whatever the commits returned.
  pub Run-counts :
      (s : S) (end : Option Error × S)
      → Run consumer s end
      → fetched s ≡ []
      → counted s ≡ []
      → counted end.1 ≡ kinds unmarshal (fetched end.1)
  unfolding IsCounted kinds
  Run-counts s end run none_yet uncounted =
      Run-IsCounted s end run (uncounted ∙ sym (ap (kinds unmarshal) none_yet))
