-- ===== src/Tests/Events.antt =====
-- The worker's consumer over a queue of two messages, of which one does not decode.
use go_clean_arch_template.Prelude.{
  ℕ, String, Option, none, List, [], ◌∷◌, ◌==◌, ◌≡◌, ◌<◌, refl, if◌then◌else◌, arith, length,
}
use go_clean_arch_template.Apperr.{Error, other, is_error}
use go_clean_arch_template.Effect.{Result, ok, err}
use go_clean_arch_template.Consumer.{Message, Reader, Consumer, Run, returns, loops, canceled, turn}
use go_clean_arch_template.Consumer.Ends.{IsFinite, Stops, Run-ends}
use go_clean_arch_template.Worker.{
  AccountEvent, account_event_created, handle_event, event_consumer,
}
use go_clean_arch_template.Worker.Events.{IsCounting, kinds, Run-counts}

record Feed : Type 0 where
  waiting : List Message
  delivered : List String
  counts : List (String × String)

abbrev take_next : List Message → Feed → Result Message × Feed
take_next [] f = (err canceled, f)
take_next (m ∷ rest) f = (ok m, record f { waiting = rest; delivered = m.value ∷ f.delivered })

abbrev feed_reader : Reader Feed
feed_reader = record {
  fetch_message = λ f. take_next f.waiting f;
  commit_messages = λ m f. (ok tt, f);
}

abbrev event : AccountEvent
event = record { kind = account_event_created; account_id = "a1"; occurred_at = 7 }

abbrev decode : String → Result AccountEvent
decode text = if text == "{}" then ok event else err (other "json" "invalid")

abbrev count_up : String → String → Feed → Feed
count_up worker result f = record f { counts = (worker, result) ∷ f.counts }

take_ok :
    (l : List Message) (f : Feed) (m : Message)
    → (take_next l f).0 ≡ ok m
    → (take_next l f).1.delivered ≡ m.value ∷ f.delivered
take_ok [] f m h = cc
take_ok (n ∷ l) f m h = cc

take_err :
    (l : List Message) (f : Feed) (e : Error)
    → (take_next l f).0 ≡ err e
    → (take_next l f).1.delivered ≡ f.delivered
take_err [] f e h = refl
take_err (n ∷ l) f e h = cc

take_counts : (l : List Message) (f : Feed) → (take_next l f).1.counts ≡ f.counts
take_counts [] f = refl
take_counts (n ∷ l) f = refl

take_shorter :
    (l : List Message) (f : Feed) (m : Message)
    → f.waiting ≡ l
    → (take_next l f).0 ≡ ok m
    → length (take_next l f).1.waiting < length l
take_shorter [] f m e h = cc
take_shorter (n ∷ l) f m e h = omega arith

feed-IsCounting : IsCounting count_up feed_reader (λ f. f.delivered) (λ f. f.counts)
feed-IsCounting = record {
  fetch_ok = λ f m h. take_ok f.waiting f m h;
  fetch_err = λ f e h. take_err f.waiting f e h;
  fetch_counted = λ f. take_counts f.waiting f;
  commit_fetched = λ m f. refl;
  commit_counted = λ m f. refl;
  inc_fetched = λ a b f. refl;
  inc_counted = λ a b f. refl;
}

abbrev event_loop : Consumer Feed AccountEvent
event_loop = event_consumer count_up feed_reader decode

event_loop-IsFinite : IsFinite event_loop (λ f. length f.waiting)
unfolding handle_event
event_loop-IsFinite = record {
  fetch = λ f m h. take_shorter f.waiting f m refl h;
  handle = λ x f. omega arith;
  commit = λ m f. omega arith;
}

abbrev message : String → ℕ → Message
message text n = record { topic = "accounts"; partition = 0; offset = n; value = text }

abbrev start : Feed
start = record { waiting = message "{" 4 ∷ message "{}" 5 ∷ []; delivered = []; counts = [] }

abbrev done : Feed
done = record {
  waiting = [];
  delivered = "{}" ∷ "{" ∷ [];
  counts = ("event", "account.created") ∷ [];
}

start-Run : Run event_loop start (none, done)
unfolding turn handle_event is_error
start-Run = loops start _ _ refl (loops _ done _ refl (returns done done none refl))

Run-counts_example : done.counts ≡ kinds decode done.delivered
Run-counts_example =
    Run-counts count_up feed_reader decode (λ f. f.delivered) (λ f. f.counts) feed-IsCounting start
      (none, done) start-Run refl refl

Run-ends_example :
    (end : Option Error × Feed) × Run event_loop start end
    × Stops end.0
    × ((end2 : Option Error × Feed) → Run event_loop start end2 → end2 ≡ end)
Run-ends_example = Run-ends event_loop (λ f. length f.waiting) event_loop-IsFinite start
