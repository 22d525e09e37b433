-- ===== src/Consumer.antt =====
-- internal/adapter/kafka/consumer.go. The reader, JSON decoding and the handler are
-- parameters over the state `S`; log lines are left out.
pub mod Delivery
pub mod Ends
use go_clean_arch_template.Prelude.{ℕ, String, Option, none, some, ◌≡◌, if◌then◌else◌}
use go_clean_arch_template.Apperr.{Error, sentinel, is_error}
use go_clean_arch_template.Effect.{Result, ok, err, M}

-- kafka.Message
pub record Message : Type 0 where
  pub topic : String
  pub partition : ℕ
  pub offset : ℕ
  pub value : String

-- *kafka.Reader
pub record Reader (S : Type 0) : Type 0 where
  pub fetch_message : M S Message
  pub commit_messages : Message → M S (Unit {0})

-- Consumer, with json.Unmarshal into T
pub record Consumer (S T : Type 0) : Type 0 where
  pub reader : Reader S
  pub unmarshal : String → Result T
  pub handle : T → M S (Unit {0})

-- context.Canceled
abbrev pub canceled : Error
canceled = sentinel "context canceled"

-- how an iteration of the loop ends: with the next one, or with what Run returns
pub data Turn : Type 0 where
  again : Turn
  return : Option Error → Turn

module _ {S T : Type 0} (consumer : Consumer S T) where
  -- `errors.Is(err, context.Canceled)`
  abbrev fetch_failed : Error → Turn
  fetch_failed e = if is_error e canceled then return none else return (some e)

  abbrev pub after_commit : Result (Unit {0}) × S → Turn × S
  after_commit (ok u, s) = (again, s)
  after_commit (err e, s) = (if is_error e canceled then return none else again, s)

  abbrev pub after_handle : Message → Result (Unit {0}) × S → Turn × S
  after_handle m (err e, s) = (again, s)
  after_handle m (ok u, s) = after_commit (consumer.reader.commit_messages m s)

  abbrev pub after_decode : Message → Result T → S → Turn × S
  after_decode m (err e) s = (again, s)
  after_decode m (ok msg) s = after_handle m (consumer.handle msg s)

  abbrev pub after_fetch : Result Message × S → Turn × S
  after_fetch (err e, s) = (fetch_failed e, s)
  after_fetch (ok m, s) = after_decode m (consumer.unmarshal m.value) s

  -- one iteration of Run
  unfoldable pub turn : S → Turn × S
  turn s = after_fetch (consumer.reader.fetch_message s)

  -- The loop of Run as a relation: it ends only when an iteration returns.
  pub data Run : S → Option Error × S → Type 0 where
    returns : (s s' : S) (r : Option Error) → turn s ≡ (return r, s') → Run s (r, s')
    loops : (s s' : S) (end : Option Error × S) → turn s ≡ (again, s') → Run s' end → Run s end
