-- ===== src/Tests/Delivery.antt =====
-- The theorems about the consumer, over a queue of messages in which the value "bad" is refused.
use go_clean_arch_template.Prelude.{
  ℕ, suc, String, Bool, true, false, none, List, [], ◌∷◌, ◌≡◌, ◌⊎◌, inl, inr, refl, ◌==◌, eq_iff,
  eq_refl, nat_eq, if◌then◌else◌, ◌&&◌, arith, ap, ◌∙◌,
}
use go_clean_arch_template.Apperr.{other, is_error}
use go_clean_arch_template.Effect.{ok_inj, ok, err, M}
use go_clean_arch_template.Consumer.{Message, Consumer, Run, returns, loops, turn, canceled}
use go_clean_arch_template.Consumer.Delivery.{IsConsumer, Run-commits}

record Queue : Type 0 where
  waiting : List Message
  position : String → ℕ → ℕ

abbrev fetch : List Message → M Queue Message
fetch [] q = (err canceled, q)
fetch (m ∷ rest) q = (ok m, record q { waiting = rest })

abbrev is_at : Message → String → ℕ → Bool
is_at m t p = m.topic == t && nat_eq m.partition p

abbrev accept : Bool → M Queue (Unit {0})
accept true q = (err (other "test" "bad"), q)
accept false q = (ok tt, q)

abbrev queue_consumer : Consumer Queue String
queue_consumer = record {
  reader = record {
    fetch_message = λ q. fetch q.waiting q;
    commit_messages = λ m q. (
      ok tt,
      record q { position = λ t p. if is_at m t p then suc m.offset else q.position t p },
    );
  };
  unmarshal = λ v. ok v;
  handle = λ v. accept (v == "bad");
}

abbrev IsGood : Queue → Message → Type 0
IsGood q m = (m.value == "bad") ≡ false

fetch_position : (ms : List Message) (q : Queue) → (fetch ms q).1.position ≡ q.position
fetch_position [] q = refl
fetch_position (m ∷ rest) q = refl

accept_position : (b : Bool) (q : Queue) → (accept b q).1 ≡ q
accept_position true q = refl
accept_position false q = refl

accept_good : (b : Bool) (q : Queue) → (accept b q).0 ≡ ok tt → b ≡ false
accept_good true q h = cc
accept_good false q h = refl

at_or_not :
    (b : Bool) (m : Message) (t : String) (p k : ℕ)
    → is_at m t p ≡ b
    → ((if b then suc m.offset else k) ≡ k)
      ⊎ ((m.topic ≡ t) × (m.partition ≡ p) × ((if b then suc m.offset else k) ≡ suc m.offset))
at_or_not false m t p k h = inl refl
at_or_not true m t p k h = inr (ground (arith, eq_iff m.topic t), ground arith, refl)

is_at_self : (m : Message) → is_at m m.topic m.partition ≡ true
is_at_self m = rw (eq_refl m.topic) ground arith

queue-IsConsumer : IsConsumer queue_consumer (λ q. q.position) IsGood
queue-IsConsumer = record {
  fetch_position = λ q t p. ap (λ f. f t p) (fetch_position q.waiting q);
  fetch_handled = λ q m h. h;
  handle_position = λ v q t p. ap (λ r. r.position t p) (accept_position (v == "bad") q);
  handle_handled = λ v q m h. h;
  handle_ok = λ m v q d h. ap (λ t. t == "bad") (ok_inj d) ∙ accept_good (v == "bad") q h;
  commit_handled = λ n q m h. h;
  commit_position = λ m q t p. at_or_not (is_at m t p) m t p (q.position t p) refl;
  commit_ok = λ m q h. rw (is_at_self m) refl;
}

abbrev first_message : Message
first_message = record { topic = "accounts"; partition = 0; offset = 4; value = "bad" }

abbrev second_message : Message
second_message = record { topic = "accounts"; partition = 0; offset = 5; value = "good" }

abbrev untouched : String → ℕ → ℕ
untouched t p = 4

abbrev both : Queue
both = record { waiting = first_message ∷ second_message ∷ []; position = untouched }

abbrev second_waits : Queue
second_waits = record { waiting = second_message ∷ []; position = untouched }

abbrev second_taken : Queue
second_taken = record { waiting = []; position = untouched }

abbrev finished : Queue
finished = (queue_consumer.reader.commit_messages second_message second_taken).1

both-Run : Run queue_consumer both (none, finished)
unfolding turn is_error
both-Run =
    loops both second_waits _ refl
      (loops second_waits finished _ refl (returns finished finished none refl))

Run-commits_example :
    (finished.position "accounts" 0 ≡ 4)
    ⊎ ((m : Message) × IsGood finished m
        × (m.topic ≡ "accounts")
        × (m.partition ≡ 0)
        × (finished.position "accounts" 0 ≡ suc m.offset))
Run-commits_example =
    Run-commits queue_consumer (λ q. q.position) IsGood queue-IsConsumer untouched both
      (none, finished) both-Run (λ t p. refl) "accounts" 0
