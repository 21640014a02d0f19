-- ===== src/Services/Listener/Publishing.antt =====
-- The publisher neither loses nor repeats nor reorders a proposal.
use photon_solana_contracts.Prelude.{
  ◌≡◌, ◌≢◌, refl, sym, ap, ◌∙◌, List, [], ◌∷◌, ◌++◌, append_assoc, append-nil, Option, none, some,
}
use photon_solana_contracts.Services.Listener.{
  Propose, Publisher, propose_to_progress, publish_propose, BrokerAnswer, published, refused,
  not_encoded, PublisherEvent, arrives, publishes, reconnects, publisher_step, publisher_run,
}

-- What the publisher still has to publish, in order.
abbrev buffered : Option Propose → List Propose
buffered none = []
buffered (some propose) = propose ∷ []

abbrev pub unpublished : Publisher → List Propose
unpublished publisher = buffered publisher.buffered_propose ++ publisher.waiting

-- The proposals that arrive, in order.
unfoldable pub arrivals : List PublisherEvent → List Propose
arrivals [] = []
arrivals (arrives propose ∷ events) = propose ∷ arrivals events
arrivals (publishes answer ∷ events) = arrivals events
arrivals (reconnects ∷ events) = arrivals events

-- Every message can be encoded.
abbrev pub IsEncoded : List PublisherEvent → Type 0
IsEncoded [] = Unit {0}
IsEncoded (arrives propose ∷ events) = IsEncoded events
IsEncoded (publishes answer ∷ events) = (answer ≢ not_encoded) × IsEncoded events
IsEncoded (reconnects ∷ events) = IsEncoded events

published_kept :
    (answer : BrokerAnswer) (propose : Propose) (waiting : List Propose)
    → answer ≢ not_encoded
    → (publish_propose answer propose (record { waiting = waiting; buffered_propose = none })).0
        ++ unpublished
            (publish_propose answer propose
              (record { waiting = waiting; buffered_propose = none })).1
      ≡ propose ∷ waiting
unfolding publish_propose
published_kept published propose waiting encoded = refl
published_kept refused propose waiting encoded = refl
published_kept not_encoded propose waiting encoded = absurd (encoded refl)

publishes_kept :
    (answer : BrokerAnswer) (waiting : List Propose) (before : Option Propose)
    → answer ≢ not_encoded
    → (publisher_step
          (publishes answer)
          (record { waiting = waiting; buffered_propose = before })).0
        ++ unpublished
            (publisher_step
              (publishes answer)
              (record { waiting = waiting; buffered_propose = before })).1
      ≡ buffered before ++ waiting
unfolding publisher_step propose_to_progress
publishes_kept answer [] none encoded = refl
publishes_kept answer (propose ∷ waiting) none encoded =
    published_kept answer propose waiting encoded
publishes_kept answer waiting (some propose) encoded = published_kept answer propose waiting encoded

-- Let every message be encoded, and let proposals arrive, be published or be refused by the broker, and
-- the connection be renewed, in any order. Then what was published, followed by what is
-- still to be published, is what there was to publish at first, followed by what has arrived:
-- nothing is lost, repeated or overtaken.
pub publisher_run-arrivals :
    (events : List PublisherEvent) (publisher : Publisher)
    → IsEncoded events
    → (publisher_run events publisher).0 ++ unpublished (publisher_run events publisher).1
      ≡ unpublished publisher ++ arrivals events
unfolding publisher_run publisher_step arrivals
publisher_run-arrivals [] publisher h = sym (append-nil (unpublished publisher))
publisher_run-arrivals (arrives propose ∷ events) publisher h =
    let queue = buffered publisher.buffered_propose in
    publisher_run-arrivals events (record publisher { waiting = publisher.waiting ++ propose ∷ [] })
      h
    ∙ ap (λ l. l ++ arrivals events) (sym (append_assoc queue publisher.waiting (propose ∷ [])))
    ∙ append_assoc (queue ++ publisher.waiting) (propose ∷ []) (arrivals events)
publisher_run-arrivals (publishes answer ∷ events) publisher h =
    let (sent, next) = publisher_step (publishes answer) publisher in
    let later = publisher_run events next in
    append_assoc sent later.0 (unpublished later.1)
    ∙ ap (λ l. sent ++ l) (publisher_run-arrivals events next h.1)
    ∙ sym (append_assoc sent (unpublished next) (arrivals events))
    ∙ ap (λ l. l ++ arrivals events)
        (publishes_kept answer publisher.waiting publisher.buffered_propose h.0)
publisher_run-arrivals (reconnects ∷ events) publisher h = publisher_run-arrivals events publisher h
