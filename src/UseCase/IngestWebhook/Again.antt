-- ===== src/UseCase/IngestWebhook/Again.antt =====
-- A webhook that the provider delivers again.
use project_vpn.Common.{
  ℕ, ◌==◌, ◌≡◌, sym, ◌∙◌, ap, true, ◌&&◌, Option-cases, Bool-cases, inl, inr, none, some, List, [],
  ◌∷◌, ◌++◌, arith, Text, text_eq, text_eq_refl, codes, Instant,
}
use project_vpn.Common.Json.{Payload, Fields, object}
use mathlib.Core.Path.{subst}
use project_vpn.Errors.{Result, ok, Result-cases, ◌>>=◌}
use project_vpn.Payment.Event.{PaymentEvent}
use project_vpn.UseCase.IngestWebhook.{
  fields, InboxRow, Gate, Normalized, Delivery, Answer, inbox_row, inbox_by_key, save_inbox,
  mark_processed, event_by_key, event_row, create_event, record_event, parse_raw_payload, enqueued,
  ingest,
}

inbox-append :
    (p k : Text) (r : InboxRow) (l : List InboxRow)
    → inbox_by_key p k l ≡ none
    → text_eq r.provider p ≡ true
    → text_eq r.event_key k ≡ true
    → inbox_by_key p k (l ++ (r ∷ [])) ≡ some r
unfolding inbox_by_key
inbox-append p k r [] h e f = ground arith
inbox-append p k r (x ∷ l) h e f = ground (arith, inbox-append p k r l)

events-append :
    (p k : Text) (r : PaymentEvent) (l : List PaymentEvent)
    → event_by_key p k l ≡ none
    → text_eq r.provider p ≡ true
    → text_eq r.event_key k ≡ true
    → event_by_key p k (l ++ (r ∷ [])) ≡ some r
unfolding event_by_key
events-append p k r [] h e f = ground arith
events-append p k r (x ∷ l) h e f = ground (arith, events-append p k r l)

pub marked :
    (p k : Text) (id : ℕ) (now : Instant) (r : InboxRow) (l : List InboxRow)
    → inbox_by_key p k l ≡ some r
    → (r' : InboxRow) × (inbox_by_key p k (mark_processed id now l) ≡ some r')
unfolding inbox_by_key mark_processed
marked p k id now r [] h = absurd (ground arith)
marked p k id now r (x ∷ l) h = elim (Bool-cases (text_eq x.provider p && text_eq x.event_key k)) [
  | inl q ↦ elim (Bool-cases (x.webhook_inbox_id == id)) [
    | inl e ↦ (
      record x { status = codes "processed"; error_message = none; processed_at = some now },
      ground arith,
    )
    | inr e ↦ (x, ground arith)
  ]
  | inr q ↦ let (r', rest) = marked p k id now r l (ground arith) in (r', ground arith)
]

saved_found :
    (st : Gate) (p k : Text) (hs : List (Text × Text)) (payload : Payload)
    → (r : InboxRow) × (inbox_by_key p k (save_inbox st p k hs payload).0.inbox ≡ some r)
unfolding save_inbox
saved_found st p k hs payload = elim (Option-cases (inbox_by_key p k st.inbox)) [
  | inl e ↦
      let row = inbox_row st.next_inbox_id p k hs payload in
      (row, ground (arith, e, inbox-append p k row st.inbox e (text_eq_refl p) (text_eq_refl k)))
  | inr (r, e) ↦ (r, ground (arith, e))
]

created_found :
    (st st' : Gate) (event row : PaymentEvent)
    → create_event st event ≡ ok (st', row)
    → (event_by_key event.provider event.event_key st'.store.events ≡ some row)
      × (st'.inbox ≡ st.inbox)
unfolding create_event
created_found st st' event row h =
    elim (Option-cases (event_by_key event.provider event.event_key st.store.events)) [
      | inl e ↦
          let appended =
            events-append event.provider event.event_key event st.store.events e
              (text_eq_refl event.provider) (text_eq_refl event.event_key) in
          ground (arith, e, appended)
      | inr (x, e) ↦ ground (arith, e)
    ]

-- The rows of an event that was recorded: one in the inbox and one, of whatever status, among the
-- events, with this identifier.
pub record IsRecorded (st : Gate) (p k : Text) (id : ℕ) : Type 0 where
  pub row : InboxRow
  pub event : PaymentEvent
  pub in_inbox : inbox_by_key p k st.inbox ≡ some row
  pub in_events : event_by_key p k st.store.events ≡ some event
  pub event_id : event.id ≡ some id

record_event-IsRecorded :
    (st st' : Gate) (p : Text) (hs : List (Text × Text)) (n : Normalized) (payload : Payload)
    (now : Instant) (a : Answer)
    → record_event st p hs n payload now ≡ ok (st', a)
    → IsRecorded st' p n.event_key a.payment_event_id
unfolding record_event event_row
record_event-IsRecorded st st' p hs n payload now a h =
    let saved = save_inbox st p n.event_key hs payload in
    let wanted = event_row saved.0 p n now in
    let (r, noted) = saved_found st p n.event_key hs payload in
    elim (Result-cases (create_event saved.0 wanted)) [
      | inr (x, f) ↦ absurd (ground arith)
      | inl ((made, event), f) ↦
          let (found, same) = created_found saved.0 made wanted event f in
          let (r', kept) =
            marked p n.event_key saved.2 now r made.inbox
              (ap (inbox_by_key p n.event_key) same ∙ noted) in
          elim (Option-cases event.id) [
            | inl e ↦ absurd (ground arith)
            | inr (id, e) ↦ record {
              row = r';
              event = event;
              in_inbox = ground (arith, kept);
              in_events = ground (arith, found);
              event_id = ground arith;
            }
          ]
    ]

recorded_again :
    (st : Gate) (p : Text) (id : ℕ) (hs : List (Text × Text)) (n : Normalized) (payload : Payload)
    (now : Instant) (v : IsRecorded st p n.event_key id)
    → record_event st p hs n payload now
      ≡ ok (
        record st { inbox = mark_processed v.row.webhook_inbox_id now st.inbox },
        record { duplicate = true; event_key = n.event_key; payment_event_id = id },
      )
unfolding record_event event_row save_inbox create_event
recorded_again st p id hs n payload now v = ground (arith, v.in_inbox, v.in_events, v.event_id)

committed :
    (st : Gate) (queue : ℕ → Result (Unit {0})) (d : Delivery) (now : Instant) (n : Normalized)
    (fs : Fields) (st' : Gate) (a : Answer)
    → d.verified ≡ ok n
    → d.parsed ≡ some (object fs)
    → record_event st d.provider d.headers n (fields fs) now ≡ ok (st', a)
    → ingest st queue d now ≡ (st', queue a.payment_event_id >>= λ done. ok a)
unfolding ingest enqueued parse_raw_payload
committed st queue d now n fs st' a v parsed h = ground (arith, v, parsed, h)

-- A delivery whose rows are there.
delivered_again :
    (g : Gate) (queue : ℕ → Result (Unit {0})) (d : Delivery) (now : Instant) (n : Normalized)
    (fs : Fields) (p k : Text) (id : ℕ)
    → d.verified ≡ ok n
    → d.parsed ≡ some (object fs)
    → d.provider ≡ p
    → n.event_key ≡ k
    → IsRecorded g p k id
    → let again = ingest g queue d now in
      (again.0.store ≡ g.store)
      × (again.1 ≡ (
          queue id >>= λ done.
          ok (record { duplicate = true; event_key = k; payment_event_id = id })))
      × IsRecorded again.0 p k id
delivered_again g queue d now n fs p k id v parsed same_provider same_key rows =
    let here =
      subst (λ q. IsRecorded g q n.event_key id) (sym same_provider)
        (subst (λ j. IsRecorded g p j id) (sym same_key) rows) in
    let marked_store = record g { inbox = mark_processed here.row.webhook_inbox_id now g.inbox } in
    let again = recorded_again g d.provider id d.headers n (fields fs) now here in
    let run = committed g queue d now n fs _ _ v parsed again in
    let left = record_event-IsRecorded g _ d.provider d.headers n (fields fs) now _ again in
    let left' =
      subst (λ q. IsRecorded marked_store q k id) same_provider
        (subst (λ j. IsRecorded marked_store d.provider j id) same_key left) in
    (
      ap (λ (x : Gate × Result Answer). x.0.store) run,
      ap (λ (x : Gate × Result Answer). x.1) run
          ∙ ap
              (λ j. queue id >>= λ done.
                ok (record { duplicate = true; event_key = j; payment_event_id = id }))
              same_key,
      subst (λ (x : Gate). IsRecorded x p k id) (sym (ap (λ (x : Gate × Result Answer). x.0) run))
          left',
    )

-- What may happen between two deliveries: the rows that were recorded stay, with whatever status.
abbrev pub KeepsRows : (Gate → Gate) → Type 0
KeepsRows between =
    (g : Gate) (p k : Text) (id : ℕ) → IsRecorded g p k id → IsRecorded (between g) p k id

-- Once the transaction of a verified webhook has committed, whether or not its event was then
-- enqueued, and whatever has happened since as long as the two rows are kept: when the provider
-- delivers the event again, verified and as a JSON object of whatever content, the orders, attempts
-- and events stay as they are; the answer says that it is a duplicate, the event that is enqueued once
-- more is the first one, and the rows are still there for a further delivery.
pub webhook_again :
    (st st' : Gate) (between : Gate → Gate) (queue queue' : ℕ → Result (Unit {0})) (d d' : Delivery)
    (now later : Instant) (n n' : Normalized) (fs fs' : Fields) (a : Answer)
    → d.verified ≡ ok n
    → d.parsed ≡ some (object fs)
    → record_event st d.provider d.headers n (fields fs) now ≡ ok (st', a)
    → KeepsRows between
    → d'.verified ≡ ok n'
    → d'.parsed ≡ some (object fs')
    → d'.provider ≡ d.provider
    → n'.event_key ≡ n.event_key
    → let first = ingest st queue d now in
      let again = ingest (between first.0) queue' d' later in
      (again.0.store ≡ (between first.0).store)
      × (again.1 ≡ (
          queue' a.payment_event_id >>= λ done. ok (record {
            duplicate = true;
            event_key = n.event_key;
            payment_event_id = a.payment_event_id;
          })))
      × IsRecorded again.0 d.provider n.event_key a.payment_event_id
webhook_again st st' between queue queue' d d' now later n n' fs fs' a v parsed h keeps v' parsed'
      same_provider same_key =
    let id = a.payment_event_id in
    let first : (ingest st queue d now).0 ≡ st' =
      ap (λ (x : Gate × Result Answer). x.0) (committed st queue d now n fs st' a v parsed h) in
    let known =
      keeps st' d.provider n.event_key id
        (record_event-IsRecorded st st' d.provider d.headers n (fields fs) now a h) in
    rw first (
      delivered_again (between st') queue' d' later n' fs' d.provider n.event_key id v' parsed'
        same_provider same_key known)
