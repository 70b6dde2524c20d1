-- ===== src/UseCase/IngestWebhook/Others.antt =====
-- Deliveries of other events, with application/use_cases/ingest_webhook.py.
use project_vpn.Common.{
  ℕ, ◌≡◌, refl, ◌∙◌, ap, Option-cases, inl, inr, some, List, [], ◌∷◌, ◌++◌, arith, Text, Instant,
}
use project_vpn.Common.Json.{Payload}
use project_vpn.Errors.{Result, ok, err, Result-cases, ◌>>=◌}
use project_vpn.Payment.Event.{PaymentEvent}
use project_vpn.UseCase.IngestWebhook.{
  InboxRow, Gate, Normalized, Delivery, Answer, inbox_by_key, inbox_row, save_inbox, event_by_key,
  event_row, create_event, record_event, parse_raw_payload, enqueued, ingest,
}
use project_vpn.UseCase.IngestWebhook.Again.{KeepsRows, IsRecorded, marked}

inbox-kept :
    (p k : Text) (r x : InboxRow) (l : List InboxRow)
    → inbox_by_key p k l ≡ some r
    → inbox_by_key p k (l ++ (x ∷ [])) ≡ some r
unfolding inbox_by_key
inbox-kept p k r x [] h = absurd (ground arith)
inbox-kept p k r x (y ∷ l) h = ground (arith, inbox-kept p k r x l)

events-kept :
    (p k : Text) (r x : PaymentEvent) (l : List PaymentEvent)
    → event_by_key p k l ≡ some r
    → event_by_key p k (l ++ (x ∷ [])) ≡ some r
unfolding event_by_key
events-kept p k r x [] h = absurd (ground arith)
events-kept p k r x (y ∷ l) h = ground (arith, events-kept p k r x l)

saved_kept :
    (g : Gate) (q j : Text) (hs : List (Text × Text)) (payload : Payload) (p k : Text)
    (r : InboxRow)
    → inbox_by_key p k g.inbox ≡ some r
    → (inbox_by_key p k (save_inbox g q j hs payload).0.inbox ≡ some r)
      × ((save_inbox g q j hs payload).0.store ≡ g.store)
unfolding save_inbox
saved_kept g q j hs payload p k r h = elim (Option-cases (inbox_by_key q j g.inbox)) [
  | inl e ↦
      let kept = inbox-kept p k r (inbox_row g.next_inbox_id q j hs payload) g.inbox h in
      (ground (arith, e, kept), ground (arith, e))
  | inr (x, e) ↦ (ground (arith, e, h), ground (arith, e))
]

created_kept :
    (g g' : Gate) (event row : PaymentEvent) (p k : Text) (e : PaymentEvent)
    → create_event g event ≡ ok (g', row)
    → event_by_key p k g.store.events ≡ some e
    → (event_by_key p k g'.store.events ≡ some e) × (g'.inbox ≡ g.inbox)
unfolding create_event
created_kept g g' event row p k e made h =
    let kept = events-kept p k e event g.store.events h in
    elim (Option-cases (event_by_key event.provider event.event_key g.store.events)) [
      | inl f ↦ (ground (arith, f, kept), ground (arith, f))
      | inr (x, f) ↦ (ground (arith, f, h), ground (arith, f))
    ]

record_event-kept :
    (g g' : Gate) (q : Text) (hs : List (Text × Text)) (n : Normalized) (payload : Payload)
    (now : Instant) (a : Answer) (p k : Text) (id : ℕ)
    → record_event g q hs n payload now ≡ ok (g', a)
    → IsRecorded g p k id
    → IsRecorded g' p k id
unfolding record_event
record_event-kept g g' q hs n payload now a p k id h v =
    let saved = save_inbox g q n.event_key hs payload in
    let (noted, same) = saved_kept g q n.event_key hs payload p k v.row v.in_inbox in
    elim (Result-cases (create_event saved.0 (event_row saved.0 q n now))) [
      | inr (x, f) ↦ absurd (ground arith)
      | inl ((made, event), f) ↦
          let (found, inbox) =
            created_kept saved.0 made (event_row saved.0 q n now) event p k v.event f
              (ap (λ s. event_by_key p k s.events) same ∙ v.in_events) in
          let (r, kept) =
            marked p k saved.2 now v.row made.inbox (ap (inbox_by_key p k) inbox ∙ noted) in
          elim (Option-cases event.id) [
            | inl e ↦ absurd (ground arith)
            | inr (i, e) ↦ record {
              row = r;
              event = v.event;
              in_inbox = ground (arith, kept);
              in_events = ground (arith, found);
              event_id = v.event_id;
            }
          ]
    ]

enqueued-IsRecorded :
    (g : Gate) (queue : ℕ → Result (Unit {0})) (m : Result (Gate × Answer)) (p k : Text) (id : ℕ)
    → IsRecorded g p k id
    → ((g' : Gate) (a : Answer) → m ≡ ok (g', a) → IsRecorded g' p k id)
    → IsRecorded (enqueued g queue m).0 p k id
unfolding enqueued
enqueued-IsRecorded g queue (err e) p k id v kept = v
enqueued-IsRecorded g queue (ok (g', a)) p k id v kept = kept g' a refl

-- A delivery of whatever event, also one that is refused, keeps the rows of an event that was
-- recorded.
pub ingest-KeepsRows :
    (queue : ℕ → Result (Unit {0})) (d : Delivery) (now : Instant)
    → KeepsRows (λ g. (ingest g queue d now).0)
unfolding ingest
ingest-KeepsRows queue d now g p k id v =
    let work : Result (Gate × Answer) = d.verified >>= λ n.
    parse_raw_payload d.parsed >>= λ payload. record_event g d.provider d.headers n payload now in
    enqueued-IsRecorded g queue work p k id v λ g' a h. elim (Result-cases d.verified) [
      | inr (x, e) ↦ absurd (ground arith)
      | inl (n, e) ↦ elim (Result-cases (parse_raw_payload d.parsed)) [
        | inr (x, f) ↦ absurd (ground arith)
        | inl (payload, f) ↦
            record_event-kept g g' d.provider d.headers n payload now a p k id (ground arith) v
      ]
    ]
