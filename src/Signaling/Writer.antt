-- ===== src/Signaling/Writer.antt =====
-- What a client of tunnel/src/signaling.rs puts on the WebSocket in its life.
use mathlib.Core.List.{filter_map, filter_map-cons-none, filter_map-cons-some}
use p2p_llm_tunnel.Prelude.{
  suc, ◌≡◌, refl, sym, ap, ◌∙◌, List, [], ◌∷◌, ◌++◌, append-nil, append_assoc, true, Option, some,
  ok, inl, inr, Option-cases, Bool-cases, IsPrefixOf,
}
use p2p_llm_tunnel.Protocol.{Bytes}
use p2p_llm_tunnel.Channel.{Channel, attempt, send, IsOpen}
use p2p_llm_tunnel.Signaling.{OutgoingSignal, join, bye, IncomingSignal}
use p2p_llm_tunnel.Signaling.Client.{
  SignalingClient, push, send_signal, drop_client, send_join, connect, write_one, run_writer,
}

-- The messages are sent one after another.
unfoldable pub send_all : List OutgoingSignal → SignalingClient → SignalingClient
send_all [] client = client
send_all (msg ∷ rest) client = send_all rest (send_signal msg client).1

send_signal-queue :
    (msg : OutgoingSignal) (client : SignalingClient)
    → client.writer_alive ≡ true
    → ((send_signal msg client).1.writer_alive ≡ true)
      × ((send_signal msg client).1.queue ≡ client.queue ++ msg ∷ [])
unfolding send_signal
send_signal-queue msg client h = rw (h, push) (refl, refl)

send_all-queue :
    (msgs : List OutgoingSignal) (client : SignalingClient)
    → client.writer_alive ≡ true
    → (send_all msgs client).queue ≡ client.queue ++ msgs
unfolding send_all
send_all-queue [] client h = sym (append-nil client.queue)
send_all-queue (msg ∷ rest) client h =
    let (alive, queued) = send_signal-queue msg client h in
    send_all-queue rest (send_signal msg client).1 alive
    ∙ ap (λ q. q ++ rest) queued
    ∙ append_assoc client.queue (msg ∷ []) rest

send_all-alive :
    (msgs : List OutgoingSignal) (client : SignalingClient)
    → client.writer_alive ≡ true
    → (send_all msgs client).writer_alive ≡ true
unfolding send_all
send_all-alive [] client h = h
send_all-alive (msg ∷ rest) client h =
    send_all-alive rest (send_signal msg client).1 (send_signal-queue msg client h).0

module _ (to_json : OutgoingSignal → Option Bytes) where
  -- The texts of a queue: the messages that serialize, in order.
  abbrev pub texts_of : List OutgoingSignal → List Bytes
  texts_of = filter_map to_json

  run_writer-open :
      (queue : List OutgoingSignal) (sink : Channel)
      → IsOpen sink
      → (run_writer to_json queue sink).sent ≡ sink.sent ++ texts_of queue
  unfolding run_writer attempt
  run_writer-open [] sink o = unfold filter_map in sym (append-nil sink.sent)
  run_writer-open (msg ∷ rest) sink o = elim (Option-cases (to_json msg)) [
    | inl e ↦
        rw (e, write_one)
          (run_writer-open rest sink o
            ∙ ap (λ t. sink.sent ++ t) (sym (filter_map-cons-none to_json msg rest e)))
    | inr (text, e) ↦
        let next : Channel = record sink {
          sent = sink.sent ++ text ∷ [];
          calls = suc sink.calls;
        } in
        rw (e, write_one, o sink.calls)
          (run_writer-open rest next o
            ∙ append_assoc sink.sent (text ∷ []) (texts_of rest)
            ∙ ap (λ t. sink.sent ++ t) (sym (filter_map-cons-some to_json msg rest e)))
  ]

  -- What the writer adds, and that it is a prefix of the texts.
  abbrev Adds : List OutgoingSignal → Channel → Channel → Type 0
  Adds queue sink after =
      (gs : List Bytes) × (after.sent ≡ sink.sent ++ gs) × IsPrefixOf gs (texts_of queue)

  run_writer-Adds :
      (queue : List OutgoingSignal) (sink : Channel)
      → Adds queue sink (run_writer to_json queue sink)
  unfolding run_writer attempt
  run_writer-Adds [] sink = ([], sym (append-nil sink.sent), IsPrefixOf.nil)
  run_writer-Adds (msg ∷ rest) sink = elim (Option-cases (to_json msg)) [
    | inl e ↦
        let (gs, same, fits) = run_writer-Adds rest sink in
        rw (e, write_one) (gs, same, rw (filter_map-cons-none to_json msg rest e) fits)
    | inr (text, e) ↦ elim (Bool-cases (sink.outcomes sink.calls)) [
      | inl took ↦
          let next : Channel = record sink {
            sent = sink.sent ++ text ∷ [];
            calls = suc sink.calls;
          } in
          let (gs, same, fits) = run_writer-Adds rest next in
          rw (e, write_one, took)
            (
              text ∷ gs,
              same ∙ append_assoc sink.sent (text ∷ []) gs,
              rw (filter_map-cons-some to_json msg rest e) (IsPrefixOf.cons fits),
            )
      | inr refused ↦ rw (e, write_one, refused) ([], sym (append-nil sink.sent), IsPrefixOf.nil)
    ]
  ]

  -- A client that connects, sends any messages and is dropped: if the join serializes and the WebSocket
  -- takes every text, what it gets is the join, the messages that serialize, in their order, and the
  -- bye. If it refuses texts, what the writer puts on it is still a prefix of the texts that wait.
  pub signals_arrive :
      (room : Bytes) (received : List IncomingSignal) (msgs : List OutgoingSignal) (sink : Channel)
      (text : Bytes)
      → to_json (join room) ≡ some text
      → IsOpen sink
      → ((client : SignalingClient) × ((connect to_json room received sink).0 ≡ ok client)
          × ((run_writer to_json
                (drop_client (send_all msgs client)).queue
                (connect to_json room received sink).1).sent
              ≡ sink.sent ++ text ∷ texts_of (msgs ++ bye ∷ [])))
        × ((queue : List OutgoingSignal) (broken : Channel)
            → (gs : List Bytes) × ((run_writer to_json queue broken).sent ≡ broken.sent ++ gs)
              × IsPrefixOf gs (texts_of queue))
  unfolding connect drop_client send attempt
  signals_arrive room received msgs sink text e o =
      let client : SignalingClient = record {
        queue = [];
        received = received;
        writer_alive = true;
      } in
      let joined : Channel = record sink {
        sent = sink.sent ++ text ∷ [];
        calls = suc sink.calls;
      } in
      let sent = send_all msgs client in
      let queued =
        (send_signal-queue bye sent (send_all-alive msgs client refl)).1
        ∙ ap (λ q. q ++ bye ∷ []) (send_all-queue msgs client refl) in
      (
        rw (e, send_join, o sink.calls)
            (
              client,
              refl,
              ap (λ q. (run_writer to_json q joined).sent) queued
                  ∙ run_writer-open (msgs ++ bye ∷ []) joined o
                  ∙ append_assoc sink.sent (text ∷ []) (texts_of (msgs ++ bye ∷ [])),
            ),
        λ queue broken. run_writer-Adds queue broken,
      )
