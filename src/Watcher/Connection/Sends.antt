-- ===== src/Watcher/Connection/Sends.antt =====
-- internal/watcher/service.go, scanNewMessages: what a scan over a connection does, and what it sends.
use skybeam_mail.Prelude.{
  ℕ, ◌+◌, ◌≡◌, refl, sym, ap, ◌∙◌, inl, inr, Option, none, some, List, [], ◌∷◌, ◌++◌, append-nil,
  append_assoc, any, map, Text, text_eq, Bool-cases, Option-cases,
}
use skybeam_mail.Store.Table.{select}
use skybeam_mail.Store.World.{Wire, Env, World, M, query_rows, settle}
use skybeam_mail.Store.World.Calm.{query_rows_answered}
use skybeam_mail.Imap.Client.{Command, Server as Peer, fetch_all_headers, fetch_uid_body, send}
use skybeam_mail.Watcher.Mail.{Message, headers}
use skybeam_mail.Watcher.Body.{Part}
use skybeam_mail.Watcher.Scan.{
  Round, Outcome, outcome_of, known_uids, announce, deliver, scan_round, loop_next, scan_loop,
  scan_with, scan_messages, scan,
}
use skybeam_mail.Watcher.Scan.Covers.{fresh}
use skybeam_mail.Watcher.Connection.{
  met, sent_behind, next_over, loop_over, loop_result, with_over, messages_over, scan_over,
}

-- A command that asks for the whole message.
abbrev pub body_of : Message → Command
body_of m = Command.fetch_section m.uid

module _ (env : Env) (peer : Peer) (reader : List ℕ → Option (ℕ → Part)) (fuel account : ℕ) where
  next_over-sent :
      (rest : ℕ → M (Option ℕ × List Command)) (sent want : List Command)
      → ((k t : ℕ) (w : World) → (rest k w).0.0 ≡ some t → (rest k w).0.1 ≡ want)
      → (n t : ℕ) (r : Round) (w : World)
      → (next_over env peer reader fuel account rest sent n r w).0.0 ≡ some t
      → (next_over env peer reader fuel account rest sent n r w).0.1 ≡ want
  unfolding next_over
  next_over-sent rest sent want h n t Round.counted w e = h (n + 1) t w e
  next_over-sent rest sent want h n t Round.skipped w e = h n t w e
  next_over-sent rest sent want h n t Round.hung w e = cc

  behind_fresh :
      (known : List Text) (m : Message) (ms : List Message) (sent : List Command)
      → sent_behind env peer reader fuel account known m sent ++ map body_of (fresh known ms)
        ≡ sent ++ map body_of (fresh known (m ∷ ms))
  unfolding sent_behind fetch_uid_body send select
  behind_fresh known m ms sent = elim (Bool-cases (any (text_eq (headers m).uid) known)) [
    | inl old ↦ rw old refl
    | inr new ↦ rw new (append_assoc sent (body_of m ∷ []) (map body_of (fresh known ms)))
  ]

  -- A loop that ends has asked for the messages whose uid was not known, in order.
  loop_over-sent :
      (known : List Text) (ms : List Message) (sent : List Command) (n t : ℕ) (w : World)
      → (loop_over env peer reader fuel account known n ms sent w).0.0 ≡ some t
      → (loop_over env peer reader fuel account known n ms sent w).0.1
        ≡ sent ++ map body_of (fresh known ms)
  unfolding loop_over select
  loop_over-sent known [] sent n t w e = sym (append-nil sent)
  loop_over-sent known (m ∷ ms) sent n t w e =
      let after = sent_behind env peer reader fuel account known m sent in
      let out = scan_round env (met env peer reader fuel account sent) fuel account known m w in
      next_over-sent (λ k. loop_over env peer reader fuel account known k ms after) after
        (after ++ map body_of (fresh known ms)) (λ k t w e. loop_over-sent known ms after k t w e) n
        t out.0 out.1 e
      ∙ behind_fresh known m ms sent

module _ (env : Env) (peer : Peer) (reader : List ℕ → Option (ℕ → Part)) (fuel account : ℕ)
    (start : List Command)
    (steady : (sent : List Command) (uid : ℕ)
      → (fetch_uid_body peer uid sent).0 ≡ (fetch_uid_body peer uid start).0) where
  -- The loop over the connection has come as far as the other.
  abbrev Same : (Option ℕ × List Command) × World → Option ℕ × World → Type 0
  Same ((total, sent), w) (total', w') = (total ≡ total') × (w ≡ w')

  round-steady :
      (known : List Text) (m : Message) (sent : List Command) (w : World)
      → scan_round env (met env peer reader fuel account sent) fuel account known m w
        ≡ scan_round env (met env peer reader fuel account start) fuel account known m w
  unfolding scan_round deliver announce
  round-steady known m sent w = elim (Bool-cases (any (text_eq (headers m).uid) known)) [
    | inl old ↦ rw old refl
    | inr new ↦ rw (new, steady sent m.uid) refl
  ]

  next-Same :
      (rest : ℕ → M (Option ℕ × List Command)) (rest' : ℕ → M (Option ℕ)) (sent : List Command)
      → ((k : ℕ) (w : World) → Same (rest k w) (rest' k w))
      → (n : ℕ) (r : Round) (w : World)
      → Same (next_over env peer reader fuel account rest sent n r w) (loop_next rest' n r w)
  unfolding next_over loop_next
  next-Same rest rest' sent h n Round.counted w = h (n + 1) w
  next-Same rest rest' sent h n Round.skipped w = h n w
  next-Same rest rest' sent h n Round.hung w = (refl, refl)

  loop-Same :
      (known : List Text) (ms : List Message) (sent : List Command) (n : ℕ) (w : World)
      → Same
          (loop_over env peer reader fuel account known n ms sent w)
          (scan_loop env (met env peer reader fuel account start) fuel account known n ms w)
  unfolding loop_over scan_loop
  loop-Same known [] sent n w = (refl, refl)
  loop-Same known (m ∷ ms) sent n w =
      let after = sent_behind env peer reader fuel account known m sent in
      let out = scan_round env (met env peer reader fuel account start) fuel account known m w in
      rw (round-steady known m sent w) (
        next-Same (λ k. loop_over env peer reader fuel account known k ms after)
          (λ k. scan_loop env (met env peer reader fuel account start) fuel account known k ms)
          after (λ k w. loop-Same known ms after k w) n out.0 out.1)

  messages-Same :
      (listed : Option (List Message)) (sent : List Command) (w : World)
      → let out = messages_over env peer reader fuel account listed sent w in
        let plain =
          scan_messages env (met env peer reader fuel account start) fuel account listed w in
        (out.0.0 ≡ plain.0) × (out.1 ≡ plain.1)
  unfolding messages_over scan_messages with_over scan_with loop_result
  messages-Same none sent w = (refl, refl)
  messages-Same (some []) sent w = (refl, refl)
  messages-Same (some (m ∷ ms)) sent w =
      let known = query_rows env [] (known_uids account) w in
      elim (Option-cases known.0) [
        | inl none_read ↦ rw none_read (refl, refl)
        | inr (uids, read) ↦
            let (t, v) = loop-Same uids (m ∷ ms) sent 0 known.1 in rw read (ap outcome_of t, v)
      ]

  -- Where FETCH gives the same body of a message at any time, a scan over the connection ends as the
  -- scan with these bodies does, and leaves the same database.
  pub scan_over-scan :
      (w : World)
      → let out = scan_over env peer reader fuel account start w in
        let plain = scan env (met env peer reader fuel account start) fuel account w in
        (out.0.0 ≡ plain.0) × (out.1 ≡ plain.1)
  unfolding scan_over scan
  scan_over-scan w =
      let (listed, after) = fetch_all_headers peer start in messages-Same listed after w

module _ (env : Env) (peer : Peer) (reader : List ℕ → Option (ℕ → Part)) (fuel account : ℕ) where
  outcome_of-complete :
      (total : Option ℕ) (k : ℕ) → outcome_of total ≡ Outcome.complete k → total ≡ some k
  unfolding outcome_of
  outcome_of-complete none k e = cc
  outcome_of-complete (some t) k e = cc

  messages_over-sent :
      (ms : List Message) (sent : List Command) (k : ℕ) (w : World)
      → (env.tick w.calls).wire ≡ Wire.answered
      → (messages_over env peer reader fuel account (some ms) sent w).0.0 ≡ Outcome.complete k
      → (messages_over env peer reader fuel account (some ms) sent w).0.1
        ≡ sent ++ map body_of (fresh (known_uids account w.db) ms)
  unfolding messages_over with_over loop_result
  messages_over-sent [] sent k w wire e = unfold select in sym (append-nil sent)
  messages_over-sent (m ∷ ms) sent k w wire e =
      let known = known_uids account w.db in
      let read = query_rows_answered env [] (known_uids account) w wire refl in
      let total = loop_over env peer reader fuel account known 0 (m ∷ ms) sent (settle w.db w) in
      let e' : outcome_of total.0.0 ≡ Outcome.complete k = rw read at e in
      rw read (
        loop_over-sent env peer reader fuel account known (m ∷ ms) sent 0 k (settle w.db w)
          (outcome_of-complete total.0.0 k e'))

  listed_sent :
      (start : List Command)
      → (fetch_all_headers peer start).1 ≡ start ++ Command.fetch_summaries ∷ []
  unfolding fetch_all_headers send
  listed_sent start = refl

  -- A scan that returns nil, and whose SELECT of the uids is answered, has sent one FETCH for all
  -- messages, and then one for the body of each message whose uid had no row in INBOX, in the order
  -- of the messages, whatever became of its other calls of the database.
  pub scan_over-sent :
      (start : List Command) (ms : List Message) (k : ℕ) (w : World)
      → (env.tick w.calls).wire ≡ Wire.answered
      → (fetch_all_headers peer start).0 ≡ some ms
      → (scan_over env peer reader fuel account start w).0.0 ≡ Outcome.complete k
      → (scan_over env peer reader fuel account start w).0.1
        ≡ start ++ Command.fetch_summaries ∷ map body_of (fresh (known_uids account w.db) ms)
  unfolding scan_over
  scan_over-sent start ms k w wire listed e =
      let (answer, after) = fetch_all_headers peer start in
      let e' : (messages_over env peer reader fuel account (some ms) after w).0.0
          ≡ Outcome.complete k =
        rw listed at e in
      let more = map body_of (fresh (known_uids account w.db) ms) in
      rw listed (
        messages_over-sent ms after k w wire e'
        ∙ ap (λ (sent : List Command). sent ++ more) (listed_sent start)
        ∙ append_assoc start (Command.fetch_summaries ∷ []) more)
