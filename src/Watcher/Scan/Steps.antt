-- ===== src/Watcher/Scan/Steps.antt =====
-- internal/watcher/service.go, scanNewMessages: its invariants, from those of its statements.
use skybeam_mail.Prelude.{
  ℕ, ◌+◌, ◌≡◌, Bool, true, false, Option, none, some, List, [], ◌∷◌, any, Text, text_eq,
}
use skybeam_mail.Events.Types.{EventType}
use skybeam_mail.Events.Writer.{Event, insert_event}
use skybeam_mail.Events.Writer.Log.{Keeps-emit_with}
use skybeam_mail.Store.Rows.{Store}
use skybeam_mail.Store.World.{Env, M}
use skybeam_mail.Store.World.Keeps.{Keeps, Keeps-pure, Keeps-bind, Keeps-exec, Keeps-query_rows}
use skybeam_mail.Watcher.Mail.{Message, Headers, headers}
use skybeam_mail.Watcher.Scan.{
  Server, Body, Round, Outcome, outcome_of, inbox_name, delivery, upsert_known, upsert_new,
  fetch_body, announce, deliver, round_by, scan_round, loop_next, scan_loop, scan_with,
  scan_messages, scan, known_uids,
}

-- What an invariant of the scan has to survive.
pub record Survives (env : Env) (account : ℕ) (P : Store → Type 0) : Type 0 where
  pub known :
      (h : Headers) (size now : ℕ) (db db' : Store)
      → P db
      → upsert_known env account h size now db ≡ some db'
      → P db'
  pub new :
      (h : Headers) (size : ℕ) (b : Body) (now : ℕ) (db db' : Store)
      → P db
      → upsert_new env account h size b now db ≡ some db'
      → P db'
  pub event :
      (e : Event)
      → e.event_id ≡ 0
      → (now : ℕ) (db db' : Store) → P db
      → insert_event env e now db ≡ some db'
      → P db'

loop_next-Keeps :
    (P : Store → Type 0) (rest : ℕ → M (Option ℕ))
    → ((k : ℕ) → Keeps P (rest k))
    → (n : ℕ) (r : Round) → Keeps P (loop_next rest n r)
unfolding loop_next
loop_next-Keeps P rest h n Round.counted = h (n + 1)
loop_next-Keeps P rest h n Round.skipped = h n
loop_next-Keeps P rest h n Round.hung = Keeps-pure P none

module _ (env : Env) (server : Server) (fuel account : ℕ) (P : Store → Type 0)
    (s : Survives env account P) where
  announce-Keeps :
      (h : Headers) (b : Body) (failed : Bool)
      → Keeps P (announce env server fuel account h b failed)
  unfolding announce
  announce-Keeps h b true = Keeps-pure P Round.skipped
  announce-Keeps h b false =
      Keeps-bind P _ _
        (Keeps-emit_with P env s.event account EventType.message_delivered h.uid inbox_name
          (delivery h b))
        λ _. Keeps-pure P Round.counted

  deliver-Keeps :
      (h : Headers) (size : ℕ) (b : Option Body)
      → Keeps P (deliver env server fuel account h size b)
  unfolding deliver
  deliver-Keeps h size none = Keeps-pure P Round.hung
  deliver-Keeps h size (some b) =
      Keeps-bind P _ _ (Keeps-exec P env (upsert_new env account h size b) (s.new h size b))
        (announce-Keeps h b)

  round_by-Keeps : (k : Bool) (m : Message) → Keeps P (round_by env server fuel account k m)
  unfolding round_by
  round_by-Keeps true m =
      Keeps-bind P _ _
        (Keeps-exec P env (upsert_known env account (headers m) m.size_bytes)
          (s.known (headers m) m.size_bytes))
        λ _. Keeps-pure P Round.skipped
  round_by-Keeps false m =
      deliver-Keeps (headers m) m.size_bytes (fetch_body fuel (server.body m.uid))

  pub scan_round-Keeps :
      (known : List Text) (m : Message) → Keeps P (scan_round env server fuel account known m)
  unfolding scan_round
  scan_round-Keeps known m = round_by-Keeps (any (text_eq (headers m).uid) known) m

  pub scan_loop-Keeps :
      (known : List Text) (n : ℕ) (ms : List Message)
      → Keeps P (scan_loop env server fuel account known n ms)
  unfolding scan_loop
  scan_loop-Keeps known n [] = Keeps-pure P (some n)
  scan_loop-Keeps known n (m ∷ ms) = Keeps-bind P _ _ (scan_round-Keeps known m) (
      loop_next-Keeps P (λ k. scan_loop env server fuel account known k ms)
        (λ k. scan_loop-Keeps known k ms) n)

  scan_with-Keeps :
      (ms : List Message) (known : Option (List Text))
      → Keeps P (scan_with env server fuel account ms known)
  unfolding scan_with
  scan_with-Keeps ms none = Keeps-pure P Outcome.broken
  scan_with-Keeps ms (some known) =
      Keeps-bind P _ _ (scan_loop-Keeps known 0 ms) λ total. Keeps-pure P (outcome_of total)

  scan_messages-Keeps :
      (ms : Option (List Message)) → Keeps P (scan_messages env server fuel account ms)
  unfolding scan_messages
  scan_messages-Keeps none = Keeps-pure P Outcome.broken
  scan_messages-Keeps (some []) = Keeps-pure P (Outcome.complete 0)
  scan_messages-Keeps (some (m ∷ ms)) =
      Keeps-bind P _ _ (Keeps-query_rows P env [] (known_uids account)) (scan_with-Keeps (m ∷ ms))

  pub scan-Keeps : Keeps P (scan env server fuel account)
  unfolding scan
  scan-Keeps = scan_messages-Keeps server.inbox
