-- ===== src/Api/EventLog/Pages.antt =====
-- internal/api/handlers/events.go, List: reading the event log page by page.
use skybeam_mail.Prelude.{
  ℕ, zero, suc, ◌≡◌, ◌<◌, refl, sym, ap, ◌∙◌, List, [], ◌∷◌, ◌++◌, ltb, Text, map, take, drop,
  length, All, arith, Bool-cases, inl, inr,
}
use mathlib.Core.Path.{subst}
use skybeam_mail.Prelude.Int.{ℤ, pos, negsuc}
use skybeam_mail.Prelude.Decimal.{atoi}
use skybeam_mail.Api.Query.{clamp_limit}
use skybeam_mail.Events.Writer.Log.{HasLog}
use skybeam_mail.Store.Rows.{EventRow}
use skybeam_mail.Store.Table.Picks.{All-select}
use skybeam_mail.Store.Table.{select}
use skybeam_mail.Store.World.{Env, World, IsCalm, settle}
use skybeam_mail.Store.World.Calm.{query-some}
use skybeam_mail.Auth.{Account}
use skybeam_mail.Api.Response.{respond, log}
use skybeam_mail.Api.EventLog.{
  is_after, select_events, next_id, last_id, without_payload, events_response, list_events,
}
use skybeam_mail.Api.EventLog.Rising.{
  IsRising, IsNumbered-IsRising, select-IsRising, order_by-IsRising, select-select, is_after-Above,
  Above-is_after, last_id-above, select-rest, take-drop, length-drop-le, map-append,
}

-- A client reads the log: it asks for the events after an id, then for those after the `next_id` of the
-- answer, and so on up to the first empty answer. The events that it gets.
pub data Reads (env : Env) (acc : Account) (limit : ℤ) : ℕ → World → List EventRow → Type 0 where
  done :
      (n : ℕ) (w : World)
      → (list_events env acc limit (pos n) w).0 ≡ respond 200 (log [] 0)
      → Reads env acc limit n w []
  more :
      (n k : ℕ) (w v : World) (r : EventRow) (rows rest : List EventRow)
      → list_events env acc limit (pos n) w ≡ (respond 200 (log (r ∷ rows) k), v)
      → Reads env acc limit k v rest
      → Reads env acc limit n w ((r ∷ rows) ++ rest)

module _ (env : Env) (calm : IsCalm env) (acc : Account) (l : ℕ) where
  -- The rows of the answer.
  abbrev after : ℕ → World → List EventRow
  after n w = select (is_after acc.id (pos n)) w.db.events

  list_events-answer :
      (n : ℕ) (w : World)
      → HasLog w.db
      → list_events env acc (pos (suc l)) (pos n) w ≡ (
        respond 200 (
            log
              (map without_payload (take (suc l) (after n w)))
              (next_id (take (suc l) (after n w)))),
        settle w.db w,
      )
  unfolding list_events events_response select_events
  list_events-answer n w h =
      let sorted = order_by-IsRising (after n w) (
        select-IsRising (is_after acc.id (pos n)) w.db.events
          (IsNumbered-IsRising w.db.next_event w.db.events h)) in
      rw (query-some env calm [] (select_events acc.id (pos n) (pos (suc l))) w refl, sorted) refl

  -- The rows after the last id of a page.
  after-page :
      (n : ℕ) (w : World) (r : EventRow) (rows : List EventRow)
      → HasLog w.db
      → after n w ≡ r ∷ rows
      → after (last_id r (take l rows)) w ≡ drop l rows
  after-page n w r rows h e =
      let k = last_id r (take l rows) in
      let rising =
        select-IsRising (is_after acc.id (pos n)) w.db.events
          (IsNumbered-IsRising w.db.next_event w.db.events h) in
      let own =
        All-select (λ s. s.account_id ≡ acc.id) (is_after acc.id (pos n)) w.db.events
          (λ s p. (is_after-Above acc.id n s p).0) in
      let above =
        All-select (λ s. n < s.id) (is_after acc.id (pos n)) w.db.events
          (λ s p. (is_after-Above acc.id n s p).1) in
      let (first, others) = subst (λ t. All (λ s. n < s.id) t) e above in
      let beyond = last_id-above acc.id n l r rows first others in
      sym (
        select-select (is_after acc.id (pos k)) (is_after acc.id (pos n)) w.db.events (λ s p.
          let (o, q) = is_after-Above acc.id k s p in Above-is_after acc.id n s o (omega arith)))
      ∙ ap (select (is_after acc.id (pos k))) e
      ∙ select-rest acc.id l r rows (subst IsRising e rising)
          (subst (λ t. All (λ s. s.account_id ≡ acc.id) t) e own)

  -- A reading from what the rows after an id are, and from the readings of fewer rows.
  read-rows :
      (f n : ℕ) (w : World) (rows : List EventRow)
      → ((k : ℕ) (v : World)
          → HasLog v.db
          → length (after k v) < f
          → Reads env acc (pos (suc l)) k v (map without_payload (after k v)))
      → HasLog w.db
      → length rows < suc f
      → after n w ≡ rows
      → Reads env acc (pos (suc l)) n w (map without_payload rows)
  unfolding next_id
  read-rows f n w [] ih h few e = Reads.done n w (
      ap (λ t. t.0) (list_events-answer n w h)
      ∙ ap
          (λ t. respond 200 (log (map without_payload (take (suc l) t)) (next_id (take (suc l) t))))
          e)
  read-rows f n w (r ∷ rows) ih h few e =
      let k = last_id r (take l rows) in
      let v = settle w.db w in
      let left = after-page n w r rows h e in
      let fewer : length (after k v) < f = rw left (omega (arith, length-drop-le l rows)) in
      let whole : map without_payload (r ∷ take l rows) ++ map without_payload (after k v)
          ≡ map without_payload (r ∷ rows) =
        sym (map-append without_payload (r ∷ take l rows) (after k v))
        ∙ ap (λ t. map without_payload ((r ∷ take l rows) ++ t)) left
        ∙ ap (λ t. map without_payload (r ∷ t)) (take-drop l rows) in
      subst (Reads env acc (pos (suc l)) n w) whole (
        Reads.more n k w v (without_payload r) (map without_payload (take l rows))
          (map without_payload (after k v))
          (list_events-answer n w h
            ∙ ap
                (λ t. (
                  respond 200
                      (log (map without_payload (take (suc l) t)) (next_id (take (suc l) t))),
                  v,
                ))
                e)
          (ih k v h fewer))

  after-Reads :
      (f n : ℕ) (w : World)
      → HasLog w.db
      → length (after n w) < f
      → Reads env acc (pos (suc l)) n w (map without_payload (after n w))
  after-Reads zero n w h few = absurd (omega arith)
  after-Reads (suc f) n w h few = read-rows f n w (after n w) (after-Reads f) h few refl

clamp_limit-suc :
    (most fallback : ℕ) (limit : ℤ)
    → (l : ℕ) × (clamp_limit most (suc fallback) limit ≡ pos (suc l))
unfolding clamp_limit
clamp_limit-suc most fallback (negsuc n) = (fallback, ground arith)
clamp_limit-suc most fallback (pos zero) = (fallback, ground arith)
clamp_limit-suc most fallback (pos (suc n)) = elim (Bool-cases (ltb most (suc n))) [
  | inl over ↦ (fallback, ground arith)
  | inr under ↦ (n, ground arith)
]

-- Where every call is answered and the sequence numbers of the log rise, a client that asks List for
-- the events after an id, then for those after the `next_id` of each answer, comes to an empty answer,
-- whatever limit it names; and it has then got the account's events after the id, each once and in the
-- order of the log.
pub list_events-Reads :
    (env : Env) (acc : Account) (limit : Text) (n : ℕ) (w : World)
    → IsCalm env
    → HasLog w.db
    → Reads env acc
        (clamp_limit 500 100 (atoi limit))
        n
        w
        (map without_payload (select (is_after acc.id (pos n)) w.db.events))
list_events-Reads env acc limit n w calm h =
    let (l, e) = clamp_limit-suc 500 99 (atoi limit) in
    rw e (
      after-Reads env calm acc l (suc (length (select (is_after acc.id (pos n)) w.db.events))) n w h
        (omega arith))
