-- ===== src/Watcher/Scan/Covers.antt =====
-- internal/watcher/service.go, scanNewMessages: the loop where every call is answered and PostgreSQL
-- takes the rows.
use skybeam_mail.Prelude.{
  ℕ, ◌+◌, ◌≡◌, refl, sym, ◌∙◌, ap, inl, inr, true, false, not, Option, some, List, [], ◌∷◌, ◌++◌,
  append-nil, append_assoc, arith, any, All, map, length, Text, text_eq, Bool-cases,
}
use mathlib.Core.Path.{subst}
use skybeam_mail.Events.Types.{EventType, event_name}
use skybeam_mail.Events.Writer.Calm.{HasDrawn, HasDrawn-raise, appended, appended-HasDrawn}
use skybeam_mail.Store.Rows.{Store, EventRow}
use skybeam_mail.Store.Table.{select}
use skybeam_mail.Store.World.{Env, World, IsCalm, settle}
use skybeam_mail.Watcher.Mail.{Message, headers}
use skybeam_mail.Watcher.Scan.{Server, inbox_name, loop_next, scan_loop}
use skybeam_mail.Watcher.Scan.Steps.{scan_loop-Keeps}
use skybeam_mail.Watcher.Scan.Calm.{
  IsTracked, IsTracked-Survives, IsReady, after_known, after_new, announced, scan_round_known,
  scan_round_new, with_known-IsTracked, with_new-IsTracked,
}

-- The fetched messages whose uid is not in the list.
abbrev pub fresh : List Text → List Message → List Message
fresh known = select (λ m. not (any (text_eq (headers m).uid) known))

abbrev pub IsDelivery : ℕ → EventRow → Type 0
IsDelivery account r =
    (r.account_id ≡ account)
    × (r.event_type ≡ event_name EventType.message_delivered)
    × (r.folder ≡ inbox_name)

-- What the loop over `ms` has made of the database.
pub record Finished (account : ℕ) (known : List Text) (ms : List Message) (before after : Store)
    : Type 0 where
  pub tracked : All (λ m. IsTracked account (headers m).uid after) ms
  pub more : List EventRow
  pub events : after.events ≡ before.events ++ more
  pub uids : map (λ r. r.message_uid) more ≡ map (λ m. (headers m).uid) (fresh known ms)
  pub deliveries : All (IsDelivery account) more

module _ (env : Env) (calm : IsCalm env) (server : Server) (fuel account : ℕ)
    (known : List Text) where
  -- The loop gives the count, and this database.
  abbrev pub Loops : ℕ → List Message → World → Option ℕ × World → Type 0
  Loops n ms w (r, w') =
      (r ≡ some (n + length (fresh known ms)))
      × Finished account known ms w.db w'.db
      × HasDrawn w'.db

  module _ (n : ℕ) (m : Message) (ms : List Message) (ready : IsReady env server fuel account m)
      (w : World) where
    pub loop_known :
        any (text_eq (headers m).uid) known ≡ true
        → scan_loop env server fuel account known n (m ∷ ms) w
          ≡ scan_loop env server fuel account known n ms
              (after_known env calm server fuel account m ready known w)
    unfolding scan_loop loop_next
    loop_known e = rw (scan_round_known env calm server fuel account m ready known w e)

    pub loop_new :
        any (text_eq (headers m).uid) known ≡ false
        → HasDrawn w.db
        → scan_loop env server fuel account known n (m ∷ ms) w
          ≡ scan_loop env server fuel account known (n + 1) ms (
              settle
                (appended
                  (announced env calm server fuel account m ready known w)
                  (after_new env calm server fuel account m ready known w).db)
                (after_new env calm server fuel account m ready known w))
    unfolding scan_loop loop_next
    loop_new e drawn = rw (scan_round_new env calm server fuel account m ready known w e drawn)

    -- A uid that is tracked stays so until the end of the loop.
    stays-IsTracked :
        (k : ℕ) (v : World)
        → IsTracked account (headers m).uid v.db
        → IsTracked account (headers m).uid (scan_loop env server fuel account known k ms v).1.db
    stays-IsTracked k v t =
        (scan_loop-Keeps env server fuel account _ (IsTracked-Survives env account (headers m).uid)
            known k ms).at
          v t

    Loops-known :
        any (text_eq (headers m).uid) known ≡ true
        → (out : Option ℕ × World)
        → Loops n ms (after_known env calm server fuel account m ready known w) out
        → IsTracked account (headers m).uid out.1.db
        → Loops n (m ∷ ms) w out
    unfolding select
    Loops-known e out (total, f, drawn) t = (
      rw e total,
      record {
        tracked = (t, f.tracked);
        more = f.more;
        events = f.events;
        uids = rw e f.uids;
        deliveries = f.deliveries;
      },
      drawn,
    )

    Loops-new :
        any (text_eq (headers m).uid) known ≡ false
        → (out : Option ℕ × World)
        → Loops
            (n + 1)
            ms
            (settle
              (appended
                (announced env calm server fuel account m ready known w)
                (after_new env calm server fuel account m ready known w).db)
              (after_new env calm server fuel account m ready known w))
            out
        → IsTracked account (headers m).uid out.1.db
        → Loops n (m ∷ ms) w out
    unfolding select
    Loops-new e out (total, f, drawn) t =
        let row = announced env calm server fuel account m ready known w in
        (
          rw e (total ∙ ap some (omega arith)),
          record {
            tracked = (t, f.tracked);
            more = row ∷ f.more;
            events = f.events ∙ append_assoc w.db.events (row ∷ []) f.more;
            uids = rw e (ap (λ l. (headers m).uid ∷ l) f.uids);
            deliveries = ((refl, refl, refl), f.deliveries);
          },
          drawn,
        )

  pub scan_loop_lem :
      (n : ℕ) (ms : List Message) (w : World)
      → All (IsReady env server fuel account) ms
      → HasDrawn w.db
      → Loops n ms w (scan_loop env server fuel account known n ms w)
  unfolding scan_loop select
  scan_loop_lem n [] w ready drawn = (
    ap some (omega arith),
    record {
      tracked = tt;
      more = [];
      events = sym (append-nil w.db.events);
      uids = refl;
      deliveries = tt;
    },
    drawn,
  )
  scan_loop_lem n (m ∷ ms) w (r, ready) drawn =
      elim (Bool-cases (any (text_eq (headers m).uid) known)) [
        | inl old ↦
            let v = after_known env calm server fuel account m r known w in
            subst (Loops n (m ∷ ms) w) (sym (loop_known n m ms r w old)) (
              Loops-known n m ms r w old (scan_loop env server fuel account known n ms v)
                (scan_loop_lem n ms v ready (HasDrawn-raise w.db.events w.db.next_id drawn))
                (stays-IsTracked n m ms r w n v (
                  with_known-IsTracked env account (headers m) m.size_bytes r.refreshable
                    (env.tick w.calls).now w.db)))
        | inr new ↦
            let u = after_new env calm server fuel account m r known w in
            let row = announced env calm server fuel account m r known w in
            let v = settle (appended row u.db) u in
            subst (Loops n (m ∷ ms) w) (sym (loop_new n m ms r w new drawn)) (
              Loops-new n m ms r w new (scan_loop env server fuel account known (n + 1) ms v)
                (scan_loop_lem (n + 1) ms v ready
                  (appended-HasDrawn row u.db refl (HasDrawn-raise w.db.events w.db.next_id drawn)))
                (stays-IsTracked n m ms r w (n + 1) v (
                  with_new-IsTracked env account (headers m) m.size_bytes r.body r.storable
                    (env.tick w.calls).now w.db)))
      ]
