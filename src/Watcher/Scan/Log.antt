-- ===== src/Watcher/Scan/Log.antt =====
-- internal/watcher/service.go, scanNewMessages: a scan and the event store.
use skybeam_mail.Prelude.{ℕ, ◌≡◌, some, List, arith}
use skybeam_mail.Events.Writer.Log.{
  Extends, Extends-refl, HasLog, insert_event-Extends, insert_event-HasLog,
}
use skybeam_mail.Store.Rows.{Store, EventRow}
use skybeam_mail.Store.World.{Env, World}
use skybeam_mail.Watcher.Mail.{Headers}
use skybeam_mail.Watcher.Scan.{Server, Body, upsert_known, upsert_new, scan}
use skybeam_mail.Watcher.Scan.Steps.{Survives, scan-Keeps}

module _ (env : Env) (account : ℕ) (h : Headers) (size now : ℕ) (db db' : Store) where
  pub upsert_known-events :
      upsert_known env account h size now db ≡ some db'
      → (db'.events ≡ db.events) × (db'.next_event ≡ db.next_event)
  unfolding upsert_known
  upsert_known-events e = ground arith

  pub upsert_new-events :
      (b : Body)
      → upsert_new env account h size b now db ≡ some db'
      → (db'.events ≡ db.events) × (db'.next_event ≡ db.next_event)
  unfolding upsert_new
  upsert_new-events b e = ground arith

module _ (env : Env) (account : ℕ) where
  Extends-Survives : (old : List EventRow) → Survives env account (Extends old)
  Extends-Survives old = record {
    known = λ h size now db db' (more, p) e.
        (more, ground (arith, upsert_known-events env account h size now db db' e));
    new = λ h size b now db db' (more, p) e.
        (more, ground (arith, upsert_new-events env account h size now db db' b e));
    event = λ e _. insert_event-Extends old env e;
  }

  HasLog-Survives : Survives env account HasLog
  HasLog-Survives = record {
    known = λ h size now db db' p e.
        let (same, next) = upsert_known-events env account h size now db db' e in rw (same, next) p;
    new = λ h size b now db db' p e.
        let (same, next) = upsert_new-events env account h size now db db' b e in rw (same, next) p;
    event = λ e _. insert_event-HasLog env e;
  }

-- A scan only appends to the event store, and the sequence numbers of the events go on rising,
-- whatever becomes of its calls.
pub scan-appends :
    (env : Env) (server : Server) (fuel account : ℕ) (w : World)
    → HasLog w.db
    → Extends w.db.events (scan env server fuel account w).1.db
      × HasLog (scan env server fuel account w).1.db
scan-appends env server fuel account w h = (
  (scan-Keeps env server fuel account (Extends w.db.events)
        (Extends-Survives env account w.db.events)).at
      w (Extends-refl w.db),
  (scan-Keeps env server fuel account HasLog (HasLog-Survives env account)).at w h,
)
