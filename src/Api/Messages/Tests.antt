-- ===== src/Api/Messages/Tests.antt =====
-- A message that is deleted and comes back.
use mathlib.Core.List.{Permᴰ}
use mathlib.Core.List.Permᴰ
use skybeam_mail.Api.Messages.{ListQuery}
use skybeam_mail.Auth.{account_of}
use skybeam_mail.Store.Rows.{EventRow}
use skybeam_mail.Store.Table.Distinct.{Distinct}
use skybeam_mail.Prelude.{
  ℕ, zero, suc, ◌≡◌, refl, true, false, List, All, none, some, [], ◌∷◌, ◌++◌, any, arith, codes,
  text_eq, trim_space,
}
use skybeam_mail.Prelude.Decimal.{itoa}
use skybeam_mail.Events.Writer.{event_row, insert_event, stamped, emit, event_with, emit_with}
use skybeam_mail.Events.Writer.Calm.{HasDrawn}
use skybeam_mail.Store.Samples.{calm_env, small_world, inbox_message}
use skybeam_mail.Store.Table.{find, update}
use skybeam_mail.Store.World.{query, exec, time_now}
use skybeam_mail.Watcher.Mail.{Message, headers}
use skybeam_mail.Watcher.Body.{Part, extract_body, read_parts, add_if}
use skybeam_mail.Watcher.Scan.{Server, body_of, fetch_body, scan}
use skybeam_mail.Watcher.Scan.Covers.{IsDelivery}
use skybeam_mail.Watcher.Scan.Calm.{IsReady, IsTracked}
use skybeam_mail.Auth.{account_of}
use skybeam_mail.Auth.Samples.{ann}
use skybeam_mail.Api.Response.{no_content}
use skybeam_mail.Api.Messages.{
  is_own, trash_conflict, move_to_trash, apply_delete, with_current, handle_delete,
}
use skybeam_mail.Api.Messages.Trash.{handle_delete-returns}

abbrev eighth : Message
eighth = record { uid = 8; flags = []; envelope = none; size_bytes = 20 }

abbrev note_reader : ℕ → Part
note_reader zero = Part.inline (codes "text/plain") (codes "Hi")
note_reader (suc i) = Part.eof

abbrev one_message : Server
one_message = record { inbox = some (eighth ∷ []); body = λ uid. some (some note_reader) }

eighth-IsReady : IsReady calm_env one_message 2 ann.id eighth
unfolding fetch_body extract_body read_parts add_if text_eq
eighth-IsReady = record {
  body = body_of (trim_space (codes "Hi"), trim_space []);
  readable = refl;
  refreshable = refl;
  storable = refl;
  announceable = refl;
}

eighth_found : find (is_own 10 ann.id) small_world.db.messages ≡ some (inbox_message 10 1 b'8')
unfolding find account_of
eighth_found = refl

eighth_free : trash_conflict 10 small_world.db.messages ≡ false
unfolding trash_conflict text_eq
eighth_free = refl

soft : text_eq [] (codes "true") ≡ false
unfolding text_eq
soft = refl

deleted-HasDrawn : HasDrawn (handle_delete calm_env ann (some 10) [] small_world).1.db
unfolding handle_delete with_current apply_delete move_to_trash trash_conflict query exec time_now
    find update text_eq account_of event_row insert_event stamped emit event_with emit_with
deleted-HasDrawn = (omega arith, (omega arith, tt))

eighth_there : any (λ m. text_eq (headers m).uid (codes "8")) (eighth ∷ []) ≡ true
unfolding text_eq headers itoa
eighth_there = refl

handle_delete-returns_example :
    let v = (handle_delete calm_env ann (some 10) [] small_world).1 in
    let out = (scan calm_env one_message 2 ann.id v).1.db in
    (more : List EventRow) × ((handle_delete calm_env ann (some 10) [] small_world).0 ≡ no_content)
    × (out.events ≡ v.db.events ++ more)
    × All (IsDelivery ann.id) more
    × (any (λ e. text_eq e.message_uid (codes "8")) more ≡ true)
    × IsTracked ann.id (codes "8") out
handle_delete-returns_example =
    handle_delete-returns calm_env (λ n. refl) ann 10 [] small_world one_message 2 (eighth ∷ [])
      (inbox_message 10 1 b'8') soft (refl, (refl, tt)) eighth_found refl eighth_free refl
      eighth_there (eighth-IsReady, tt) deleted-HasDrawn

-- Ann's INBOX, one message on a page.
abbrev by_one : ListQuery
by_one = record { folder = []; limit = codes "1"; page = []; unread_only = [] }
