-- ===== src/System/Delivery.antt =====
-- internal/watcher/service.go and internal/api/handlers/messages.go: a message from Dovecot's INBOX to the
-- pages of the API.
use skybeam_mail.Prelude.{◌+◌, sym, Bool, ◌&&◌, List, ◌==◌, Text, text_eq}
use skybeam_mail.Store.Rows.{Store, MessageRow}
use skybeam_mail.Store.Table.Distinct.{Distinct}
use skybeam_mail.Store.World.{World}
mod Tests

-- A row with the uid.
abbrev pub has_uid : Text → MessageRow → Bool
has_uid uid r = text_eq r.dovecot_uid uid
