-- ===== src/System/Delivery/Tests.antt =====
-- A new message of INBOX, on the first page.
use mathlib.Core.List.Permᴰ
use skybeam_mail.Prelude.{ℕ, zero, suc, some, [], ◌∷◌, codes}
use skybeam_mail.Store.Samples.{calm_env, small_world}
use skybeam_mail.Store.World.{World}
use skybeam_mail.Watcher.Mail.{Message}
use skybeam_mail.Watcher.Body.{Part}
use skybeam_mail.Watcher.Scan.{Server, scan}
use skybeam_mail.Auth.Samples.{ann}
use skybeam_mail.Store.Table.Distinct.{Distinct}
use skybeam_mail.Api.Messages.{ListQuery}

abbrev ninth : Message
ninth = record {
  uid = 9;
  flags = [];
  envelope =
      some (record { date = 7; subject = codes "Hi"; from = []; to = []; message_id = codes "m" });
  size_bytes = 20;
}

abbrev short_reader : ℕ → Part
short_reader zero = Part.inline (codes "text/plain") (codes "Hi")
short_reader (suc i) = Part.eof

abbrev new_mail : Server
new_mail = record { inbox = some (ninth ∷ []); body = λ uid. some (some short_reader) }

abbrev by_ten : ListQuery
by_ten = record { folder = []; limit = codes "10"; page = []; unread_only = [] }

abbrev scanned : World
scanned = (scan calm_env new_mail 2 ann.id small_world).1
