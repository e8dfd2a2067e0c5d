-- ===== src/Watcher/Tests.antt =====
-- Runs of the watcher on small inputs.
use skybeam_mail.Prelude.{
  ℕ, zero, suc, ◌≡◌, refl, arith, true, false, none, some, [], ◌∷◌, ◌++◌, length, Text, codes,
  text_eq, byte_length, trim_space, is_space, trim_left,
}
use skybeam_mail.Store.Samples.{calm_env, strict_env, small_world}
use skybeam_mail.Store.Table.{select}
use skybeam_mail.Watcher.Mail.{Message, Flag}
use skybeam_mail.Watcher.Jsonb.{to_jsonb}
use skybeam_mail.Watcher.Jsonb.Laws.{to_jsonb-forged}
use skybeam_mail.Watcher.Snippet.{snippet, clean_text, join, join_rest, fields_from, unbroken}
use skybeam_mail.Watcher.Snippet.Laws.{HasNoSpace, clean_text-join}
use skybeam_mail.Watcher.Snippet.Cut.{IsUtf8, snippet-cut}
use skybeam_mail.Watcher.Body.{Part, extract_body, read_parts, add_if}
use skybeam_mail.Watcher.Body.Laws.{parts_of, extract_body-Gives, extract_body-endless}
use skybeam_mail.Watcher.Scan.{Server, Outcome, body_of, inbox_row, fetch_body, scan}
use skybeam_mail.Watcher.Mail.{headers}
use skybeam_mail.Prelude.Decimal.{itoa}
use skybeam_mail.Watcher.Scan.Keys.{IsUnique, not_of, scan-isolated}
use skybeam_mail.Watcher.Scan.Calm.{IsReady}
use skybeam_mail.Watcher.Scan.Delivers.{Scans, scan_delivers, scan_again}
use skybeam_mail.Watcher.Watch.{Session, idle_loop, watch_account, first_backoff}
use skybeam_mail.Watcher.Watch.Backoff.{StaysDone, schedule, watch_account-schedule}
use skybeam_mail.Watcher.Run.{AccountInfo}

to_jsonb-forged_example :
    to_jsonb ((codes "a" ++ codes "\",\"" ++ codes "b") ∷ [])
    ≡ to_jsonb (codes "a" ∷ codes "b" ∷ [])
to_jsonb-forged_example = to_jsonb-forged (codes "a") (codes "b") []

-- A reader that gives one text/plain part.
abbrev hello_reader : ℕ → Part
hello_reader zero = Part.inline (codes "text/plain") (codes "Hi")
hello_reader (suc i) = Part.eof

extract_body-Gives_example :
    extract_body 2 (some hello_reader)
    ≡ some (
      trim_space
          (parts_of (codes "text/plain") (Part.inline (codes "text/plain") (codes "Hi") ∷ [])),
      trim_space
          (parts_of (codes "text/html") (Part.inline (codes "text/plain") (codes "Hi") ∷ [])),
    )
extract_body-Gives_example =
    extract_body-Gives 2 hello_reader (Part.inline (codes "text/plain") (codes "Hi") ∷ [])
      (refl, λ e. cc, refl) (omega arith)

extract_body-endless_example : extract_body 9 (some (λ i. Part.failed)) ≡ none
extract_body-endless_example = extract_body-endless 9 (λ i. Part.failed) (λ j e. cc)

abbrev hello_message : Message
hello_message = record { uid = 7; flags = Flag.seen ∷ []; envelope = none; size_bytes = 20 }

abbrev hello_server : Server
hello_server = record { inbox = some (hello_message ∷ []); body = λ uid. some (some hello_reader) }

hello_IsReady : IsReady strict_env hello_server 2 1 hello_message
unfolding fetch_body extract_body read_parts add_if text_eq body_of trim_space trim_left is_space
    snippet clean_text join join_rest inbox_row headers itoa fields_from unbroken
hello_IsReady = record {
  body = body_of (trim_space (codes "Hi"), trim_space []);
  readable = refl;
  refreshable = refl;
  storable = refl;
  announceable = refl;
}

scan_delivers_example :
    Scans 1 (hello_message ∷ []) small_world (scan strict_env hello_server 2 1 small_world)
scan_delivers_example =
    scan_delivers strict_env (λ n. refl) hello_server 2 1 (hello_message ∷ []) small_world refl
      (hello_IsReady, tt) (omega arith, tt)

scan_again_example :
    let v = (scan strict_env hello_server 2 1 small_world).1 in
    ((scan strict_env hello_server 2 1 v).0 ≡ Outcome.complete 0)
    × ((scan strict_env hello_server 2 1 v).1.db.events ≡ v.db.events)
scan_again_example =
    scan_again strict_env (λ n. refl) hello_server 2 1 (hello_message ∷ []) small_world refl
      (hello_IsReady, tt) (omega arith, tt)

small_IsUnique : IsUnique small_world.db.messages
small_IsUnique = (refl, (refl, tt))

scan-isolated_example :
    IsUnique (scan calm_env hello_server 2 1 small_world).1.db.messages
    × (select (not_of 1) (scan calm_env hello_server 2 1 small_world).1.db.messages
        ≡ select (not_of 1) small_world.db.messages)
scan-isolated_example = scan-isolated calm_env hello_server 2 1 small_world small_IsUnique

-- A session whose dial fails.
abbrev no_dial : Session
no_dial = record {
  done = false;
  dial_fails = true;
  login_fails = false;
  select_fails = false;
  beats = [];
  wait_cancelled = false;
}

no_dial-StaysDone : StaysDone (no_dial ∷ no_dial ∷ [])
unfolding idle_loop
no_dial-StaysDone = ((λ e. cc), tt)

watch_account-schedule_example :
    watch_account (no_dial ∷ no_dial ∷ [])
    ≡ schedule first_backoff (length (watch_account (no_dial ∷ no_dial ∷ [])))
watch_account-schedule_example = watch_account-schedule (no_dial ∷ no_dial ∷ []) no_dial-StaysDone

abbrev ann_info : AccountInfo
ann_info = record { id = 1; email = codes "ann"; dovecot_user = codes "ann" }

-- This many letters a.
abbrev letters : ℕ → Text
letters zero = []
letters (suc n) = b'a' ∷ letters n

accented-HasNoSpace : (n : ℕ) → HasNoSpace (letters n ++ 0xe9 ∷ [])
unfolding is_space
accented-HasNoSpace zero = (refl, tt)
accented-HasNoSpace (suc n) = (refl, accented-HasNoSpace n)

-- 199 letters and a character of two bytes.
accented_clean : clean_text (letters 199 ++ 0xe9 ∷ []) ≡ letters 199 ++ 0xe9 ∷ []
unfolding join join_rest
accented_clean = clean_text-join ((letters 199 ++ 0xe9 ∷ []) ∷ []) (accented-HasNoSpace 199, tt)

letters-byte_length : (n : ℕ) → byte_length (letters n) ≡ n
letters-byte_length zero = refl
letters-byte_length (suc n) = omega (arith, letters-byte_length n)

snippet-cut_example : ¬ IsUtf8 (snippet (letters 199 ++ 0xe9 ∷ []))
snippet-cut_example =
    snippet-cut (letters 199 ++ 0xe9 ∷ []) (letters 199) 0xe9 [] accented_clean
      (omega (arith, letters-byte_length 199)) (omega (arith, letters-byte_length 199))
