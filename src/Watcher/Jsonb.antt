-- ===== src/Watcher/Jsonb.antt =====
-- internal/watcher/service.go, toJSONB.
pub mod Laws
use skybeam_mail.Prelude.{List, [], ◌∷◌, ◌++◌, Text, codes}

-- `"` round a string, with nothing escaped.
abbrev pub quoted : Text → Text
quoted s = b'"' ∷ s ++ b'"' ∷ []

-- The rounds of the loop after the first.
unfoldable pub jsonb_rest : List Text → Text
jsonb_rest [] = b']' ∷ []
jsonb_rest (s ∷ ss) = b',' ∷ quoted s ++ jsonb_rest ss

unfoldable pub to_jsonb : List Text → Text
unfolding jsonb_rest
to_jsonb [] = codes "[]"
to_jsonb (s ∷ ss) = b'[' ∷ quoted s ++ jsonb_rest ss
