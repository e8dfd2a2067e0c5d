-- ===== src/Watcher/Body.antt =====
-- internal/watcher/service.go, extractBody. The reader of go-message is outside the code: it is the
-- stream of the results that its calls of NextPart give, whatever they are.
pub mod Laws
use skybeam_mail.Prelude.{
  ℕ, zero, suc, ◌+◌, Option, none, some, [], ◌++◌, if◌then◌else◌, Text, codes, text_eq, trim_space,
}

-- A result of NextPart: `io.EOF`, another error, an inline part with its content type and what
-- ReadAll gets of it, or an attachment.
pub data Part : Type 0 where
  eof failed attachment : Part
  inline : Text → Text → Part

-- `body += string(b)` where the content type asks for it.
unfoldable pub add_if : Text → Text → Text → Text → Text
add_if wanted kind b body = if text_eq kind wanted then body ++ b else body

-- The loop: `i` calls are made, and none stands for a loop that has not ended within the fuel. An
-- error that is not `io.EOF` goes on with the loop.
unfoldable pub read_parts : ℕ → (ℕ → Part) → ℕ → Text → Text → Option (Text × Text)
unfolding add_if
read_parts zero next i text html = none
read_parts (suc f) next i text html = elim (next i) [
  | Part.eof ↦ some (trim_space text, trim_space html)
  | Part.failed ↦ read_parts f next (i + 1) text html
  | Part.attachment ↦ read_parts f next (i + 1) text html
  | Part.inline kind b ↦
      read_parts f next (i + 1) (add_if (codes "text/plain") kind b text)
        (if text_eq kind (codes "text/plain") then html else add_if (codes "text/html") kind b html)
]

-- `extractBody`; none for the argument is an error of CreateReader.
unfoldable pub extract_body : ℕ → Option (ℕ → Part) → Option (Text × Text)
extract_body fuel none = some ([], [])
extract_body fuel (some next) = read_parts fuel next 0 [] []
