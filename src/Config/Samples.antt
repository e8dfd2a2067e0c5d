-- ===== src/Config/Samples.antt =====
-- A system without files, and an environment for the tests.
use skybeam_mail.Prelude.{false, none, some, codes}
use skybeam_mail.Prelude.Int.{pos}
use skybeam_mail.Config.{Environ, System}

-- No file, and every duration is 0.
abbrev pub bare : System
bare = record {
  exists = λ path. false;
  dotenv_load = λ path env. none;
  parse_duration = λ t. some (pos 0);
}

-- Every variable is 0.
abbrev pub zeros : Environ
zeros key = some (codes "0")
