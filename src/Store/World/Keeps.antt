-- ===== src/Store/World/Keeps.antt =====
-- Invariants of code that calls the database, whatever becomes of its calls.
use skybeam_mail.Prelude.{
  ℕ, ◌≡◌, refl, Bool, true, false, Option, none, some, List, Text, all, if◌then◌else◌,
}
use skybeam_mail.Store.Rows.{Store}
use skybeam_mail.Store.World.{
  Wire, Env, World, M, pure, ◌>>=◌, ◌>>◌, exec, query, time_now, exec_on, query_on, query_rows,
  query_rows_on,
}

-- The action leaves a property of the database standing.
pub record Keeps {A : Type 0} (P : Store → Type 0) (m : M A) : Type 0 where
  pub at : (w : World) → P w.db → P (m w).1.db

module _ (P : Store → Type 0) where
  pub Keeps-pure : {A : Type 0} (a : A) → Keeps P (pure a)
  Keeps-pure a = record { at = λ w h. h }

  pub Keeps-bind :
      {A B : Type 0} (m : M A) (f : A → M B)
      → Keeps P m
      → ((a : A) → Keeps P (f a))
      → Keeps P (m >>= f)
  Keeps-bind m f k l = record { at = λ w h. (l (m w).0).at (m w).1 (k.at w h) }

  pub Keeps-then : {A B : Type 0} (m : M A) (n : M B) → Keeps P m → Keeps P n → Keeps P (m >> n)
  Keeps-then m n k l = Keeps-bind m (λ _. n) k (λ _. l)

  pub Keeps-if :
      {A : Type 0} (b : Bool) (m n : M A) → Keeps P m → Keeps P n → Keeps P (if b then m else n)
  Keeps-if true m n k l = k
  Keeps-if false m n k l = l

  exec_on-keeps :
      (wire : Wire) (after : Option Store) (w : World)
      → P w.db
      → ((db : Store) → after ≡ some db → P db)
      → P (exec_on wire after w).1.db
  exec_on-keeps Wire.answered none w h k = h
  exec_on-keeps Wire.answered (some db) w h k = k db refl
  exec_on-keeps Wire.dropped after w h k = h
  exec_on-keeps Wire.unanswered none w h k = h
  exec_on-keeps Wire.unanswered (some db) w h k = k db refl

  pub Keeps-exec :
      (env : Env) (statement : ℕ → Store → Option Store)
      → ((now : ℕ) (db db' : Store) → P db → statement now db ≡ some db' → P db')
      → Keeps P (exec env statement)
  unfolding exec
  Keeps-exec env statement k = record {
    at = λ w h.
        let t = env.tick w.calls in
        exec_on-keeps t.wire (statement t.now w.db) w h (λ db' e. k t.now w.db db' h e);
  }

  query_on-keeps :
      {A : Type 0} (wire : Wire) (fits : Bool) (a : A) (w : World)
      → P w.db
      → P (query_on wire fits a w).1.db
  query_on-keeps Wire.answered true a w h = h
  query_on-keeps Wire.answered false a w h = h
  query_on-keeps Wire.dropped fits a w h = h
  query_on-keeps Wire.unanswered fits a w h = h

  pub Keeps-query :
      {A : Type 0} (env : Env) (params : List Text) (read : Store → A)
      → Keeps P (query env params read)
  unfolding query
  Keeps-query env params read = record {
    at = λ w h. query_on-keeps (env.tick w.calls).wire (all env.text_ok params) (read w.db) w h;
  }

  query_rows_on-keeps :
      {A : Type 0} (wire : Wire) (read : Option ℕ) (fits : Bool) (rows : List A) (w : World)
      → P w.db
      → P (query_rows_on wire read fits rows w).1.db
  query_rows_on-keeps Wire.answered read true rows w h = h
  query_rows_on-keeps Wire.answered read false rows w h = h
  query_rows_on-keeps Wire.dropped read fits rows w h = h
  query_rows_on-keeps Wire.unanswered none fits rows w h = h
  query_rows_on-keeps Wire.unanswered (some n) false rows w h = h
  query_rows_on-keeps Wire.unanswered (some n) true rows w h = h

  pub Keeps-query_rows :
      {A : Type 0} (env : Env) (params : List Text) (read : Store → List A)
      → Keeps P (query_rows env params read)
  unfolding query_rows
  Keeps-query_rows env params read = record {
    at = λ w h.
        let t = env.tick w.calls in
        query_rows_on-keeps t.wire t.read (all env.text_ok params) (read w.db) w h;
  }

  pub Keeps-time_now : (env : Env) → Keeps P (time_now env)
  unfolding time_now
  Keeps-time_now env = record { at = λ w h. h }
