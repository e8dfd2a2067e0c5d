-- ===== src/Watcher/Run/Active.antt =====
-- internal/watcher/service.go, Run and listAccounts: which accounts of the database are watched.
use mathlib.Core.Path.{subst}
use skybeam_mail.Prelude.{
  ℕ, ◌≡◌, refl, sym, ap, ◌∙◌, Bool, true, false, ◌&&◌, ◌==◌, ==_iff, Option, none, some, List, [],
  ◌∷◌, ◌++◌, any, all, map, All, Bool-cases, inl, inr, arith,
}
use skybeam_mail.Store.Rows.{AccountRow}
use skybeam_mail.Store.Table.{select}
use skybeam_mail.Store.World.{Env, World, Wire}
use skybeam_mail.Store.World.Calm.{query_answered}
use skybeam_mail.Watcher.Run.{
  AccountInfo, Watchers, watch_one, watch_all, refresh, run_loop, run, info_of, infos,
  list_accounts, Moment, signal_of, run_at,
}
use skybeam_mail.Watcher.Run.Once.{
  IsWatched, watch_all-adds, run_loop-keeps, IsDistinct, run-IsOnce,
}

-- The database has the account, and it is active.
abbrev pub is_active_id : ℕ → AccountRow → Bool
is_active_id k a = a.id == k && a.is_active

abbrev pub is_tick : Moment → Bool
is_tick (Moment.ticked w) = true
is_tick Moment.stopped = false

-- A key of the goroutines of a list.
All-named :
    (w : Watchers) (rows : List AccountRow) (k : ℕ)
    → any (is_active_id k) rows ≡ true
    → All (λ (a : AccountInfo). IsWatched w a.id) (map info_of (select (λ a. a.is_active) rows))
    → IsWatched w k
unfolding select info_of
All-named w [] k e h = cc
All-named w (a ∷ rows) k e h = elim (Bool-cases a.is_active) [
  | inl active ↦
      let (first, rest) = rw active at h in
      elim (Bool-cases (a.id == k)) [
        | inl same ↦ rw (← (==_iff a.id k).0 same) first
        | inr other ↦ All-named w rows k (rw other at e) rest
      ]
  | inr inactive ↦ All-named w rows k (ground arith) (rw inactive at h)
]

-- A refresh that is answered leaves every active account watched.
refresh-watches :
    (env : Env) (v : Watchers) (w : World) (k : ℕ)
    → (env.tick w.calls).wire ≡ Wire.answered
    → any (is_active_id k) w.db.accounts ≡ true
    → IsWatched (refresh v (list_accounts env w).0) k
unfolding refresh list_accounts infos
refresh-watches env v w k wire there =
    let asked = query_answered env [] (λ db. select (λ a. a.is_active) db.accounts) w wire refl in
    let found = map info_of (select (λ a. a.is_active) w.db.accounts) in
    rw asked (All-named (watch_all v found) w.db.accounts k there (watch_all-adds v found))

watch_all-cancelled :
    (v : Watchers) (accounts : List AccountInfo) → (watch_all v accounts).cancelled ≡ v.cancelled
unfolding watch_all watch_one
watch_all-cancelled v [] = refl
watch_all-cancelled v (acc ∷ accounts) =
    watch_all-cancelled (watch_one v acc) accounts ∙ ground arith

refresh-cancelled :
    (v : Watchers) (listed : Option (List AccountInfo)) → (refresh v listed).cancelled ≡ v.cancelled
unfolding refresh
refresh-cancelled v none = refl
refresh-cancelled v (some accounts) = watch_all-cancelled v accounts

all-append :
    (before : List Moment) (w : World) (after : List Moment)
    → all is_tick before ≡ true
    → all is_tick after ≡ true
    → all is_tick (before ++ Moment.ticked w ∷ after) ≡ true
all-append [] w after p q = q
all-append (m ∷ before) w after p q = ground (arith, all-append before w after)

-- Before the context is done nothing is cancelled.
run_loop-running :
    (env : Env) (v : Watchers) (moments : List Moment)
    → v.cancelled ≡ []
    → all is_tick moments ≡ true
    → (run_loop v (map (signal_of env) moments)).cancelled ≡ []
unfolding run_loop signal_of
run_loop-running env v [] h t = h
run_loop-running env v (Moment.stopped ∷ moments) h t = cc
run_loop-running env v (Moment.ticked w ∷ moments) h t =
    run_loop-running env (refresh v (list_accounts env w).0) moments
      (refresh-cancelled v (list_accounts env w).0 ∙ h) (ground arith)

-- The refreshes before a moment.
run_loop-later :
    (env : Env) (v : Watchers) (before after : List Moment) (w : World) (k : ℕ)
    → (env.tick w.calls).wire ≡ Wire.answered
    → any (is_active_id k) w.db.accounts ≡ true
    → all is_tick before ≡ true
    → IsWatched (run_loop v (map (signal_of env) (before ++ Moment.ticked w ∷ after))) k
unfolding run_loop signal_of
run_loop-later env v [] after w k wire there t =
    run_loop-keeps (refresh v (list_accounts env w).0) (map (signal_of env) after) k
      (refresh-watches env v w k wire there)
run_loop-later env v (Moment.stopped ∷ before) after w k wire there t = cc
run_loop-later env v (Moment.ticked u ∷ before) after w k wire there t =
    run_loop-later env (refresh v (list_accounts env u).0) before after w k wire there
      (ground arith)

-- Before any refresh.
abbrev idle : Watchers
idle = record { watching = []; started = []; cancelled = [] }

-- The goroutines are those of the keys.
any-started :
    (accounts : List AccountInfo) (ks : List ℕ) (k : ℕ)
    → map (λ (a : AccountInfo). a.id) accounts ≡ ks
    → any (λ j. j == k) ks ≡ true
    → any (λ (a : AccountInfo). a.id == k) accounts ≡ true
any-started accounts ks k e h = any-map accounts k ∙ rw e h
  where
    any-map :
        (accounts : List AccountInfo) (k : ℕ)
        → any (λ (a : AccountInfo). a.id == k) accounts
          ≡ any (λ j. j == k) (map (λ (a : AccountInfo). a.id) accounts)
    any-map [] k = refl
    any-map (a ∷ accounts) k = rw (any-map accounts k) refl

-- Run takes the first refresh like those of the ticker. An account that is active at one of them,
-- whose query is answered, has a goroutine from then on, and no account has two; none is cancelled
-- until the context is done, whatever becomes of the accounts: also when later refreshes find the
-- account inactive.
pub run_at-watches :
    (env : Env) (start w : World) (moments before after : List Moment) (k : ℕ)
    → Moment.ticked start ∷ moments ≡ before ++ Moment.ticked w ∷ after
    → (env.tick w.calls).wire ≡ Wire.answered
    → any (is_active_id k) w.db.accounts ≡ true
    → all is_tick before ≡ true
    → all is_tick after ≡ true
    → let out = run_at env start moments in
      (any (λ (a : AccountInfo). a.id == k) out.started ≡ true)
      × IsDistinct (map (λ (a : AccountInfo). a.id) out.started)
      × (out.cancelled ≡ [])
unfolding run_at run
run_at-watches env start w moments before after k e wire there p q =
    let once = run-IsOnce (list_accounts env start).0 (map (signal_of env) moments) in
    let whole = λ (ms : List Moment). run_loop idle (map (signal_of env) ms) in
    let same : whole (Moment.ticked start ∷ moments)
        ≡ run_loop (refresh idle (list_accounts env start).0) (map (signal_of env) moments) =
      unfold run_loop signal_of in refl in
    let key = run_loop-later env idle before after w k wire there p in
    let running =
      run_loop-running env idle (before ++ Moment.ticked w ∷ after) refl
        (all-append before w after p q) in
    let found =
      subst (λ (u : Watchers). IsWatched u k × (u.cancelled ≡ [])) (ap whole (sym e) ∙ same)
        (key, running) in
    (any-started _ _ k once.same found.0, rw once.same once.distinct, found.1)
